-- ===== src/Jwt/Transform.antt =====
-- What a path of keys and positions leads to, in a payload and in its transformation.
use my_web_socket.Prelude.{
  ℕ, zero, suc, ◌≡◌, refl, subst, inl, inr, Option, none, some, Option-cases, or_else, List, [],
  ◌∷◌, get_elem?, text_eq, lookup, assign, lookup-assign, if◌then◌else◌, arith,
}
use my_web_socket.Jwt.{
  LeptValue, array, object, Elements, no_elements, element, Members, no_members, member, Picojson,
  transform, transform_elements, transform_members,
}

pub data Place : Type 0 where
  at_index : ℕ → Place
  at_key : List ℕ → Place

module _ {Double : Type 0} where
  unfoldable pub get_element : Elements Double → ℕ → Option (LeptValue Double)
  get_element no_elements i = none
  get_element (element x xs) zero = some x
  get_element (element x xs) (suc i) = get_element xs i

  -- A map has a key at most once; of members with one key this takes the last.
  unfoldable pub get_member : Members Double → List ℕ → Option (LeptValue Double)
  get_member no_members k = none
  get_member (member j x ms) k =
      let rest = get_member ms k in if text_eq j k then or_else rest (some x) else rest

  unfoldable pub child : LeptValue Double → Place → Option (LeptValue Double)
  unfolding get_element get_member
  child (array xs) (at_index i) = get_element xs i
  child (object ms) (at_key k) = get_member ms k
  child _ _ = none

  unfoldable pub select : LeptValue Double → List Place → Option (LeptValue Double)
  unfolding child
  select v [] = some v
  select v (p ∷ ps) = elim (child v p) [ none ↦ none | some w ↦ select w ps ]

  module _ (pj : Picojson Double) where
    -- `get<picojson::array>` and `get<picojson::object>`.
    pub record Accessors : Type 0 where
      pub as_array : pj.Value → Option (List pj.Value)
      pub as_object : pj.Value → Option (List (List ℕ × pj.Value))
      pub as_array-of_array : (xs : List pj.Value) → as_array (pj.of_array xs) ≡ some xs
      pub as_object-of_object : (m : List (List ℕ × pj.Value)) → as_object (pj.of_object m) ≡ some m

    module _ (get : Accessors) where
      unfoldable pub child_value : pj.Value → Place → Option pj.Value
      child_value w (at_index i) = elim (get.as_array w) [ none ↦ none | some xs ↦ get_elem? xs i ]
      child_value w (at_key k) = elim (get.as_object w) [ none ↦ none | some m ↦ lookup k m ]

      unfoldable pub select_value : pj.Value → List Place → Option pj.Value
      unfolding child_value
      select_value w [] = some w
      select_value w (p ∷ ps) = elim (child_value w p) [ none ↦ none | some x ↦ select_value x ps ]

      transform_elements-get :
          (xs : Elements Double) (arr : List pj.Value) (i : ℕ) (u : LeptValue Double)
          → transform_elements pj xs ≡ some arr
          → get_element xs i ≡ some u
          → (x : pj.Value) × (transform pj u ≡ some x) × (get_elem? arr i ≡ some x)
      unfolding transform get_element
      transform_elements-get no_elements arr i u e h = ground arith
      transform_elements-get (element x xs) arr i u e h = elim (Option-cases (transform pj x)) [
        | inl n ↦ ground arith
        | inr (v, n) ↦ elim (Option-cases (transform_elements pj xs)) [
          | inl m ↦ ground arith
          | inr (vs, m) ↦
              let q : v ∷ vs ≡ arr = ground arith in
              subst (λ a. (y : pj.Value) × (transform pj u ≡ some y) × (get_elem? a i ≡ some y)) q
                (at v vs n (λ k. transform_elements-get xs vs k u m) i h)
        ]
      ]
        where
          at :
              (v : pj.Value) (vs : List pj.Value)
              → transform pj x ≡ some v
              → ((k : ℕ)
                  → get_element xs k ≡ some u
                  → (y : pj.Value) × (transform pj u ≡ some y) × (get_elem? vs k ≡ some y))
              → (k : ℕ) → get_element (element x xs) k ≡ some u
              → (y : pj.Value) × (transform pj u ≡ some y) × (get_elem? (v ∷ vs) k ≡ some y)
          at v vs n ih zero g = (v, ground arith, refl)
          at v vs n ih (suc k) g = ih k g

      transform_members-get :
          (ms : Members Double) (m obj : List (List ℕ × pj.Value)) (k : List ℕ)
          → transform_members pj ms m ≡ some obj
          → lookup k obj ≡ elim (get_member ms k) [ none ↦ lookup k m | some u ↦ transform pj u ]
      unfolding transform get_member
      transform_members-get no_members m obj k e = ground arith
      transform_members-get (member j x ms) m obj k e = elim (Option-cases (transform pj x)) [
        | inl n ↦ ground arith
        | inr (v, n) ↦
            let rest : transform_members pj ms (assign j v m) ≡ some obj = ground arith in
            let ih = transform_members-get ms (assign j v m) obj k rest in
            let l = lookup-assign j k v m in
            elim (Option-cases (get_member ms k)) [
              | inl g ↦ ground arith
              | inr (u, g) ↦ ground arith
            ]
      ]

      transform_members-some :
          (ms : Members Double) (m obj : List (List ℕ × pj.Value)) (k : List ℕ)
          (u : LeptValue Double)
          → transform_members pj ms m ≡ some obj
          → get_member ms k ≡ some u
          → (x : pj.Value) × (transform pj u ≡ some x)
      unfolding transform get_member
      transform_members-some no_members m obj k u e h = ground arith
      transform_members-some (member j x ms) m obj k u e h = elim (Option-cases (transform pj x)) [
        | inl n ↦ ground arith
        | inr (v, n) ↦
            let rest : transform_members pj ms (assign j v m) ≡ some obj = ground arith in
            elim (Option-cases (get_member ms k)) [
              | inl g ↦ (v, ground arith)
              | inr (y, g) ↦ transform_members-some ms (assign j v m) obj k u rest (ground arith)
            ]
      ]

      transform-child :
          (v : LeptValue Double) (w : pj.Value) (p : Place) (u : LeptValue Double)
          → transform pj v ≡ some w
          → child v p ≡ some u
          → (x : pj.Value) × (transform pj u ≡ some x) × (child_value w p ≡ some x)
      unfolding transform child child_value
      transform-child (array xs) w (at_index i) u e h =
          elim (Option-cases (transform_elements pj xs)) [
            | inl n ↦ ground arith
            | inr (arr, n) ↦
                let (x, t, g) = transform_elements-get xs arr i u n h in
                let q : pj.of_array arr ≡ w = ground arith in
                let l : get.as_array w ≡ some arr =
                  subst (λ z. get.as_array z ≡ some arr) q (get.as_array-of_array arr) in
                (x, t, rw (l, child_value) g)
          ]
      transform-child (object ms) w (at_key k) u e h =
          elim (Option-cases (transform_members pj ms [])) [
            | inl n ↦ ground arith
            | inr (obj, n) ↦
                let g = transform_members-get ms [] obj k n in
                let (x, t) = transform_members-some ms [] obj k u n h in
                let q : pj.of_object obj ≡ w = ground arith in
                let l : get.as_object w ≡ some obj =
                  subst (λ z. get.as_object z ≡ some obj) q (get.as_object-of_object obj) in
                (x, t, rw (l, child_value) (ground arith))
          ]
      transform-child _ w p u e h = ground arith

      -- In a payload that is transformed, what a path of positions and keys leads to is transformed,
      -- and the same path leads to its transformation.
      pub transform-select :
          (v : LeptValue Double) (w : pj.Value) (ps : List Place) (u : LeptValue Double)
          → transform pj v ≡ some w
          → select v ps ≡ some u
          → (x : pj.Value) × (transform pj u ≡ some x) × (select_value w ps ≡ some x)
      unfolding select select_value
      transform-select v w [] u e h = (w, ground arith, refl)
      transform-select v w (p ∷ ps) u e h = elim (Option-cases (child v p)) [
        | inl n ↦ ground arith
        | inr (c, n) ↦
            let (y, t, g) = transform-child v w p c e n in
            let k : select c ps ≡ some u = ground arith in
            let (x, a, b) = transform-select c y ps u t k in (x, a, rw (g, select_value) b)
      ]
