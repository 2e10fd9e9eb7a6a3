-- ===== src/Registry/Removal.antt =====
-- Removing a session takes one copy of it out of the vector and keeps all others.
use mathlib.Core.List.{Perm, perm_middle}
use mathlib.Core.List.Perm
use my_web_socket.Prelude.{
  ℕ, ◌-◌, ◌≡◌, refl, ap, subst, ◌⊎◌, inl, inr, none, some, List, [], ◌∷◌, ◌++◌, length, ◌==◌, arith,
  length-append, set-append, get_elem?-append, take-append, append_assoc, append-nil, Bool-cases,
  Option-cases,
}
use my_web_socket.Registry.{find_index, swap_back, pop_back, remove_ws_session, remove_session}

-- Where a session was found.
pub find_index-split :
    (xs : List ℕ) (s i : ℕ)
    → find_index xs s ≡ some i
    → (ys : List ℕ) × (zs : List ℕ) × (xs ≡ ys ++ (s ∷ zs)) × (i ≡ length ys)
unfolding find_index
find_index-split [] s i h = cc
find_index-split (x ∷ xs) s i h = elim (Bool-cases (x == s)) [
  | inl e ↦ ([], xs, ground arith, ground arith)
  | inr n ↦ elim (Option-cases (find_index xs s)) [
    | inl m ↦ absurd (ground arith)
    | inr (j, m) ↦ let r = find_index-split xs s j m in (x ∷ r.0, r.1, ap (◌∷◌ x) r.2, ground arith)
  ]
]

-- A list is empty or has a last element.
pub last_cases : (zs : List ℕ) → (zs ≡ []) ⊎ ((ws : List ℕ) × (l : ℕ) × (zs ≡ ws ++ (l ∷ [])))
last_cases [] = inl refl
last_cases (z ∷ zs) = inr (elim (last_cases zs) [
  | inl e ↦ ([], z, ap (◌∷◌ z) e)
  | inr (ws, l, e) ↦ (z ∷ ws, l, ap (◌∷◌ z) e)
])

pub pop_back-append : (xs : List ℕ) (x : ℕ) → pop_back (xs ++ (x ∷ [])) ≡ xs
unfolding pop_back
pop_back-append xs x =
    let e : length (xs ++ (x ∷ [])) - 1 ≡ length xs = omega (arith, length-append xs (x ∷ [])) in
    rw e (take-append xs (x ∷ []))

pub swap_back-last : (ys : List ℕ) (s : ℕ) → swap_back (ys ++ (s ∷ [])) (length ys) ≡ ys ++ (s ∷ [])
unfolding swap_back
swap_back-last ys s =
    let e : length (ys ++ (s ∷ [])) - 1 ≡ length ys = omega (arith, length-append ys (s ∷ [])) in
    ground (arith, e, get_elem?-append ys [] s, set-append ys [] s s)

pub swap_back-inner :
    (ys ws : List ℕ) (s l : ℕ)
    → swap_back (ys ++ (s ∷ (ws ++ (l ∷ [])))) (length ys) ≡ (ys ++ (l ∷ ws)) ++ (s ∷ [])
unfolding swap_back
swap_back-inner ys ws s l =
    let whole = ys ++ (s ∷ (ws ++ (l ∷ []))) in
    let e : length whole - 1 ≡ length (ys ++ (s ∷ ws)) = omega (
      arith,
      length-append ys (s ∷ (ws ++ (l ∷ []))),
      length-append ws (l ∷ []),
      length-append ys (s ∷ ws),
    ) in
    let e' : length (ys ++ (s ∷ ws)) ≡ length (ys ++ (l ∷ ws)) =
      omega (arith, length-append ys (s ∷ ws), length-append ys (l ∷ ws)) in
    ground (
      arith,
      e,
      e',
      get_elem?-append ys (ws ++ (l ∷ [])) s,
      append_assoc ys (s ∷ ws) (l ∷ []),
      append_assoc ys (l ∷ ws) (l ∷ []),
      get_elem?-append (ys ++ (s ∷ ws)) [] l,
      set-append ys (ws ++ (l ∷ [])) s l,
      set-append (ys ++ (l ∷ ws)) [] l s,
    )

removed_last :
    (ys : List ℕ) (s : ℕ)
    → Perm (ys ++ (s ∷ [])) (s ∷ pop_back (swap_back (ys ++ (s ∷ [])) (length ys)))
removed_last ys s =
    rw (swap_back-last ys s, pop_back-append ys s)
      (subst (λ (l : List ℕ). Perm (ys ++ (s ∷ [])) (s ∷ l)) (append-nil ys) (perm_middle ys []))

removed_inner :
    (ys ws : List ℕ) (s l : ℕ)
    → Perm
        (ys ++ (s ∷ (ws ++ (l ∷ []))))
        (s ∷ pop_back (swap_back (ys ++ (s ∷ (ws ++ (l ∷ [])))) (length ys)))
removed_inner ys ws s l =
    rw (swap_back-inner ys ws s l, pop_back-append (ys ++ (l ∷ ws)) s)
      (Perm.trans (perm_middle ys (ws ++ (l ∷ []))) (Perm.cons s moved))
  where
    moved : Perm (ys ++ (ws ++ (l ∷ []))) (ys ++ (l ∷ ws))
    moved =
        Perm.trans
          (subst (λ (m : List ℕ). Perm m (l ∷ (ys ++ ws))) (append_assoc ys ws (l ∷ []))
            (subst (λ (m : List ℕ). Perm ((ys ++ ws) ++ (l ∷ [])) (l ∷ m)) (append-nil (ys ++ ws))
              (perm_middle (ys ++ ws) [])))
          (Perm.symm (perm_middle ys ws))

removed_at :
    (xs : List ℕ) (s i : ℕ) → find_index xs s ≡ some i → Perm xs (s ∷ pop_back (swap_back xs i))
removed_at xs s i h = at (find_index-split xs s i h)
  where
    at :
        ((ys : List ℕ) × (zs : List ℕ) × (xs ≡ ys ++ (s ∷ zs)) × (i ≡ length ys))
        → Perm xs (s ∷ pop_back (swap_back xs i))
    at (ys, zs, e, n) = split (last_cases zs)
      where
        split :
            (zs ≡ []) ⊎ ((ws : List ℕ) × (l : ℕ) × (zs ≡ ws ++ (l ∷ [])))
            → Perm xs (s ∷ pop_back (swap_back xs i))
        split (inl z) = rw (e, n, z) (removed_last ys s)
        split (inr (ws, l, z)) = rw (e, n, z) (removed_inner ys ws s l)

-- Either the session is not in the vector and removing it changes nothing, or the vector is a
-- permutation of the session and what is left.
pub remove_ws_session-perm :
    (xs : List ℕ) (s : ℕ)
    → ((find_index xs s ≡ none) × (remove_ws_session xs s ≡ xs))
      ⊎ Perm xs (s ∷ remove_ws_session xs s)
unfolding remove_ws_session
remove_ws_session-perm xs s = elim (Option-cases (find_index xs s)) [
  | inl e ↦ inl (e, rw (e, remove_ws_session) refl)
  | inr (i, e) ↦ inr (rw (e, remove_ws_session) (removed_at xs s i e))
]

-- Either the HTTP session is not in the vector and removing it changes nothing, or the vector is a
-- permutation of the session and what is left.
pub remove_session-perm :
    (xs : List ℕ) (s : ℕ)
    → ((find_index xs s ≡ none) × (remove_session xs s ≡ xs)) ⊎ Perm xs (s ∷ remove_session xs s)
unfolding remove_session remove_ws_session
remove_session-perm xs s = remove_ws_session-perm xs s
