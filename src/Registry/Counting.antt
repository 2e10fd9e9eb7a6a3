-- ===== src/Registry/Counting.antt =====
-- How often a session stands in a vector, before and after the functions of src/core/WsServer.cpp
-- and src/core/httpserver.cpp that add and remove one.
use my_web_socket.Prelude.{
  ℕ, suc, ◌+◌, ◌-◌, ◌≡◌, refl, inl, inr, none, some, List, [], ◌∷◌, ◌++◌, length, ◌==◌, ==_iff,
  if◌then◌else◌, arith, Option-cases, ◌⊎◌,
}
use my_web_socket.Registry.{
  find_index, swap_back, pop_back, push_ws_session, remove_ws_session, remove_session,
}
use my_web_socket.Registry.Removal.{
  find_index-split, last_cases, pop_back-append, swap_back-last, swap_back-inner,
}

unfoldable pub count : ℕ → List ℕ → ℕ
count x [] = 0
count x (y ∷ ys) = let rest = count x ys in if y == x then suc rest else rest

pub count-nil : (x : ℕ) → count x [] ≡ 0
unfolding count
count-nil x = refl

pub count-cons :
    (x y : ℕ) (ys : List ℕ) → count x (y ∷ ys) ≡ (if y == x then suc (count x ys) else count x ys)
unfolding count
count-cons x y ys = refl

count-append : (x : ℕ) (xs ys : List ℕ) → count x (xs ++ ys) ≡ count x xs + count x ys
unfolding count
count-append x [] ys = omega arith
count-append x (z ∷ xs) ys = ground (arith, count-append x xs ys)

count-find_index-none : (xs : List ℕ) (s : ℕ) → find_index xs s ≡ none → count s xs ≡ 0
unfolding count find_index
count-find_index-none [] s h = refl
count-find_index-none (x ∷ xs) s h =
    ground (arith, Option-cases (find_index xs s), count-find_index-none xs s)

-- One copy of `s`, as `count x` sees it.
abbrev one : ℕ → ℕ → ℕ
one x s = if s == x then 1 else 0

count-removed :
    (x : ℕ) (xs : List ℕ) (s i : ℕ)
    → find_index xs s ≡ some i
    → count x (pop_back (swap_back xs i)) + one x s ≡ count x xs
unfolding count
count-removed x xs s i h = at (find_index-split xs s i h)
  where
    at :
        ((ys : List ℕ) × (zs : List ℕ) × (xs ≡ ys ++ (s ∷ zs)) × (i ≡ length ys))
        → count x (pop_back (swap_back xs i)) + one x s ≡ count x xs
    at (ys, zs, e, n) = split (last_cases zs)
      where
        split :
            (zs ≡ []) ⊎ ((ws : List ℕ) × (l : ℕ) × (zs ≡ ws ++ (l ∷ [])))
            → count x (pop_back (swap_back xs i)) + one x s ≡ count x xs
        split (inl z) =
            rw (e, n, z, swap_back-last ys s, pop_back-append ys s)
              (ground (arith, count-append x ys (s ∷ [])))
        split (inr (ws, l, z)) =
            rw (e, n, z, swap_back-inner ys ws s l, pop_back-append (ys ++ (l ∷ ws)) s)
              (ground (
                arith,
                count-append x ys (s ∷ (ws ++ (l ∷ []))),
                count-append x ws (l ∷ []),
                count-append x ys (l ∷ ws),
              ))

pub count-remove_ws_session :
    (x : ℕ) (xs : List ℕ) (s : ℕ)
    → count x (remove_ws_session xs s) ≡ (if s == x then count x xs - 1 else count x xs)
unfolding remove_ws_session
count-remove_ws_session x xs s = elim (Option-cases (find_index xs s)) [
  | inl e ↦ rw (e, remove_ws_session) (ground (arith, count-find_index-none xs s e, ==_iff s x))
  | inr (i, e) ↦ rw (e, remove_ws_session) (ground (arith, count-removed x xs s i e))
]

pub count-remove_session :
    (x : ℕ) (xs : List ℕ) (s : ℕ)
    → count x (remove_session xs s) ≡ (if s == x then count x xs - 1 else count x xs)
unfolding remove_session remove_ws_session
count-remove_session x xs s = count-remove_ws_session x xs s

pub count-push_ws_session :
    (x : ℕ) (xs : List ℕ) (s : ℕ)
    → count x (push_ws_session xs s) ≡ (if s == x then suc (count x xs) else count x xs)
unfolding push_ws_session count
count-push_ws_session x xs s = ground (arith, count-append x xs (s ∷ []))

-- A vector that holds nothing is empty.
pub count-none : (xs : List ℕ) → ((x : ℕ) → count x xs ≡ 0) → xs ≡ []
unfolding count
count-none [] h = refl
count-none (x ∷ xs) h = absurd (ground (arith, h x))
