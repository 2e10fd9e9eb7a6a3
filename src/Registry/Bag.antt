-- ===== src/Registry/Bag.antt =====
-- The vectors of sessions of src/core/WsServer.cpp and src/core/httpserver.cpp as bags: what they
-- hold and how often, in no order.
use mathlib.Core.Quot
use mathlib.Core.Quot.{Quot, Quot-set}
use native.Mathlib.Nat.{ℕ_set}
use my_web_socket.Prelude.{
  ℕ, suc, ◌-◌, ◌<◌, ◌≡◌, refl, ap, sym, ◌∙◌, List, [], ◌∷◌, length, ◌==◌, ==_iff, if◌then◌else◌,
  arith,
}
use my_web_socket.Registry.{push_ws_session, remove_ws_session, remove_session}
use my_web_socket.Registry.Counting.{
  count, count-cons, count-nil, count-none, count-remove_ws_session, count-remove_session,
  count-push_ws_session,
}

abbrev pub SameSessions : List ℕ → List ℕ → Type 0
SameSessions xs ys = (i : ℕ) → count i xs ≡ count i ys

abbrev pub Bag : Type 0
Bag = Quot SameSessions

-- One copy less, if there is one.
pub take_out : ℕ → List ℕ → List ℕ
take_out s [] = []
take_out s (x ∷ xs) = if x == s then xs else x ∷ take_out s xs

count-take_out :
    (i s : ℕ) (xs : List ℕ)
    → count i (take_out s xs) ≡ (if s == i then count i xs - 1 else count i xs)
unfolding take_out count
count-take_out i s [] = ground arith
count-take_out i s (x ∷ xs) = ground (arith, count-take_out i s xs, ==_iff x s, ==_iff s i)

length-take_out : (s : ℕ) (xs : List ℕ) → 0 < count s xs → suc (length (take_out s xs)) ≡ length xs
unfolding take_out count
length-take_out s [] h = absurd (omega arith)
length-take_out s (x ∷ xs) h = ground (arith, length-take_out s xs)

length-SameSessions : (xs ys : List ℕ) → SameSessions xs ys → length xs ≡ length ys
length-SameSessions [] ys h = ap length (sym (count-none ys (λ i. sym (h i) ∙ count-nil i)))
length-SameSessions (x ∷ xs) ys h =
    let there : 0 < count x ys = ground (arith, h x, count-cons x x xs, ==_iff x x) in
    let rest : SameSessions xs (take_out x ys) =
      λ i. ground (arith, h i, count-cons i x xs, count-take_out i x ys) in
    omega (arith, length-SameSessions xs (take_out x ys) rest, length-take_out x ys there)

put : ℕ → Bag → Bag
put s =
    Quot.lift Quot-set (λ xs. Quot.mk (s ∷ xs))
      (λ xs ys h. Quot.sound (λ i. ground (arith, h i, count-cons i s xs, count-cons i s ys)))

take : ℕ → Bag → Bag
take s =
    Quot.lift Quot-set (λ xs. Quot.mk (take_out s xs))
      (λ xs ys h.
        Quot.sound (λ i. ground (arith, h i, count-take_out i s xs, count-take_out i s ys)))

pub size : Bag → ℕ
size = Quot.lift ℕ_set length length-SameSessions

-- What the program does to a vector.
pub data Change : Type 0 where
  push remove : ℕ → Change

pub run_on_bag : List Change → Bag → Bag
run_on_bag [] b = b
run_on_bag (push s ∷ cs) b = run_on_bag cs (put s b)
run_on_bag (remove s ∷ cs) b = run_on_bag cs (take s b)

-- `pushWsSession` and `removeWsSession`, and `push_back` and `removeSession` of the HTTP server.
unfoldable pub run_ws : List Change → List ℕ → List ℕ
unfolding push_ws_session remove_ws_session
run_ws [] xs = xs
run_ws (push s ∷ cs) xs = run_ws cs (push_ws_session xs s)
run_ws (remove s ∷ cs) xs = run_ws cs (remove_ws_session xs s)

unfoldable pub run_http : List Change → List ℕ → List ℕ
unfolding push_ws_session remove_session
run_http [] xs = xs
run_http (push s ∷ cs) xs = run_http cs (push_ws_session xs s)
run_http (remove s ∷ cs) xs = run_http cs (remove_session xs s)

abbrev pub bag_of : List ℕ → Bag
bag_of xs = Quot.mk xs

bag_of-push : (s : ℕ) (xs : List ℕ) → bag_of (push_ws_session xs s) ≡ put s (bag_of xs)
unfolding put
bag_of-push s xs = Quot.sound (λ i. ground (arith, count-push_ws_session i xs s, count-cons i s xs))

bag_of-remove_ws : (s : ℕ) (xs : List ℕ) → bag_of (remove_ws_session xs s) ≡ take s (bag_of xs)
unfolding take
bag_of-remove_ws s xs =
    Quot.sound (λ i. ground (arith, count-remove_ws_session i xs s, count-take_out i s xs))

bag_of-remove : (s : ℕ) (xs : List ℕ) → bag_of (remove_session xs s) ≡ take s (bag_of xs)
unfolding take
bag_of-remove s xs =
    Quot.sound (λ i. ground (arith, count-remove_session i xs s, count-take_out i s xs))

run_ws-bag : (cs : List Change) (xs : List ℕ) → bag_of (run_ws cs xs) ≡ run_on_bag cs (bag_of xs)
unfolding run_ws run_on_bag
run_ws-bag [] xs = refl
run_ws-bag (push s ∷ cs) xs =
    run_ws-bag cs (push_ws_session xs s) ∙ ap (run_on_bag cs) (bag_of-push s xs)
run_ws-bag (remove s ∷ cs) xs =
    run_ws-bag cs (remove_ws_session xs s) ∙ ap (run_on_bag cs) (bag_of-remove_ws s xs)

run_http-bag :
    (cs : List Change) (xs : List ℕ) → bag_of (run_http cs xs) ≡ run_on_bag cs (bag_of xs)
unfolding run_http run_on_bag
run_http-bag [] xs = refl
run_http-bag (push s ∷ cs) xs =
    run_http-bag cs (push_ws_session xs s) ∙ ap (run_on_bag cs) (bag_of-push s xs)
run_http-bag (remove s ∷ cs) xs =
    run_http-bag cs (remove_session xs s) ∙ ap (run_on_bag cs) (bag_of-remove s xs)

-- Both vectors implement a bag of sessions: after any additions and removals, a vector holds what
-- the bag holds to which a session is added, or from which one copy of it is taken if there is one,
-- by the same changes, and its length is the bag's size.
pub run-bag :
    (cs : List Change) (xs : List ℕ)
    → (bag_of (run_ws cs xs) ≡ run_on_bag cs (bag_of xs))
      × (bag_of (run_http cs xs) ≡ run_on_bag cs (bag_of xs))
      × (length (run_ws cs xs) ≡ size (run_on_bag cs (bag_of xs)))
      × (length (run_http cs xs) ≡ size (run_on_bag cs (bag_of xs)))
unfolding size
run-bag cs xs =
    (run_ws-bag cs xs, run_http-bag cs xs, ap size (run_ws-bag cs xs), ap size (run_http-bag cs xs))
