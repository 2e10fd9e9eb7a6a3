-- ===== src/Registry.antt =====
-- The sessions that a server keeps: `removeWsSession` of src/core/WsServer.cpp and `removeSession`
-- of src/core/httpserver.cpp are the same code on the same kind of vector. A session pointer is a
-- number. The lock is not modelled: the program runs on one event loop.
pub mod Removal
pub mod Counting
pub mod Bag
use my_web_socket.Prelude.{
  ℕ, suc, ◌-◌, Option, none, some, List, [], ◌∷◌, ◌++◌, length, get_elem?, set, take, ◌==◌,
  if◌then◌else◌,
}

-- `std::find`, as an index.
unfoldable pub find_index : List ℕ → ℕ → Option ℕ
find_index [] s = none
find_index (x ∷ xs) s =
    if x == s then some 0 else elim (find_index xs s) [ none ↦ none | some i ↦ some (suc i) ]

-- `std::swap` of the element `i` and the last one.
unfoldable pub swap_back : List ℕ → ℕ → List ℕ
swap_back xs i = elim (get_elem? xs i) [
  | none ↦ xs
  | some x ↦ elim (get_elem? xs (length xs - 1)) [
    | none ↦ xs
    | some back ↦ set (set xs i back) (length xs - 1) x
  ]
]

unfoldable pub pop_back : List ℕ → List ℕ
pop_back xs = take (length xs - 1) xs

unfoldable pub push_ws_session : List ℕ → ℕ → List ℕ
push_ws_session xs s = xs ++ (s ∷ [])

unfoldable pub remove_ws_session : List ℕ → ℕ → List ℕ
unfolding find_index swap_back pop_back
remove_ws_session xs s = elim (find_index xs s) [ none ↦ xs | some i ↦ pop_back (swap_back xs i) ]

unfoldable pub remove_session : List ℕ → ℕ → List ℕ
unfolding find_index swap_back pop_back
remove_session xs s = elim (find_index xs s) [ none ↦ xs | some i ↦ pop_back (swap_back xs i) ]
