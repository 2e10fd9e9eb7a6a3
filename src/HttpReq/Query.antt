-- ===== src/HttpReq/Query.antt =====
-- The query as an independent description has it: the text after the first `?`, cut at every `&`.
use my_web_socket.Prelude.{
  ℕ, zero, suc, ◌+◌, ◌<◌, ◌≡◌, ◌≢◌, refl, sym, ap, ◌∙◌, Option, none, some, List, [], ◌∷◌, ◌++◌,
  length, split_first, split_first-length, split_first-append, split_first-none, assign,
  if◌then◌else◌, arith, Option-cases, inl, inr, All, ◌==◌,
}
use my_web_socket.HttpReq.{ParamMap, pair_of, add_param, add_pair, decode_loop, url_decode}

-- All the pieces between the separators; there is always one.
pub pieces : ℕ → List ℕ → List ℕ × List (List ℕ)
pieces c [] = ([], [])
pieces c (x ∷ xs) = let (p, ps) = pieces c xs in if x == c then ([], p ∷ ps) else (x ∷ p, ps)

pub add_pairs : List (List ℕ) → ParamMap → ParamMap
add_pairs [] m = m
add_pairs (p ∷ ps) m = add_pairs ps (add_pair p m)

pieces-none : (c : ℕ) (xs : List ℕ) → split_first c xs ≡ none → pieces c xs ≡ (xs, [])
unfolding split_first pieces
pieces-none c [] h = refl
pieces-none c (x ∷ xs) h = elim (Option-cases (split_first c xs)) [
  | inl e ↦ ground (arith, pieces-none c xs e)
  | inr ((p', r'), e) ↦ absurd (ground arith)
]

pieces-some :
    (c : ℕ) (xs p r : List ℕ)
    → split_first c xs ≡ some (p, r)
    → pieces c xs ≡ (p, (pieces c r).0 ∷ (pieces c r).1)
unfolding split_first pieces
pieces-some c [] p r h = cc
pieces-some c (x ∷ xs) p r h = elim (Option-cases (split_first c xs)) [
  | inl e ↦ ground arith
  | inr ((p', r'), e) ↦ ground (arith, pieces-some c xs p' r' e)
]

add_pair-nil : (m : ParamMap) → add_pair [] m ≡ m
unfolding add_pair split_first
add_pair-nil m = refl

-- The loop adds the pieces in order, with a round's fuel for each character and one more.
decode_loop-pieces :
    (fuel : ℕ) (rest : List ℕ) (m : ParamMap)
    → length rest < fuel
    → decode_loop fuel rest m ≡ add_pairs ((pieces b'&' rest).0 ∷ (pieces b'&' rest).1) m
unfolding add_pairs decode_loop pieces
decode_loop-pieces zero rest m h = absurd (omega arith)
decode_loop-pieces (suc fuel) [] m h = unfold decode_loop pieces in sym (add_pair-nil m)
decode_loop-pieces (suc fuel) (c ∷ cs) m h = elim (Option-cases (split_first b'&' (c ∷ cs))) [
  | inl e ↦ rw (e, decode_loop, pieces-none b'&' (c ∷ cs) e) refl
  | inr ((p, r), e) ↦
      rw (e, decode_loop, pieces-some b'&' (c ∷ cs) p r e)
        (decode_loop-pieces fuel r (add_pair p m)
          (omega (arith, split_first-length b'&' (c ∷ cs) p r e)))
]

-- The query text of an address.
pub query_text : List ℕ → Option (List ℕ)
query_text url = elim (split_first b'?' url) [ none ↦ none | some (_, rest) ↦ some rest ]

abbrev pub all_pieces : Option (List ℕ) → List (List ℕ)
all_pieces none = []
all_pieces (some text) = (pieces b'&' text).0 ∷ (pieces b'&' text).1

-- The one-pass decoder equals, on every URL and map, cutting the text after the first `?`, if there
-- is one, at each `&` and then adding the pieces to the map in order.
pub url_decode-pieces :
    (url : List ℕ) (m : ParamMap) → url_decode url m ≡ add_pairs (all_pieces (query_text url)) m
unfolding query_text url_decode
url_decode-pieces url m = elim (Option-cases (split_first b'?' url)) [
  | inl e ↦ rw (e, url_decode, query_text) (unfold add_pairs in refl)
  | inr ((p, r), e) ↦
      rw (e, url_decode, query_text) (decode_loop-pieces (length r + 1) r m (omega arith))
]

-- The query that a client writes for a list of pairs.
pub print_query : List (List ℕ × List ℕ) → List ℕ
print_query [] = []
print_query ((k, v) ∷ []) = k ++ (b'=' ∷ v)
print_query ((k, v) ∷ (p ∷ ps)) = (k ++ (b'=' ∷ v)) ++ (b'&' ∷ print_query (p ∷ ps))

unfoldable pub assign_all : List (List ℕ × List ℕ) → ParamMap → ParamMap
assign_all [] m = m
assign_all ((k, v) ∷ ps) m = assign_all ps (assign k v m)

-- Keys that are not empty and hold no separator, and values that hold no `&`.
abbrev pub IsPair : List ℕ × List ℕ → Type 0
IsPair (k, v) = (k ≢ []) × All (λ c. c ≢ b'=') k × All (λ c. c ≢ b'&') k × All (λ c. c ≢ b'&') v

All-append {ℓ} : (P : ℕ → Type ℓ) (xs ys : List ℕ) → All P xs → All P ys → All P (xs ++ ys)
All-append P [] ys hx hy = hy
All-append P (x ∷ xs) ys hx hy = (hx.0, All-append P xs ys hx.1 hy)

pair_of-pair : (k v : List ℕ) → All (λ c. c ≢ b'=') k → pair_of (k ++ (b'=' ∷ v)) ≡ (k, v)
unfolding pair_of
pair_of-pair k v h =
    ap
      (λ (o : Option (List ℕ × List ℕ)). elim o [
        | none ↦ (k ++ (b'=' ∷ v), [])
        | some (k', v') ↦ (k', v')
      ])
      (split_first-append b'=' k v h)

add_pair-pair :
    (k v : List ℕ) (m : ParamMap) → IsPair (k, v) → add_pair (k ++ (b'=' ∷ v)) m ≡ assign k v m
unfolding add_pair
add_pair-pair [] v m h = absurd (h.0 refl)
add_pair-pair (c ∷ k) v m h =
    ap (λ (p : List ℕ × List ℕ). add_param p.0 p.1 m) (pair_of-pair (c ∷ k) v h.1)

plain_pair : (k v : List ℕ) → IsPair (k, v) → All (λ c. c ≢ b'&') (k ++ (b'=' ∷ v))
plain_pair k v h = All-append (λ c. c ≢ b'&') k (b'=' ∷ v) h.2 (omega arith, h.3)

pieces-print_query :
    (ps : List (List ℕ × List ℕ)) (m : ParamMap)
    → All IsPair ps
    → add_pairs (all_pieces (some (print_query ps))) m ≡ assign_all ps m
unfolding print_query assign_all add_pairs
pieces-print_query [] m h = unfold pieces in add_pair-nil m
pieces-print_query ((k, v) ∷ []) m h =
    rw (pieces-none b'&' (k ++ (b'=' ∷ v)) (split_first-none b'&' _ (plain_pair k v h.0)))
      (add_pair-pair k v m h.0)
pieces-print_query ((k, v) ∷ (p ∷ ps)) m h =
    rw
      (pieces-some b'&' _ _ _
        (split_first-append b'&' (k ++ (b'=' ∷ v)) (print_query (p ∷ ps)) (plain_pair k v h.0)))
      (ap (λ (n : ParamMap). add_pairs (all_pieces (some (print_query (p ∷ ps)))) n)
          (add_pair-pair k v m h.0)
        ∙ pieces-print_query (p ∷ ps) (assign k v m) h.1)

query_text-append :
    (path rest : List ℕ) → All (λ c. c ≢ b'?') path → query_text (path ++ (b'?' ∷ rest)) ≡ some rest
unfolding query_text
query_text-append path rest h =
    ap (λ (o : Option (List ℕ × List ℕ)). elim o [ none ↦ none | some (_, r) ↦ some r ])
      (split_first-append b'?' path rest h)

-- For a path without `?` and pairs with a key that is not empty and has neither `=` nor `&`, and a
-- value without `&`: decoding the path, a `?` and the printed pairs assigns the pairs to the map in
-- order.
pub url_decode-print_query :
    (path : List ℕ) (ps : List (List ℕ × List ℕ)) (m : ParamMap)
    → All (λ c. c ≢ b'?') path
    → All IsPair ps
    → url_decode (path ++ (b'?' ∷ print_query ps)) m ≡ assign_all ps m
url_decode-print_query path ps m h g =
    url_decode-pieces (path ++ (b'?' ∷ print_query ps)) m
    ∙ ap (λ (o : Option (List ℕ)). add_pairs (all_pieces o) m)
        (query_text-append path (print_query ps) h)
    ∙ pieces-print_query ps m g
