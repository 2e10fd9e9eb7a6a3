-- ===== src/Parser/Payload.antt =====
-- The parser on a frame's payload: unmasking undoes the peer's masking.
use my_web_socket.Prelude.{
  ℕ, zero, suc, ◌+◌, ◌%◌, ◌≤◌, ◌<◌, ◌≡◌, refl, ap, ◌∙◌, true, some, List, [], ◌∷◌, ◌++◌, length,
  arith, append_assoc, append-nil, bit_xor_twice, IsBytes, get_elem?,
}
use my_web_socket.Parser.{
  payload, WsFrame, WsParser, unmask, store, finish, after_store, limit_payload_len,
}
use my_web_socket.Parser.Feed.{feed}
use my_web_socket.Parser.Refinement.{feed-append_chunk}
use my_web_socket.Parser.Encode.{
  Masking, unmasked, masked, has_mask, key_bytes, key_at, mask_from, mask_payload,
}

module _ (a b c d : ℕ) where
  get_elem?-key : (i : ℕ) → i < 4 → get_elem? (a ∷ b ∷ c ∷ d ∷ []) i ≡ some (key_at a b c d i)
  get_elem?-key zero h = refl
  get_elem?-key (suc zero) h = refl
  get_elem?-key (suc (suc zero)) h = refl
  get_elem?-key (suc (suc (suc zero))) h = refl
  get_elem?-key (suc (suc (suc (suc i)))) h = absurd (omega arith)

  key_at-lt : (i : ℕ) → IsBytes (a ∷ b ∷ c ∷ d ∷ []) → key_at a b c d i < 256
  key_at-lt zero h = h.0
  key_at-lt (suc zero) h = h.1.0
  key_at-lt (suc (suc zero)) h = h.1.1.0
  key_at-lt (suc (suc (suc i))) h = h.1.1.1.0

  -- Unmasking gives the bytes back and leaves the index where the next byte continues.
  unmask-mask_from :
      (i : ℕ) (xs out : List ℕ)
      → IsBytes (a ∷ b ∷ c ∷ d ∷ [])
      → IsBytes xs
      → unmask (a ∷ b ∷ c ∷ d ∷ []) (i % 4) (mask_from (key_at a b c d) i xs) out
        ≡ some (out ++ xs, (i + length xs) % 4)
  unfolding unmask mask_from
  unmask-mask_from i [] out k h = ground (arith, append-nil out)
  unmask-mask_from i (x ∷ xs) out k h = ground (
    arith,
    get_elem?-key (i % 4) (omega arith),
    bit_xor_twice x (key_at a b c d (i % 4)) h.0 (key_at-lt (i % 4) k),
    unmask-mask_from (i + 1) xs (out ++ (x ∷ [])) k h.1,
    append_assoc out (x ∷ []) xs,
  )

length-mask_from : (key : ℕ → ℕ) (i : ℕ) (xs : List ℕ) → length (mask_from key i xs) ≡ length xs
unfolding mask_from
length-mask_from key i [] = refl
length-mask_from key i (x ∷ xs) = ap suc (length-mask_from key (i + 1) xs)

pub length-mask_payload : (m : Masking) (xs : List ℕ) → length (mask_payload m xs) ≡ length xs
unfolding mask_payload
length-mask_payload unmasked xs = refl
length-mask_payload (masked a b c d) xs = length-mask_from (key_at a b c d) 0 xs

module _ {S : Type 0} where
  -- The state after the whole payload was stored.
  abbrev pub filled : WsParser S → List ℕ → ℕ → WsParser S
  filled p xs i = record p {
    byte_need = 0;
    frame = record p.frame { payload = p.frame.payload ++ xs };
    mask_index = i;
  }

  store-mask_payload :
      (p : WsParser S) (m : Masking) (xs : List ℕ)
      → p.frame.mask ≡ has_mask m
      → (has_mask m ≡ true → p.frame.mask_key ≡ key_bytes m)
      → p.mask_index ≡ 0
      → p.byte_need ≡ length xs
      → IsBytes (key_bytes m)
      → IsBytes xs
      → (i : ℕ) × (store p (mask_payload m xs) ≡ some (filled p xs i))
  unfolding store mask_payload
  store-mask_payload p unmasked xs e k z n bk bx = (0, ground arith)
  store-mask_payload p (masked a b c d) xs e k z n bk bx = (
    length xs % 4,
    ground (
      arith,
      k refl,
      unmask-mask_from a b c d 0 xs p.frame.payload bk bx,
      length-mask_from (key_at a b c d) 0 xs,
    ),
  )

  module _ (on_complete : WsFrame → S → S) where
    -- The whole of a payload that is not empty and not too long.
    pub feed-mask_payload :
        (p : WsParser S) (m : Masking) (x : ℕ) (xs rest : List ℕ)
        → p.status ≡ payload
        → p.frame.mask ≡ has_mask m
        → (has_mask m ≡ true → p.frame.mask_key ≡ key_bytes m)
        → p.mask_index ≡ 0
        → p.byte_need ≡ suc (length xs)
        → p.frame.payload_len ≤ limit_payload_len
        → IsBytes (key_bytes m)
        → IsBytes (x ∷ xs)
        → feed on_complete p (mask_payload m (x ∷ xs) ++ rest)
          ≡ feed on_complete (finish on_complete (filled p (x ∷ xs) 0)) rest
    feed-mask_payload p m x xs rest s e k z n l bk bx =
        chunk (mask_payload m (x ∷ xs)) (length-mask_payload m (x ∷ xs))
          (store-mask_payload p m (x ∷ xs) e k z n bk bx)
      where
        chunk :
            (ys : List ℕ)
            → length ys ≡ suc (length xs)
            → ((i : ℕ) × (store p ys ≡ some (filled p (x ∷ xs) i)))
            → feed on_complete p (ys ++ rest)
              ≡ feed on_complete (finish on_complete (filled p (x ∷ xs) 0)) rest
        chunk [] h _ = absurd (omega arith)
        chunk (y ∷ ys) h (i, st) =
            feed-append_chunk on_complete p y ys rest s (ground arith) (omega arith)
            ∙ (rw st (unfold after_store finish in refl))
