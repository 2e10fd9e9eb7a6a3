-- ===== src/Parser/Bounds.antt =====
-- The fields of the frame and of the parser fit the types that they have in C++.
use my_web_socket.Prelude.{
  ℕ, zero, suc, ◌*◌, ◌%◌, ◌^◌, ◌<◌, ◌≡◌, refl, sym, subst, ◌∙◌, inl, inr, Option, none, some,
  Option-cases, List, [], ◌∷◌, ◌++◌, ltb, ◌==◌, if_elim, arith, IsBytes, bit_or, bit_xor,
  bit_and_rsv, bit_and_low_4, bit_and_low_7, bit_or_byte, bit_xor_size, get_elem?,
}
use my_web_socket.Parser.{
  Status, fin_and_opcode, payload_len_and_mask, payload_len, mask_key, payload, complete, WsFrame,
  WsParser, WsParseErr, Outcome, returns, undefined, out_of_fuel, unmask, store, finish,
  after_store, parse, read_fin_and_opcode, switch_to_mask, read_payload_len_and_mask,
  read_payload_len, read_mask_key, limit_payload_len, rejected, get_rsv, get_opcode,
  get_payload_len,
}
use my_web_socket.Parser.Feed.{Fed, go_on, halt, feed, feed_at, feed_payload}
use my_web_socket.Parser.Invariant.{IsValid, parse-Returns}
use my_web_socket.Parser.Refinement.{parse-feed}

-- `rsv` and `opcode` are 3 and 4 bits of a `uint8_t`, a `size_t` has 64 bits, keys and payloads are
-- bytes.
pub record IsSized (f : WsFrame) : Type 0 where
  pub rsv_size : f.rsv < 8
  pub opcode_size : f.opcode < 16
  pub len_size : f.payload_len < 2 ^ 64
  pub key_size : IsBytes f.mask_key
  pub payload_size : IsBytes f.payload

IsBytes-snoc : (xs : List ℕ) (b : ℕ) → IsBytes xs → b < 256 → IsBytes (xs ++ (b ∷ []))
IsBytes-snoc [] b h l = (l, tt)
IsBytes-snoc (x ∷ xs) b h l = (h.0, IsBytes-snoc xs b h.1 l)

get_elem?-IsBytes : (xs : List ℕ) (i k : ℕ) → IsBytes xs → get_elem? xs i ≡ some k → k < 256
get_elem?-IsBytes [] i k h e = ground arith
get_elem?-IsBytes (x ∷ xs) zero k h e = ground arith
get_elem?-IsBytes (x ∷ xs) (suc i) k h e = get_elem?-IsBytes xs i k h.1 e

IsBytes-append : (xs ys : List ℕ) → IsBytes xs → IsBytes ys → IsBytes (xs ++ ys)
IsBytes-append [] ys h l = l
IsBytes-append (x ∷ xs) ys h l = (h.0, IsBytes-append xs ys h.1 l)

shifted_size : (len b : ℕ) → b < 256 → bit_or (len * 256 % 2 ^ 64) b < 2 ^ 64
shifted_size len b h =
    let e : len * 256 % 2 ^ 64 ≡ len % 2 ^ 56 * 256 = omega arith in
    rw (e, bit_or_byte (len % 2 ^ 56) b h) (omega (arith, h))

module _ {S : Type 0} where
  pub record Fits (p : WsParser S) : Type 0 where
    pub sizes : IsSized p.frame
    pub need : p.byte_need < 2 ^ 64

  read_fin_and_opcode-Fits :
      (p : WsParser S) (b : ℕ) → b < 256 → Fits p → Fits (read_fin_and_opcode p b)
  unfolding read_fin_and_opcode get_rsv get_opcode
  read_fin_and_opcode-Fits p b l h = ground (arith, bit_and_rsv b l, bit_and_low_4 b l)

  switch_to_mask-Fits : (p : WsParser S) → Fits p → Fits (switch_to_mask p)
  unfolding switch_to_mask
  switch_to_mask-Fits p h = ground arith

  read_payload_len_and_mask-Fits :
      (p : WsParser S) (b : ℕ) → b < 256 → Fits p → Fits (read_payload_len_and_mask p b)
  unfolding read_payload_len_and_mask get_payload_len
  read_payload_len_and_mask-Fits p b l h = ground (arith, bit_and_low_7 b l)

  read_payload_len-Fits : (p : WsParser S) (b : ℕ) → b < 256 → Fits p → Fits (read_payload_len p b)
  unfolding read_payload_len
  read_payload_len-Fits p b l h = ground (arith, shifted_size p.frame.payload_len b l)

  read_mask_key-Fits : (p : WsParser S) (b : ℕ) → b < 256 → Fits p → Fits (read_mask_key p b)
  unfolding read_mask_key
  read_mask_key-Fits p b l h = ground (arith, IsBytes-snoc p.frame.mask_key b)

  module _ (on_complete : WsFrame → S → S) where
    unmask_byte :
        (key : List ℕ) (index b : ℕ) (out : List ℕ)
        → IsBytes key
        → IsBytes out
        → b < 256
        → (xs : List ℕ) (i : ℕ) → unmask key index (b ∷ []) out ≡ some (xs, i)
        → IsBytes xs
    unfolding unmask
    unmask_byte key index b out hk ho l xs i e = elim (Option-cases (get_elem? key index)) [
      | inl n ↦ ground arith
      | inr (k, n) ↦
          let bound : bit_xor b k < 256 = bit_xor_size b k l (get_elem?-IsBytes key index k hk n) in
          let q : out ++ (bit_xor b k ∷ []) ≡ xs = ground arith in
          subst IsBytes q (IsBytes-snoc out (bit_xor b k) ho bound)
    ]

    store-Fits :
        (p : WsParser S) (b : ℕ)
        → b < 256
        → Fits p
        → (q : WsParser S) → store p (b ∷ []) ≡ some q
        → Fits q
    unfolding store
    store-Fits p b l h q e =
        elim (Option-cases (unmask p.frame.mask_key p.mask_index (b ∷ []) p.frame.payload)) [
          | inl n ↦ ground (arith, IsBytes-snoc p.frame.payload b)
          | inr (r, n) ↦
              let g =
                unmask_byte p.frame.mask_key p.mask_index b p.frame.payload h.sizes.key_size
                  h.sizes.payload_size l r.0 r.1 n in
              ground (arith, IsBytes-snoc p.frame.payload b)
        ]

    after_store-Fits : (q : WsParser S) → Fits q → Fits (after_store on_complete q)
    unfolding after_store finish
    after_store-Fits q h = ground arith

    finish-Fits : (q : WsParser S) → Fits q → Fits (finish on_complete q)
    unfolding finish
    finish-Fits q h = ground arith

    -- The end of a byte: whatever state there is fits.
    abbrev Sound : Fed S → Type 0
    Sound (go_on q) = Fits q
    Sound (halt (returns e q)) = Fits q
    Sound (halt r) = Unit

    rejected-Fits : (p : WsParser S) → Fits p → Fits (rejected p)
    rejected-Fits p h = record { sizes = h.sizes; need = h.need }

    feed_payload-Sound :
        (p : WsParser S) (b : ℕ) → b < 256 → Fits p → Sound (feed_payload on_complete p b)
    unfolding feed_payload
    feed_payload-Sound p b l h =
        if_elim Sound (ltb limit_payload_len p.frame.payload_len) (λ e. rejected-Fits p h)
          (λ e.
            if_elim Sound (p.byte_need == 0)
              (λ z. read_fin_and_opcode-Fits (finish on_complete p) b l (finish-Fits p h))
              (λ z. at (store p (b ∷ [])) (λ q e. after_store-Fits q (store-Fits p b l h q e))))
      where
        at :
            (o : Option (WsParser S))
            → ((q : WsParser S) → o ≡ some q → Fits (after_store on_complete q))
            → Sound (elim o [ none ↦ halt undefined | some q ↦ go_on (after_store on_complete q) ])
        at none f = tt
        at (some q) f = f q refl

    feed_at-Sound :
        (s : Status) (p : WsParser S) (b : ℕ) → b < 256 → Fits p → Sound (feed_at on_complete s p b)
    unfolding feed_at
    feed_at-Sound fin_and_opcode p b l h = read_fin_and_opcode-Fits p b l h
    feed_at-Sound payload_len_and_mask p b l h = read_payload_len_and_mask-Fits p b l h
    feed_at-Sound payload_len p b l h = read_payload_len-Fits p b l h
    feed_at-Sound mask_key p b l h = read_mask_key-Fits p b l h
    feed_at-Sound payload p b l h = feed_payload-Sound p b l h
    feed_at-Sound complete p b l h = finish-Fits p h

    abbrev Ends : Outcome S → Type 0
    Ends (returns e q) = Fits q
    Ends r = Unit

    feed-Ends : (p : WsParser S) (bs : List ℕ) → IsBytes bs → Fits p → Ends (feed on_complete p bs)
    unfolding feed
    feed-Ends p [] h v = v
    feed-Ends p (b ∷ bs) h v =
        at (feed_at on_complete p.status p b) (feed_at-Sound p.status p b h.0 v)
          (λ q. feed-Ends q bs h.1)
      where
        at :
            (r : Fed S)
            → Sound r
            → ((q : WsParser S) → Fits q → Ends (feed on_complete q bs))
            → Ends (elim r [ go_on q ↦ feed on_complete q bs | halt t ↦ t ])
        at (go_on q) s ih = ih q s
        at (halt (returns e q)) s ih = s
        at (halt undefined) s ih = tt
        at (halt out_of_fuel) s ih = tt

    -- On bytes, from a valid state whose fields fit their C++ types, `parse` returns in a state whose
    -- fields fit them: 3 bits of RSV, 4 of opcode, 64 of `m_payloadLen` and of `m_byteNeed`, and
    -- bytes in the mask key and in the payload.
    pub parse-Fits :
        (p : WsParser S) (bs : List ℕ)
        → IsBytes bs
        → IsValid p
        → Fits p
        → (e : WsParseErr) × (q : WsParser S) × (parse on_complete p bs ≡ returns e q) × Fits q
    parse-Fits p bs h v f =
        let (e, q, r, s, t) = parse-Returns on_complete p bs v in
        let k : Ends (feed on_complete p bs) = feed-Ends p bs h f in
        (e, q, r, subst Ends (sym (parse-feed on_complete p bs) ∙ r) k)
