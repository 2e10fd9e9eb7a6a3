-- ===== src/Parser/Invariant.antt =====
-- What holds between any two reads, and that `parse` always returns.
use my_web_socket.Prelude.{
  ℕ, ◌+◌, ◌≤◌, ◌<◌, ◌≡◌, refl, ◌⊎◌, inl, inr, true, false, List, [], ◌∷◌, length, length-append,
  arith, get_elem?-lt,
}
use my_web_socket.Parser.{
  Status, fin_and_opcode, payload_len_and_mask, payload_len, mask_key, payload, complete, WsFrame,
  WsParser, WsParseErr, Outcome, returns, success, invalid_payload_len, unmask, store, finish,
  after_store, parse, read_fin_and_opcode, switch_to_mask, read_payload_len_and_mask,
  read_payload_len, read_mask_key,
}
use my_web_socket.Parser.Feed.{Fed, go_on, halt, feed, feed_at, feed_payload}
use my_web_socket.Parser.Refinement.{parse-feed}

module _ {S : Type 0} where
  -- What `m_byteNeed` and the mask key are in each state. `complete` is never kept.
  abbrev pub Agrees : Status → WsParser S → Type 0
  Agrees fin_and_opcode p = Unit
  Agrees payload_len_and_mask p = Unit
  Agrees payload_len p = (0 < p.byte_need) × (p.byte_need ≤ 8)
  Agrees mask_key p =
      (p.frame.mask ≡ true) × (0 < p.byte_need) × (p.byte_need + length p.frame.mask_key ≡ 4)
  Agrees payload p =
      (p.byte_need ≤ p.frame.payload_len) × ((p.frame.mask ≡ false) ⊎ (length p.frame.mask_key ≡ 4))
  Agrees complete p = ⊥

  pub record IsValid (p : WsParser S) : Type 0 where
    pub agrees : Agrees p.status p
    pub index : p.mask_index < 4

  read_fin_and_opcode-IsValid :
      (p : WsParser S) (b : ℕ) → IsValid p → IsValid (read_fin_and_opcode p b)
  unfolding read_fin_and_opcode
  read_fin_and_opcode-IsValid p b v = record { agrees = tt; index = v.index }

  switch_to_mask-IsValid : (p : WsParser S) → p.mask_index < 4 → IsValid (switch_to_mask p)
  unfolding switch_to_mask
  switch_to_mask-IsValid p v = ground arith

  read_payload_len_and_mask-IsValid :
      (p : WsParser S) (b : ℕ) → IsValid p → IsValid (read_payload_len_and_mask p b)
  unfolding read_payload_len_and_mask
  read_payload_len_and_mask-IsValid p b v = ground arith

  read_payload_len-IsValid :
      (p : WsParser S) (b : ℕ) → p.status ≡ payload_len → IsValid p → IsValid (read_payload_len p b)
  unfolding read_payload_len
  read_payload_len-IsValid p b e v = ground arith

  read_mask_key-IsValid :
      (p : WsParser S) (b : ℕ) → p.status ≡ mask_key → IsValid p → IsValid (read_mask_key p b)
  unfolding read_mask_key
  read_mask_key-IsValid p b e v = ground (arith, length-append p.frame.mask_key (b ∷ []))

  module _ (on_complete : WsFrame → S → S) where
    -- The outcome of a byte: a valid state, or the one error that `parse` has.
    abbrev Sound : Fed S → Type 0
    Sound (go_on q) = IsValid q
    Sound (halt (returns invalid_payload_len q)) = IsValid q
    Sound (halt r) = ⊥

    feed_payload-Sound :
        (p : WsParser S) (b : ℕ)
        → p.status ≡ payload
        → IsValid p
        → Sound (feed_payload on_complete p b)
    unfolding feed_payload store unmask after_store finish read_fin_and_opcode
    feed_payload-Sound p b e v = ground (arith, get_elem?-lt p.frame.mask_key p.mask_index)

    feed_at-Sound :
        (s : Status) (p : WsParser S) (b : ℕ)
        → p.status ≡ s
        → IsValid p
        → Sound (feed_at on_complete s p b)
    unfolding feed_at
    feed_at-Sound fin_and_opcode p b e v = read_fin_and_opcode-IsValid p b v
    feed_at-Sound payload_len_and_mask p b e v = read_payload_len_and_mask-IsValid p b v
    feed_at-Sound payload_len p b e v = read_payload_len-IsValid p b e v
    feed_at-Sound mask_key p b e v = read_mask_key-IsValid p b e v
    feed_at-Sound payload p b e v = feed_payload-Sound p b e v
    feed_at-Sound complete p b e v = ground arith

    abbrev pub Returns : Outcome S → Type 0
    Returns r =
        (e : WsParseErr) × (q : WsParser S) × (r ≡ returns e q)
        × ((e ≡ success) ⊎ (e ≡ invalid_payload_len))
        × IsValid q

    feed-Returns : (p : WsParser S) (bs : List ℕ) → IsValid p → Returns (feed on_complete p bs)
    unfolding feed
    feed-Returns p [] v = (success, p, refl, inl refl, v)
    feed-Returns p (b ∷ bs) v =
        at (feed_at on_complete p.status p b) refl (feed_at-Sound p.status p b refl v)
          (λ q. feed-Returns q bs)
      where
        at :
            (r : Fed S)
            → feed_at on_complete p.status p b ≡ r
            → Sound r
            → ((q : WsParser S) → IsValid q → Returns (feed on_complete q bs))
            → Returns (feed on_complete p (b ∷ bs))
        at (go_on q) e s ih = rw (e, feed) (ih q s)
        at (halt (returns invalid_payload_len q)) e s ih =
            rw (e, feed) (invalid_payload_len, q, refl, inr refl, s)
        at (halt r) e s ih = absurd s

    -- From a valid state `parse` returns on any bytes: SUCCESS in a valid state, or
    -- INVALID_PAYLOAD_LEN in a valid state. It neither reads beyond the mask key nor uses up its
    -- fuel.
    pub parse-Returns :
        (p : WsParser S) (bs : List ℕ) → IsValid p → Returns (parse on_complete p bs)
    parse-Returns p bs v = rw (parse-feed on_complete p bs) (feed-Returns p bs v)

  -- The owner plays no part in it.
  pub IsValid-owner : (p : WsParser S) (s : S) → IsValid p → IsValid (record p { owner = s })
  IsValid-owner p s v = record { agrees = at p.status v.agrees; index = v.index }
    where
      at : (st : Status) → Agrees st p → Agrees st (record p { owner = s })
      at fin_and_opcode a = tt
      at payload_len_and_mask a = tt
      at payload_len a = a
      at mask_key a = a
      at payload a = a
      at complete a = a
