-- ===== src/Parser/Refinement.antt =====
-- The loop of `parse`, with its chunks and its fuel, computes what the byte-wise parser does.
use my_web_socket.Prelude.{
  ℕ, zero, suc, ◌+◌, ◌-◌, ◌*◌, ◌≤◌, ◌<◌, min, ◌≡◌, refl, sym, ap, ◌∙◌, inl, inr, false, Option,
  none, some, List, [], ◌∷◌, ◌++◌, length, take, drop, ltb, ◌==◌, ==_iff, append_assoc, append-nil,
  take-append-drop, length-take, length-drop, arith, Bool-cases, Option-cases,
}
use my_web_socket.Parser.{
  Status, fin_and_opcode, payload_len_and_mask, payload_len, mask_key, payload, complete, WsFrame,
  WsParser, Outcome, returns, undefined, success, limit_payload_len, unmask, store, finish,
  after_store, loop, parse,
}
use my_web_socket.Parser.Feed.{Fed, go_on, halt, feed, feed_at, feed_payload}

module _ {S : Type 0} where
  abbrev then_store : Option (WsParser S) → List ℕ → Option (WsParser S)
  then_store none c = none
  then_store (some q) c = store q c

  -- A chunk is stored byte by byte.
  store-cons :
      (p : WsParser S) (b : ℕ) (c : List ℕ) → store p (b ∷ c) ≡ then_store (store p (b ∷ [])) c
  unfolding store unmask
  store-cons p b c = ground (arith, append_assoc p.frame.payload (b ∷ []) c)

  -- The fields that a stored chunk leaves as they were, and the bytes still to come.
  pub store_frame :
      (p q : WsParser S) (c : List ℕ)
      → store p c ≡ some q
      → (q.status ≡ p.status)
        × (q.frame.payload_len ≡ p.frame.payload_len)
        × (q.byte_need ≡ p.byte_need - length c)
  unfolding store
  store_frame p q c h = ground arith

  store-nil : (p : WsParser S) → p.byte_need ≡ 0 → store p [] ≡ some p
  unfolding store unmask
  store-nil p h = ground (arith, append-nil p.frame.payload)

  module _ (on_complete : WsFrame → S → S) where
    abbrev pub stored : Option (WsParser S) → List ℕ → Outcome S
    stored none rest = undefined
    stored (some q) rest = feed on_complete (after_store on_complete q) rest

    -- While the payload wants bytes, feeding a chunk of it is storing the chunk.
    pub feed-append_chunk :
        (p : WsParser S) (b : ℕ) (c rest : List ℕ)
        → p.status ≡ payload
        → ltb limit_payload_len p.frame.payload_len ≡ false
        → length c < p.byte_need
        → feed on_complete p (b ∷ (c ++ rest)) ≡ stored (store p (b ∷ c)) rest
    unfolding feed feed_at feed_payload
    feed-append_chunk p b [] rest s l n = ground arith
    feed-append_chunk p b (x ∷ c) rest s l n = elim (Option-cases (store p (b ∷ []))) [
      | inl e ↦ rw (store-cons p b (x ∷ c)) (ground arith)
      | inr (q, e) ↦
          let same = store_frame p q (b ∷ []) e in
          let first : feed on_complete p (b ∷ (x ∷ c ++ rest))
              ≡ feed on_complete q (x ∷ c ++ rest) =
            unfold after_store in ground arith in
          first
          ∙ feed-append_chunk q x c rest (same.0 ∙ s) (rw same.1 l) (omega arith)
          ∙ sym (rw (store-cons p b (x ∷ c), e) refl)
    ]

    -- A round that reads no byte is possible in the state `payload` only.
    abbrev waiting : Status → ℕ
    waiting payload = 1
    waiting _ = 0

    waiting-le-one : (s : Status) → waiting s ≤ 1
    waiting-le-one payload = omega arith
    waiting-le-one _ = omega arith

    abbrev Refines : ℕ → Type 0
    Refines fuel =
        (q : WsParser S) (rest : List ℕ)
        → length rest + length rest + waiting q.status ≤ fuel
        → loop on_complete fuel q rest ≡ feed on_complete q rest

    -- The round of an empty payload: no byte is read, and the next round has the same byte.
    empty-feed :
        (fuel : ℕ) (p : WsParser S) (b : ℕ) (bs : List ℕ)
        → p.status ≡ payload
        → p.byte_need ≡ 0
        → length bs + length bs + 2 ≤ fuel
        → Refines fuel
        → loop on_complete (suc fuel) p (b ∷ bs) ≡ feed on_complete p (b ∷ bs)
    unfolding loop feed feed_at feed_payload
    empty-feed fuel p b bs s n h ih =
        ground (arith, store-nil p n, ih (finish on_complete p) (b ∷ bs))

    -- A round in the state `payload` stores all the bytes that it can.
    payload-feed :
        (fuel : ℕ) (p : WsParser S) (b : ℕ) (bs : List ℕ)
        → p.status ≡ payload
        → length bs + length bs + 2 ≤ fuel
        → 0 < p.byte_need
        → ltb limit_payload_len p.frame.payload_len ≡ false
        → Refines fuel
        → loop on_complete (suc fuel) p (b ∷ bs) ≡ feed on_complete p (b ∷ bs)
    payload-feed fuel p b bs s h n l ih = rounds ∙ resume (store p (b ∷ take k bs)) ∙ sym fed
      where
        k : ℕ
        k = min (length bs) (p.byte_need - 1)

        resumed : Option (WsParser S) → Outcome S
        resumed none = undefined
        resumed (some q) = loop on_complete fuel (after_store on_complete q) (drop k bs)

        rounds : loop on_complete (suc fuel) p (b ∷ bs) ≡ resumed (store p (b ∷ take k bs))
        rounds =
            let e : min (suc (length bs)) p.byte_need ≡ suc k = omega arith in
            unfold loop in ground (arith, e)

        resume : (o : Option (WsParser S)) → resumed o ≡ stored o (drop k bs)
        resume none = refl
        resume (some q) =
            ih _ _
              (omega (arith, length-drop k bs, waiting-le-one (after_store on_complete q).status))

        fed : feed on_complete p (b ∷ bs) ≡ stored (store p (b ∷ take k bs)) (drop k bs)
        fed =
            ap (λ (xs : List ℕ). feed on_complete p (b ∷ xs)) (sym (take-append-drop k bs))
            ∙ feed-append_chunk p b (take k bs) (drop k bs) s l (omega (arith, length-take k bs))

    loop-feed : (fuel : ℕ) → Refines fuel
    unfolding loop feed feed_at
    loop-feed zero p [] h = refl
    loop-feed zero p (b ∷ bs) h = absurd (omega arith)
    loop-feed (suc fuel) p [] h = refl
    loop-feed (suc fuel) p (b ∷ bs) h = at p.status refl (loop-feed fuel)
      where
        at :
            (s : Status)
            → p.status ≡ s
            → Refines fuel
            → loop on_complete (suc fuel) p (b ∷ bs) ≡ feed on_complete p (b ∷ bs)
        at fin_and_opcode e ih = rw (e, loop, feed) (ih _ bs (omega (arith, waiting-le-one)))
        at payload_len_and_mask e ih = rw (e, loop, feed) (ih _ bs (omega (arith, waiting-le-one)))
        at payload_len e ih = rw (e, loop, feed) (ih _ bs (omega (arith, waiting-le-one)))
        at mask_key e ih = rw (e, loop, feed) (ih _ bs (omega (arith, waiting-le-one)))
        at payload e ih = elim (Bool-cases (ltb limit_payload_len p.frame.payload_len)) [
          | inl long ↦ unfold feed_payload in rw (e, loop, feed, long) refl
          | inr l ↦ elim (Bool-cases (p.byte_need == 0)) [
            | inl n ↦ empty-feed fuel p b bs e ((==_iff _ _).0 n) (omega (arith, ap waiting e)) ih
            | inr n ↦ payload-feed fuel p b bs e (omega (arith, ap waiting e)) (ground arith) l ih
          ]
        ]
        at complete e ih = rw (e, loop, feed) (ih _ bs (omega (arith, waiting-le-one)))

    -- `parse`, with its chunks of payload and its fuel, equals on every state and input the parser
    -- that takes one byte at a time and has no fuel.
    pub parse-feed : (p : WsParser S) (bs : List ℕ) → parse on_complete p bs ≡ feed on_complete p bs
    unfolding parse feed
    parse-feed p [] = refl
    parse-feed p (b ∷ bs) =
        ground (arith, waiting-le-one p.status, loop-feed (2 * length (b ∷ bs) + 1) p (b ∷ bs))

  -- What a caller does with further bytes: nothing once `parse` has failed.
  abbrev pub and_then : Outcome S → (WsParser S → Outcome S) → Outcome S
  and_then (returns success q) k = k q
  and_then r k = r

  module _ (on_complete : WsFrame → S → S) where
    IsHalt : Outcome S → Type 0
    IsHalt r = (k : WsParser S → Outcome S) → and_then r k ≡ r

    feed_at-IsHalt :
        (s : Status) (p : WsParser S) (b : ℕ) {r : Outcome S}
        → feed_at on_complete s p b ≡ halt r
        → IsHalt r
    unfolding feed_at feed_payload IsHalt
    feed_at-IsHalt payload p b h k = ground arith
    feed_at-IsHalt fin_and_opcode p b h k = cc
    feed_at-IsHalt payload_len_and_mask p b h k = cc
    feed_at-IsHalt payload_len p b h k = cc
    feed_at-IsHalt mask_key p b h k = cc
    feed_at-IsHalt complete p b h k = cc

    feed-append :
        (p : WsParser S) (xs ys : List ℕ)
        → feed on_complete p (xs ++ ys)
          ≡ and_then (feed on_complete p xs) (λ q. feed on_complete q ys)
    unfolding feed
    feed-append p [] ys = refl
    feed-append p (x ∷ xs) ys =
        at (feed_at on_complete p.status p x) refl (λ q. feed-append q xs ys)
      where
        at :
            (r : Fed S)
            → feed_at on_complete p.status p x ≡ r
            → ((q : WsParser S)
                → feed on_complete q (xs ++ ys)
                  ≡ and_then (feed on_complete q xs) (λ q. feed on_complete q ys))
            → feed on_complete p (x ∷ (xs ++ ys))
              ≡ and_then (feed on_complete p (x ∷ xs)) (λ q. feed on_complete q ys)
        at (go_on q) e ih = rw (e, feed) (ih q)
        at (halt r) e ih =
            rw (e, feed)
              (sym (unfold IsHalt in feed_at-IsHalt p.status p x e (λ q. feed on_complete q ys)))

    -- Parsing two pieces in one read is parsing the first and, if it returns SUCCESS, the second
    -- from the state that it left: where the stream is cut into reads does not matter.
    pub parse-append :
        (p : WsParser S) (xs ys : List ℕ)
        → parse on_complete p (xs ++ ys)
          ≡ and_then (parse on_complete p xs) (λ q. parse on_complete q ys)
    parse-append p xs ys = simp (parse-feed, feed-append)
