-- ===== src/Parser/Owner.antt =====
-- What the callback keeps is kept by `parse`.
use my_web_socket.Prelude.{◌∙◌, sym, subst, ltb, ◌==◌, inl, inr, Bool-cases}
use my_web_socket.Prelude.{
  ℕ, ◌≡◌, refl, Bool, true, false, Option, none, some, List, [], ◌∷◌, arith, if◌then◌else◌,
}
use my_web_socket.Parser.{
  Status, fin_and_opcode, payload_len_and_mask, payload_len, mask_key, payload, complete, WsFrame,
  WsParser, WsParseErr, Outcome, returns, undefined, parse, store, finish, after_store,
  read_fin_and_opcode, read_payload_len_and_mask, read_payload_len, read_mask_key, switch_to_mask,
}
use my_web_socket.Parser.{limit_payload_len}
use my_web_socket.Parser.Feed.{Fed, go_on, halt, feed, feed_at, feed_payload}
use my_web_socket.Parser.Refinement.{parse-feed}

module _ {S : Type 0} (on_complete : WsFrame → S → S) (P : S → Type 0) where
  abbrev Owns : Outcome S → Type 0
  Owns (returns e q) = P q.owner
  Owns _ = Unit

  abbrev OwnsFed : Fed S → Type 0
  OwnsFed (go_on q) = P q.owner
  OwnsFed (halt r) = Owns r

  module _ (keep : (f : WsFrame) (s : S) → P s → P (on_complete f s)) where
    finish-owner : (p : WsParser S) → P p.owner → P (finish on_complete p).owner
    unfolding finish
    finish-owner p h = at p.frame.fin
      where
        at :
            (b : Bool)
            → P
                (if b
                  then record p {
                    status = fin_and_opcode;
                    byte_need = 0;
                    mask_index = 0;
                    is_continuation = false;
                    owner = on_complete p.frame p.owner;
                  }
                  else record p {
                    status = fin_and_opcode;
                    byte_need = 0;
                    mask_index = 0;
                    is_continuation = true;
                  }).owner
        at true = keep p.frame p.owner h
        at false = h

    header-owner :
        (p : WsParser S) (b : ℕ)
        → ((read_fin_and_opcode p b).owner ≡ p.owner)
          × ((read_payload_len_and_mask p b).owner ≡ p.owner)
          × ((read_payload_len p b).owner ≡ p.owner)
          × ((read_mask_key p b).owner ≡ p.owner)
    unfolding read_fin_and_opcode read_payload_len_and_mask read_payload_len read_mask_key
        switch_to_mask
    header-owner p b = (ground arith, ground arith, ground arith, ground arith)

    store-owner : (p q : WsParser S) (c : List ℕ) → store p c ≡ some q → q.owner ≡ p.owner
    unfolding store
    store-owner p q c h = ground arith

    feed_payload-owner :
        (p : WsParser S) (b : ℕ) → P p.owner → OwnsFed (feed_payload on_complete p b)
    unfolding feed_payload after_store
    feed_payload-owner p b h = elim (Bool-cases (ltb limit_payload_len p.frame.payload_len)) [
      | inl e ↦ rw (e, feed_payload) h
      | inr e ↦ elim (Bool-cases (p.byte_need == 0)) [
        | inl n ↦
            rw (e, n, feed_payload)
              (rw ((header-owner (finish on_complete p) b).0) (finish-owner p h))
        | inr n ↦ rw (e, n, feed_payload) (at (store p (b ∷ [])) refl)
      ]
    ]
      where
        at :
            (o : Option (WsParser S))
            → store p (b ∷ []) ≡ o
            → OwnsFed
                (elim o [ none ↦ halt undefined | some q ↦ go_on (after_store on_complete q) ])
        at none e = tt
        at (some q) e = elim (Bool-cases (q.byte_need == 0)) [
          | inl n ↦ rw (n, after_store) (finish-owner q (rw (store-owner p q (b ∷ []) e) h))
          | inr n ↦ rw (n, after_store) (rw (store-owner p q (b ∷ []) e) h)
        ]

    feed_at-owner :
        (s : Status) (p : WsParser S) (b : ℕ) → P p.owner → OwnsFed (feed_at on_complete s p b)
    unfolding feed_at
    feed_at-owner fin_and_opcode p b h = rw ((header-owner p b).0) h
    feed_at-owner payload_len_and_mask p b h = rw ((header-owner p b).1) h
    feed_at-owner payload_len p b h = rw ((header-owner p b).2) h
    feed_at-owner mask_key p b h = rw ((header-owner p b).3) h
    feed_at-owner payload p b h = feed_payload-owner p b h
    feed_at-owner complete p b h = finish-owner p h

    feed-owner : (p : WsParser S) (bs : List ℕ) → P p.owner → Owns (feed on_complete p bs)
    unfolding feed
    feed-owner p [] h = h
    feed-owner p (b ∷ bs) h =
        at (feed_at on_complete p.status p b) refl (feed_at-owner p.status p b h)
          (λ q. feed-owner q bs)
      where
        at :
            (r : Fed S)
            → feed_at on_complete p.status p b ≡ r
            → OwnsFed r
            → ((q : WsParser S) → P q.owner → Owns (feed on_complete q bs))
            → Owns (feed on_complete p (b ∷ bs))
        at (go_on q) e o ih = rw (e, feed) (ih q o)
        at (halt r) e o ih = rw (e, feed) o

    -- Whatever the callback keeps of the owner's state, `parse` keeps.
    pub parse-owner :
        (p : WsParser S) (bs : List ℕ) {e : WsParseErr} {q : WsParser S}
        → P p.owner
        → parse on_complete p bs ≡ returns e q
        → P q.owner
    parse-owner p bs h r = subst Owns (sym (parse-feed on_complete p bs) ∙ r) (feed-owner p bs h)
