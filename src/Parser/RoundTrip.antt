-- ===== src/Parser/RoundTrip.antt =====
-- `parse` on the frames that a peer encodes.
use my_web_socket.Prelude.{
  ℕ, ◌≤◌, ◌<◌, ◌≡◌, refl, sym, ap, subst, ◌∙◌, false, not, List, [], ◌∷◌, ◌++◌, length, arith,
  append_assoc, append-nil, if◌then◌else◌,
}
use my_web_socket.Parser.{
  fin_and_opcode, payload_len_and_mask, payload, WsFrame, WsParser, returns, success,
  invalid_payload_len, finish, limit_payload_len, parse, rejected,
}
use my_web_socket.Parser.Feed.{feed, feed_at, feed_payload}
use my_web_socket.Parser.Refinement.{parse-feed}
use my_web_socket.Parser.Encode.{
  Masking, Fragment, IsFragment, has_mask, key_bytes, mask_payload, encode, first_byte,
  len_extension,
}
use my_web_socket.Parser.Header.{
  opened, feed-cons, feed-length, keyed, feed-key, read_fin_and_opcode-first_byte,
}
use my_web_socket.Parser.Payload.{filled, feed-mask_payload, length-mask_payload}

with_payload : (f : Fragment) (ys : List ℕ) → f.payload ≡ ys → record f { payload = ys } ≡ f
with_payload f ys e i = record f { payload = sym e i }

module _ {S : Type 0} where
  -- Between two frames.
  pub record IsReady (p : WsParser S) : Type 0 where
    pub at_start : p.status ≡ fin_and_opcode
    pub index : p.mask_index ≡ 0

  -- The frame that a peer's frame makes of the one that the parser holds: a frame that begins a
  -- message replaces the payload, any other is joined to it.
  abbrev pub received : WsParser S → Fragment → WsFrame
  received p f =
      let o = opened p f in
      record o {
        mask = has_mask f.masking;
        payload_len = length f.payload;
        mask_key = if has_mask f.masking then key_bytes f.masking else o.mask_key;
        payload = o.payload ++ f.payload;
      }

  module _ (on_complete : WsFrame → S → S) where
    -- The state after a frame: the callback has run if the frame is a last one.
    unfoldable pub delivered : WsParser S → Fragment → WsParser S
    delivered p f = record {
      status = fin_and_opcode;
      byte_need = 0;
      frame = received p f;
      is_continuation = not f.fin;
      mask_index = 0;
      owner = if f.fin then on_complete (received p f) p.owner else p.owner;
    }

    -- The state after a frame's header.
    abbrev pub headed : WsParser S → Fragment → WsParser S
    headed p f =
        keyed on_complete (record p { frame = opened p f; status = payload_len_and_mask }) f.masking
          (length f.payload)

    feed-header :
        (p : WsParser S) (f : Fragment) (rest : List ℕ)
        → p.status ≡ fin_and_opcode
        → IsFragment f
        → feed on_complete p (encode f ++ rest)
          ≡ feed on_complete (headed p f) (mask_payload f.masking f.payload ++ rest)
    unfolding encode feed_at
    feed-header p f rest s v =
        let n = length f.payload in
        let body = mask_payload f.masking f.payload in
        let p' = record p { frame = opened p f; status = payload_len_and_mask } in
        let regroup : (len_extension n ++ (key_bytes f.masking ++ body)) ++ rest
            ≡ len_extension n ++ (key_bytes f.masking ++ (body ++ rest)) =
          simp append_assoc in
        feed-cons on_complete fin_and_opcode p _ (first_byte f) _ s refl
        ∙ rw (read_fin_and_opcode-first_byte p f v, regroup)
            (feed-length on_complete p' f.masking n (key_bytes f.masking ++ (body ++ rest)) refl
              v.length_fits)
        ∙ feed-key on_complete p' f.masking n (body ++ rest)

    opened_fin : (p : WsParser S) (f : Fragment) → (opened p f).fin ≡ f.fin
    opened_fin p f = ground arith

    finish-filled :
        (p : WsParser S) (f : Fragment)
        → finish on_complete (filled (headed p f) f.payload 0) ≡ delivered p f
    unfolding finish delivered
    finish-filled p f = rw (opened_fin p f) (ground arith)

    feed-encode_cons :
        (p : WsParser S) (g : Fragment) (x : ℕ) (xs rest : List ℕ)
        → let f = record g { payload = x ∷ xs } in
          IsReady p
          → IsFragment f
          → length f.payload ≤ limit_payload_len
          → feed on_complete p (encode f ++ rest) ≡ feed on_complete (delivered p f) rest
    feed-encode_cons p g x xs rest r v l =
        let f = record g { payload = x ∷ xs } in
        feed-header p f rest r.at_start v
        ∙ feed-mask_payload on_complete (headed p f) f.masking x xs rest refl refl (λ h. rw h refl)
            r.index refl l v.key_fits v.payload_fits
        ∙ ap (λ (q : WsParser S). feed on_complete q rest) (finish-filled p f)

    feed-pending :
        (p : WsParser S) (b : ℕ) (bs : List ℕ)
        → p.status ≡ payload
        → p.byte_need ≡ 0
        → p.frame.payload_len ≡ 0
        → feed on_complete p (b ∷ bs) ≡ feed on_complete (finish on_complete p) (b ∷ bs)
    unfolding feed feed_at feed_payload finish
    feed-pending p b bs s n l = ground arith

    finish-headed :
        (p : WsParser S) (g : Fragment)
        → finish on_complete (headed p (record g { payload = [] }))
          ≡ delivered p (record g { payload = [] })
    unfolding finish
    finish-headed p g =
        let f = record g { payload = [] } in
        ground (arith, append-nil (opened p f).payload, finish-filled p f)

    mask_payload-nil : (m : Masking) → mask_payload m [] ≡ []
    mask_payload-nil m = nil_of_length (mask_payload m []) (length-mask_payload m [])
      where
        nil_of_length : (ys : List ℕ) → length ys ≡ 0 → ys ≡ []
        nil_of_length [] h = refl
        nil_of_length (y ∷ ys) h = absurd (omega arith)

    feed-header_nil :
        (p : WsParser S) (g : Fragment) (rest : List ℕ)
        → let f = record g { payload = [] } in
          IsReady p
          → IsFragment f
          → feed on_complete p (encode f ++ rest) ≡ feed on_complete (headed p f) rest
    feed-header_nil p g rest r v =
        let f = record g { payload = [] } in
        feed-header p f rest r.at_start v
        ∙ ap (λ (ys : List ℕ). feed on_complete (headed p f) (ys ++ rest))
            (mask_payload-nil g.masking)

    feed-encode_nil :
        (p : WsParser S) (g : Fragment) (b : ℕ) (rest : List ℕ)
        → let f = record g { payload = [] } in
          IsReady p
          → IsFragment f
          → feed on_complete p (encode f ++ (b ∷ rest))
            ≡ feed on_complete (delivered p f) (b ∷ rest)
    feed-encode_nil p g b rest r v =
        let f = record g { payload = [] } in
        feed-header_nil p g (b ∷ rest) r v
        ∙ feed-pending (headed p f) b rest refl refl refl
        ∙ ap (λ (q : WsParser S). feed on_complete q (b ∷ rest)) (finish-headed p g)

    pub delivered-IsReady : (p : WsParser S) (f : Fragment) → IsReady (delivered p f)
    unfolding delivered
    delivered-IsReady p f = record { at_start = refl; index = refl }

    -- At the start of a frame, the encoding of a well-formed frame whose payload is neither empty
    -- nor over the limit is consumed to its last byte and delivered: parsing it and any further
    -- bytes is parsing those bytes from the state after delivery.
    pub parse-encode :
        (p : WsParser S) (f : Fragment) (rest : List ℕ)
        → IsReady p
        → IsFragment f
        → 0 < length f.payload
        → length f.payload ≤ limit_payload_len
        → parse on_complete p (encode f ++ rest) ≡ parse on_complete (delivered p f) rest
    parse-encode p f rest r v n l = simp parse-feed (at f.payload refl)
      where
        at :
            (ys : List ℕ)
            → f.payload ≡ ys
            → feed on_complete p (encode f ++ rest) ≡ feed on_complete (delivered p f) rest
        at [] e = absurd (omega (arith, ap length e))
        at (x ∷ xs) e =
            subst
              (λ (g : Fragment).
                feed on_complete p (encode g ++ rest) ≡ feed on_complete (delivered p g) rest)
              (with_payload f (x ∷ xs) e)
              (feed-encode_cons p f x xs rest r
                (subst IsFragment (sym (with_payload f (x ∷ xs) e)) v) (omega (arith, ap length e)))

    -- At the start of a frame, a well-formed frame with no payload: `parse` returns SUCCESS without
    -- a run of the callback, and the frame is delivered as soon as one more byte is parsed with it.
    pub parse-encode_empty :
        (p : WsParser S) (f : Fragment) (b : ℕ) (rest : List ℕ)
        → IsReady p
        → IsFragment f
        → f.payload ≡ []
        → ((q : WsParser S) × (parse on_complete p (encode f) ≡ returns success q)
            × (q.owner ≡ p.owner))
          × (parse on_complete p (encode f ++ (b ∷ rest))
              ≡ parse on_complete (delivered p f) (b ∷ rest))
    parse-encode_empty p f b rest r v e =
        let path = with_payload f [] e in
        let v' = subst IsFragment (sym path) v in
        let g = record f { payload = [] } in
        (
          (
            headed p g,
            rw (parse-feed on_complete p (encode f)) (
                subst
                  (λ (g' : Fragment). feed on_complete p (encode g') ≡ returns success (headed p g))
                  path
                  (ap (feed on_complete p) (sym (append-nil (encode g)))
                    ∙ feed-header_nil p f [] r v'
                    ∙ unfold feed in refl)),
            refl,
          ),
          simp parse-feed (
              subst
                (λ (g : Fragment).
                  feed on_complete p (encode g ++ (b ∷ rest))
                  ≡ feed on_complete (delivered p g) (b ∷ rest))
                path (feed-encode_nil p f b rest r v')),
        )

    -- At the start of a frame, a well-formed frame with a payload over the limit, whatever follows:
    -- `parse` returns INVALID_PAYLOAD_LEN, the callback has not run, and the parser is at the start
    -- of a frame outside a continued message.
    pub parse-encode_too_long :
        (p : WsParser S) (f : Fragment) (rest : List ℕ)
        → IsReady p
        → IsFragment f
        → limit_payload_len < length f.payload
        → (q : WsParser S) × (parse on_complete p (encode f ++ rest)
            ≡ returns invalid_payload_len q)
          × (q.owner ≡ p.owner)
          × (q.status ≡ fin_and_opcode)
          × (q.is_continuation ≡ false)
    parse-encode_too_long p f rest r v l = (
      rejected (headed p f),
      simp parse-feed (
          feed-header p f rest r.at_start v
          ∙ at (mask_payload f.masking f.payload) (length-mask_payload f.masking f.payload)),
      refl,
      refl,
      refl,
    )
      where
        at :
            (ys : List ℕ)
            → length ys ≡ length f.payload
            → feed on_complete (headed p f) (ys ++ rest)
              ≡ returns invalid_payload_len (rejected (headed p f))
        at [] h = absurd (omega arith)
        at (y ∷ ys) h = unfold feed feed_at feed_payload in ground arith
