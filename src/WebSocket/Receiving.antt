-- ===== src/WebSocket/Receiving.antt =====
-- What a session does with the bytes that it reads.
use my_web_socket.Prelude.{
  ℕ, ◌≡◌, ◌≢◌, refl, ap, ◌∙◌, sym, inl, inr, true, false, Option, none, some, List, [],
  if◌then◌else◌, append-nil, Bool-cases,
}
use my_web_socket.Parser.{WsParser, returns, success, invalid_payload_len, parse}
use my_web_socket.Parser.Encode.{Fragment, encode}
use my_web_socket.Parser.Invariant.{IsValid, IsValid-owner, Returns, parse-Returns}
use my_web_socket.Parser.RoundTrip.{IsReady, received, delivered, parse-encode}
use my_web_socket.Parser.Messages.{IsPlain}
use my_web_socket.WebSocket.{
  WsSession, WsStatus, connecting, open_, closing, closed, Callbacks, recv_cb, handle_message,
  handle_ws_frame, inter_close, after_error, is_open,
}

module _ (cb : Callbacks) where
  pub handle_success :
      (p q : WsParser WsSession) (bytes : List ℕ)
      → parse (handle_ws_frame cb) p bytes ≡ returns success q
      → handle_message cb bytes p ≡ some q
  unfolding handle_message
  handle_success p q bytes h = rw (h, handle_message) refl

  pub handle_failure :
      (p q : WsParser WsSession) (bytes : List ℕ)
      → parse (handle_ws_frame cb) p bytes ≡ returns invalid_payload_len q
      → handle_message cb bytes p ≡ some (after_error cb q)
  unfolding handle_message
  handle_failure p q bytes h = rw (h, handle_message) refl

  pub recv_open :
      (p : WsParser WsSession) (bytes : List ℕ)
      → p.owner.ready_state ≡ open_
      → recv_cb cb (some bytes) p ≡ handle_message cb bytes p
  unfolding recv_cb
  recv_open p bytes e =
      ap (λ (b : WsStatus). if is_open b then handle_message cb bytes p else some p) e

  handle_message-IsValid :
      (bytes : List ℕ) (p : WsParser WsSession)
      → IsValid p
      → (q : WsParser WsSession) × (handle_message cb bytes p ≡ some q) × IsValid q
  handle_message-IsValid bytes p v = at (parse-Returns (handle_ws_frame cb) p bytes v)
    where
      at :
          Returns (handle_ws_frame cb) (parse (handle_ws_frame cb) p bytes)
          → (q : WsParser WsSession) × (handle_message cb bytes p ≡ some q) × IsValid q
      at (e, q, r, inl h, w) = (q, handle_success p q bytes (rw h at r), w)
      at (e, q, r, inr h, w) = (
        after_error cb q,
        handle_failure p q bytes (rw h at r),
        IsValid-owner q (after_error cb q).owner w,
      )

  -- From a valid parser state `recv_cb` ends, for bytes as for an error or the end of the stream,
  -- and the parser's state is valid again.
  pub recv_cb-IsValid :
      (read : Option (List ℕ)) (p : WsParser WsSession)
      → IsValid p
      → (q : WsParser WsSession) × (recv_cb cb read p ≡ some q) × IsValid q
  unfolding recv_cb handle_message
  recv_cb-IsValid none p v = (_, refl, IsValid-owner p (inter_close cb p.owner) v)
  recv_cb-IsValid (some bytes) p v = elim (Bool-cases (is_open p.owner.ready_state)) [
    | inl o ↦ rw (o, recv_cb) (handle_message-IsValid bytes p v)
    | inr c ↦ rw (c, recv_cb) (p, refl, v)
  ]

  -- In a session that is not OPEN the bytes that arrive are dropped: `recv_cb` changes nothing.
  pub recv_cb_not_open :
      (bytes : List ℕ) (p : WsParser WsSession)
      → p.owner.ready_state ≢ open_
      → recv_cb cb (some bytes) p ≡ some p
  unfolding recv_cb
  recv_cb_not_open bytes p n = at p.owner.ready_state refl
    where
      at : (st : WsStatus) → p.owner.ready_state ≡ st → recv_cb cb (some bytes) p ≡ some p
      at open_ e = absurd (n e)
      at connecting e =
          ap (λ (b : WsStatus). if is_open b then handle_message cb bytes p else some p) e
      at closing e =
          ap (λ (b : WsStatus). if is_open b then handle_message cb bytes p else some p) e
      at closed e = ap (λ (b : WsStatus). if is_open b then handle_message cb bytes p else some p) e

  pub parse_one :
      (p : WsParser WsSession) (f : Fragment)
      → IsReady p
      → IsPlain f
      → parse (handle_ws_frame cb) p (encode f)
        ≡ returns success (delivered (handle_ws_frame cb) p f)
  parse_one p f r h =
      ap (parse (handle_ws_frame cb) p) (sym (append-nil (encode f)))
      ∙ parse-encode (handle_ws_frame cb) p f [] r h.is_fragment h.not_empty h.not_long
      ∙ unfold parse in refl

  pub delivered_owner :
      (p : WsParser WsSession) (f : Fragment)
      → f.fin ≡ true
      → (delivered (handle_ws_frame cb) p f).owner ≡ handle_ws_frame cb (received p f) p.owner
  unfolding delivered
  delivered_owner p f e = rw e refl

  pub delivered_continuation :
      (p : WsParser WsSession) (f : Fragment)
      → f.fin ≡ true
      → (delivered (handle_ws_frame cb) p f).is_continuation ≡ false
  unfolding delivered
  delivered_continuation p f e = rw e refl

  -- What one read of one whole frame comes to.
  pub recv_cb-encode :
      (p : WsParser WsSession) (f : Fragment)
      → IsReady p
      → IsPlain f
      → p.owner.ready_state ≡ open_
      → f.fin ≡ true
      → recv_cb cb (some (encode f)) p
        ≡ some (record (delivered (handle_ws_frame cb) p f) {
          owner = handle_ws_frame cb (received p f) p.owner;
        })
  unfolding recv_cb handle_message delivered
  recv_cb-encode p f r h o e =
      recv_open p (encode f) o ∙ handle_success p _ (encode f) (parse_one p f r h) ∙ rw e refl
