-- ===== src/WebSocket/Frames.antt =====
-- What a session makes of one read of whole frames.
use my_web_socket.Prelude.{
  ℕ, suc, ◌<◌, ◌≡◌, ◌≢◌, refl, ap, ◌∙◌, true, false, some, List, [], ◌++◌, length, arith, ◌==◌,
}
use my_web_socket.Parser.{WsFrame, WsParser, limit_payload_len}
use my_web_socket.Parser.Encode.{Fragment, IsFragment, has_mask, encode}
use my_web_socket.Parser.RoundTrip.{
  IsReady, received, delivered, delivered-IsReady, parse-encode, parse-encode_too_long,
}
use my_web_socket.Parser.Messages.{IsPlain}
use my_web_socket.WebSocket.{
  WsSession, open_, closed, Callbacks, recv_cb, handle_ws_frame, inter_close, after_error,
  message_callback, send_pong, ws_pong, ws_ping, ws_close, run, ws_callback, call_on_error,
}
use my_web_socket.WebSocket.Header.{sent}
use my_web_socket.WebSocket.Sending.{Writes, send_pong-Writes}
use my_web_socket.WebSocket.Closing.{inter_close-state, closes, inter_close-closes}
use my_web_socket.WebSocket.Receiving.{
  handle_success, handle_failure, recv_open, parse_one, delivered_owner, delivered_continuation,
  recv_cb-encode,
}

module _ (cb : Callbacks) where
  -- The frame dispatch, with the branches that a frame does not take out of the way.
  ==_false : (a b : ℕ) → a ≢ b → (a == b) ≡ false
  ==_false a b n = ground arith

  handle_message_frame :
      (g : WsFrame) (s : WsSession)
      → g.mask ≡ true
      → g.opcode < 8
      → handle_ws_frame cb g s ≡ message_callback cb cb.on_message g s
  unfolding handle_ws_frame
  handle_message_frame g s m k =
      rw
        (
          handle_ws_frame,
          m,
          ==_false g.opcode ws_pong (omega arith),
          ==_false g.opcode ws_ping (omega arith),
          ==_false g.opcode ws_close (omega arith),
        )
        refl

  handle_ping_frame :
      (g : WsFrame) (s : WsSession)
      → g.mask ≡ true
      → g.opcode ≡ ws_ping
      → handle_ws_frame cb g s ≡ send_pong s
  unfolding handle_ws_frame
  handle_ping_frame g s m k = rw (handle_ws_frame, m, k) refl

  handle_close_frame :
      (g : WsFrame) (s : WsSession)
      → g.mask ≡ true
      → g.opcode ≡ ws_close
      → handle_ws_frame cb g s ≡ inter_close cb s
  unfolding handle_ws_frame
  handle_close_frame g s m k = rw (handle_ws_frame, m, k) refl

  -- An unmasked frame is refused: the error callback runs and the session is closed.
  handle_unmasked_frame :
      (g : WsFrame) (s : WsSession)
      → g.mask ≡ false
      → handle_ws_frame cb g s ≡ inter_close cb (ws_callback cb.on_error call_on_error (run cb) s)
  unfolding handle_ws_frame
  handle_unmasked_frame g s m = rw (handle_ws_frame, m) refl

  opened_opcode :
      (p : WsParser WsSession) (f : Fragment)
      → p.is_continuation ≡ false
      → f.opcode ≢ 0
      → ((received p f).opcode ≡ f.opcode) × ((received p f).payload ≡ f.payload)
  opened_opcode p f c z = (ground arith, ground arith)

  -- In an open session at the start of a frame outside a continued message, a read of one masked
  -- FIN frame with a data opcode other than 0 and a payload neither empty nor over the limit:
  -- `recv_cb` ends, and what it did to the session is to run the message callback on a frame with
  -- that payload and opcode. The parser is again at the start of a frame.
  pub recv_cb_message :
      (p : WsParser WsSession) (f : Fragment)
      → IsReady p
      → IsPlain f
      → p.owner.ready_state ≡ open_
      → p.is_continuation ≡ false
      → f.fin ≡ true
      → has_mask f.masking ≡ true
      → f.opcode ≢ 0
      → f.opcode < 8
      → (q : WsParser WsSession) × (g : WsFrame) × (recv_cb cb (some (encode f)) p ≡ some q)
        × (q.owner ≡ message_callback cb cb.on_message g p.owner)
        × (g.payload ≡ f.payload)
        × (g.opcode ≡ f.opcode)
        × IsReady q
  unfolding delivered
  recv_cb_message p f r h o c e m z k = (
    _,
    received p f,
    recv_cb-encode cb p f r h o e,
    handle_message_frame (received p f) p.owner m (omega (arith, (opened_opcode p f c z).0)),
    ground arith,
    ground arith,
    record { at_start = refl; index = refl },
  )

  -- In an open session at the start of a frame outside a continued message, a read of one masked
  -- FIN ping with a payload neither empty nor over the limit adds one write to the session's log,
  -- of the encoding of a pong with an empty payload.
  pub recv_cb_ping :
      (p : WsParser WsSession) (f : Fragment)
      → IsReady p
      → IsPlain f
      → p.owner.ready_state ≡ open_
      → p.is_continuation ≡ false
      → f.fin ≡ true
      → has_mask f.masking ≡ true
      → f.opcode ≡ ws_ping
      → (q : WsParser WsSession) × (recv_cb cb (some (encode f)) p ≡ some q)
        × Writes p.owner (encode (sent ws_pong [])) q.owner
  recv_cb_ping p f r h o c e m k = (
    _,
    recv_cb-encode cb p f r h o e,
    rw
        (handle_ping_frame (received p f) p.owner m
          ((opened_opcode p f c (λ z. absurd (omega (arith, z, k)))).0 ∙ k))
        (send_pong-Writes p.owner),
  )

  -- In an open session at the start of a frame, a read of one unmasked FIN frame with a payload
  -- neither empty nor over the limit runs the error callback, if one is set, and then
  -- `inter_close`, on the session as it was; it is CLOSED after.
  pub recv_cb_unmasked :
      (p : WsParser WsSession) (f : Fragment)
      → IsReady p
      → IsPlain f
      → p.owner.ready_state ≡ open_
      → f.fin ≡ true
      → has_mask f.masking ≡ false
      → (q : WsParser WsSession) × (recv_cb cb (some (encode f)) p ≡ some q)
        × (q.owner ≡ inter_close cb (ws_callback cb.on_error call_on_error (run cb) p.owner))
        × (q.owner.ready_state ≡ closed)
  recv_cb_unmasked p f r h o e m =
      let handled = handle_unmasked_frame (received p f) p.owner m in
      (_, recv_cb-encode cb p f r h o e, handled, rw handled (inter_close-state cb _))

  -- In an open session at the start of a frame, a read that begins with a well-formed frame over
  -- the limit runs the error callback, if one is set, and then `inter_close`, on the session as it
  -- was; it is CLOSED after.
  pub recv_cb_too_long :
      (p : WsParser WsSession) (f : Fragment) (rest : List ℕ)
      → IsReady p
      → IsFragment f
      → limit_payload_len < length f.payload
      → p.owner.ready_state ≡ open_
      → (q : WsParser WsSession) × (recv_cb cb (some (encode f ++ rest)) p ≡ some q)
        × (q.owner ≡ inter_close cb (ws_callback cb.on_error call_on_error (run cb) p.owner))
        × (q.owner.ready_state ≡ closed)
  recv_cb_too_long p f rest r v l o =
      let t = parse-encode_too_long (handle_ws_frame cb) p f rest r v l in
      (
        after_error cb t.0,
        recv_open cb p (encode f ++ rest) o ∙ handle_failure cb p t.0 (encode f ++ rest) t.1,
        rw t.2 refl,
        inter_close-state cb _,
      )

  -- In an open session at the start of a frame outside a continued message, a read of two masked
  -- FIN close frames with payloads neither empty nor over the limit closes the handle twice.
  pub recv_cb_close_twice :
      (p : WsParser WsSession) (f g : Fragment)
      → IsReady p
      → IsPlain f
      → IsPlain g
      → p.owner.ready_state ≡ open_
      → p.is_continuation ≡ false
      → f.fin ≡ true
      → g.fin ≡ true
      → has_mask f.masking ≡ true
      → has_mask g.masking ≡ true
      → f.opcode ≡ ws_close
      → g.opcode ≡ ws_close
      → (q : WsParser WsSession) × (recv_cb cb (some (encode f ++ encode g)) p ≡ some q)
        × (closes q.owner.log ≡ suc (suc (closes p.owner.log)))
  recv_cb_close_twice p f g r hf hg o c ef eg mf mg kf kg =
      let h = handle_ws_frame cb in
      let p' = delivered h p f in
      let ready = delivered-IsReady h p f in
      let first =
        handle_close_frame (received p f) p.owner mf
          ((opened_opcode p f c (λ z. absurd (omega (arith, z, kf)))).0 ∙ kf) in
      let second = handle_close_frame (received p' g) p'.owner mg (
        (opened_opcode p' g (delivered_continuation cb p f ef)
          (λ z. absurd (omega (arith, z, kg)))).0
        ∙ kg) in
      let parsed =
        parse-encode h p f (encode g) r hf.is_fragment hf.not_empty hf.not_long
        ∙ parse_one cb p' g ready hg in
      (
        delivered h p' g,
        recv_open cb p (encode f ++ encode g) o
            ∙ handle_success cb p _ (encode f ++ encode g) parsed,
        ap (λ (s : WsSession). closes s.log) (delivered_owner cb p' g eg ∙ second)
            ∙ inter_close-closes cb p'.owner
            ∙ ap (λ (s : WsSession). suc (closes s.log)) (delivered_owner cb p f ef ∙ first)
            ∙ ap suc (inter_close-closes cb p.owner),
      )
