-- ===== src/WsServer/Sessions.antt =====
-- What every event keeps of a session: a rule for properties of `WsSession`, and its two uses, that
-- a closed session stays closed and that a session asks to be removed when it closes.
use my_web_socket.Prelude.{
  if_elim, ℕ, ◌<◌, ◌≡◌, refl, ◌∙◌, ◌⊎◌, inl, inr, Bool, true, false, Bool-cases, Option, none, some,
  List, [], ◌∷◌, arith, ◌==◌,
}
use my_web_socket.Parser.{WsFrame, WsParser, parse}
use my_web_socket.Parser.Invariant.{IsValid, IsValid-owner, Returns, parse-Returns}
use my_web_socket.Parser.Owner.{parse-owner}
use my_web_socket.FileReader.{FileReader}
use my_web_socket.WebSocket.{
  WsSession, open_, closed, Effect, remove_ws_session, call_on_close, call_on_error,
  call_on_message, Call, close_, send_, send_file_, Callbacks, emit, is_closed, is_open, inter_send,
  send, send_pong, send_file, file_closed, run_closed, ws_callback, inter_close, close, run,
  message_callback, handle_ws_frame, after_error, handle_message, recv_cb, write_cb, ws_ping,
  ws_pong, ws_close,
}
use my_web_socket.WebSocket.Receiving.{handle_success, handle_failure}
use my_web_socket.WebSocket.Closing.{inter_close-state}
use my_web_socket.WsServer.{
  removals, SessionEvent, received, called, written, file_ended, session_step,
}

-- What is no removal and no message.
abbrev pub IsQuiet : Effect → Type 0
IsQuiet remove_ws_session = ⊥
IsQuiet (call_on_message f) = ⊥
IsQuiet _ = Unit

-- A property that quiet effects keep.
abbrev pub KeepsQuiet : (WsSession → Type 0) → Type 0
KeepsQuiet P =
    (e : Effect) (n : ℕ) (s : WsSession)
    → IsQuiet e
    → P s
    → P (record s { next_ctx = n; log = e ∷ s.log })

module _ (P : WsSession → Type 0) (quiet : KeepsQuiet P) where
  pub run_closed-keeps : (cs : List Call) (s : WsSession) → P s → P (run_closed cs s)
  unfolding run_closed send send_file inter_send
  run_closed-keeps [] s h = h
  run_closed-keeps (close_ ∷ cs) s h = run_closed-keeps cs s h
  run_closed-keeps (send_ t ∷ cs) s h = run_closed-keeps cs (send t s) (quiet _ _ s tt h)
  run_closed-keeps (send_file_ t ∷ cs) s h =
      run_closed-keeps cs (send_file t s) (quiet _ s.next_ctx s tt h)

  pub announced-keeps :
      (o : Option (WsSession → List Call)) (s : WsSession)
      → P s
      → P (ws_callback o call_on_close run_closed s)
  announced-keeps none s h = h
  announced-keeps (some f) s h =
      run_closed-keeps (f s) (emit call_on_close s) (quiet call_on_close s.next_ctx s tt h)

  module _ (cb : Callbacks) (shut : (s : WsSession) → P s → P (inter_close cb s)) where
    pub run-keeps : (cs : List Call) (s : WsSession) → P s → P (run cb cs s)
    unfolding run send send_file inter_send close
    run-keeps [] s h = h
    run-keeps (close_ ∷ cs) s h = elim (Bool-cases (is_closed s.ready_state)) [
      | inl e ↦ run-keeps cs (close cb s) (rw (e, close) h)
      | inr e ↦ run-keeps cs (close cb s) (rw (e, close) (shut s h))
    ]
    run-keeps (send_ t ∷ cs) s h = run-keeps cs (send t s) (quiet _ _ s tt h)
    run-keeps (send_file_ t ∷ cs) s h = run-keeps cs (send_file t s) (quiet _ s.next_ctx s tt h)

    pub error-keeps :
        (o : Option (WsSession → List Call)) (s : WsSession)
        → P s
        → P (inter_close cb (ws_callback o call_on_error (run cb) s))
    error-keeps none s h = shut s h
    error-keeps (some f) s h =
        shut _ (run-keeps (f s) (emit call_on_error s) (quiet call_on_error s.next_ctx s tt h))

    pub write_cb-keeps :
        (ctx : ℕ) (failed : Bool) (s : WsSession) → P s → P (write_cb cb ctx failed s)
    unfolding write_cb
    write_cb-keeps ctx false s h = quiet _ s.next_ctx s tt h
    write_cb-keeps ctx true s h = quiet _ _ _ tt (shut _ (quiet _ _ _ tt (at cb.on_error)))
      where
        at : (o : Option (WsSession → List Call)) → P (ws_callback o call_on_error (run cb) s)
        at none = h
        at (some f) = run-keeps (f s) (emit call_on_error s) (quiet call_on_error s.next_ctx s tt h)

    pub file_closed-keeps : (r : FileReader) (s : WsSession) → P s → P (file_closed r s)
    unfolding file_closed inter_send
    file_closed-keeps r s h = quiet _ _ s tt h

    module _ (message : (f : WsFrame) (s : WsSession) → P s → P (emit (call_on_message f) s)) where
      pub handle_ws_frame-keeps : (f : WsFrame) (s : WsSession) → P s → P (handle_ws_frame cb f s)
      unfolding handle_ws_frame send_pong inter_send
      handle_ws_frame-keeps f s h =
          if_elim P f.mask
            (λ _.
              if_elim P (f.opcode == ws_pong) (λ _. h)
                (λ _.
                  if_elim P (f.opcode == ws_ping) (λ _. quiet _ _ s tt h)
                    (λ _.
                      if_elim P (f.opcode == ws_close) (λ _. shut s h) (λ _. told cb.on_message))))
            (λ _. error-keeps cb.on_error s h)
        where
          told : (o : Option (WsFrame → WsSession → List Call)) → P (message_callback cb o f s)
          told none = h
          told (some g) = run-keeps (g f s) (emit (call_on_message f) s) (message f s h)

      pub recv_cb-keeps :
          (read : Option (List ℕ)) (p : WsParser WsSession)
          → IsValid p
          → P p.owner
          → (q : WsParser WsSession) × (recv_cb cb read p ≡ some q) × IsValid q × P q.owner
      unfolding recv_cb
      recv_cb-keeps none p v h =
          (_, refl, IsValid-owner p (inter_close cb p.owner) v, shut p.owner h)
      recv_cb-keeps (some bytes) p v h = elim (Bool-cases (is_open p.owner.ready_state)) [
        | inl o ↦ rw (o, recv_cb) (at (parse-Returns (handle_ws_frame cb) p bytes v))
        | inr c ↦ rw (c, recv_cb) (p, refl, v, h)
      ]
        where
          at :
              Returns (handle_ws_frame cb) (parse (handle_ws_frame cb) p bytes)
              → (q : WsParser WsSession) × (handle_message cb bytes p ≡ some q)
                × IsValid q
                × P q.owner
          at (e, q, r, inl x, w) = (
            q,
            handle_success cb p q bytes (rw x at r),
            w,
            parse-owner (handle_ws_frame cb) P handle_ws_frame-keeps p bytes h r,
          )
          at (e, q, r, inr x, w) =
              let kept = parse-owner (handle_ws_frame cb) P handle_ws_frame-keeps p bytes h r in
              (
                after_error cb q,
                handle_failure cb p q bytes (rw x at r),
                IsValid-owner q (after_error cb q).owner w,
                error-keeps cb.on_error q.owner kept,
              )

-- An OPEN session has not asked to be removed, a CLOSED one has.
abbrev pub IsTracked : WsSession → Type 0
IsTracked s =
    ((s.ready_state ≡ open_) × (removals s.log ≡ 0))
    ⊎ ((s.ready_state ≡ closed) × (0 < removals s.log))

pub removals-quiet : (e : Effect) (es : List Effect) → IsQuiet e → removals (e ∷ es) ≡ removals es
unfolding removals
removals-quiet remove_ws_session es q = absurd q
removals-quiet _ es q = refl

pub IsTracked-quiet : KeepsQuiet IsTracked
IsTracked-quiet e n s q (inl h) = inl (h.0, removals-quiet e s.log q ∙ h.1)
IsTracked-quiet e n s q (inr h) = inr (h.0, rw (removals-quiet e s.log q) h.1)

module _ (cb : Callbacks) where
  pub inter_close-IsTracked : (s : WsSession) → IsTracked (inter_close cb s)
  unfolding inter_close removals
  inter_close-IsTracked s = inr (inter_close-state cb s, omega arith)

  IsTracked-message :
      (f : WsFrame) (s : WsSession) → IsTracked s → IsTracked (emit (call_on_message f) s)
  unfolding removals
  IsTracked-message f s h = h

  -- Every event ends, keeps the parser's state valid, and keeps the session tracked.
  pub session_step-IsTracked :
      (ev : SessionEvent) (p : WsParser WsSession)
      → IsValid p
      → IsTracked p.owner
      → (q : WsParser WsSession) × (session_step cb ev p ≡ some q) × IsValid q × IsTracked q.owner
  unfolding session_step
  session_step-IsTracked (received read) p v h =
      recv_cb-keeps IsTracked IsTracked-quiet cb (λ s _. inter_close-IsTracked s) IsTracked-message
        read p v h
  session_step-IsTracked (called c) p v h = (
    _,
    refl,
    IsValid-owner p _ v,
    run-keeps IsTracked IsTracked-quiet cb (λ s _. inter_close-IsTracked s) (c ∷ []) p.owner h,
  )
  session_step-IsTracked (written ctx failed) p v h = (
    _,
    refl,
    IsValid-owner p _ v,
    write_cb-keeps IsTracked IsTracked-quiet cb (λ s _. inter_close-IsTracked s) ctx failed p.owner
        h,
  )
  session_step-IsTracked (file_ended r) p v h = (
    _,
    refl,
    IsValid-owner p _ v,
    file_closed-keeps IsTracked IsTracked-quiet cb (λ s _. inter_close-IsTracked s) r p.owner h,
  )
