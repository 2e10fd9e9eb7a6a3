-- ===== src/WebSocket/Closing.antt =====
-- The ready state: closing is final, and how often the handle is closed.
use my_web_socket.Prelude.{
  ℕ, suc, ◌≡◌, refl, ap, ◌∙◌, true, false, Option, none, some, List, [], ◌∷◌, if◌then◌else◌,
  Bool-cases, inl, inr,
}
use my_web_socket.WebSocket.{
  WsSession, WsStatus, closed, Effect, uv_close, delete_ctx, Call, close_, send_, send_file_,
  Callbacks, run_closed, inter_close, close, run, send, send_file, inter_send, write_cb,
  ws_callback, call_on_close, call_on_error, emit, is_closed, connecting, open_, closing, read_stop,
}

-- How often `uv_close` was called on the handle.
unfoldable pub closes : List Effect → ℕ
closes [] = 0
closes (uv_close ∷ es) = suc (closes es)
closes (_ ∷ es) = closes es

run_closed-state : (cs : List Call) (s : WsSession) → (run_closed cs s).ready_state ≡ s.ready_state
unfolding run_closed send send_file inter_send
run_closed-state [] s = refl
run_closed-state (close_ ∷ cs) s = run_closed-state cs s
run_closed-state (send_ t ∷ cs) s = run_closed-state cs (send t s)
run_closed-state (send_file_ t ∷ cs) s = run_closed-state cs (send_file t s)

run_closed-closes : (cs : List Call) (s : WsSession) → closes (run_closed cs s).log ≡ closes s.log
unfolding run_closed send send_file inter_send closes
run_closed-closes [] s = refl
run_closed-closes (close_ ∷ cs) s = run_closed-closes cs s
run_closed-closes (send_ t ∷ cs) s = run_closed-closes cs (send t s)
run_closed-closes (send_file_ t ∷ cs) s = run_closed-closes cs (send_file t s)

abbrev announced : Option (WsSession → List Call) → WsSession → WsSession
announced o s = ws_callback o call_on_close run_closed s

announced-state :
    (o : Option (WsSession → List Call)) (s : WsSession)
    → (announced o s).ready_state ≡ s.ready_state
announced-state none s = refl
announced-state (some f) s = run_closed-state (f s) (emit call_on_close s)

announced-closes :
    (o : Option (WsSession → List Call)) (s : WsSession) → closes (announced o s).log ≡ closes s.log
unfolding closes
announced-closes none s = refl
announced-closes (some f) s = run_closed-closes (f s) (emit call_on_close s)

is_closed-eq : (st : WsStatus) → is_closed st ≡ true → st ≡ closed
is_closed-eq closed h = refl
is_closed-eq connecting h = cc
is_closed-eq open_ h = cc
is_closed-eq closing h = cc

module _ (cb : Callbacks) where
  pub inter_close-state : (s : WsSession) → (inter_close cb s).ready_state ≡ closed
  unfolding inter_close
  inter_close-state s = announced-state cb.on_close _

  pub inter_close-closes : (s : WsSession) → closes (inter_close cb s).log ≡ suc (closes s.log)
  unfolding inter_close closes
  inter_close-closes s =
      announced-closes cb.on_close
        (record s { ready_state = closed; log = uv_close ∷ read_stop ∷ s.log })

  close_not_closed :
      (s : WsSession) → is_closed s.ready_state ≡ false → close cb s ≡ inter_close cb s
  unfolding close
  close_not_closed s e = rw (e, close) refl

  pub close_closed : (s : WsSession) → s.ready_state ≡ closed → close cb s ≡ s
  unfolding close
  close_closed s e = ap (λ (st : WsStatus). if is_closed st then s else inter_close cb s) e

  close-state : (s : WsSession) → (close cb s).ready_state ≡ closed
  unfolding close
  close-state s = elim (Bool-cases (is_closed s.ready_state)) [
    | inl e ↦ rw (e, close) (is_closed-eq s.ready_state e)
    | inr e ↦ rw (e, close) (inter_close-state s)
  ]

  close-closes :
      (s : WsSession)
      → closes (close cb s).log
        ≡ (if is_closed s.ready_state then closes s.log else suc (closes s.log))
  close-closes s = elim (Bool-cases (is_closed s.ready_state)) [
    | inl e ↦
        rw e (ap (λ (q : WsSession). closes q.log) (close_closed s (is_closed-eq s.ready_state e)))
    | inr e ↦
        rw e (ap (λ (q : WsSession). closes q.log) (close_not_closed s e) ∙ inter_close-closes s)
  ]

  -- `close` leaves the session CLOSED, and a second `close` changes nothing. It closes the handle
  -- once if the session was not CLOSED, else not at all.
  pub close_idem :
      (s : WsSession)
      → (close cb (close cb s) ≡ close cb s)
        × ((close cb s).ready_state ≡ closed)
        × (closes (close cb s).log
            ≡ (if is_closed s.ready_state then closes s.log else suc (closes s.log)))
  close_idem s = (close_closed (close cb s) (close-state s), close-state s, close-closes s)

  run-state :
      (cs : List Call) (s : WsSession) → s.ready_state ≡ closed → (run cb cs s).ready_state ≡ closed
  unfolding run send send_file inter_send
  run-state [] s e = e
  run-state (close_ ∷ cs) s e = run-state cs (close cb s) (close-state s)
  run-state (send_ t ∷ cs) s e = run-state cs (send t s) e
  run-state (send_file_ t ∷ cs) s e = run-state cs (send_file t s) e

  -- The calls of a callback close the handle at most once, and never that of a closed session.
  run-closes :
      (cs : List Call) (s : WsSession)
      → s.ready_state ≡ closed
      → closes (run cb cs s).log ≡ closes s.log
  unfolding run send send_file inter_send closes
  run-closes [] s e = refl
  run-closes (close_ ∷ cs) s e =
      run-closes cs (close cb s) (close-state s)
      ∙ ap (λ (q : WsSession). closes q.log) (close_closed s e)
  run-closes (send_ t ∷ cs) s e = run-closes cs (send t s) e
  run-closes (send_file_ t ∷ cs) s e = run-closes cs (send_file t s) e

  error-state :
      (s : WsSession)
      → s.ready_state ≡ closed
      → (ws_callback cb.on_error call_on_error (run cb) s).ready_state ≡ closed
  error-state s e = at cb.on_error
    where
      at :
          (o : Option (WsSession → List Call))
          → (ws_callback o call_on_error (run cb) s).ready_state ≡ closed
      at none = e
      at (some f) = run-state (f s) (emit call_on_error s) e

  error-closes :
      (s : WsSession)
      → s.ready_state ≡ closed
      → closes (ws_callback cb.on_error call_on_error (run cb) s).log ≡ closes s.log
  unfolding closes
  error-closes s e = at cb.on_error
    where
      at :
          (o : Option (WsSession → List Call))
          → closes (ws_callback o call_on_error (run cb) s).log ≡ closes s.log
      at none = refl
      at (some f) = run-closes (f s) (emit call_on_error s) e

  -- When a write fails in a session that is CLOSED, the handle is closed once more and the session
  -- stays CLOSED.
  pub write_cb-closes :
      (ctx : ℕ) (s : WsSession)
      → s.ready_state ≡ closed
      → (closes (write_cb cb ctx true s).log ≡ suc (closes s.log))
        × ((write_cb cb ctx true s).ready_state ≡ closed)
  unfolding write_cb closes
  write_cb-closes ctx s e =
      let q = ws_callback cb.on_error call_on_error (run cb) s in
      (
        inter_close-closes (emit (delete_ctx ctx) q) ∙ ap suc (error-closes s e),
        inter_close-state (emit (delete_ctx ctx) q),
      )
