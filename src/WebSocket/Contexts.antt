-- ===== src/WebSocket/Contexts.antt =====
-- How often the context of a write, a `WriteCtx` made by `new`, is deleted.
use my_web_socket.Prelude.{
  ℕ, suc, ◌≡◌, refl, ap, ◌∙◌, Bool, true, false, Option, none, some, List, [], ◌∷◌, if◌then◌else◌,
  ◌==◌, Bool-cases, inl, inr, ==_iff,
}
use my_web_socket.WebSocket.{
  WsSession, closed, Effect, delete_ctx, uv_close, read_stop, Call, close_, send_, send_file_,
  Callbacks, run_closed, inter_close, close, run, send, send_file, inter_send, write_cb,
  ws_callback, call_on_close, call_on_error, emit, is_closed,
}
use my_web_socket.WebSocket.Closing.{closes, write_cb-closes}

pub deletes : List Effect → ℕ → ℕ
deletes [] ctx = 0
deletes (delete_ctx i ∷ es) ctx = if i == ctx then suc (deletes es ctx) else deletes es ctx
deletes (_ ∷ es) ctx = deletes es ctx

module _ (ctx : ℕ) where
  run_closed-deletes :
      (cs : List Call) (s : WsSession) → deletes (run_closed cs s).log ctx ≡ deletes s.log ctx
  unfolding run_closed send send_file inter_send deletes
  run_closed-deletes [] s = refl
  run_closed-deletes (close_ ∷ cs) s = run_closed-deletes cs s
  run_closed-deletes (send_ t ∷ cs) s = run_closed-deletes cs (send t s)
  run_closed-deletes (send_file_ t ∷ cs) s = run_closed-deletes cs (send_file t s)

  announced-deletes :
      (o : Option (WsSession → List Call)) (s : WsSession)
      → deletes (ws_callback o call_on_close run_closed s).log ctx ≡ deletes s.log ctx
  unfolding deletes
  announced-deletes none s = refl
  announced-deletes (some f) s = run_closed-deletes (f s) (emit call_on_close s)

  module _ (cb : Callbacks) where
    inter_close-deletes : (s : WsSession) → deletes (inter_close cb s).log ctx ≡ deletes s.log ctx
    unfolding inter_close deletes
    inter_close-deletes s =
        announced-deletes cb.on_close
          (record s { ready_state = closed; log = uv_close ∷ read_stop ∷ s.log })

    close-deletes : (s : WsSession) → deletes (close cb s).log ctx ≡ deletes s.log ctx
    unfolding close
    close-deletes s = elim (Bool-cases (is_closed s.ready_state)) [
      | inl e ↦ rw (e, close) refl
      | inr e ↦ rw (e, close) (inter_close-deletes s)
    ]

    run-deletes :
        (cs : List Call) (s : WsSession) → deletes (run cb cs s).log ctx ≡ deletes s.log ctx
    unfolding run send send_file inter_send deletes
    run-deletes [] s = refl
    run-deletes (close_ ∷ cs) s = run-deletes cs (close cb s) ∙ close-deletes s
    run-deletes (send_ t ∷ cs) s = run-deletes cs (send t s)
    run-deletes (send_file_ t ∷ cs) s = run-deletes cs (send_file t s)

    error-deletes :
        (o : Option (WsSession → List Call)) (s : WsSession)
        → deletes (ws_callback o call_on_error (run cb) s).log ctx ≡ deletes s.log ctx
    unfolding deletes
    error-deletes none s = refl
    error-deletes (some f) s = run-deletes (f s) (emit call_on_error s)

    -- The callback of a write deletes its context once if the write succeeded and twice if it
    -- failed.
    pub write_cb-deletes :
        (failed : Bool) (s : WsSession)
        → deletes (write_cb cb ctx failed s).log ctx
          ≡ (if failed then suc (suc (deletes s.log ctx)) else suc (deletes s.log ctx))
    unfolding write_cb deletes
    write_cb-deletes false s = rw ((==_iff ctx ctx).1 refl) refl
    write_cb-deletes true s =
        let q = ws_callback cb.on_error call_on_error (run cb) s in
        rw ((==_iff ctx ctx).1 refl) (
          ap suc (
            inter_close-deletes (emit (delete_ctx ctx) q)
            ∙ again q
            ∙ ap suc (error-deletes cb.on_error s)))
      where
        again : (q : WsSession) → deletes (delete_ctx ctx ∷ q.log) ctx ≡ suc (deletes q.log ctx)
        again q = rw ((==_iff ctx ctx).1 refl) refl

    written-closes :
        (failed : Bool) (s : WsSession)
        → s.ready_state ≡ closed
        → (closes (write_cb cb ctx failed s).log
            ≡ (if failed then suc (closes s.log) else closes s.log))
          × ((write_cb cb ctx failed s).ready_state ≡ closed)
    unfolding write_cb closes
    written-closes false s e = (refl, e)
    written-closes true s e = write_cb-closes cb ctx s e

    -- The end of a write in a session that is CLOSED, as it comes after `uv_close` has cancelled the
    -- write. If it succeeded its context is deleted once. If it failed the context is deleted twice
    -- and the handle is closed once more. The session stays CLOSED.
    pub write_cb_after_close :
        (failed : Bool) (s : WsSession)
        → s.ready_state ≡ closed
        → (deletes (write_cb cb ctx failed s).log ctx
            ≡ (if failed then suc (suc (deletes s.log ctx)) else suc (deletes s.log ctx)))
          × (closes (write_cb cb ctx failed s).log
              ≡ (if failed then suc (closes s.log) else closes s.log))
          × ((write_cb cb ctx failed s).ready_state ≡ closed)
    write_cb_after_close failed s e =
        let kept = written-closes failed s e in (write_cb-deletes failed s, kept.0, kept.1)
