-- ===== src/WsServer/Final.antt =====
-- CLOSED is the last state of a session for all but `connect`: what may come to it after.
use my_web_socket.Prelude.{ℕ, suc, ◌≡◌, ◌≢◌, refl, ◌∙◌, Option, none, some, List, [], ◌∷◌}
use my_web_socket.Parser.{WsParser}
use my_web_socket.Parser.Invariant.{IsValid, IsValid-owner}
use my_web_socket.WebSocket.{
  WsSession, open_, closed, Effect, call_on_message, Callbacks, connect, recv_cb, inter_close,
}
use my_web_socket.WebSocket.Receiving.{recv_cb_not_open}
use my_web_socket.WebSocket.Closing.{inter_close-state}
use my_web_socket.WsServer.{SessionEvent, received, called, written, file_ended, session_step}
use my_web_socket.WsServer.Sessions.{
  IsQuiet, KeepsQuiet, announced-keeps, run-keeps, write_cb-keeps, file_closed-keeps,
}

-- How often the message callback ran.
pub messages : List Effect → ℕ
messages [] = 0
messages (call_on_message f ∷ es) = suc (messages es)
messages (_ ∷ es) = messages es

abbrev pub IsOver : ℕ → WsSession → Type 0
IsOver n s = (s.ready_state ≡ closed) × (messages s.log ≡ n)

messages-quiet : (e : Effect) (es : List Effect) → IsQuiet e → messages (e ∷ es) ≡ messages es
unfolding messages
messages-quiet (call_on_message f) es q = absurd q
messages-quiet _ es q = refl

IsOver-quiet : (n : ℕ) → KeepsQuiet (IsOver n)
IsOver-quiet n e m s q h = (h.0, messages-quiet e s.log q ∙ h.1)

HasTold : ℕ → WsSession → Type 0
HasTold n s = messages s.log ≡ n

HasTold-quiet : (n : ℕ) → KeepsQuiet (HasTold n)
unfolding HasTold
HasTold-quiet n e m s q h = messages-quiet e s.log q ∙ h

closed_not_open :
    (p : WsParser WsSession) → p.owner.ready_state ≡ closed → p.owner.ready_state ≢ open_
closed_not_open p c o = cc

-- The events of a session in their order.
pub session_run : Callbacks → List SessionEvent → WsParser WsSession → Option (WsParser WsSession)
session_run cb [] p = some p
session_run cb (ev ∷ evs) p = elim (session_step cb ev p) [
  | none ↦ none
  | some q ↦ session_run cb evs q
]

module _ (cb : Callbacks) where
  inter_close-IsOver : (n : ℕ) (s : WsSession) → IsOver n s → IsOver n (inter_close cb s)
  unfolding inter_close messages HasTold
  inter_close-IsOver n s h =
      (inter_close-state cb s, announced-keeps (HasTold n) (HasTold-quiet n) cb.on_close _ h.1)

  pub step-IsOver :
      (n : ℕ) (ev : SessionEvent) (p : WsParser WsSession)
      → IsValid p
      → IsOver n p.owner
      → (q : WsParser WsSession) × (session_step cb ev p ≡ some q) × IsValid q × IsOver n q.owner
  unfolding session_step recv_cb
  step-IsOver n (received none) p v h =
      (_, refl, IsValid-owner p _ v, inter_close-IsOver n p.owner h)
  step-IsOver n (received (some bytes)) p v h =
      (p, recv_cb_not_open cb bytes p (closed_not_open p h.0), v, h)
  step-IsOver n (called c) p v h = (
    _,
    refl,
    IsValid-owner p _ v,
    run-keeps (IsOver n) (IsOver-quiet n) cb (inter_close-IsOver n) (c ∷ []) p.owner h,
  )
  step-IsOver n (written ctx failed) p v h = (
    _,
    refl,
    IsValid-owner p _ v,
    write_cb-keeps (IsOver n) (IsOver-quiet n) cb (inter_close-IsOver n) ctx failed p.owner h,
  )
  step-IsOver n (file_ended r) p v h = (
    _,
    refl,
    IsValid-owner p _ v,
    file_closed-keeps (IsOver n) (IsOver-quiet n) cb (inter_close-IsOver n) r p.owner h,
  )

  run-IsOver :
      (n : ℕ) (evs : List SessionEvent) (p : WsParser WsSession)
      → IsValid p
      → IsOver n p.owner
      → (q : WsParser WsSession) × (session_run cb evs p ≡ some q) × IsValid q × IsOver n q.owner
  unfolding session_run
  run-IsOver n [] p v h = (p, refl, v, h)
  run-IsOver n (ev ∷ evs) p v h =
      let (q, e, w, k) = step-IsOver n ev p v h in rw (e, session_run) (run-IsOver n evs q w k)

  -- Whatever comes to a CLOSED session in a valid state, in any number and order of reads, calls of
  -- `close`, `send` and `sendFile` by the program or its callbacks, ends of writes and of files: it
  -- ends, the session is CLOSED after, and the message callback has not run. The one method left
  -- out, `connect`, has no guard: called after all that, without a connection callback, it leaves the
  -- session OPEN.
  pub session_run-closed :
      (evs : List SessionEvent) (p : WsParser WsSession)
      → IsValid p
      → p.owner.ready_state ≡ closed
      → (q : WsParser WsSession) × (session_run cb evs p ≡ some q)
        × (q.owner.ready_state ≡ closed)
        × (messages q.owner.log ≡ messages p.owner.log)
        × ((connect (record cb { on_connect = none }) q.owner).ready_state ≡ open_)
  unfolding connect
  session_run-closed evs p v h =
      let (q, e, w, k) = run-IsOver (messages p.owner.log) evs p v (h, refl) in
      (q, e, k.0, k.1, refl)
