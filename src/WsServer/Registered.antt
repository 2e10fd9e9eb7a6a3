-- ===== src/WsServer/Registered.antt =====
-- The server's vector holds the sessions that are open, each once, in every state that the event
-- loop can come to.
use my_web_socket.Prelude.{
  ℕ, ◌≡◌, refl, ap, subst, ◌∙◌, inl, inr, Option, none, some, List, [], ◌∷◌, arith, Option-cases,
}
use my_web_socket.Parser.{WsFrame, WsParser}
use my_web_socket.Parser.Invariant.{IsValid, IsValid-owner}
use my_web_socket.WebSocket.Closing.{close_closed}
use my_web_socket.WebSocket.{
  run_closed, send, send_file, inter_send, close_, send_, send_file_, read_start, connecting,
  WsSession, open_, closed, Call, Callbacks, call_on_connect, connect, run, ws_callback, emit,
}
use my_web_socket.WsServer.Settling.{
  settled-counted, settle-IsConsistent, tracked_cases, IsFresh-quiet, new_ws_session-IsFresh,
  new_ws_session-IsValid, listed_at, Entry, IsFresh, register-Entry, register-counted,
  register-once, IsConsistent,
}
use my_web_socket.Registry.Counting.{count-nil, count}
use my_web_socket.WsServer.{
  register, WsServer, new_ws_server, new_ws_session, removals, SessionEvent, session_step, settle,
  server_step, greeted, on_upgrade, Reach, start, upgraded, stepped,
}
use my_web_socket.WsServer.Final.{messages, step-IsOver}
use my_web_socket.WsServer.Sessions.{
  IsTracked-quiet, inter_close-IsTracked, run_closed-keeps, IsTracked, session_step-IsTracked,
  run-keeps,
}

module _ (cb : Callbacks) where
  stays_closed :
      (ev : SessionEvent) (p q : WsParser WsSession)
      → IsValid p
      → p.owner.ready_state ≡ closed
      → session_step cb ev p ≡ some q
      → q.owner.ready_state ≡ closed
  stays_closed ev p q v h r =
      let (x, e, w, over) = step-IsOver cb (messages p.owner.log) ev p v (h, refl) in
      let same : q ≡ x = ground (arith, e, r) in rw same over.0

  -- An event of a session that exists.
  server_step-some :
      (ev : SessionEvent) (i : ℕ) (srv : WsServer) (p : WsParser WsSession)
      → IsConsistent srv
      → srv.objects i ≡ some p
      → (next : WsServer) × (server_step cb ev i srv ≡ some next) × IsConsistent next
  unfolding server_step
  server_step-some ev i srv p c e =
      let own = subst (Entry srv.next_session i) e (c.entry i) in
      let (q, r, v, t) = session_step-IsTracked cb ev p own.1 own.2 in
      let once = c.counted i ∙ ap listed_at e in
      (
        settle srv i p q,
        rw (e, server_step) (rw r refl),
        settle-IsConsistent srv i p q (λ j _. c.entry j) (λ j _. c.counted j) (own.0, v, t)
            (settled-counted srv i p q t (elim (tracked_cases p own.2) [
              | inl (one, none_removed) ↦ inl (once ∙ one, none_removed)
              | inr (zero_listed, over) ↦ inr (once ∙ zero_listed, stays_closed ev p q own.1 over r)
            ])),
      )

  pub server_step-IsConsistent :
      (ev : SessionEvent) (i : ℕ) (srv : WsServer)
      → IsConsistent srv
      → (next : WsServer) × (server_step cb ev i srv ≡ some next) × IsConsistent next
  unfolding server_step
  server_step-IsConsistent ev i srv c = elim (Option-cases (srv.objects i)) [
    | inl e ↦ (srv, rw (e, server_step) refl, c)
    | inr (p, e) ↦ server_step-some ev i srv p c e
  ]

  run-closed :
      (cs : List Call) (s : WsSession) → s.ready_state ≡ closed → run cb cs s ≡ run_closed cs s
  unfolding run run_closed send send_file inter_send
  run-closed [] s h = refl
  run-closed (close_ ∷ cs) s h = ap (run cb cs) (close_closed cb s h) ∙ run-closed cs s h
  run-closed (send_ t ∷ cs) s h = run-closed cs (send t s) h
  run-closed (send_file_ t ∷ cs) s h = run-closed cs (send_file t s) h

  module _ (on_connect : Option (WsSession → List Call)) where
    greeted-IsFresh : (s : WsSession) → IsFresh s → IsFresh (greeted cb on_connect s)
    unfolding greeted
    greeted-IsFresh s h = at on_connect
      where
        at :
            (o : Option (WsSession → List Call))
            → IsFresh (elim o [ none ↦ s | some f ↦ run cb (f s) s ])
        at none = h
        at (some f) = rw (run-closed (f s) s h.0) (run_closed-keeps IsFresh IsFresh-quiet (f s) s h)

    connect-IsTracked : (s : WsSession) → IsFresh s → IsTracked (connect cb s)
    unfolding connect removals
    connect-IsTracked s h = at cb.on_connect
      where
        opened : WsSession
        opened = record (emit read_start (record s { ready_state = connecting })) {
          ready_state = open_;
        }

        at :
            (o : Option (WsSession → List Call))
            → IsTracked (ws_callback o call_on_connect (run cb) opened)
        at none = inl (refl, h.1)
        at (some f) =
            run-keeps IsTracked IsTracked-quiet cb (λ t _. inter_close-IsTracked cb t) (f opened)
              (emit call_on_connect opened) (inl (refl, h.1))

    on_upgrade-IsConsistent :
        (frame : WsFrame) (recv_buf_len : ℕ) (srv : WsServer)
        → IsConsistent srv
        → IsConsistent (on_upgrade cb on_connect frame recv_buf_len srv)
    unfolding on_upgrade
    on_upgrade-IsConsistent frame recv_buf_len srv c =
        let p = new_ws_session frame recv_buf_len in
        let q = record p { owner = connect cb (greeted cb on_connect p.owner) } in
        let tracked =
          connect-IsTracked _
            (greeted-IsFresh p.owner (new_ws_session-IsFresh frame recv_buf_len)) in
        settle-IsConsistent (register p srv) srv.next_session p q (register-Entry p srv c)
          (register-counted p srv c)
          (omega arith, IsValid-owner p _ (new_ws_session-IsValid frame recv_buf_len), tracked)
          (settled-counted (register p srv) srv.next_session p q tracked
            (inl (register-once p srv c, (new_ws_session-IsFresh frame recv_buf_len).1)))

    pub Reach-IsConsistent : {srv : WsServer} → Reach cb on_connect srv → IsConsistent srv
    unfolding new_ws_server
    Reach-IsConsistent start = record { entry = λ i. tt; counted = λ i. count-nil i }
    Reach-IsConsistent (upgraded frame len r) =
        on_upgrade-IsConsistent frame len _ (Reach-IsConsistent r)
    Reach-IsConsistent (stepped {srv} ev i r e) =
        let (next, f, c) = server_step-IsConsistent ev i srv (Reach-IsConsistent r) in
        subst IsConsistent (ground (arith, e, f)) c

    -- In every state that the server can come to, for any event of any session and any pointer: the
    -- event ends in such a state, and the vector holds the pointer once if it leads to an OPEN
    -- session, and not at all if the session is not OPEN or there is none.
    pub Reach-listed :
        {srv : WsServer} (ev : SessionEvent) (i j : ℕ)
        → Reach cb on_connect srv
        → (next : WsServer) × (server_step cb ev i srv ≡ some next)
          × Reach cb on_connect next
          × (count j srv.ws_sessions ≡ listed_at (srv.objects j))
    Reach-listed {srv} ev i j r =
        let c = Reach-IsConsistent r in
        let (next, e, _) = server_step-IsConsistent ev i srv c in
        (next, e, stepped ev i r e, c.counted j)
