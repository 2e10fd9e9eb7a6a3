-- ===== src/Servers/Upgraded.antt =====
-- The websocket session that src/core/WsServer.cpp makes of an HTTP session, and the server after.
use my_web_socket.Prelude.{
  ℕ, ◌≡◌, refl, Bool-cases, ap, sym, ◌∙◌, Option, none, some, List, ◌==◌, if◌then◌else◌, inl, inr,
}
use my_web_socket.Parser.{new_parser, WsFrame, WsParser}
use my_web_socket.Registry.Counting.{count}
use my_web_socket.WebSocket.{
  WsSession, Call, Callbacks, inter_close, connect, call_on_connect, ws_callback, run, emit,
  read_start, connecting, open_,
}
use my_web_socket.WsServer
use my_web_socket.WsServer.{
  upgraded, start, WsServer, on_upgrade, greeted, settle, new_ws_session, register,
}
use my_web_socket.WsServer.Sessions.{KeepsQuiet, announced-keeps, run-keeps}
use my_web_socket.WsServer.Settling.{listed, listed_at}
use my_web_socket.WsServer.Registered.{Reach-IsConsistent}

HasBuffer : ℕ → WsSession → Type 0
HasBuffer n s = s.recv_buf_len ≡ n

module _ (cb : Callbacks) (n : ℕ) where
  HasBuffer-quiet : KeepsQuiet (HasBuffer n)
  unfolding HasBuffer
  HasBuffer-quiet e m s q h = h

  inter_close-HasBuffer : (s : WsSession) → HasBuffer n s → HasBuffer n (inter_close cb s)
  unfolding inter_close HasBuffer
  inter_close-HasBuffer s h = announced-keeps (HasBuffer n) HasBuffer-quiet cb.on_close _ h

  run-HasBuffer : (cs : List Call) (s : WsSession) → HasBuffer n s → HasBuffer n (run cb cs s)
  run-HasBuffer cs s h = run-keeps (HasBuffer n) HasBuffer-quiet cb inter_close-HasBuffer cs s h

  told-HasBuffer :
      (o : Option (WsSession → List Call)) (s : WsSession)
      → HasBuffer n s
      → HasBuffer n (ws_callback o call_on_connect (run cb) s)
  unfolding HasBuffer
  told-HasBuffer none s h = h
  told-HasBuffer (some f) s h = run-HasBuffer (f s) (emit call_on_connect s) h

  connect-HasBuffer : (s : WsSession) → HasBuffer n s → HasBuffer n (connect cb s)
  unfolding connect HasBuffer
  connect-HasBuffer s h =
      told-HasBuffer cb.on_connect
        (record (emit read_start (record s { ready_state = connecting })) { ready_state = open_ }) h

  greeted-HasBuffer :
      (o : Option (WsSession → List Call)) (s : WsSession)
      → HasBuffer n s
      → HasBuffer n (greeted cb o s)
  unfolding greeted
  greeted-HasBuffer none s h = h
  greeted-HasBuffer (some f) s h = run-HasBuffer (f s) s h

module _ (cb : Callbacks) (on_connect : Option (WsSession → List Call)) where
  -- The websocket session that an HTTP session becomes.
  unfoldable pub upgraded_session : WsFrame → ℕ → WsParser WsSession
  upgraded_session frame len =
      let p = new_ws_session frame len in
      record p { owner = connect cb (greeted cb on_connect p.owner) }

  pub upgraded_session-HasBuffer :
      (frame : WsFrame) (len : ℕ) → (upgraded_session frame len).owner.recv_buf_len ≡ len
  unfolding upgraded_session HasBuffer new_ws_session new_parser
  upgraded_session-HasBuffer frame len =
      connect-HasBuffer cb len _ (greeted-HasBuffer cb len on_connect _ refl)

  pub on_upgrade-objects :
      (frame : WsFrame) (len j : ℕ) (ws : WsServer)
      → (on_upgrade cb on_connect frame len ws).objects j
        ≡ (if ws.next_session == j then some (upgraded_session frame len) else ws.objects j)
  unfolding on_upgrade register settle upgraded_session
  on_upgrade-objects frame len j ws = elim (Bool-cases (ws.next_session == j)) [
    | inl e ↦ rw e refl
    | inr e ↦ rw e refl
  ]

  pub on_upgrade-count :
      (frame : WsFrame) (len j : ℕ) (ws : WsServer)
      → WsServer.Reach cb on_connect ws
      → count j (on_upgrade cb on_connect frame len ws).ws_sessions ≡ (
          if ws.next_session == j
          then listed (upgraded_session frame len)
          else count j ws.ws_sessions)
  on_upgrade-count frame len j ws r =
      let c = Reach-IsConsistent cb on_connect r in
      let d = Reach-IsConsistent cb on_connect (upgraded frame len r) in
      d.counted j
      ∙ ap listed_at (on_upgrade-objects frame len j ws)
      ∙ elim (Bool-cases (ws.next_session == j)) [
        | inl e ↦ rw e refl
        | inr e ↦ rw e (sym (c.counted j))
      ]
