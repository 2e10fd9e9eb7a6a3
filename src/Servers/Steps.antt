-- ===== src/Servers/Steps.antt =====
-- What single events do to the two servers of src/core/httpserver.cpp and src/core/WsServer.cpp.
use my_web_socket.Prelude.{
  ℕ, ◌-◌, ◌≡◌, refl, ap, ◌∙◌, true, false, none, some, List, [], ◌∷◌, ◌==◌, ==_iff, if◌then◌else◌,
  if_elim, arith,
}
use my_web_socket.Parser.{new_parser, WsFrame, WsParser}
use my_web_socket.Parser.RoundTrip.{IsReady}
use my_web_socket.Router.{RegexEngine}
use my_web_socket.HttpResp.{HttpResp, RespAction, upgrade_session}
use my_web_socket.HttpSession.{
  HttpEffect, respond, HttpEvent, sent, HttpSession, http_step, stop_keep_alive_timer,
}
use my_web_socket.HttpSession.Timer.{removals}
use my_web_socket.HttpServer
use my_web_socket.HttpServer.{HttpServer}
use my_web_socket.WebSocket
use my_web_socket.WebSocket.{
  WsSession, Call, Callbacks, connect, call_on_connect, ws_callback, run, emit, read_start,
  connecting, open_, message_callback,
}
use my_web_socket.WsServer
use my_web_socket.WsServer.{WsServer, received, greeted, settle, new_ws_session, session_step}
use my_web_socket.Servers.{
  Servers, http_event, ws_event, hand_overs, hand_over, handed_over, servers_step,
}
use my_web_socket.Servers.Upgraded.{upgraded_session, on_upgrade-objects}
use my_web_socket.Servers.Handover.{handed_over-upgrade}

-- The websocket session after its connection, where no callback runs then.
unfoldable pub connected_session : ℕ → WsSession
connected_session len = record {
  ready_state = open_;
  recv_buf_len = len;
  next_ctx = 0;
  log = read_start ∷ [];
}

pub upgraded_session-quiet :
    (cb : Callbacks) (frame : WsFrame) (len : ℕ)
    → cb.on_connect ≡ none
    → ((upgraded_session cb none frame len).owner ≡ connected_session len)
      × IsReady (upgraded_session cb none frame len)
      × ((upgraded_session cb none frame len).is_continuation ≡ false)
unfolding upgraded_session connected_session new_ws_session new_parser greeted connect
upgraded_session-quiet cb frame len e = (
  ap (λ o. ws_callback o call_on_connect (run cb) (connected_session len)) e,
  record { at_start = refl; index = refl },
  refl,
)

module _ {Handler : Type 0} where
  -- The session as a read finds it.
  unfoldable pub timer_stopped : HttpSession Handler → HttpSession Handler
  timer_stopped s = if s.is_keep_alive then stop_keep_alive_timer s else s

  pub timer_stopped-counts :
      (s : HttpSession Handler)
      → (removals (timer_stopped s).log ≡ removals s.log)
        × (hand_overs (timer_stopped s).log ≡ hand_overs s.log)
  unfolding timer_stopped stop_keep_alive_timer removals hand_overs
  timer_stopped-counts s =
      if_elim
        (λ (t : HttpSession Handler).
          (removals t.log ≡ removals s.log) × (hand_overs t.log ≡ hand_overs s.log))
        s.is_keep_alive (λ _. (refl, refl)) (λ _. (refl, refl))

  pub respond-counts :
      (t : HttpSession Handler) (x : HttpResp × List RespAction) (es : List (HttpEffect Handler))
      → t.log ≡ respond x ∷ es
      → (removals t.log ≡ removals es) × (hand_overs t.log ≡ hand_overs es)
  unfolding removals hand_overs
  respond-counts t x es e = (ap removals e, ap hand_overs e)

module _ {Pattern Handler Callback : Type 0} (cb : Callbacks) (engine : RegexEngine Pattern)
    (accept : List ℕ → List ℕ) where
  -- A read that changes a session without a removal or an upgrade.
  pub read_step :
      (i : ℕ) (frame : WsFrame) (ev : HttpEvent) (sv : Servers Pattern Handler Callback)
      (s : HttpSession Handler)
      → sv.http.objects i ≡ some s
      → let t = http_step accept engine sv.http.router sv.http.keep_alive_timeout ev s in
        removals t.log ≡ removals s.log
        → hand_overs t.log ≡ hand_overs s.log
        → (next : Servers Pattern Handler Callback) × (servers_step cb none engine accept
              (http_event ev i frame)
              sv
            ≡ some next)
          × (next.http.objects i ≡ some t)
          × (next.ws ≡ sv.ws)
  unfolding servers_step handed_over hand_over HttpServer.server_step HttpServer.settle
  read_step i frame ev sv s e r o =
      let t = http_step accept engine sv.http.router sv.http.keep_alive_timeout ev s in
      let none_removed : (removals t.log - removals s.log == 0) ≡ true = ground (arith, r) in
      let none_handed : (hand_overs t.log == hand_overs s.log) ≡ true = ground (arith, o) in
      (
        _,
        refl,
        rw (e, HttpServer.server_step) (rw ((==_iff i i).1 refl, none_removed) refl),
        rw (e, handed_over) (rw none_handed refl),
      )

  pub upgrade_step :
      (i : ℕ) (frame : WsFrame) (sv : Servers Pattern Handler Callback) (t : HttpSession Handler)
      → sv.http.objects i ≡ some t
      → (next : Servers Pattern Handler Callback) × (servers_step cb none engine accept
            (http_event (sent upgrade_session) i frame)
            sv
          ≡ some next)
        × (next.ws.objects sv.ws.next_session
            ≡ some (upgraded_session cb none frame t.recv_buf_len))
  unfolding servers_step
  upgrade_step i frame sv t e = (
    _,
    refl,
    ap (λ (w : WsServer). w.objects sv.ws.next_session)
          (handed_over-upgrade cb none engine accept i frame sv t e)
        ∙ on_upgrade-objects cb none frame t.recv_buf_len sv.ws.next_session sv.ws
        ∙ rw ((==_iff sv.ws.next_session sv.ws.next_session).1 refl) refl,
  )

  pub frame_step :
      (n : ℕ) (bytes : List ℕ) (sv : Servers Pattern Handler Callback) (p q : WsParser WsSession)
      → sv.ws.objects n ≡ some p
      → WebSocket.recv_cb cb (some bytes) p ≡ some q
      → (next : Servers Pattern Handler Callback) × (servers_step cb none engine accept
            (ws_event (received (some bytes)) n)
            sv
          ≡ some next)
        × (next.ws.objects n ≡ some q)
  unfolding servers_step WsServer.server_step session_step settle
  frame_step n bytes sv p q e r =
      let came : WsServer.server_step cb (received (some bytes)) n sv.ws
          ≡ some (settle sv.ws n p q) =
        rw (e, WsServer.server_step) (rw (r, session_step) refl) in
      (
        record sv { ws = settle sv.ws n p q },
        rw (came, servers_step) refl,
        rw ((==_iff n n).1 refl) refl,
      )
