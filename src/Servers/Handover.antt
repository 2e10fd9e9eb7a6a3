-- ===== src/Servers/Handover.antt =====
-- A session that is upgraded goes from the vector of src/core/httpserver.cpp to that of
-- src/core/WsServer.cpp.
use my_web_socket.Prelude.{
  ℤ, ℕ, suc, ◌-◌, ◌≡◌, refl, Bool-cases, ap, sym, ◌∙◌, subst, false, Option, none, some, List, ◌==◌,
  if◌then◌else◌, if_elim, Option-cases, arith, inl, inr,
}
use mathlib.Core.Option.{some_inj}
use my_web_socket.Parser.{WsFrame, WsParser}
use my_web_socket.Router.{RegexEngine}
use my_web_socket.HttpResp.{upgrade_session}
use my_web_socket.HttpSession.{
  HttpEvent, sent, HttpSession, http_step, run_on_sent, upgrade, close_session,
  transfer_buffer_to_ws_session,
}
use my_web_socket.HttpSession.Connection.{closes}
use my_web_socket.HttpSession.Timer.{removals}
use my_web_socket.HttpServer
use my_web_socket.HttpServer.{HttpServer, on_upgrade_set, connected, stepped}
use my_web_socket.HttpServer.Listed.{Reach-in_use, IsUntouched, in_use}
use my_web_socket.Registry.Counting.{count}
use my_web_socket.WebSocket.{WsSession, Call, Callbacks}
use my_web_socket.WsServer
use my_web_socket.WsServer.{
  upgraded, start, WsServer, on_upgrade, greeted, settle, new_ws_session, register,
}
use my_web_socket.WsServer.Settling.{listed}
use my_web_socket.Servers.{
  Servers, ServersEvent, connection, http_event, ws_event, hand_overs, join, hand_over, handed_over,
  servers_step, Reach, joined, moved,
}
use my_web_socket.Servers.Upgraded.{
  upgraded_session, upgraded_session-HasBuffer, on_upgrade-objects, on_upgrade-count,
}

module _ {Handler : Type 0} where
  upgrade-removals : (s : HttpSession Handler) → removals (upgrade s).log ≡ suc (removals s.log)
  unfolding upgrade close_session removals
  upgrade-removals s = refl

  upgrade-hand_overs :
      (s : HttpSession Handler) → hand_overs (upgrade s).log ≡ suc (hand_overs s.log)
  unfolding upgrade close_session hand_overs
  upgrade-hand_overs s = refl

  hand_over-upgrade :
      (cb : Callbacks) (on_connect : Option (WsSession → List Call)) (frame : WsFrame)
      (s : HttpSession Handler) (ws : WsServer)
      → hand_over cb on_connect frame s (upgrade s) ws
        ≡ on_upgrade cb on_connect frame s.recv_buf_len ws
  unfolding hand_over transfer_buffer_to_ws_session upgrade close_session hand_overs
  hand_over-upgrade cb on_connect frame s ws =
      let differs : (suc (hand_overs s.log) == hand_overs s.log) ≡ false = ground arith in
      rw differs refl

  hand_over-Reach :
      (cb : Callbacks) (on_connect : Option (WsSession → List Call)) (frame : WsFrame)
      (s t : HttpSession Handler) (ws : WsServer)
      → WsServer.Reach cb on_connect ws
      → WsServer.Reach cb on_connect (hand_over cb on_connect frame s t ws)
  unfolding hand_over
  hand_over-Reach cb on_connect frame s t ws r =
      let len = (transfer_buffer_to_ws_session t).1 in
      if_elim (WsServer.Reach cb on_connect) (hand_overs t.log == hand_overs s.log) (λ _. r)
        (λ _. upgraded frame len r)

module _ {Pattern Handler Callback : Type 0} (cb : Callbacks)
    (on_connect : Option (WsSession → List Call)) (engine : RegexEngine Pattern)
    (accept : List ℕ → List ℕ) where
  handed_over-Reach :
      (ev : HttpEvent) (i : ℕ) (frame : WsFrame) (sv : Servers Pattern Handler Callback)
      → WsServer.Reach cb on_connect sv.ws
      → WsServer.Reach cb on_connect (handed_over cb on_connect engine accept ev i frame sv)
  unfolding handed_over hand_over
  handed_over-Reach ev i frame sv r = elim (Option-cases (sv.http.objects i)) [
    | inl e ↦ rw (e, handed_over) r
    | inr (s, e) ↦
        rw (e, handed_over)
          (hand_over-Reach cb on_connect frame s
            (http_step accept engine sv.http.router sv.http.keep_alive_timeout ev s) sv.ws r)
  ]

  module _ (ip : List ℕ) (port : ℕ) where
    abbrev pub IsBoth : Servers Pattern Handler Callback → Type 0
    IsBoth sv = HttpServer.Reach engine accept ip port sv.http × WsServer.Reach cb on_connect sv.ws

    servers_step-IsBoth :
        (ev : ServersEvent) (sv next : Servers Pattern Handler Callback)
        → IsBoth sv
        → servers_step cb on_connect engine accept ev sv ≡ some next
        → IsBoth next
    unfolding servers_step
    servers_step-IsBoth (connection failed a) sv next r e =
        subst IsBoth (some_inj.0 e) (connected failed a r.0, r.1)
    servers_step-IsBoth (http_event ev i frame) sv next r e =
        subst IsBoth (some_inj.0 e) (stepped ev i r.0, handed_over-Reach ev i frame sv r.1)
    servers_step-IsBoth (ws_event ev i) sv next r e =
        elim (Option-cases (WsServer.server_step cb ev i sv.ws)) [
          | inl n ↦ ground arith
          | inr (ws, n) ↦
              let same : record sv { ws = ws } ≡ next = ground arith in
              subst IsBoth same (r.0, WsServer.stepped ev i r.1 n)
        ]

    pub Reach-IsBoth :
        {sv : Servers Pattern Handler Callback}
        → Reach cb on_connect engine accept ip port sv
        → IsBoth sv
    unfolding join
    Reach-IsBoth (joined c r) = (on_upgrade_set c r, start)
    Reach-IsBoth (moved {sv} {next} ev r e) = servers_step-IsBoth ev sv next (Reach-IsBoth r) e

  lost-objects :
      (i j : ℕ) (srv : HttpServer Pattern Handler Callback) (s : HttpSession Handler)
      → srv.objects i ≡ some s
      → (HttpServer.server_step engine accept (sent upgrade_session) i srv).objects j
        ≡ (if i == j then none else srv.objects j)
  unfolding HttpServer.server_step HttpServer.settle http_step run_on_sent
  lost-objects i j srv s e =
      let one : (removals (upgrade s).log - removals s.log == 0) ≡ false =
        ground (arith, upgrade-removals s) in
      rw (e, HttpServer.server_step) (rw one refl)

  lost-count :
      {ip : List ℕ} {port : ℕ} (i j : ℕ) (srv : HttpServer Pattern Handler Callback)
      (s : HttpSession Handler)
      → HttpServer.Reach engine accept ip port srv
      → srv.objects i ≡ some s
      → count j (HttpServer.server_step engine accept (sent upgrade_session) i srv).sessions
        ≡ (if i == j then 0 else count j srv.sessions)
  lost-count i j srv s r e =
      let before = (Reach-in_use engine accept j r).0 in
      let after = (Reach-in_use engine accept j (stepped (sent upgrade_session) i r)).0 in
      after
      ∙ ap in_use (lost-objects i j srv s e)
      ∙ elim (Bool-cases (i == j)) [ inl b ↦ rw b refl | inr b ↦ rw b (sym before) ]

  pub handed_over-upgrade :
      (i : ℕ) (frame : WsFrame) (sv : Servers Pattern Handler Callback) (s : HttpSession Handler)
      → sv.http.objects i ≡ some s
      → handed_over cb on_connect engine accept (sent upgrade_session) i frame sv
        ≡ on_upgrade cb on_connect frame s.recv_buf_len sv.ws
  unfolding handed_over http_step run_on_sent
  handed_over-upgrade i frame sv s e =
      rw (e, handed_over) (hand_over-upgrade cb on_connect frame s sv.ws)

  upgrade-closes :
      {ip : List ℕ} {port : ℕ} (i : ℕ) (timeout : ℤ) (srv : HttpServer Pattern Handler Callback)
      (s : HttpSession Handler)
      → HttpServer.Reach engine accept ip port srv
      → srv.objects i ≡ some s
      → closes (run_on_sent timeout upgrade_session s).log ≡ 0
  unfolding run_on_sent upgrade close_session closes
  upgrade-closes i timeout srv s r e = (subst IsUntouched e (Reach-in_use engine accept i r).1).0

  -- In every state of the two servers, when the answer to an upgrade request of the session `i` is
  -- sent: the vector of the HTTP server loses `i` and keeps all else; that of the websocket server
  -- gains the new session, once if it is OPEN and not if its callbacks have closed it, and keeps all
  -- else; the new session has the receive buffer of the old one, whose handle was not closed.
  pub servers_step-hands_over :
      {ip : List ℕ} {port : ℕ} (sv : Servers Pattern Handler Callback) (i j : ℕ) (frame : WsFrame)
      (s : HttpSession Handler)
      → Reach cb on_connect engine accept ip port sv
      → sv.http.objects i ≡ some s
      → (next : Servers Pattern Handler Callback) × (p : WsParser WsSession) × (servers_step cb
            on_connect engine accept
            (http_event (sent upgrade_session) i frame)
            sv
          ≡ some next)
        × (count j next.http.sessions ≡ (if i == j then 0 else count j sv.http.sessions))
        × (count j next.ws.ws_sessions
            ≡ (if sv.ws.next_session == j then listed p else count j sv.ws.ws_sessions))
        × (next.ws.objects sv.ws.next_session ≡ some p)
        × (p.owner.recv_buf_len ≡ s.recv_buf_len)
        × (closes (run_on_sent sv.http.keep_alive_timeout upgrade_session s).log ≡ 0)
  unfolding servers_step
  servers_step-hands_over {ip} {port} sv i j frame s r e =
      let both : IsBoth ip port sv = Reach-IsBoth ip port r in
      let ws = handed_over-upgrade i frame sv s e in
      (
        record {
          http = HttpServer.server_step engine accept (sent upgrade_session) i sv.http;
          ws = handed_over cb on_connect engine accept (sent upgrade_session) i frame sv;
        },
        upgraded_session cb on_connect frame s.recv_buf_len,
        refl,
        lost-count i j sv.http s both.0 e,
        rw ws (on_upgrade-count cb on_connect frame s.recv_buf_len j sv.ws both.1),
        rw ws (
            on_upgrade-objects cb on_connect frame s.recv_buf_len sv.ws.next_session sv.ws
            ∙ ground arith),
        upgraded_session-HasBuffer cb on_connect frame s.recv_buf_len,
        upgrade-closes i sv.http.keep_alive_timeout sv.http s both.0 e,
      )
