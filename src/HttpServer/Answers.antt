-- ===== src/HttpServer/Answers.antt =====
-- From a request that a session of src/core/httpserver.cpp reads to the end of the connection.
use my_web_socket.Prelude.{
  ℕ, ◌-◌, ◌≡◌, refl, ap, ◌∙◌, true, false, none, some, inl, inr, List, ◌==◌, if◌then◌else◌,
  Bool-cases, Option-cases, arith,
}
use my_web_socket.HttpResp.{keep_or_close}
use my_web_socket.Router.{RegexEngine}
use my_web_socket.HttpSession.{
  HttpEvent, read, sent, timer_fired, HttpSession, http_step, run_on_sent, start_keep_alive_timer,
  close, close_session, keep_alive_timer_cb,
}
use my_web_socket.HttpSession.Timer.{removals}
use my_web_socket.HttpSession.Requests.{RequestText, request_events}
use my_web_socket.Registry.Counting.{count}
use my_web_socket.HttpServer.{HttpServer, settle, server_step, Reach, stepped}
use my_web_socket.HttpServer.Listed.{in_use, Reach-in_use}
use my_web_socket.HttpSession.Answers.{keeps, HasAnswered, recv_cb-answers, HasAnswered-removals}

module _ {Pattern Handler Callback : Type 0} (engine : RegexEngine Pattern)
    (accept : List ℕ → List ℕ) where
  abbrev after :
      HttpEvent → HttpServer Pattern Handler Callback → HttpSession Handler → HttpSession Handler
  after ev srv s = http_step accept engine srv.router srv.keep_alive_timeout ev s

  server_step-at :
      (ev : HttpEvent) (i : ℕ) (srv : HttpServer Pattern Handler Callback) (s : HttpSession Handler)
      → srv.objects i ≡ some s
      → (server_step engine accept ev i srv).objects i ≡ (
          if removals (after ev srv s).log - removals s.log == 0
          then some (after ev srv s)
          else none)
  unfolding server_step settle
  server_step-at ev i srv s e =
      let same : (i == i) ≡ true = ground arith in rw (e, server_step) (rw same refl)

  sent-in_use :
      (i : ℕ) (srv : HttpServer Pattern Handler Callback) (t : HttpSession Handler)
      → srv.objects i ≡ some t
      → in_use ((server_step engine accept (sent keep_or_close) i srv).objects i)
        ≡ (if t.is_keep_alive then 1 else 0)
  unfolding http_step run_on_sent start_keep_alive_timer close close_session removals
  sent-in_use i srv t e =
      ap in_use (server_step-at (sent keep_or_close) i srv t e)
      ∙ elim (Bool-cases t.is_keep_alive) [
        | inl k ↦ rw (k, run_on_sent) (ground arith)
        | inr k ↦ rw (k, run_on_sent) (ground arith)
      ]

  sent-kept :
      (i : ℕ) (srv : HttpServer Pattern Handler Callback) (t : HttpSession Handler)
      → srv.objects i ≡ some t
      → t.is_keep_alive ≡ true
      → (server_step engine accept (sent keep_or_close) i srv).objects i
        ≡ some (start_keep_alive_timer srv.keep_alive_timeout t)
  unfolding http_step run_on_sent start_keep_alive_timer removals
  sent-kept i srv t e k =
      server_step-at (sent keep_or_close) i srv t e ∙ rw (k, run_on_sent) (ground arith)

  timer-in_use :
      (i : ℕ) (srv : HttpServer Pattern Handler Callback) (t : HttpSession Handler)
      → srv.objects i ≡ some t
      → t.timer_active ≡ true
      → t.timer_data ≡ true
      → in_use ((server_step engine accept timer_fired i srv).objects i) ≡ 0
  unfolding http_step keep_alive_timer_cb close close_session removals
  timer-in_use i srv t e a d =
      ap in_use (server_step-at timer_fired i srv t e)
      ∙ rw (a, d, http_step, keep_alive_timer_cb) (ground arith)

  gone-in_use :
      (ev : HttpEvent) (i : ℕ) (srv : HttpServer Pattern Handler Callback)
      → in_use (srv.objects i) ≡ 0
      → in_use ((server_step engine accept ev i srv).objects i) ≡ 0
  unfolding server_step
  gone-in_use ev i srv z = elim (Option-cases (srv.objects i)) [
    | inl e ↦ rw (e, server_step) z
    | inr (s, e) ↦
        let one : in_use (srv.objects i) ≡ 1 = ap in_use e in absurd (omega (arith, z, one))
  ]

  timeout-in_use :
      (i : ℕ) (srv : HttpServer Pattern Handler Callback) (t : HttpSession Handler)
      → srv.objects i ≡ some t
      → let ended = server_step engine accept (sent keep_or_close) i srv in
        in_use ((server_step engine accept timer_fired i ended).objects i) ≡ 0
  unfolding start_keep_alive_timer
  timeout-in_use i srv t e =
      let ended = server_step engine accept (sent keep_or_close) i srv in
      elim (Bool-cases t.is_keep_alive) [
        | inl k ↦ timer-in_use i ended _ (sent-kept i srv t e k) refl refl
        | inr k ↦ gone-in_use timer_fired i ended (sent-in_use i srv t e ∙ ground (arith, k))
      ]

  -- In every state that the server can come to, when the session `i` reads a request that is no
  -- upgrade: the session stays in use and does one thing for it, after it has stopped its timer if it
  -- was kept alive. If a route matches the request's method and path, it calls the route's handler
  -- on a request with the URL, the method and the joined body; else it writes the 404 answer. When
  -- the answer is sent, the vector still holds the session, once, if the first `connection` header
  -- has the value `keep-alive`, until the timer runs out; else the vector and the memory do not hold
  -- it.
  pub server_step-answers :
      {ip : List ℕ} {port : ℕ} {srv : HttpServer Pattern Handler Callback} (r : RequestText) (i : ℕ)
      (s : HttpSession Handler)
      → Reach engine accept ip port srv
      → srv.objects i ≡ some s
      → r.upgrade ≡ false
      → let answered = server_step engine accept (read (some (request_events r))) i srv in
        let ended = server_step engine accept (sent keep_or_close) i answered in
        (t : HttpSession Handler) × (answered.objects i ≡ some t)
        × HasAnswered engine srv.router accept r s t
        × (count i ended.sessions ≡ (if keeps r then 1 else 0))
        × (in_use (ended.objects i) ≡ (if keeps r then 1 else 0))
        × (count i (server_step engine accept timer_fired i ended).sessions ≡ 0)
  unfolding http_step
  server_step-answers {srv = srv} r i s reach e u =
      let ev = read (some (request_events r)) in
      let t = after ev srv s in
      let done = recv_cb-answers engine srv.router accept r s u in
      let (_, _, _, keep) = done in
      let none_left = HasAnswered-removals engine srv.router accept r s t done in
      let here : (server_step engine accept ev i srv).objects i ≡ some t =
        server_step-at ev i srv s e ∙ ground (arith, none_left) in
      let held =
        sent-in_use i (server_step engine accept ev i srv) t here
        ∙ ap (λ b. if b then 1 else 0) keep in
      let after_sent = stepped (sent keep_or_close) i (stepped ev i reach) in
      (
        t,
        here,
        done,
        (Reach-in_use engine accept i after_sent).0 ∙ held,
        held,
        (Reach-in_use engine accept i (stepped timer_fired i after_sent)).0
            ∙ timeout-in_use i (server_step engine accept ev i srv) t here,
      )
