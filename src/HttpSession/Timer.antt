-- ===== src/HttpSession/Timer.antt =====
-- The life of an HTTP session of src/core/httpserver.cpp until it is taken out of the server's
-- vector, when its last reference goes: its handle is closed once, and its timer does not run on.
use my_web_socket.Prelude.{
  ℤ, if_elim, ℕ, suc, ◌≤◌, ◌≢◌, sym, ◌≡◌, refl, ap, ◌∙◌, ◌⊎◌, inl, inr, Bool, true, false, none,
  some, Option-cases, List, [], ◌∷◌, arith,
}
use my_web_socket.HttpReq.{HttpReq}
use my_web_socket.HttpResp.{keep_or_close, upgrade_session}
use my_web_socket.Router.{RegexEngine, Route, dispatch}
use my_web_socket.HttpSession.{
  ParserEvent, message_begin, url_event, header_field, header_value, headers_complete, body_event,
  message_complete, HttpEvent, read, sent, timer_fired, HttpEffect, remove_session, HttpSession,
  new_http_session, handle_request, on_event, execute, recv_cb, run_on_sent, keep_alive_timer_cb,
  close, close_session, stop_keep_alive_timer, start_keep_alive_timer, on_req_message_begin,
  on_req_url, on_req_header_field, on_req_header_value, on_req_header_complete, on_req_body,
  http_step,
}
use my_web_socket.HttpSession.Connection.{closes}

module _ {Handler : Type 0} where
  -- How often the session was taken out of the vector.
  unfoldable pub removals : List (HttpEffect Handler) → ℕ
  removals [] = 0
  removals (remove_session ∷ es) = suc (removals es)
  removals (_ ∷ es) = removals es

  -- A session that is in use: a timer runs only for a connection that is kept, with its data set.
  pub record IsAlive (s : HttpSession Handler) : Type 0 where
    pub in_use : removals s.log ≡ 0
    pub not_closed : closes s.log ≡ 0
    pub kept : s.timer_active ≡ true → s.is_keep_alive ≡ true
    pub owned : s.timer_active ≡ true → s.timer_data ≡ true

  -- A session that is gone: its handle was closed once, and no timer leads to it.
  pub record IsGone (s : HttpSession Handler) : Type 0 where
    pub removed : removals s.log ≡ 1
    pub closed_once : closes s.log ≡ 1
    pub no_timer : s.timer_active ≡ false

  pub new_http_session-IsAlive : (req : HttpReq) → IsAlive (new_http_session req)
  unfolding new_http_session removals closes
  new_http_session-IsAlive req = record {
    in_use = refl;
    not_closed = refl;
    kept = λ e. cc;
    owned = λ e. cc;
  }

  close-IsGone : (s : HttpSession Handler) → IsAlive s → s.timer_active ≡ false → IsGone (close s)
  unfolding close close_session removals closes
  close-IsGone s v e = record {
    removed = ap suc v.in_use;
    closed_once = ap suc v.not_closed;
    no_timer = e;
  }

  run_on_sent-IsAlive :
      (timeout : ℤ) (s : HttpSession Handler)
      → IsAlive s
      → IsAlive (run_on_sent timeout keep_or_close s) ⊎ IsGone (run_on_sent timeout keep_or_close s)
  unfolding run_on_sent start_keep_alive_timer removals closes
  run_on_sent-IsAlive timeout s v =
      if_elim (λ (t : HttpSession Handler). IsAlive t ⊎ IsGone t) s.is_keep_alive
        (λ e. inl (record {
          in_use = v.in_use;
          not_closed = v.not_closed;
          kept = λ _. refl;
          owned = λ _. refl;
        }))
        (λ e. inr (close-IsGone s v (ground (arith, v.kept))))

  -- A session in use whose timer does not run.
  abbrev IsIdle : HttpSession Handler → Type 0
  IsIdle s = (removals s.log ≡ 0) × (closes s.log ≡ 0) × (s.timer_active ≡ false)

  IsIdle-IsAlive : (s : HttpSession Handler) → IsIdle s → IsAlive s
  IsIdle-IsAlive s h = record {
    in_use = h.0;
    not_closed = h.1;
    kept = λ e. cc h.2;
    owned = λ e. cc h.2;
  }

  timer_cb-IsGone :
      (s : HttpSession Handler) → IsAlive s → s.timer_active ≡ true → IsGone (keep_alive_timer_cb s)
  unfolding keep_alive_timer_cb close close_session removals closes
  timer_cb-IsGone s v e =
      rw (v.owned e)
        (record { removed = ap suc v.in_use; closed_once = ap suc v.not_closed; no_timer = refl })

module _ {Pattern : Type 0} {Handler : Type 0} (accept : List ℕ → List ℕ)
    (engine : RegexEngine Pattern) (routes : List (ℕ × List (Route Pattern Handler))) where
  handle_request-IsIdle :
      (b : Bool) (s : HttpSession Handler)
      → IsIdle s
      → IsIdle (handle_request accept engine routes b s)
  unfolding handle_request removals closes
  handle_request-IsIdle true s h = h
  handle_request-IsIdle false s h = elim (Option-cases (dispatch engine routes s.req).1) [
    | inl e ↦ rw (e, handle_request) h
    | inr (_, e) ↦ rw (e, handle_request) h
  ]

  execute-IsIdle :
      (events : List ParserEvent) (s : HttpSession Handler)
      → IsIdle s
      → IsIdle (execute accept engine routes events s)
  unfolding execute on_event on_req_message_begin on_req_url on_req_header_field on_req_header_value
      on_req_header_complete on_req_body
  execute-IsIdle [] s h = h
  execute-IsIdle (message_complete u ∷ es) s h = execute-IsIdle es _ (handle_request-IsIdle u s h)
  execute-IsIdle (message_begin ∷ es) s h = execute-IsIdle es _ h
  execute-IsIdle (url_event t ∷ es) s h = execute-IsIdle es _ h
  execute-IsIdle (header_field t ∷ es) s h = execute-IsIdle es _ h
  execute-IsIdle (header_value t ∷ es) s h = execute-IsIdle es _ h
  execute-IsIdle (headers_complete m a b ∷ es) s h = execute-IsIdle es _ h
  execute-IsIdle (body_event t ∷ es) s h = execute-IsIdle es _ h

  recv_cb-IsAlive :
      (events : List ParserEvent) (s : HttpSession Handler)
      → IsAlive s
      → IsAlive (recv_cb accept engine routes (some events) s)
  unfolding recv_cb stop_keep_alive_timer removals closes
  recv_cb-IsAlive events s v = IsIdle-IsAlive _ (
      execute-IsIdle events _ (
        if_elim IsIdle s.is_keep_alive (λ e. (v.in_use, v.not_closed, refl))
          (λ e. (v.in_use, v.not_closed, ground (arith, v.kept)))))

  recv_cb-IsGone :
      (s : HttpSession Handler) → IsAlive s → IsGone (recv_cb accept engine routes none s)
  unfolding recv_cb stop_keep_alive_timer close close_session removals closes
  recv_cb-IsGone s v = record {
    removed = ap suc v.in_use;
    closed_once = ap suc v.not_closed;
    no_timer = refl;
  }

  pub http_step-IsAlive :
      (timeout : ℤ) (ev : HttpEvent) (s : HttpSession Handler)
      → IsAlive s
      → ev ≢ sent upgrade_session
      → IsAlive (http_step accept engine routes timeout ev s)
        ⊎ IsGone (http_step accept engine routes timeout ev s)
  unfolding http_step
  http_step-IsAlive timeout (read none) s v n = inr (recv_cb-IsGone s v)
  http_step-IsAlive timeout (read (some events)) s v n = inl (recv_cb-IsAlive events s v)
  http_step-IsAlive timeout (sent keep_or_close) s v n = run_on_sent-IsAlive timeout s v
  http_step-IsAlive timeout (sent upgrade_session) s v n = absurd (n refl)
  http_step-IsAlive timeout timer_fired s v n =
      if_elim (λ (t : HttpSession Handler). IsAlive t ⊎ IsGone t) s.timer_active
        (λ e. inr (timer_cb-IsGone s v e)) (λ e. inl v)

  -- The sessions that come of a new one while it is in use.
  pub data Reach (timeout : ℤ) (req : HttpReq) : HttpSession Handler → Type 0 where
    accepted : Reach timeout req (new_http_session req)
    stepped :
        {s : HttpSession Handler} (ev : HttpEvent)
        → Reach timeout req s
        → removals s.log ≡ 0
        → ev ≢ sent upgrade_session
        → Reach timeout req (http_step accept engine routes timeout ev s)

  Reach-cases :
      {timeout : ℤ} {req : HttpReq} {s : HttpSession Handler}
      → Reach timeout req s
      → IsAlive s ⊎ IsGone s
  Reach-cases {timeout} {req} accepted = inl (new_http_session-IsAlive req)
  Reach-cases {timeout} (stepped {s} ev r alive n) = elim (Reach-cases r) [
    | inl v ↦ http_step-IsAlive timeout ev s v n
    | inr g ↦ absurd (omega (arith, g.removed, alive))
  ]

  -- Whatever reads, ends of writes and runs of the timer come to a session until it is taken out of
  -- the vector, without an upgrade: it was taken out at most once, its handle has been closed as
  -- often, and if it was taken out its timer does not run.
  pub Reach-closes :
      {timeout : ℤ} {req : HttpReq} {s : HttpSession Handler}
      → Reach timeout req s
      → (removals s.log ≤ 1)
        × (closes s.log ≡ removals s.log)
        × ((removals s.log ≡ 0) ⊎ (s.timer_active ≡ false))
  Reach-closes {s} r = elim (Reach-cases r) [
    | inl v ↦ (omega (arith, v.in_use), v.not_closed ∙ sym v.in_use, inl v.in_use)
    | inr g ↦ (omega (arith, g.removed), g.closed_once ∙ sym g.removed, inr g.no_timer)
  ]
