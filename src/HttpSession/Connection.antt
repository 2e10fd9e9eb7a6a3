-- ===== src/HttpSession/Connection.antt =====
-- How the HTTP session of src/core/httpserver.cpp keeps and closes its connection.
use my_web_socket.Prelude.{
  ℤ, ℕ, suc, ◌≡◌, refl, ◌∙◌, false, Bool-cases, inl, inr, some, List, [], ◌∷◌, Option-cases,
  if◌then◌else◌, arith, All,
}
use my_web_socket.HttpResp.{keep_or_close}
use my_web_socket.Router.{RegexEngine, Route, dispatch}
use my_web_socket.HttpSession.{
  close_session, start_keep_alive_timer, on_req_message_begin, on_req_url, on_req_header_field,
  on_req_header_value, on_req_header_complete, on_req_body, ParserEvent, message_begin, url_event,
  header_field, header_value, headers_complete, body_event, message_complete, HttpEffect, uv_close,
  HttpSession, need_keep_connection, handle_request, on_event, execute, recv_cb, run_on_sent, close,
  stop_keep_alive_timer,
}

module _ {Handler : Type 0} where
  unfoldable pub closes : List (HttpEffect Handler) → ℕ
  closes [] = 0
  closes (uv_close ∷ es) = suc (closes es)
  closes (_ ∷ es) = closes es

  run_on_sent-closes :
      (timeout : ℤ) (s : HttpSession Handler)
      → closes (run_on_sent timeout keep_or_close s).log
        ≡ (if s.is_keep_alive then closes s.log else suc (closes s.log))
  unfolding run_on_sent start_keep_alive_timer close close_session closes
  run_on_sent-closes timeout s = elim (Bool-cases s.is_keep_alive) [
    | inl e ↦ rw (e, run_on_sent) refl
    | inr e ↦ rw (e, run_on_sent) refl
  ]

-- The parser's events but the end of a message.
abbrev pub IsPartial : ParserEvent → Type 0
IsPartial (message_complete _) = ⊥
IsPartial _ = Unit

module _ {Pattern : Type 0} {Handler : Type 0} (accept : List ℕ → List ℕ)
    (engine : RegexEngine Pattern) (routes : List (ℕ × List (Route Pattern Handler))) where
  pub handle_request-keeps :
      (s : HttpSession Handler)
      → ((handle_request accept engine routes false s).is_keep_alive ≡ need_keep_connection s.req)
        × (closes (handle_request accept engine routes false s).log ≡ closes s.log)
  unfolding handle_request closes
  handle_request-keeps s = elim (Option-cases (dispatch engine routes s.req).1) [
    | inl e ↦ rw (e, handle_request) (refl, refl)
    | inr (h, e) ↦ rw (e, handle_request) (refl, refl)
  ]

  execute-partial :
      (events : List ParserEvent) (s : HttpSession Handler)
      → All IsPartial events
      → ((execute accept engine routes events s).is_keep_alive ≡ s.is_keep_alive)
        × ((execute accept engine routes events s).log ≡ s.log)
  unfolding execute on_event on_req_message_begin on_req_url on_req_header_field on_req_header_value
      on_req_header_complete on_req_body
  execute-partial [] s h = (refl, refl)
  execute-partial (message_begin ∷ es) s h = execute-partial es _ h.1
  execute-partial (url_event t ∷ es) s h = execute-partial es _ h.1
  execute-partial (header_field t ∷ es) s h = execute-partial es _ h.1
  execute-partial (header_value t ∷ es) s h = execute-partial es _ h.1
  execute-partial (headers_complete m a b ∷ es) s h = execute-partial es _ h.1
  execute-partial (body_event t ∷ es) s h = execute-partial es _ h.1
  execute-partial (message_complete u ∷ es) s h = absurd h.0

  -- A read that ends no message, and comes before the answer to a request is sent: the handle is
  -- closed when the answer is sent, also where it was to be kept alive.
  pub recv_cb-forgets :
      (timeout : ℤ) (events : List ParserEvent) (s : HttpSession Handler)
      → All IsPartial events
      → closes
          (run_on_sent timeout keep_or_close (recv_cb accept engine routes (some events) s)).log
        ≡ suc (closes s.log)
  unfolding recv_cb stop_keep_alive_timer closes
  recv_cb-forgets timeout events s h = elim (Bool-cases s.is_keep_alive) [
    | inl e ↦
        let p = execute-partial events (stop_keep_alive_timer s) h in
        rw (e, recv_cb) (run_on_sent-closes timeout _ ∙ ground (arith, p))
    | inr e ↦
        let p = execute-partial events s h in
        rw (e, recv_cb) (run_on_sent-closes timeout _ ∙ ground (arith, p))
  ]
