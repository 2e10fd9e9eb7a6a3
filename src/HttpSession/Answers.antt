-- ===== src/HttpSession/Answers.antt =====
-- What a session of src/core/httpserver.cpp does for a request that it has read.
use my_web_socket.Prelude.{
  concat, ℕ, ◌≡◌, refl, ap, ◌∙◌, subst, Bool, false, Option, none, some, Option-cases, inl, inr,
  List, [], ◌∷◌, ◌++◌, codes, lookup, text_eq, if◌then◌else◌, Bool-cases, append_assoc, assign,
}
use my_web_socket.FileReader.{bytes_of}
use my_web_socket.HttpReq.{HttpReq}
use my_web_socket.HttpResp.{
  HttpResp, resp_write, keep_or_close, crlf, send, send_str, new_resp, set_status, http_status_str,
  header_lines, to_string,
}
use my_web_socket.Router.{RegexEngine, Route, dispatch}
use my_web_socket.Router.Dispatch.{handler_of}
use my_web_socket.Router.Fields.{dispatch-fields, handler_of-fields}
use my_web_socket.HttpSession.{
  HttpEffect, respond, call_handler, timer_stop, HttpSession, need_keep_connection, init_resp,
  handle_err_req, handle_request, execute, recv_cb, stop_keep_alive_timer,
}
use my_web_socket.HttpSession.Timer.{removals}
use my_web_socket.HttpSession.Requests.{RequestText, request_events, first_value, execute-request}
use my_web_socket.HttpSession.Connection.{handle_request-keeps}
use my_web_socket.HttpSession.Upgrade.{two_buffers}

-- The answer to a request that no route is for.
pub not_found_text : List ℕ
not_found_text =
    codes "HTTP/1.1 404 Not Found"
    ++ (crlf
        ++ (codes "Content-Type: text/plain"
            ++ (crlf ++ (codes "Content-Length: 13" ++ (crlf ++ (crlf ++ codes "404 Not Found"))))))

handle_err_req-text : bytes_of (handle_err_req init_resp).0.buffers ≡ not_found_text
unfolding handle_err_req init_resp new_resp set_status send_str send http_status_str header_lines
    to_string not_found_text assign text_eq
handle_err_req-text = two_buffers _ _ ∙ simp append_assoc

handle_err_req-response :
    (handle_err_req init_resp
      ≡ ((handle_err_req init_resp).0, resp_write (handle_err_req init_resp).0.buffers ∷ []))
    × ((handle_err_req init_resp).0.on_sent ≡ some keep_or_close)
unfolding handle_err_req init_resp new_resp set_status send_str send
handle_err_req-response = (refl, refl)

-- Whether the value of a header `connection` asks to keep the connection.
says_keep : Option (List ℕ) → Bool
says_keep none = false
says_keep (some v) = text_eq v (codes "keep-alive")

need_keep_connection-says_keep :
    (req : HttpReq) → need_keep_connection req ≡ says_keep (lookup (codes "connection") req.headers)
unfolding need_keep_connection says_keep
need_keep_connection-says_keep req = elim (Option-cases (lookup (codes "connection") req.headers)) [
  | inl e ↦ rw (e, need_keep_connection) refl
  | inr (v, e) ↦ rw (e, need_keep_connection) refl
]

-- Whether a request asks for it.
unfoldable pub keeps : RequestText → Bool
unfolding says_keep
keeps r = says_keep (first_value (codes "connection") r.head)

-- What the router reads of a request.
unfoldable pub routed : RequestText → HttpReq
routed r = record {
  url = r.url;
  headers = [];
  body = [];
  method = r.method;
  version = [];
  params = [];
  is_query_params_parsed = false;
  ip = [];
  port = 0;
  query_params = [];
}

-- What a session does for a request whose route has a handler or not.
abbrev pub Answers : {Handler : Type 0} → RequestText → Option Handler → HttpEffect Handler → Type 0
Answers r none e =
    (resp : HttpResp) × (e ≡ respond (resp, resp_write resp.buffers ∷ []))
    × (bytes_of resp.buffers ≡ not_found_text)
    × (resp.on_sent ≡ some keep_or_close)
Answers r (some h) e =
    (req : HttpReq) × (e ≡ call_handler h req init_resp)
    × (req.url ≡ r.url)
    × (req.method ≡ r.method)
    × (req.body ≡ concat r.chunks)

Answers-removals :
    {Handler : Type 0} (r : RequestText) (o : Option Handler) (e : HttpEffect Handler)
    (es : List (HttpEffect Handler))
    → Answers r o e
    → removals (e ∷ es) ≡ removals es
unfolding removals
Answers-removals r none e es (_, same, _, _) = rw same refl
Answers-removals r (some h) e es (_, same, _, _, _) = rw same refl

module _ {Pattern Handler : Type 0} (engine : RegexEngine Pattern)
    (routes : List (ℕ × List (Route Pattern Handler))) where
  module _ (accept : List ℕ → List ℕ) where
    -- A session that has read a request.
    abbrev pub HasAnswered : RequestText → HttpSession Handler → HttpSession Handler → Type 0
    HasAnswered r s t =
        (e : HttpEffect Handler) × Answers r (handler_of engine routes (routed r)) e
        × (t.log ≡ e ∷ (if s.is_keep_alive then timer_stop ∷ s.log else s.log))
        × (t.is_keep_alive ≡ keeps r)

    handle_request-Answers :
        (r : RequestText) (q : HttpSession Handler)
        → q.req.url ≡ r.url
        → q.req.method ≡ r.method
        → q.req.body ≡ concat r.chunks
        → (e : HttpEffect Handler) × Answers r (handler_of engine routes q.req) e
          × ((handle_request accept engine routes false q).log ≡ e ∷ q.log)
    unfolding handle_request handler_of
    handle_request-Answers r q u m b = elim (Option-cases (dispatch engine routes q.req).1) [
      | inl e ↦
          rw (e, handle_request)
            (
              _,
              (
                (handle_err_req init_resp).0,
                ap respond handle_err_req-response.0,
                handle_err_req-text,
                handle_err_req-response.1,
              ),
              refl,
            )
      | inr (h, e) ↦
          let f = dispatch-fields engine routes q.req in
          rw (e, handle_request) (_, (_, refl, f.0 ∙ u, f.1 ∙ m, f.2 ∙ b), refl)
    ]

    starts_quiet :
        (s : HttpSession Handler)
        → (if s.is_keep_alive then stop_keep_alive_timer s else s).log
          ≡ (if s.is_keep_alive then timer_stop ∷ s.log else s.log)
    unfolding stop_keep_alive_timer
    starts_quiet s = elim (Bool-cases s.is_keep_alive) [ inl e ↦ rw e refl | inr e ↦ rw e refl ]

    pub recv_cb-answers :
        (r : RequestText) (s : HttpSession Handler)
        → r.upgrade ≡ false
        → HasAnswered r s (recv_cb accept engine routes (some (request_events r)) s)
    unfolding recv_cb keeps routed
    recv_cb-answers r s u =
        let start = if s.is_keep_alive then stop_keep_alive_timer s else s in
        let (q, run, url, headers, body, method, _, quiet) =
          execute-request accept engine routes r (codes "connection") start in
        let ended : execute accept engine routes (request_events r) start
            ≡ handle_request accept engine routes false q =
          run ∙ ap (λ b. handle_request accept engine routes b q) u in
        let (e, answers, log) = handle_request-Answers r q url method body in
        (
          e,
          subst (λ o. Answers r o e) (handler_of-fields engine routes q.req (routed r) url method)
              answers,
          ap (λ (t : HttpSession Handler). t.log) ended ∙ log ∙ ap (◌∷◌ e) (quiet ∙ starts_quiet s),
          ap (λ (t : HttpSession Handler). t.is_keep_alive) ended
              ∙ (handle_request-keeps accept engine routes q).0
              ∙ need_keep_connection-says_keep q.req
              ∙ ap says_keep headers,
        )

    pub HasAnswered-removals :
        (r : RequestText) (s t : HttpSession Handler)
        → HasAnswered r s t
        → removals t.log ≡ removals s.log
    unfolding removals
    HasAnswered-removals r s t (e, answers, log, _) =
        ap removals log
        ∙ Answers-removals r _ e _ answers
        ∙ elim (Bool-cases s.is_keep_alive) [ inl k ↦ rw k refl | inr k ↦ rw k refl ]
