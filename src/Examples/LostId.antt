-- ===== src/Examples/LostId.antt =====
-- A request for `/id/...` to the example program main.cpp.
use my_web_socket.Prelude.{
  ℕ, ◌≡◌, refl, ap, ◌∙◌, sym, false, none, some, List, [], ◌∷◌, ◌++◌, codes, lookup, assign,
  text_eq, append_assoc, length,
}
use my_web_socket.FileReader.{bytes_of}
use my_web_socket.HttpReq.{HttpReq, query}
use my_web_socket.HttpReq.Query.{assign_all}
use my_web_socket.HttpResp.{
  resp_write, crlf, send, send_str, new_resp, http_status_str, header_lines, to_string,
}
use my_web_socket.Router.{
  RegexEngine, Route, parse_path_to_regex, add_route, push_route, method_routes, path_of, dispatch,
}
use my_web_socket.Router.Dispatch.{zip_init, dispatch-params}
use my_web_socket.HttpSession.{
  HttpSession, call_handler, init_resp, handle_request, execute, insert, value_or_empty,
}
use my_web_socket.HttpSession.Requests.{RequestText, request_events, execute-request}
use my_web_socket.HttpSession.Upgrade.{two_buffers}
use my_web_socket.HttpServer.{http_get, new_http_server, on_connect, get, start}
use my_web_socket.Examples.{
  RouteHandler, show_root, show_id, handle_id, param_lines, example_server,
}

pub connect_text : List ℕ
connect_text =
    codes "HTTP/1.1 200 OK"
    ++ (crlf
        ++ (codes "Content-Type: text/plain"
            ++ (crlf ++ (codes "Content-Length: 7" ++ (crlf ++ (crlf ++ codes "connect"))))))

handle_id-text : (req : HttpReq) → bytes_of (handle_id req init_resp).2.0.buffers ≡ connect_text
unfolding handle_id init_resp new_resp send_str send http_status_str header_lines to_string
    connect_text assign text_eq
handle_id-text req = two_buffers _ _ ∙ simp append_assoc

handle_id-write :
    (req : HttpReq)
    → (handle_id req init_resp).2.1 ≡ resp_write (handle_id req init_resp).2.0.buffers ∷ []
unfolding handle_id send_str send
handle_id-write req = refl

handle_id-lines :
    (q : HttpReq)
    → q.params ≡ []
    → (lines : List (List ℕ)) × ((handle_id q init_resp).1 ≡ [] ∷ lines)
unfolding handle_id lookup
handle_id-lines q e =
    let lines = param_lines (query (record q { params = insert (codes "id") [] q.params })).1 in
    (lines, ap (λ m. value_or_empty (lookup (codes "id") m) ∷ lines) e)

module _ {Pattern Callback : Type 0} (engine : RegexEngine Pattern) (print_connect : Callback)
    (root_pattern id_pattern : Pattern) where
  route : List ℕ → Pattern → RouteHandler → Route Pattern RouteHandler
  route template pattern h = record {
    pattern = pattern;
    handler = h;
    param_names = (parse_path_to_regex engine template).1;
  }

  -- Both templates are regular expressions.
  abbrev pub HasPatterns : Type 0
  HasPatterns =
      (engine.compile (parse_path_to_regex engine (codes "/")).0 ≡ some root_pattern)
      × (engine.compile (parse_path_to_regex engine (codes "/id/:id")).0 ≡ some id_pattern)

  add_route-compiled :
      (method : ℕ) (template : List ℕ) (pattern : Pattern) (h : RouteHandler)
      (routes : List (ℕ × List (Route Pattern RouteHandler)))
      → engine.compile (parse_path_to_regex engine template).0 ≡ some pattern
      → add_route engine method template h routes
        ≡ push_route method (route template pattern h) routes
  unfolding add_route route
  add_route-compiled method template pattern h routes e = rw (e, add_route) refl

  example_server-router :
      (example_server engine print_connect).router
      ≡ add_route engine http_get
          (codes "/id/:id")
          show_id
          (add_route engine http_get (codes "/") show_root [])
  unfolding example_server new_http_server on_connect get start
  example_server-router = refl

  example_server-routes :
      HasPatterns
      → method_routes http_get (example_server engine print_connect).router
        ≡ some (
            route (codes "/") root_pattern show_root
            ∷ route (codes "/id/:id") id_pattern show_id
            ∷ [])
  unfolding push_route method_routes
  example_server-routes (a, b) = ap (method_routes http_get) (
      example_server-router
      ∙ add_route-compiled http_get (codes "/id/:id") id_pattern show_id _ b
      ∙ ap (push_route http_get (route (codes "/id/:id") id_pattern show_id))
          (add_route-compiled http_get (codes "/") root_pattern show_root [] a))

  -- The one group of a path is assigned to none of the names but the last, of which there is none.
  dispatch-id :
      (q : HttpReq) (whole id : List ℕ)
      → HasPatterns
      → (parse_path_to_regex engine (codes "/id/:id")).1 ≡ codes "id" ∷ []
      → q.method ≡ http_get
      → engine.regex_match root_pattern (path_of q.url) ≡ none
      → engine.regex_match id_pattern (path_of q.url) ≡ some (whole ∷ id ∷ [])
      → dispatch engine (example_server engine print_connect).router q ≡ (q, some show_id)
  unfolding route zip_init assign_all
  dispatch-id q whole id h names m refused matched =
      dispatch-params engine (example_server engine print_connect).router q
        (route (codes "/") root_pattern show_root ∷ []) []
        (route (codes "/id/:id") id_pattern show_id) whole (id ∷ [])
        (ap (λ k. method_routes k (example_server engine print_connect).router) m
          ∙ example_server-routes h)
        (refused, tt) matched (ap length (sym names))
      ∙ ap (λ ns. (record q { params = assign_all (zip_init ns (id ∷ [])) q.params }, some show_id))
          names

  handle_request-id :
      (accept : List ℕ → List ℕ) (q : HttpSession RouteHandler)
      → (dispatch engine (example_server engine print_connect).router q.req) ≡ (q.req, some show_id)
      → (handle_request accept engine (example_server engine print_connect).router false q).log
        ≡ call_handler show_id q.req init_resp ∷ q.log
  unfolding handle_request
  handle_request-id accept q e =
      rw (ap (λ d. d.1) e, handle_request) (ap (λ d. call_handler show_id d.0 init_resp ∷ q.log) e)

  -- The server of main.cpp, where both templates are regular expressions, the second has one name, a
  -- path matches the second alone, with one group, and no parameter is left from before: the session
  -- does one thing for a GET request of the path that is no upgrade, and calls the second handler;
  -- the first line that the handler prints, `params["id"]`, is empty; and it answers with one write
  -- of the status 200 and the text `connect`.
  pub execute-lost_id :
      (accept : List ℕ → List ℕ) (r : RequestText) (whole id : List ℕ)
      (s : HttpSession RouteHandler)
      → HasPatterns
      → (parse_path_to_regex engine (codes "/id/:id")).1 ≡ codes "id" ∷ []
      → r.method ≡ http_get
      → r.upgrade ≡ false
      → engine.regex_match root_pattern (path_of r.url) ≡ none
      → engine.regex_match id_pattern (path_of r.url) ≡ some (whole ∷ id ∷ [])
      → s.req.params ≡ []
      → let routes = (example_server engine print_connect).router in
        (req : HttpReq) × (lines : List (List ℕ)) × ((execute accept engine routes
            (request_events r)
            s).log
          ≡ call_handler show_id req init_resp ∷ s.log)
        × ((handle_id req init_resp).1 ≡ [] ∷ lines)
        × ((handle_id req init_resp).2.1 ≡ resp_write (handle_id req init_resp).2.0.buffers ∷ [])
        × (bytes_of (handle_id req init_resp).2.0.buffers ≡ connect_text)
  execute-lost_id accept r whole id s h names m u refused matched blank =
      let routes = (example_server engine print_connect).router in
      let (q, run, url, _, _, method, params, quiet) =
        execute-request accept engine routes r [] s in
      let chosen =
        dispatch-id q.req whole id h names (method ∙ m)
          (ap (λ t. engine.regex_match root_pattern (path_of t)) url ∙ refused)
          (ap (λ t. engine.regex_match id_pattern (path_of t)) url ∙ matched) in
      let (lines, printed) = handle_id-lines q.req (params ∙ blank) in
      (
        q.req,
        lines,
        ap (λ (t : HttpSession RouteHandler). t.log) run
            ∙ ap (λ b. (handle_request accept engine routes b q).log) u
            ∙ handle_request-id accept q chosen
            ∙ ap (◌∷◌ (call_handler show_id q.req init_resp)) quiet,
        printed,
        handle_id-write q.req,
        handle_id-text q.req,
      )
