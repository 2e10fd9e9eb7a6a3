-- ===== src/Tests/Answers.antt =====
-- The HTTP server of src/core/httpserver.cpp, from the requests of one client to their answers.
use my_web_socket.Prelude.{
  ℕ, ◌≡◌, refl, true, false, none, some, List, [], ◌∷◌, codes, text_eq, split_first, if◌then◌else◌,
}
use my_web_socket.HttpResp.{keep_or_close}
use my_web_socket.HttpSession.{to_lower, read, sent, timer_fired, HttpSession, new_http_session}
use my_web_socket.HttpSession.Requests.{RequestText, request_events, first_value}
use my_web_socket.HttpSession.Answers.{keeps, routed, HasAnswered}
use my_web_socket.HttpServer.{
  HttpServer, set_ip, accepted, get, server_step, new_http_server, inter_on_connect, start_of,
  connected, Reach, routed_get,
}
use my_web_socket.HttpServer.Listed.{in_use}
use my_web_socket.HttpServer.Answers.{server_step-answers}
use my_web_socket.Registry.Counting.{count}
use my_web_socket.Router.Dispatch.{handler_of}
use my_web_socket.Tests.Routes.{prefixes, get_id}

abbrev same_key : List ℕ → List ℕ
same_key k = k

-- A server with a handler for `/id/...`, and one client.
abbrev web : HttpServer (List ℕ) ℕ ℕ
web =
    inter_on_connect false (accepted none get_id)
      (get prefixes (codes "/id/") 7 (new_http_server (codes "127.0.0.1") 8081))

web-Reach : Reach prefixes same_key (codes "127.0.0.1") 8081 web
web-Reach = connected false (accepted none get_id) (routed_get (codes "/id/") 7 start_of)

abbrev client : HttpSession ℕ
client = let ss = new_http_session get_id in record ss { req = set_ip none ss.req }

web-client : web.objects 0 ≡ some client
unfolding inter_on_connect new_http_server get
web-client = refl

abbrev kept_request : RequestText
kept_request = record {
  url = codes "/id/42?x=1";
  head = (codes "Host", codes "a") ∷ (codes "Connection", codes "keep-alive") ∷ [];
  method = 1;
  major = 1;
  minor = 1;
  chunks = [];
  upgrade = false;
}

server_step-answers_example :
    let answered =
      server_step prefixes same_key (read (some (request_events kept_request))) 0 web in
    let ended = server_step prefixes same_key (sent keep_or_close) 0 answered in
    (t : HttpSession ℕ) × (answered.objects 0 ≡ some t)
    × HasAnswered prefixes web.router same_key kept_request client t
    × (count 0 ended.sessions ≡ (if keeps kept_request then 1 else 0))
    × (in_use (ended.objects 0) ≡ (if keeps kept_request then 1 else 0))
    × (count 0 (server_step prefixes same_key timer_fired 0 ended).sessions ≡ 0)
server_step-answers_example =
    server_step-answers prefixes same_key kept_request 0 client web-Reach web-client refl

its_handler : handler_of prefixes web.router (routed kept_request) ≡ some 7
unfolding handler_of inter_on_connect get routed new_http_server text_eq split_first
its_handler = refl

it_keeps : keeps kept_request ≡ true
unfolding keeps first_value text_eq to_lower
it_keeps = refl
