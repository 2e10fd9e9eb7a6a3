-- ===== src/Tests/Examples.antt =====
-- The example program main.cpp at a concrete request.
use my_web_socket.Prelude.{
  ℕ, ◌≡◌, refl, true, false, none, some, List, [], ◌∷◌, codes, take, drop, text_eq, split_first,
  if◌then◌else◌,
}
use my_web_socket.FileReader.{bytes_of}
use my_web_socket.HttpReq.{HttpReq}
use my_web_socket.HttpResp.{resp_write}
use my_web_socket.Router.{RegexEngine, parse_path_to_regex, path_of}
use my_web_socket.HttpSession.{HttpSession, call_handler, init_resp, new_http_session, execute}
use my_web_socket.HttpSession.Requests.{RequestText, request_events}
use my_web_socket.Examples.{RouteHandler, show_id, handle_id, example_server}
use my_web_socket.Examples.LostId.{HasPatterns, connect_text, execute-lost_id}
use my_web_socket.Examples.Client.{
  SystemCalls, got, read_failed, client_main, closes, late_writes, client_main-closes,
}
use my_web_socket.Tests.Routes.{get_id}

abbrev print_connect : ℕ
print_connect = 0

-- An engine for the two templates of the program.
abbrev two_templates : RegexEngine (List ℕ)
two_templates = record {
  compile = λ s. some s;
  first_groups = λ regex text. if text_eq text (codes "/id/:id") then codes "id" ∷ [] else [];
  regex_replace = λ regex format text. text;
  regex_match = λ p t.
      if text_eq p (codes "^/id/:id$")
      then (if text_eq (take 4 t) (codes "/id/") then some (t ∷ drop 4 t ∷ []) else none)
      else if text_eq t (codes "/")
      then some (t ∷ [])
      else none;
}

abbrev asked : RequestText
asked = record {
  url = codes "/id/42?x=1";
  head = [];
  method = 1;
  major = 1;
  minor = 1;
  chunks = [];
  upgrade = false;
}

abbrev same_key : List ℕ → List ℕ
same_key k = k

abbrev fresh : HttpSession RouteHandler
fresh = new_http_session get_id

fresh-params : fresh.req.params ≡ []
unfolding new_http_session
fresh-params = refl

two_templates-HasPatterns :
    HasPatterns two_templates print_connect (codes "^/$") (codes "^/id/:id$")
unfolding parse_path_to_regex
two_templates-HasPatterns = (refl, refl)

two_templates-names : (parse_path_to_regex two_templates (codes "/id/:id")).1 ≡ codes "id" ∷ []
unfolding parse_path_to_regex text_eq
two_templates-names = refl

asked-refused : two_templates.regex_match (codes "^/$") (path_of asked.url) ≡ none
unfolding path_of split_first text_eq
asked-refused = refl

asked-matched :
    two_templates.regex_match (codes "^/id/:id$") (path_of asked.url)
    ≡ some (codes "/id/42" ∷ codes "42" ∷ [])
unfolding path_of split_first text_eq
asked-matched = refl

execute-lost_id_example :
    (req : HttpReq) × (lines : List (List ℕ)) × ((execute same_key two_templates
        (example_server two_templates print_connect).router
        (request_events asked)
        fresh).log
      ≡ call_handler show_id req init_resp ∷ fresh.log)
    × ((handle_id req init_resp).1 ≡ [] ∷ lines)
    × ((handle_id req init_resp).2.1 ≡ resp_write (handle_id req init_resp).2.0.buffers ∷ [])
    × (bytes_of (handle_id req init_resp).2.0.buffers ≡ connect_text)
execute-lost_id_example =
    execute-lost_id two_templates print_connect (codes "^/$") (codes "^/id/:id$") same_key asked
      (codes "/id/42") (codes "42") fresh two_templates-HasPatterns two_templates-names refl refl
      asked-refused asked-matched fresh-params

-- A connection that fails after one piece of an answer.
abbrev failing : SystemCalls
failing = record {
  socket_ok = true;
  address_ok = true;
  connect_ok = true;
  write_ok = λ n. true;
  reads = got (codes "HTTP/1.1 200 OK") ∷ read_failed ∷ [];
}

client_main-closes_example :
    (closes (client_main failing) ≡ 1) × (late_writes false (client_main failing) ≡ 0)
client_main-closes_example = client_main-closes failing
