-- ===== src/Examples.antt =====
-- The example program main.cpp: a server with two routes. `Callback` is the type of the programs'
-- callbacks for a connection, and `print_connect` the one of this program. What leptjson makes of
-- the program's JSON value is a parameter.
pub mod LostId
pub mod Client
use my_web_socket.Prelude.{
  ℕ, suc, Option, none, some, List, [], ◌∷◌, ◌++◌, codes, lookup, ◌==◌, map, if◌then◌else◌,
}
use my_web_socket.HttpReq.{HttpReq, ParamMap, query}
use my_web_socket.HttpResp.{HttpResp, RespAction, send_str, send_json, send_file}
use my_web_socket.Router.{RegexEngine}
use my_web_socket.HttpSession.{insert, value_or_empty}
use my_web_socket.HttpServer.{HttpServer, new_http_server, on_connect, get, start}

-- The handlers of the two routes.
pub data RouteHandler : Type 0 where
  show_root show_id : RouteHandler

-- The first handler: the response depends on the counter `cnt`, which it then raises.
unfoldable pub handle_root : List ℕ → ℕ → HttpResp → (HttpResp × List RespAction) × ℕ
unfolding send_str send_json send_file
handle_root json cnt resp = (
  if cnt == 2
      then send_str (codes "hello world") resp
      else if cnt == 1
      then send_json json resp
      else if cnt == 0
      then send_file (codes "./index.html") (codes ".html") resp
      else send_str (codes "hello world") resp,
  suc cnt,
)

-- A line for each parameter of the query.
unfoldable pub param_lines : ParamMap → List (List ℕ)
param_lines [] = []
param_lines ((k, v) ∷ m) = (k ++ (codes " " ++ v)) ∷ param_lines m

-- The second handler: the lines that it prints, and the response. `params["id"]` adds the key if it
-- is not there.
unfoldable pub handle_id :
    HttpReq → HttpResp → HttpReq × List (List ℕ) × (HttpResp × List RespAction)
unfolding insert query param_lines send_str
handle_id req resp =
    let id = value_or_empty (lookup (codes "id") req.params) in
    let (asked, pairs) = query (record req { params = insert (codes "id") [] req.params }) in
    (asked, id ∷ param_lines pairs, send_str (codes "connect") resp)

-- `main`, up to the call that runs the loop.
unfoldable pub example_server :
    {Pattern Callback : Type 0}
    → RegexEngine Pattern
    → Callback
    → HttpServer Pattern RouteHandler Callback
unfolding new_http_server on_connect get start
example_server engine print_connect =
    let svr = on_connect print_connect (new_http_server (codes "127.0.0.1") 8081) in
    (start (get engine (codes "/id/:id") show_id (get engine (codes "/") show_root svr))).0
