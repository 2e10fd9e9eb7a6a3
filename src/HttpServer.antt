-- ===== src/HttpServer.antt =====
-- The HTTP server, include/httpserver.h and src/core/httpserver.cpp, with the sessions that it
-- makes. A session pointer is a number, which is not used again; `objects` is the memory that the
-- pointers lead to, which ends with the vector's reference. The event loop runs one event at a time,
-- so the lock is not modelled. What libuv answers is an argument.
pub mod Listed
pub mod Answers
use my_web_socket.Prelude.{
  ℤ, ℕ, zero, suc, ◌+◌, ◌-◌, ◌*◌, ◌≡◌, Option, none, some, List, [], ◌∷◌, length, Bool, true, false,
  not, ◌==◌, if◌then◌else◌,
}
use my_web_socket.HttpReq.{HttpReq}
use my_web_socket.HttpSession.{
  HttpEvent, HttpSession, http_default_keep_alive_timeout, new_http_session, http_step,
}
use my_web_socket.HttpSession.Timer.{removals}
use my_web_socket.Router.{RegexEngine, Route, add_route}
use my_web_socket.Registry.{push_ws_session, remove_session}
use my_web_socket.WsServer.{update}

-- What the server itself has libuv do, and its call of `onConnectCb`.
pub data ServerEffect (Callback : Type 0) : Type 0 where
  call_on_connect : Callback → ServerEffect Callback
  read_start : ℕ → ServerEffect Callback
  close_client : ServerEffect Callback

pub record HttpServer (Pattern Handler Callback : Type 0) : Type 0 where
  pub ip : List ℕ
  pub port : ℕ
  pub running : Bool
  pub keep_alive_timeout : ℤ
  pub router : List (ℕ × List (Route Pattern Handler))
  pub on_connect_cb : Option Callback
  pub on_request_cb : Option Callback
  pub on_upgrade_cb : Option Callback
  pub sessions : List ℕ
  pub objects : ℕ → Option (HttpSession Handler)
  pub next_session : ℕ
  pub log : List (ServerEffect Callback)

abbrev pub http_get : ℕ
http_get = 1

abbrev pub http_post : ℕ
http_post = 3

-- The address of a TCP socket's peer: the text that libuv makes of it, and the port in network byte
-- order.
pub data Peer : Type 0 where
  inet inet6 : List ℕ → ℕ → ℕ → Peer

-- `httpReq::set_ip`, for what `uv_tcp_getpeername` tells, if it succeeds.
unfoldable pub set_ip : Option Peer → HttpReq → HttpReq
set_ip none req = record req { ip = []; port = 0 }
set_ip (some (inet name high low)) req = record req { ip = name; port = high * 256 + low }
set_ip (some (inet6 name high low)) req = record req { ip = name; port = high * 256 + low }

unfoldable pub remove_times : ℕ → ℕ → List ℕ → List ℕ
unfolding remove_session
remove_times zero i xs = xs
remove_times (suc n) i xs = remove_times n i (remove_session xs i)

-- What comes of `uv_accept`, with the new client's peer and what the memory of `m_req` holds.
pub data Accepted : Type 0 where
  accept_failed : Accepted
  accepted : Option Peer → HttpReq → Accepted

module _ {Pattern Handler Callback : Type 0} where
  -- The constructor, where the calls of libuv succeed: it asserts that they do.
  unfoldable pub new_http_server : List ℕ → ℕ → HttpServer Pattern Handler Callback
  new_http_server ip port = record {
    ip = ip;
    port = port;
    running = false;
    keep_alive_timeout = http_default_keep_alive_timeout;
    router = [];
    on_connect_cb = none;
    on_request_cb = none;
    on_upgrade_cb = none;
    sessions = [];
    objects = λ i. none;
    next_session = 0;
    log = [];
  }

  -- Whether the call runs the loop.
  unfoldable pub start :
      HttpServer Pattern Handler Callback → HttpServer Pattern Handler Callback × Bool
  start srv = (record srv { running = true }, not srv.running)

  unfoldable pub on_connect :
      Callback → HttpServer Pattern Handler Callback → HttpServer Pattern Handler Callback
  on_connect callback srv = record srv { on_connect_cb = some callback }

  unfoldable pub on_request :
      Callback → HttpServer Pattern Handler Callback → HttpServer Pattern Handler Callback
  on_request callback srv = record srv { on_request_cb = some callback }

  unfoldable pub on_upgrade :
      Callback → HttpServer Pattern Handler Callback → HttpServer Pattern Handler Callback
  on_upgrade callback srv = record srv { on_upgrade_cb = some callback }

  unfoldable pub set_keep_alive_timeout :
      ℤ → HttpServer Pattern Handler Callback → HttpServer Pattern Handler Callback
  set_keep_alive_timeout timeout srv = record srv { keep_alive_timeout = timeout }

  unfoldable pub get_session_count : HttpServer Pattern Handler Callback → ℕ
  get_session_count srv = length srv.sessions

  unfoldable pub handle_connect :
      Option Peer
      → HttpReq
      → HttpServer Pattern Handler Callback
      → HttpServer Pattern Handler Callback
  unfolding new_http_session push_ws_session set_ip
  handle_connect peer memory srv =
      let i = srv.next_session in
      let ss = new_http_session memory in
      record srv {
        sessions = push_ws_session srv.sessions i;
        objects = update srv.objects i (some (record ss { req = set_ip peer ss.req }));
        next_session = suc i;
        log = read_start i ∷ srv.log;
      }

  -- `failed` is a negative status.
  unfoldable pub inter_on_connect :
      Bool → Accepted → HttpServer Pattern Handler Callback → HttpServer Pattern Handler Callback
  unfolding handle_connect
  inter_on_connect true _ srv = srv
  inter_on_connect false accept_failed srv = record srv { log = close_client ∷ srv.log }
  inter_on_connect false (accepted peer req) srv = elim srv.on_connect_cb [
    | none ↦ handle_connect peer req srv
    | some cb ↦ handle_connect peer req (record srv { log = call_on_connect cb ∷ srv.log })
  ]

  -- The session `i` becomes `t`, and the server does the removals that it asked for meanwhile.
  unfoldable pub settle :
      ℕ
      → HttpSession Handler
      → HttpSession Handler
      → HttpServer Pattern Handler Callback
      → HttpServer Pattern Handler Callback
  unfolding removals remove_times
  settle i s t srv =
      let n = removals t.log - removals s.log in
      record srv {
        sessions = remove_times n i srv.sessions;
        objects = update srv.objects i (if n == 0 then some t else none);
      }

  module _ (engine : RegexEngine Pattern) where
    unfoldable pub get :
        List ℕ → Handler → HttpServer Pattern Handler Callback → HttpServer Pattern Handler Callback
    unfolding add_route
    get url callback srv = record srv { router = add_route engine http_get url callback srv.router }

    unfoldable pub post :
        List ℕ → Handler → HttpServer Pattern Handler Callback → HttpServer Pattern Handler Callback
    unfolding add_route
    post url callback srv = record srv {
      router = add_route engine http_post url callback srv.router;
    }

    module _ (calculate_accept_key : List ℕ → List ℕ) where
      -- One event of the loop for the session `i`; an event of no session changes nothing. The
      -- assertion of `upgradeSession` that a callback is set is taken to hold.
      unfoldable pub server_step :
          HttpEvent → ℕ → HttpServer Pattern Handler Callback → HttpServer Pattern Handler Callback
      unfolding http_step settle
      server_step ev i srv = elim (srv.objects i) [
        | none ↦ srv
        | some s ↦
            let t = http_step calculate_accept_key engine srv.router srv.keep_alive_timeout ev s in
            settle i s t srv
      ]

      -- The servers that come of a new one.
      pub data Reach (ip : List ℕ) (port : ℕ) : HttpServer Pattern Handler Callback → Type 0 where
        start_of : Reach ip port (new_http_server ip port)
        routed_get :
            {srv : HttpServer Pattern Handler Callback} (url : List ℕ) (h : Handler)
            → Reach ip port srv
            → Reach ip port (get url h srv)
        routed_post :
            {srv : HttpServer Pattern Handler Callback} (url : List ℕ) (h : Handler)
            → Reach ip port srv
            → Reach ip port (post url h srv)
        timed :
            {srv : HttpServer Pattern Handler Callback} (timeout : ℤ)
            → Reach ip port srv
            → Reach ip port (set_keep_alive_timeout timeout srv)
        on_connect_set :
            {srv : HttpServer Pattern Handler Callback} (cb : Callback)
            → Reach ip port srv
            → Reach ip port (on_connect cb srv)
        on_request_set :
            {srv : HttpServer Pattern Handler Callback} (cb : Callback)
            → Reach ip port srv
            → Reach ip port (on_request cb srv)
        on_upgrade_set :
            {srv : HttpServer Pattern Handler Callback} (cb : Callback)
            → Reach ip port srv
            → Reach ip port (on_upgrade cb srv)
        started :
            {srv : HttpServer Pattern Handler Callback}
            → Reach ip port srv
            → Reach ip port (start srv).0
        connected :
            {srv : HttpServer Pattern Handler Callback} (failed : Bool) (a : Accepted)
            → Reach ip port srv
            → Reach ip port (inter_on_connect failed a srv)
        stepped :
            {srv : HttpServer Pattern Handler Callback} (ev : HttpEvent) (i : ℕ)
            → Reach ip port srv
            → Reach ip port (server_step ev i srv)
