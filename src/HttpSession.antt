-- ===== src/HttpSession.antt =====
-- The HTTP session and its server, include/httpserver.h and src/core/httpserver.cpp. http-parser
-- is the environment: a read is the list of events that it reports. What the session does to
-- libuv, to its server and to the program is written to a log, newest first.
pub mod Requests
pub mod Connection
pub mod Upgrade
pub mod Timer
pub mod Answers
use my_web_socket.Prelude.{
  ℤ, pos, negsuc, suc, ℕ, ◌+◌, ◌-◌, ◌*◌, ◌^◌, Bool, true, false, ◌&&◌, Option, none, some, List, [],
  ◌∷◌, ◌++◌, codes, leb, map, text_eq, lookup, assign, if◌then◌else◌,
}
use my_web_socket.HttpReq.{HttpReq, ParamMap, new_http_req}
use my_web_socket.HttpResp.{
  HttpStatus, switching_protocols, not_found, HttpResp, RespAction, OnSent, keep_or_close,
  upgrade_session, new_resp, set_header, set_status, send_str, to_string,
}
use my_web_socket.Router.{RegexEngine, Route, dispatch}

-- What http-parser reports. The end of a message has the parser's `upgrade` flag.
pub data ParserEvent : Type 0 where
  message_begin : ParserEvent
  url_event header_field header_value body_event : List ℕ → ParserEvent
  headers_complete : ℕ → ℕ → ℕ → ParserEvent
  message_complete : Bool → ParserEvent

pub data HttpEvent : Type 0 where
  read : Option (List ParserEvent) → HttpEvent
  sent : OnSent → HttpEvent
  timer_fired : HttpEvent

pub data HttpEffect (Handler : Type 0) : Type 0 where
  read_stop uv_close remove_session on_upgrade timer_stop : HttpEffect Handler
  timer_start : ℕ → HttpEffect Handler
  call_handler : Handler → HttpReq → HttpResp → HttpEffect Handler
  respond : HttpResp × List RespAction → HttpEffect Handler

-- `timer_data` tells whether `m_keepAliveTimer.data` is set, `timer_active` whether libuv's timer
-- runs; it runs out once. `recv_buf_len` is the length of `m_recvBuf`.
pub record HttpSession (Handler : Type 0) : Type 0 where
  pub tmp_key : List ℕ
  pub req : HttpReq
  pub is_keep_alive : Bool
  pub timer_data : Bool
  pub timer_active : Bool
  pub recv_buf_len : ℕ
  pub log : List (HttpEffect Handler)

abbrev pub http_default_keep_alive_timeout : ℤ
http_default_keep_alive_timeout = pos 20

abbrev pub http_default_recv_buf_size : ℕ
http_default_recv_buf_size = 2 ^ 16

-- The milliseconds that libuv is given, a number of 64 bits, for a timeout in seconds whose product
-- with 1000 is an `int`; beyond that the product is undefined.
unfoldable pub timer_due : ℤ → ℕ
timer_due (pos n) = n * 1000
timer_due (negsuc n) = 2 ^ 64 - suc n * 1000

-- `std::tolower` in the C locale.
unfoldable pub to_lower : ℕ → ℕ
to_lower c = if leb 65 c && leb c 90 then c + 32 else c

-- `insert` of a map, which keeps a value that is there.
unfoldable pub insert : List ℕ → List ℕ → ParamMap → ParamMap
insert k v m = elim (lookup k m) [ none ↦ assign k v m | some _ ↦ m ]

-- Only the header `connection` keeps a connection.
unfoldable pub need_keep_connection : HttpReq → Bool
need_keep_connection req = elim (lookup (codes "connection") req.headers) [
  | none ↦ false
  | some v ↦ text_eq v (codes "keep-alive")
]

module _ {Handler : Type 0} where
  -- The constructor, for what the memory of `m_req` holds.
  unfoldable pub new_http_session : HttpReq → HttpSession Handler
  unfolding new_http_req
  new_http_session memory = record {
    tmp_key = [];
    req = new_http_req memory;
    is_keep_alive = false;
    timer_data = true;
    timer_active = false;
    recv_buf_len = http_default_recv_buf_size;
    log = [];
  }

  -- `transferBufferToWsSession`: the length of the buffer that the websocket session gets.
  unfoldable pub transfer_buffer_to_ws_session : HttpSession Handler → HttpSession Handler × ℕ
  transfer_buffer_to_ws_session s = (record s { recv_buf_len = 0 }, s.recv_buf_len)

  -- The callbacks of http-parser but that of the end of a message.
  unfoldable pub on_req_message_begin : HttpSession Handler → HttpSession Handler
  on_req_message_begin s = record s {
    req = record s.req { headers = []; body = []; url = []; is_query_params_parsed = false };
  }

  unfoldable pub on_req_url : List ℕ → HttpSession Handler → HttpSession Handler
  on_req_url text s = record s { req = record s.req { url = text } }

  unfoldable pub on_req_header_field : List ℕ → HttpSession Handler → HttpSession Handler
  on_req_header_field text s = record s { tmp_key = map to_lower text }

  unfoldable pub on_req_header_value : List ℕ → HttpSession Handler → HttpSession Handler
  unfolding insert
  on_req_header_value text s = record s {
    req = record s.req { headers = insert s.tmp_key text s.req.headers };
  }

  unfoldable pub on_req_header_complete : ℕ → ℕ → ℕ → HttpSession Handler → HttpSession Handler
  on_req_header_complete method major minor s = record s {
    req = record s.req {
      method = method;
      version = to_string major ++ (codes "." ++ to_string minor);
    };
  }

  unfoldable pub on_req_body : List ℕ → HttpSession Handler → HttpSession Handler
  on_req_body text s = record s { req = record s.req { body = s.req.body ++ text } }

  abbrev pub emit : HttpEffect Handler → HttpSession Handler → HttpSession Handler
  emit e s = record s { log = e ∷ s.log }

  unfoldable pub close_session : Bool → HttpSession Handler → HttpSession Handler
  close_session is_upgrade s =
      let stopped = emit read_stop s in
      emit remove_session (if is_upgrade then stopped else emit uv_close stopped)

  -- `Session::close` as the callbacks call it.
  unfoldable pub close : HttpSession Handler → HttpSession Handler
  unfolding close_session
  close s = close_session false s

  -- `upgradeSession`; the callback `onUpgradeCb` must be set.
  unfoldable pub upgrade : HttpSession Handler → HttpSession Handler
  unfolding close_session
  upgrade s = emit on_upgrade (close_session true s)

  unfoldable pub stop_keep_alive_timer : HttpSession Handler → HttpSession Handler
  stop_keep_alive_timer s =
      emit timer_stop (record s { is_keep_alive = false; timer_data = false; timer_active = false })

  -- For the timeout in seconds that the server has.
  unfoldable pub start_keep_alive_timer : ℤ → HttpSession Handler → HttpSession Handler
  unfolding timer_due
  start_keep_alive_timer timeout s =
      record (emit (timer_start (timer_due timeout))
        (record s { timer_data = true; timer_active = true })) { is_keep_alive = true }

  unfoldable pub keep_alive_timer_cb : HttpSession Handler → HttpSession Handler
  unfolding close
  keep_alive_timer_cb s =
      let fired = record s { timer_active = false } in if s.timer_data then close fired else fired

  -- The callback `m_onSent`, for a session that the weak pointer still has.
  unfoldable pub run_on_sent : ℤ → OnSent → HttpSession Handler → HttpSession Handler
  unfolding start_keep_alive_timer close upgrade
  run_on_sent timeout keep_or_close s =
      if s.is_keep_alive then start_keep_alive_timer timeout s else close s
  run_on_sent timeout upgrade_session s = upgrade s

-- `initResp` and the response to an upgrade, with the accept key of the client's key.
unfoldable pub init_resp : HttpResp
unfolding new_resp
init_resp = record new_resp { on_sent = some keep_or_close }

-- `handle_errReq`.
unfoldable pub handle_err_req : HttpResp → HttpResp × List RespAction
unfolding set_status send_str
handle_err_req resp = send_str (codes "404 Not Found") (set_status not_found resp)

abbrev pub value_or_empty : Option (List ℕ) → List ℕ
value_or_empty none = []
value_or_empty (some v) = v

module _ (calculate_accept_key : List ℕ → List ℕ) where
  unfoldable pub upgrade_to_ws : HttpReq → HttpResp → HttpResp × List RespAction
  unfolding set_status set_header send_str
  upgrade_to_ws req resp =
      let client_key = value_or_empty (lookup (codes "sec-websocket-key") req.headers) in
      let upgraded =
        set_header (codes "connection") (codes "Upgrade") (
          set_header (codes "upgrade") (codes "websocket") (set_status switching_protocols resp)) in
      let accepted =
        set_header (codes "sec-websocket-accept") (calculate_accept_key client_key) upgraded in
      send_str [] (record accepted { on_sent = some upgrade_session })

  module _ {Pattern : Type 0} {Handler : Type 0} (engine : RegexEngine Pattern)
      (routes : List (ℕ × List (Route Pattern Handler))) where
    -- `headers["sec-websocket-key"]` adds the key if it is not there.
    unfoldable pub handle_request : Bool → HttpSession Handler → HttpSession Handler
    unfolding need_keep_connection upgrade_to_ws insert dispatch init_resp handle_err_req
    handle_request upgrade s =
        let kept = record s { is_keep_alive = need_keep_connection s.req } in
        let (req, handler) = dispatch engine routes s.req in
        if upgrade
        then emit (respond (upgrade_to_ws s.req init_resp)) (record kept {
          req = record s.req { headers = insert (codes "sec-websocket-key") [] s.req.headers };
        })
        else elim handler [
          | none ↦ emit (respond (handle_err_req init_resp)) (record kept { req = req })
          | some h ↦ emit (call_handler h req init_resp) (record kept { req = req })
        ]

    unfoldable pub on_event : ParserEvent → HttpSession Handler → HttpSession Handler
    unfolding on_req_message_begin on_req_url on_req_header_field on_req_header_value
        on_req_header_complete on_req_body handle_request
    on_event message_begin s = on_req_message_begin s
    on_event (url_event text) s = on_req_url text s
    on_event (header_field text) s = on_req_header_field text s
    on_event (header_value text) s = on_req_header_value text s
    on_event (headers_complete method major minor) s = on_req_header_complete method major minor s
    on_event (body_event text) s = on_req_body text s
    on_event (message_complete upgrade) s = handle_request upgrade s

    -- `http_parser_execute`: the callbacks in the order of the events.
    unfoldable pub execute : List ParserEvent → HttpSession Handler → HttpSession Handler
    unfolding on_event
    execute [] s = s
    execute (e ∷ es) s = execute es (on_event e s)

    -- `none` is an error or the end of the stream.
    unfoldable pub recv_cb : Option (List ParserEvent) → HttpSession Handler → HttpSession Handler
    unfolding execute stop_keep_alive_timer close
    recv_cb none s = close (stop_keep_alive_timer s)
    recv_cb (some events) s =
        execute events (if s.is_keep_alive then stop_keep_alive_timer s else s)

    -- One event of the loop: a read, the end of a write with the response's callback, the timer.
    -- libuv calls back only while its timer runs.
    unfoldable pub http_step : ℤ → HttpEvent → HttpSession Handler → HttpSession Handler
    unfolding recv_cb run_on_sent keep_alive_timer_cb
    http_step timeout (read events) s = recv_cb events s
    http_step timeout (sent on_sent) s = run_on_sent timeout on_sent s
    http_step timeout timer_fired s = if s.timer_active then keep_alive_timer_cb s else s
