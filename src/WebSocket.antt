-- ===== src/WebSocket.antt =====
-- The websocket session, include/WebSocket.h and src/core/WebSocket.cpp.
-- A session is a `WsParser` whose owner is the rest of the object, so that the parser's callback
-- `handle_ws_frame` changes it during `parse`. What the session does to libuv, to its server and
-- to the program is written to a log, newest first. The program's callbacks are a parameter: each
-- makes a list of calls of the session, which it chooses by the state that it finds.
pub mod Header
pub mod Sending
pub mod Closing
pub mod Contexts
pub mod Receiving
pub mod Frames
use my_web_socket.Prelude.{
  ℕ, zero, suc, ◌+◌, ◌*◌, ◌/◌, ◌%◌, ◌^◌, bit_and, bit_or, Bool, true, false, Option, none, some,
  List, [], ◌∷◌, ◌++◌, length, ltb, ◌==◌, if◌then◌else◌,
}
use my_web_socket.Parser.{
  WsFrame, WsParser, WsParseErr, success, Outcome, returns, undefined, out_of_fuel, parse,
  new_parser,
}
use my_web_socket.FileReader.{FileReader, UvBuf, append_to_buff, get_read_byte}

pub data WsStatus : Type 0 where
  connecting open_ closing closed : WsStatus

-- The opcodes of `WsCode` that the session uses.
abbrev pub ws_text : ℕ
ws_text = 0x1

abbrev pub ws_close : ℕ
ws_close = 0x8

abbrev pub ws_ping : ℕ
ws_ping = 0x9

abbrev pub ws_pong : ℕ
ws_pong = 0xa

-- The loop over `i` of the eight length bytes, from `i` to 0.
unfoldable pub length_bytes : ℕ → ℕ → List ℕ
length_bytes zero n = []
length_bytes (suc i) n = n / 2 ^ (i * 8) % 256 ∷ length_bytes i n

-- The header that `inter_send` builds. A server does not mask: `mask` is 0.
unfoldable pub frame_header : ℕ → ℕ → List ℕ
unfolding length_bytes
frame_header opcode payload_len =
    let mask : ℕ = 0x00 in
    let first = bit_or 0x80 opcode in
    if ltb payload_len 126
    then first ∷ bit_or payload_len mask % 256 ∷ []
    else if ltb payload_len (2 ^ 16)
    then first ∷ bit_or 126 mask ∷ payload_len / 2 ^ 8 % 256 ∷ bit_and payload_len 0xff % 256 ∷ []
    else first ∷ bit_or 127 mask ∷ length_bytes 8 payload_len

-- What a write is made of: a text or a file that has been read.
pub data Message : Type 0 where
  str : List ℕ → Message
  file : FileReader → Message

pub data Effect : Type 0 where
  read_start read_stop uv_close remove_ws_session : Effect
  call_on_connect call_on_close call_on_error : Effect
  call_on_message : WsFrame → Effect
  uv_write : ℕ → List UvBuf → Effect
  delete_ctx : ℕ → Effect
  file_read : List ℕ → Effect

-- The session's fields but its parser and frame. `next_ctx` numbers the `WriteCtx` objects.
pub record WsSession : Type 0 where
  pub ready_state : WsStatus
  pub recv_buf_len : ℕ
  pub next_ctx : ℕ
  pub log : List Effect

abbrev pub emit : Effect → WsSession → WsSession
emit e s = record s { log = e ∷ s.log }

abbrev pub is_closed : WsStatus → Bool
is_closed closed = true
is_closed _ = false

abbrev pub is_open : WsStatus → Bool
is_open open_ = true
is_open _ = false

-- The methods that the program and its callbacks call. `connect`, which is public too, is the call of
-- `WsServer::onUpgrade` alone.
pub data Call : Type 0 where
  close_ : Call
  send_ : List ℕ → Call
  send_file_ : List ℕ → Call

-- The callbacks that the program has set; `none` is one that is not set.
pub record Callbacks : Type 0 where
  pub on_connect : Option (WsSession → List Call)
  pub on_close : Option (WsSession → List Call)
  pub on_error : Option (WsSession → List Call)
  pub on_message : Option (WsFrame → WsSession → List Call)

abbrev pub message_len : Message → ℕ
message_len (str s) = length s
message_len (file r) = get_read_byte r

abbrev pub message_buffers : Message → List UvBuf → List UvBuf
message_buffers (str s) bufs = bufs ++ (record { base = s; len = length s } ∷ [])
message_buffers (file r) bufs = append_to_buff r bufs

unfoldable pub inter_send : Message → ℕ → WsSession → WsSession
unfolding frame_header
inter_send m opcode s =
    let header = frame_header opcode (message_len m) in
    let bufs = message_buffers m (record { base = header; len = length header } ∷ []) in
    record s { next_ctx = suc s.next_ctx; log = uv_write s.next_ctx bufs ∷ s.log }

-- The four `send`s: a JSON value is sent as its text.
unfoldable pub send : List ℕ → WsSession → WsSession
unfolding inter_send
send text s = inter_send (str text) ws_text s

unfoldable pub send_pong : WsSession → WsSession
unfolding inter_send
send_pong s = inter_send (str []) ws_pong s

-- `sendFile` starts a reader, and the reader's callback sends what it has read.
unfoldable pub send_file : List ℕ → WsSession → WsSession
send_file path s = emit (file_read path) s

unfoldable pub file_closed : FileReader → WsSession → WsSession
unfolding inter_send
file_closed r s = inter_send (file r) ws_text s

-- The calls that `m_onCloseCb` makes. `readyState` is CLOSED, so `close` returns at its guard.
unfoldable pub run_closed : List Call → WsSession → WsSession
run_closed [] s = s
run_closed (close_ ∷ cs) s = run_closed cs s
run_closed (send_ text ∷ cs) s = run_closed cs (send text s)
run_closed (send_file_ path ∷ cs) s = run_closed cs (send_file path s)

-- `getJsonMessage`, with leptjson's null value and its parser, where `none` is an error.
unfoldable pub get_json_message : {Json : Type 0} → Json → (List ℕ → Option Json) → WsFrame → Json
get_json_message null parse_json frame = elim (parse_json frame.payload) [
  | none ↦ null
  | some json ↦ json
]

-- The macro `WS_CALLBACK`.
abbrev pub ws_callback :
    Option (WsSession → List Call)
    → Effect
    → (List Call → WsSession → WsSession)
    → WsSession
    → WsSession
ws_callback none e run s = s
ws_callback (some f) e run s = run (f s) (emit e s)

module _ (cb : Callbacks) where
  unfoldable pub inter_close : WsSession → WsSession
  inter_close s =
      let stopped = record s { ready_state = closed; log = uv_close ∷ read_stop ∷ s.log } in
      emit remove_ws_session (ws_callback cb.on_close call_on_close run_closed stopped)

  unfoldable pub close : WsSession → WsSession
  unfolding inter_close
  close s = if is_closed s.ready_state then s else inter_close s

  -- The calls that the other callbacks make.
  unfoldable pub run : List Call → WsSession → WsSession
  unfolding close
  run [] s = s
  run (close_ ∷ cs) s = run cs (close s)
  run (send_ text ∷ cs) s = run cs (send text s)
  run (send_file_ path ∷ cs) s = run cs (send_file path s)

  unfoldable pub connect : WsSession → WsSession
  unfolding run
  connect s =
      ws_callback cb.on_connect call_on_connect run
        (record (emit read_start (record s { ready_state = connecting })) { ready_state = open_ })

  abbrev pub message_callback :
      Option (WsFrame → WsSession → List Call) → WsFrame → WsSession → WsSession
  message_callback none frame s = s
  message_callback (some f) frame s = run (f frame s) (emit (call_on_message frame) s)

  -- The parser's callback: an unmasked frame is refused, a control frame is acted on.
  unfoldable pub handle_ws_frame : WsFrame → WsSession → WsSession
  unfolding run inter_close send_pong
  handle_ws_frame frame s =
      if frame.mask
      then (if frame.opcode == ws_pong
          then s
          else if frame.opcode == ws_ping
          then send_pong s
          else if frame.opcode == ws_close
          then inter_close s
          else message_callback cb.on_message frame s)
      else inter_close (ws_callback cb.on_error call_on_error run s)

  abbrev pub after_error : WsParser WsSession → WsParser WsSession
  after_error q = record q {
    owner = inter_close (ws_callback cb.on_error call_on_error run q.owner);
  }

  -- `handleMessage` on the bytes read. `none` is a run that the parser does not return from.
  unfoldable pub handle_message : List ℕ → WsParser WsSession → Option (WsParser WsSession)
  unfolding handle_ws_frame
  handle_message bytes p = elim (parse handle_ws_frame p bytes) [
    | returns e q ↦ elim e [ success ↦ some q | _ ↦ some (after_error q) ]
    | undefined ↦ none
    | out_of_fuel ↦ none
  ]

  -- `recv_cb`: `none` is an error or the end of the stream.
  unfoldable pub recv_cb : Option (List ℕ) → WsParser WsSession → Option (WsParser WsSession)
  unfolding handle_message
  recv_cb none p = some (record p { owner = inter_close p.owner })
  recv_cb (some bytes) p = if is_open p.owner.ready_state then handle_message bytes p else some p

  -- The callback of `uv_write` for the context `ctx`.
  unfoldable pub write_cb : ℕ → Bool → WsSession → WsSession
  unfolding run inter_close
  write_cb ctx failed s =
      let q =
        if failed
        then inter_close (emit (delete_ctx ctx) (ws_callback cb.on_error call_on_error run s))
        else s in
      emit (delete_ctx ctx) q
