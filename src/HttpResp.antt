-- ===== src/HttpResp.antt =====
-- The response, src/core/httpResp.h and src/core/httpResp.cpp. The headers are kept in the order in
-- which their keys were first set; the order of an `unordered_map` is not specified. What the
-- response does to libuv and to the program is a list of actions.
pub mod Client
pub mod Parts
pub mod ReadBack
pub mod Content
use my_web_socket.Prelude.{
  ℕ, zero, suc, ◌+◌, ◌/◌, ◌%◌, Bool, true, false, Option, none, some, List, [], ◌∷◌, ◌++◌, codes,
  ltb, length, lookup, assign, if◌then◌else◌,
}
use my_web_socket.HttpReq.{ParamMap}
use my_web_socket.FileReader.{
  FileReader, UvBuf, append_to_buff, get_read_byte, new_file_reader, set_on_error, set_on_close,
  file_read,
}

pub data HttpStatus : Type 0 where
  switching_protocols ok created accepted no_content moved_permanently : HttpStatus
  status_found not_modified bad_request unauthorized forbidden not_found : HttpStatus
  internal_server_error not_implemented bad_gateway service_unavailable gateway_timeout : HttpStatus

unfoldable pub http_status_str : HttpStatus → List ℕ
http_status_str switching_protocols = codes "101 Web Socket Protocol Handshake"
http_status_str ok = codes "200 OK"
http_status_str created = codes "201 Created"
http_status_str accepted = codes "202 Accepted"
http_status_str no_content = codes "204 No Content"
http_status_str moved_permanently = codes "301 Moved Permanently"
http_status_str status_found = codes "302 Found"
http_status_str not_modified = codes "304 Not Modified"
http_status_str bad_request = codes "400 Bad Request"
http_status_str unauthorized = codes "401 Unauthorized"
http_status_str forbidden = codes "403 Forbidden"
http_status_str not_found = codes "404 Not Found"
http_status_str internal_server_error = codes "500 Internal Server Error"
http_status_str not_implemented = codes "501 Not Implemented"
http_status_str bad_gateway = codes "502 Bad Gateway"
http_status_str service_unavailable = codes "503 Service Unavailable"
http_status_str gateway_timeout = codes "504 Gateway Timeout"

abbrev pub mime_types : ParamMap
mime_types =
    (codes ".html", codes "text/html")
    ∷ (codes ".htm", codes "text/html")
    ∷ (codes ".css", codes "text/css")
    ∷ (codes ".js", codes "application/javascript")
    ∷ (codes ".json", codes "application/json")
    ∷ (codes ".txt", codes "text/plain")
    ∷ (codes ".map", codes "application/json")
    ∷ (codes ".ttf", codes "font/ttf")
    ∷ (codes ".woff", codes "font/woff")
    ∷ (codes ".woff2", codes "font/woff2")
    ∷ (codes ".eot", codes "application/vnd.ms-fontobject")
    ∷ (codes ".otf", codes "font/otf")
    ∷ (codes ".png", codes "image/png")
    ∷ (codes ".jpg", codes "image/jpeg")
    ∷ (codes ".jpeg", codes "image/jpeg")
    ∷ (codes ".gif", codes "image/gif")
    ∷ (codes ".svg", codes "image/svg+xml")
    ∷ (codes ".ico", codes "image/x-icon")
    ∷ (codes ".webp", codes "image/webp")
    ∷ (codes ".mp3", codes "audio/mpeg")
    ∷ (codes ".mp4", codes "video/mp4")
    ∷ []

-- From the extension that std::filesystem finds in the path.
unfoldable pub get_mime_type : List ℕ → List ℕ
get_mime_type ext = elim (lookup ext mime_types) [
  | none ↦ codes "application/octet-stream"
  | some t ↦ t
]

pub data SendType : Type 0 where
  send_none send_str_type send_json_type send_file_type : SendType

-- The callback `m_onSent` that the session set: to keep or close the connection, or to upgrade.
pub data OnSent : Type 0 where
  keep_or_close upgrade_session : OnSent

pub record HttpResp : Type 0 where
  pub body : List ℕ
  pub status : HttpStatus
  pub headers : ParamMap
  pub file_path : List ℕ
  pub on_sent : Option OnSent
  pub send_type : SendType
  pub head : List ℕ
  pub buffers : List UvBuf
  pub reader : FileReader

pub data RespAction : Type 0 where
  resp_write : List UvBuf → RespAction
  resp_file_read : List ℕ → RespAction
  delete_reader delete_context : RespAction
  call_on_sent : OnSent → RespAction

unfoldable pub new_resp : HttpResp
new_resp = record {
  body = [];
  status = ok;
  headers = [];
  file_path = [];
  on_sent = none;
  send_type = send_none;
  head = [];
  buffers = [];
  reader = new_file_reader;
}

-- `std::to_string` of a number below 10 ^ 20, as every `size_t` is.
unfoldable pub decimal : ℕ → ℕ → List ℕ
decimal zero n = []
decimal (suc fuel) n =
    let rest = decimal fuel (n / 10) in
    if ltb n 10 then (48 + n) ∷ [] else rest ++ ((48 + n % 10) ∷ [])

unfoldable pub to_string : ℕ → List ℕ
unfolding decimal
to_string n = decimal 20 n

abbrev pub crlf : List ℕ
crlf = 13 ∷ 10 ∷ []

unfoldable pub header_lines : ParamMap → List ℕ
header_lines [] = []
header_lines ((k, v) ∷ hs) = k ++ (codes ": " ++ (v ++ (crlf ++ header_lines hs)))

unfoldable pub set_header : List ℕ → List ℕ → HttpResp → HttpResp
set_header k v r = record r { headers = assign k v r.headers }

unfoldable pub set_status : HttpStatus → HttpResp → HttpResp
set_status st r = record r { status = st }

abbrev pub is_file : SendType → Bool
is_file send_file_type = true
is_file _ = false

unfoldable pub send : HttpResp → HttpResp × List RespAction
unfolding http_status_str header_lines to_string
send r =
    let len = if is_file r.send_type then get_read_byte r.reader else length r.body in
    let head =
      codes "HTTP/1.1 "
      ++ (http_status_str r.status
          ++ (crlf
              ++ (header_lines r.headers
                  ++ (codes "Content-Length: " ++ (to_string len ++ (crlf ++ crlf)))))) in
    let first : List UvBuf = record { base = head; len = length head } ∷ [] in
    let buffers =
      if is_file r.send_type
      then append_to_buff r.reader first
      else first ++ (record { base = r.body; len = length r.body } ∷ []) in
    (record r { head = head; buffers = buffers }, resp_write buffers ∷ [])

unfoldable pub send_str : List ℕ → HttpResp → HttpResp × List RespAction
unfolding send
send_str str r = send (record r {
  body = str;
  headers = assign (codes "Content-Type") (codes "text/plain") r.headers;
  send_type = send_str_type;
})

-- `sendJson`, on the text that leptjson gives.
unfoldable pub send_json : List ℕ → HttpResp → HttpResp × List RespAction
unfolding send
send_json json r = send (record r {
  body = json;
  headers = assign (codes "Content-Type") (codes "application/json") r.headers;
  send_type = send_json_type;
})

-- `sendFile` and `initReader`, for a path with the extension `ext`.
unfoldable pub send_file : List ℕ → List ℕ → HttpResp → HttpResp × List RespAction
unfolding get_mime_type
send_file path ext r =
    let opened = file_read (set_on_close (set_on_error new_file_reader)) path in
    (
      record r {
        headers = assign (codes "Content-Type") (get_mime_type ext) r.headers;
        file_path = path;
        send_type = send_file_type;
        reader = opened.0;
      },
      resp_file_read path ∷ [],
    )

unfoldable pub send_err : HttpResp → HttpResp × List RespAction
unfolding send_str
send_err r =
    send_str (http_status_str internal_server_error)
      (record r { body = []; headers = []; status = internal_server_error })

-- The callbacks that `initReader` sets, once the reader `q` has failed or is closed.
unfoldable pub reader_error : HttpResp → HttpResp × List RespAction
unfolding send_err
reader_error r = let (q, actions) = send_err r in (q, actions ++ (delete_reader ∷ []))

unfoldable pub reader_close : FileReader → HttpResp → HttpResp × List RespAction
unfolding send
reader_close q r = send (record r { reader = q })

unfoldable pub on_write_end : HttpResp → List RespAction
on_write_end r =
    let deleted : List RespAction = if is_file r.send_type then delete_reader ∷ [] else [] in
    let called : List RespAction = elim r.on_sent [ none ↦ [] | some cb ↦ call_on_sent cb ∷ [] ] in
    deleted ++ (called ++ (delete_context ∷ []))

unfoldable pub clear_content : HttpResp → HttpResp
clear_content r = record r {
  body = [];
  headers = [];
  status = ok;
  send_type = send_none;
  file_path = [];
}
