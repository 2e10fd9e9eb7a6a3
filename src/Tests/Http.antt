-- ===== src/Tests/Http.antt =====
-- The HTTP session of src/core/httpserver.cpp and the response of src/core/httpResp.cpp at
-- concrete inputs.
use my_web_socket.Prelude.{
  pos, none, concat, ℕ, suc, ◌≡◌, refl, true, false, some, List, [], ◌∷◌, ◌++◌, codes, lookup,
  arith,
}
use my_web_socket.FileReader.Whole.{serve_file}
use my_web_socket.FileReader.{
  FileReader, handle_open, file_read, set_on_close, set_on_error, write_buffer, bytes_of,
  new_file_reader,
}
use my_web_socket.HttpResp.{
  HttpResp, http_status_str, header_lines, crlf, send, send_file, reader_error, reader_close,
  on_write_end, keep_or_close, send_str_type, send_file_type, ok,
}
use my_web_socket.HttpResp.ReadBack.{HasServed, Holds}
use my_web_socket.HttpResp.Content.{reader_deletions, send_file-deletes_once}
use my_web_socket.HttpSession.{
  HttpSession, url_event, header_field, header_value, handle_request, execute, run_on_sent, recv_cb,
}
use my_web_socket.HttpSession.Requests.{
  RequestText, request_events, first_value, execute-request, execute-pieces,
}
use my_web_socket.HttpSession.Connection.{closes, recv_cb-forgets}
use my_web_socket.Tests.Routes.{prefixes, get_routes, get_id}

abbrev hello : HttpResp
hello = record {
  body = codes "hello";
  status = ok;
  headers = (codes "Content-Type", codes "text/plain") ∷ [];
  file_path = [];
  on_sent = some keep_or_close;
  send_type = send_str_type;
  head = [];
  buffers = [];
  reader = new_file_reader;
}

-- A reader that has read a file of two bytes.
abbrev read_page : FileReader
read_page = record {
  buffer_vec = record { base = codes "hi"; len = 2 } ∷ [];
  buff_used = 1;
  result = none;
  fd = some 5;
  path = codes "a.txt";
  read_byte = 2;
  on_close = true;
  on_error = true;
}

read_page-HasServed : HasServed (codes "hi") read_page
unfolding serve_file handle_open file_read new_file_reader set_on_close set_on_error write_buffer
read_page-HasServed = record {
  descriptor = 5;
  name = codes "a.txt";
  fits = omega arith;
  served = refl;
}

file_reads_back :
    Holds (codes "hi") (record hello { send_type = send_file_type; reader = read_page })
file_reads_back = read_page-HasServed

send_test :
    (bytes_of (send hello).0.buffers)
    ≡ codes "HTTP/1.1 200 OK"
      ++ (crlf
          ++ (codes "Content-Type: text/plain"
              ++ (crlf ++ (codes "Content-Length: 5" ++ (crlf ++ (crlf ++ codes "hello"))))))
unfolding bytes_of send http_status_str header_lines
send_test = refl

send_file-deletes_once_example :
    (reader_deletions (
        (reader_error (send_file (codes "a.txt") (codes ".txt") hello).0).1
        ++ on_write_end (reader_error (send_file (codes "a.txt") (codes ".txt") hello).0).0)
      ≡ 1)
    × (reader_deletions (
          (reader_close new_file_reader (send_file (codes "a.txt") (codes ".txt") hello).0).1
          ++ on_write_end
              (reader_close new_file_reader (send_file (codes "a.txt") (codes ".txt") hello).0).0)
        ≡ 1)
send_file-deletes_once_example =
    send_file-deletes_once (codes "a.txt") (codes ".txt") new_file_reader hello

abbrev session : HttpSession ℕ
session = record {
  tmp_key = [];
  req = record get_id { headers = (codes "connection", codes "keep-alive") ∷ [] };
  is_keep_alive = false;
  timer_data = false;
  timer_active = false;
  recv_buf_len = 65536;
  log = [];
}

abbrev posted : RequestText
posted = record {
  url = codes "/id/42";
  head = (codes "Host", codes "a") ∷ (codes "HOST", codes "b") ∷ [];
  method = 3;
  major = 1;
  minor = 1;
  chunks = codes "ab" ∷ codes "c" ∷ [];
  upgrade = false;
}

-- The accept key is not used by these requests.
abbrev same_key : List ℕ → List ℕ
same_key k = k

execute-request_example :
    (q : HttpSession ℕ) × (execute same_key prefixes get_routes (request_events posted) session
      ≡ handle_request same_key prefixes get_routes posted.upgrade q)
    × (q.req.url ≡ posted.url)
    × (lookup (codes "host") q.req.headers ≡ first_value (codes "host") posted.head)
    × (q.req.body ≡ concat posted.chunks)
    × (q.req.method ≡ posted.method)
    × (q.req.params ≡ session.req.params)
    × (q.log ≡ session.log)
execute-request_example = execute-request same_key prefixes get_routes posted (codes "host") session

execute-pieces_example :
    (execute same_key prefixes get_routes
        (url_event (codes "/a") ∷ url_event (codes "b") ∷ [])
        session
      ≡ execute same_key prefixes get_routes (url_event (codes "b") ∷ []) session)
    × (execute same_key prefixes get_routes
          (header_field (codes "/a") ∷ header_field (codes "b") ∷ [])
          session
        ≡ execute same_key prefixes get_routes (header_field (codes "b") ∷ []) session)
    × (execute same_key prefixes get_routes
          (header_value (codes "/a") ∷ header_value (codes "b") ∷ [])
          session
        ≡ execute same_key prefixes get_routes (header_value (codes "/a") ∷ []) session)
execute-pieces_example =
    execute-pieces same_key prefixes get_routes (codes "/a") (codes "b") [] session

abbrev waiting : HttpSession ℕ
waiting = record session { is_keep_alive = true }

recv_cb-forgets_example :
    closes
      (run_on_sent
        (pos 20)
        keep_or_close
        (recv_cb same_key prefixes get_routes (some (url_event (codes "/a") ∷ [])) waiting)).log
    ≡ suc (closes waiting.log)
recv_cb-forgets_example =
    recv_cb-forgets same_key prefixes get_routes (pos 20) (url_event (codes "/a") ∷ []) waiting
      (tt, tt)
