-- ===== src/Tests/Servers.antt =====
-- The two servers of src/core/httpserver.cpp and src/core/WsServer.cpp at concrete connections.
use my_web_socket.Prelude.{
  ℕ, ◌≤◌, ◌^◌, ◌≡◌, refl, true, false, none, some, List, [], ◌∷◌, codes, ◌==◌, take, text_eq,
  if◌then◌else◌, arith,
}
use my_web_socket.Parser.{WsFrame, WsParser}
use my_web_socket.Parser.Encode.{encode}
use my_web_socket.Parser.Invariant.{IsValid}
use my_web_socket.FileReader.{bytes_of}
use my_web_socket.AcceptKey.{OpenSsl}
use my_web_socket.HttpResp.{HttpResp, resp_write, upgrade_session}
use my_web_socket.HttpSession.{
  to_lower, respond, read, sent, HttpSession, new_http_session, transfer_buffer_to_ws_session,
  run_on_sent,
}
use my_web_socket.HttpSession.Connection.{closes}
use my_web_socket.HttpSession.Requests.{RequestText, request_events, first_value}
use my_web_socket.HttpSession.Upgrade.{accept_key, IsHandshake}
use my_web_socket.HttpServer
use my_web_socket.HttpServer.{
  HttpServer, Peer, inet, set_ip, accepted, new_http_server, inter_on_connect, start_of, connected,
  stepped,
}
use my_web_socket.HttpServer.Listed.{in_use, IsUntouched, Reach-in_use}
use my_web_socket.Registry.Counting.{count}
use my_web_socket.WebSocket.{WsSession, closed, open_, connect, close_, message_callback}
use my_web_socket.WsServer
use my_web_socket.WsServer.{
  WsServer, received, called, on_upgrade, new_ws_server, start, upgraded, server_step,
}
use my_web_socket.WsServer.Final.{messages, session_run, session_run-closed}
use my_web_socket.WsServer.HangUp.{hang_ups, hang_ups-empty}
use my_web_socket.WsServer.Registered.{Reach-listed}
use my_web_socket.WsServer.Settling.{listed, listed_at}
use my_web_socket.Servers
use my_web_socket.Servers.{
  Servers, connection, http_event, ws_event, join, servers_step, joined, moved,
}
use my_web_socket.Servers.Buffers.{alloc_all, ws_alloc_all, HoldsAll, ws_alloc_all-alloc_all}
use my_web_socket.Servers.Steps.{connected_session, timer_stopped}
use my_web_socket.Servers.Conversation.{servers_run, servers_run-converses}
use my_web_socket.Servers.Upgraded.{upgraded_session}
use my_web_socket.Servers.Handover.{servers_step-hands_over}
use my_web_socket.Tests.Parsing.{blank, fragment}
use my_web_socket.Tests.Routes.{prefixes, get_id}
use my_web_socket.Tests.Sessions.{echo, after_close, text-IsPlain}

after_close-IsValid : IsValid after_close
after_close-IsValid = record { agrees = tt; index = omega arith }

session_run-closed_example :
    (q : WsParser WsSession) × (session_run echo
        (received (some (0x81 ∷ [])) ∷ called close_ ∷ received none ∷ [])
        after_close
      ≡ some q)
    × (q.owner.ready_state ≡ closed)
    × (messages q.owner.log ≡ messages [])
    × ((connect (record echo { on_connect = none }) q.owner).ready_state ≡ open_)
session_run-closed_example =
    session_run-closed echo (received (some (0x81 ∷ [])) ∷ called close_ ∷ received none ∷ [])
      after_close after_close-IsValid refl

-- A websocket server with two sessions.
abbrev two_sessions : WsServer
two_sessions = on_upgrade echo none blank 65536 (on_upgrade echo none blank 65536 new_ws_server)

two_sessions-Reach : WsServer.Reach echo none two_sessions
two_sessions-Reach = upgraded blank 65536 (upgraded blank 65536 start)

Reach-listed_example :
    (next : WsServer) × (server_step echo (received none) 0 two_sessions ≡ some next)
    × WsServer.Reach echo none next
    × (count 1 two_sessions.ws_sessions ≡ listed_at (two_sessions.objects 1))
Reach-listed_example = Reach-listed echo none (received none) 0 1 two_sessions-Reach

hang_ups-empty_example :
    (last : WsServer) × (hang_ups echo two_sessions.ws_sessions two_sessions ≡ some last)
    × (last.ws_sessions ≡ [])
hang_ups-empty_example = hang_ups-empty echo none two_sessions-Reach

abbrev same_key : List ℕ → List ℕ
same_key k = k

-- An HTTP server with one connection. Handlers and callbacks are numbers.
abbrev fresh_server : HttpServer (List ℕ) ℕ ℕ
fresh_server = new_http_server (codes "127.0.0.1") 8081

abbrev one_client : HttpServer (List ℕ) ℕ ℕ
one_client = inter_on_connect false (accepted none get_id) fresh_server

one_client-Reach : HttpServer.Reach prefixes same_key (codes "127.0.0.1") 8081 one_client
one_client-Reach = connected false (accepted none get_id) start_of

Reach-in_use_example :
    (count 0 one_client.sessions ≡ in_use (one_client.objects 0))
    × IsUntouched (one_client.objects 0)
Reach-in_use_example = Reach-in_use prefixes same_key 0 one_client-Reach

abbrev both : Servers (List ℕ) ℕ ℕ
both = record {
  http = inter_on_connect false (accepted none get_id) (HttpServer.on_upgrade 0 fresh_server);
  ws = new_ws_server;
}

both-Reach : Servers.Reach echo none prefixes same_key (codes "127.0.0.1") 8081 both
unfolding servers_step join
both-Reach = moved (connection false (accepted none get_id)) (joined 0 start_of) refl

-- The session of that client.
abbrev client : HttpSession ℕ
client = let ss = new_http_session get_id in record ss { req = set_ip none ss.req }

both-client : both.http.objects 0 ≡ some client
unfolding inter_on_connect HttpServer.on_upgrade new_http_server
both-client = refl

servers_step-hands_over_example :
    (next : Servers (List ℕ) ℕ ℕ) × (p : WsParser WsSession) × (servers_step echo none prefixes
        same_key
        (http_event (sent upgrade_session) 0 blank)
        both
      ≡ some next)
    × (count 0 next.http.sessions ≡ (if 0 == 0 then 0 else count 0 both.http.sessions))
    × (count 0 next.ws.ws_sessions
        ≡ (if both.ws.next_session == 0 then listed p else count 0 both.ws.ws_sessions))
    × (next.ws.objects both.ws.next_session ≡ some p)
    × (p.owner.recv_buf_len ≡ client.recv_buf_len)
    × (closes (run_on_sent both.http.keep_alive_timeout upgrade_session client).log ≡ 0)
servers_step-hands_over_example =
    servers_step-hands_over echo none prefixes same_key both 0 0 blank client both-Reach both-client

-- A library whose digest is a text's first 20 bytes, and whose encoding is the bytes themselves.
abbrev prefix_ssl : OpenSsl
prefix_ssl = record { sha1 = λ m. take 20 m; bio_base64 = λ bytes. some bytes }

abbrev upgrade_request : RequestText
upgrade_request = record {
  url = codes "/chat";
  head =
      (codes "Host", codes "a")
      ∷ (codes "Sec-WebSocket-Key", codes "dGhlIHNhbXBsZSBub25jZQ==")
      ∷ [];
  method = 1;
  major = 1;
  minor = 1;
  chunks = [];
  upgrade = true;
}

upgrade_request-key :
    first_value (codes "sec-websocket-key") upgrade_request.head
    ≡ some (codes "dGhlIHNhbXBsZSBub25jZQ==")
unfolding first_value to_lower text_eq
upgrade_request-key = refl

servers_run-converses_example :
    (mid : Servers (List ℕ) ℕ ℕ) × (last : Servers (List ℕ) ℕ ℕ) × (t : HttpSession ℕ)
    × (resp : HttpResp) × (q : WsParser WsSession) × (g : WsFrame) × (servers_step echo none
          prefixes
          (accept_key prefix_ssl)
          (http_event (read (some (request_events upgrade_request))) 0 blank)
          both
        ≡ some mid)
    × (mid.http.objects 0 ≡ some t)
    × (t.log ≡ respond (resp, resp_write resp.buffers ∷ []) ∷ (timer_stopped client).log)
    × IsHandshake (codes "dGhlIHNhbXBsZSBub25j") (bytes_of resp.buffers)
    × (resp.on_sent ≡ some upgrade_session)
    × (servers_run echo prefixes
          (accept_key prefix_ssl)
          (http_event (sent upgrade_session) 0 blank
            ∷ ws_event
                (received (some (encode (fragment true 1 (codes "hi")))))
                both.ws.next_session
            ∷ [])
          mid
        ≡ some last)
    × (last.ws.objects both.ws.next_session ≡ some q)
    × (q.owner ≡ message_callback echo echo.on_message g (connected_session t.recv_buf_len))
    × (g.payload ≡ codes "hi")
    × (g.opcode ≡ 1)
servers_run-converses_example =
    servers_run-converses echo prefixes prefix_ssl 0 blank both client upgrade_request
      (codes "dGhlIHNhbXBsZSBub25jZQ==") (codes "dGhlIHNhbXBsZSBub25j")
      (fragment true 1 (codes "hi")) refl both-client refl upgrade_request-key refl refl
      text-IsPlain refl refl (omega arith) (omega arith)

ws_alloc_all-alloc_all_example :
    (s : HttpSession ℕ) × (v : WsSession) × (alloc_all (100 ∷ 70000 ∷ []) (new_http_session get_id)
      ≡ some s)
    × (2 ^ 16 ≤ s.recv_buf_len)
    × HoldsAll s.recv_buf_len (100 ∷ 70000 ∷ [])
    × (ws_alloc_all
          (200000 ∷ [])
          (upgraded_session echo none blank (transfer_buffer_to_ws_session s).1).owner
        ≡ some v)
    × (s.recv_buf_len ≤ v.recv_buf_len)
    × HoldsAll v.recv_buf_len (200000 ∷ [])
ws_alloc_all-alloc_all_example =
    ws_alloc_all-alloc_all echo none get_id blank (100 ∷ 70000 ∷ []) (200000 ∷ []) (omega arith)
      (omega arith)
