-- ===== src/Servers/Conversation.antt =====
-- A client of the program, from its upgrade request to its first message: src/core/httpserver.cpp
-- answers and hands the connection over, src/core/WsServer.cpp makes a session of it, and
-- src/core/WebSocket.cpp reads the frame.
use my_web_socket.Prelude.{
  ℕ, ◌<◌, ◌≡◌, ◌≢◌, refl, ap, ◌∙◌, subst, true, Option, none, some, List, [], ◌∷◌, ◌++◌, length,
  codes,
}
use my_web_socket.Parser.{WsFrame, WsParser}
use my_web_socket.Parser.Encode.{Fragment, has_mask, encode}
use my_web_socket.Parser.Messages.{IsPlain}
use my_web_socket.Router.{RegexEngine}
use my_web_socket.FileReader.{bytes_of}
use my_web_socket.AcceptKey.{OpenSsl, ws_guid, sha_digest_length}
use my_web_socket.HttpResp.{HttpResp, resp_write, upgrade_session}
use my_web_socket.HttpSession.{respond, read, sent, HttpSession, http_step, recv_cb, execute}
use my_web_socket.HttpSession.Requests.{RequestText, request_events, first_value}
use my_web_socket.HttpSession.Upgrade.{accept_key, IsHandshake, execute-IsHandshake}
use my_web_socket.WebSocket.{WsSession, Callbacks, run, message_callback}
use my_web_socket.WebSocket.Frames.{recv_cb_message}
use my_web_socket.WsServer.{WsServer, received}
use my_web_socket.Servers.{Servers, ServersEvent, http_event, ws_event, servers_step}
use my_web_socket.Servers.Upgraded.{upgraded_session}
use my_web_socket.Servers.Steps.{
  connected_session, upgraded_session-quiet, timer_stopped, timer_stopped-counts, respond-counts,
  read_step, upgrade_step, frame_step,
}

module _ {Pattern Handler Callback : Type 0} (cb : Callbacks) (engine : RegexEngine Pattern)
    (accept : List ℕ → List ℕ) where
  -- The events of the loop in their order.
  pub servers_run :
      List ServersEvent
      → Servers Pattern Handler Callback
      → Option (Servers Pattern Handler Callback)
  servers_run [] sv = some sv
  servers_run (ev ∷ evs) sv = elim (servers_step cb none engine accept ev sv) [
    | none ↦ none
    | some next ↦ servers_run evs next
  ]

module _ {Pattern Handler Callback : Type 0} (cb : Callbacks) (engine : RegexEngine Pattern)
    (ssl : OpenSsl) where
  -- The first read: the answer is written, and the servers keep their sessions.
  request_step :
      (i : ℕ) (frame : WsFrame) (sv : Servers Pattern Handler Callback) (s : HttpSession Handler)
      (r : RequestText) (key text : List ℕ)
      → sv.http.objects i ≡ some s
      → r.upgrade ≡ true
      → first_value (codes "sec-websocket-key") r.head ≡ some key
      → length (ssl.sha1 (key ++ ws_guid)) ≡ sha_digest_length
      → ssl.bio_base64 (ssl.sha1 (key ++ ws_guid)) ≡ some text
      → (next : Servers Pattern Handler Callback) × (t : HttpSession Handler) × (resp : HttpResp)
        × (servers_step cb none engine
              (accept_key ssl)
              (http_event (read (some (request_events r))) i frame)
              sv
            ≡ some next)
        × (next.http.objects i ≡ some t)
        × (next.ws ≡ sv.ws)
        × (t.log ≡ respond (resp, resp_write resp.buffers ∷ []) ∷ (timer_stopped s).log)
        × IsHandshake text (bytes_of resp.buffers)
        × (resp.on_sent ≡ some upgrade_session)
  unfolding http_step recv_cb timer_stopped
  request_step i frame sv s r key text e u k l b =
      let accept = accept_key ssl in
      let (resp, log, bytes, on_sent) =
        execute-IsHandshake ssl engine sv.http.router r key text (timer_stopped s) u k l b in
      let t = execute accept engine sv.http.router (request_events r) (timer_stopped s) in
      let stopped = timer_stopped-counts s in
      let counts =
        respond-counts t (resp, resp_write resp.buffers ∷ []) (timer_stopped s).log log in
      let (next, run, kept, same) =
        read_step cb engine accept i frame (read (some (request_events r))) sv s e
          (counts.0 ∙ stopped.0) (counts.1 ∙ stopped.1) in
      (next, t, resp, run, kept, same, log, bytes, on_sent)

  -- A client of two servers without connection callbacks. It sends an upgrade request whose first
  -- `sec-websocket-key` header has the value `key`, where the digest of `key` and the GUID has 20
  -- bytes and is encoded as `text`, and then one masked FIN frame with a data opcode other than 0
  -- and a payload neither empty nor over the limit. The read of the request, the end of the write
  -- and the read of the frame all end. The HTTP session made one write, the answer 101 with the
  -- accept key `text`, its headers in some order; the websocket server has a new session, OPEN and
  -- with the HTTP session's receive buffer, to which nothing happened but the message callback, on
  -- that payload and opcode.
  pub servers_run-converses :
      (i : ℕ) (frame : WsFrame) (sv : Servers Pattern Handler Callback) (s : HttpSession Handler)
      (r : RequestText) (key text : List ℕ) (f : Fragment)
      → cb.on_connect ≡ none
      → sv.http.objects i ≡ some s
      → r.upgrade ≡ true
      → first_value (codes "sec-websocket-key") r.head ≡ some key
      → length (ssl.sha1 (key ++ ws_guid)) ≡ sha_digest_length
      → ssl.bio_base64 (ssl.sha1 (key ++ ws_guid)) ≡ some text
      → IsPlain f
      → f.fin ≡ true
      → has_mask f.masking ≡ true
      → f.opcode ≢ 0
      → f.opcode < 8
      → (mid : Servers Pattern Handler Callback) × (last : Servers Pattern Handler Callback)
        × (t : HttpSession Handler) × (resp : HttpResp) × (q : WsParser WsSession) × (g : WsFrame)
        × (servers_step cb none engine
              (accept_key ssl)
              (http_event (read (some (request_events r))) i frame)
              sv
            ≡ some mid)
        × (mid.http.objects i ≡ some t)
        × (t.log ≡ respond (resp, resp_write resp.buffers ∷ []) ∷ (timer_stopped s).log)
        × IsHandshake text (bytes_of resp.buffers)
        × (resp.on_sent ≡ some upgrade_session)
        × (servers_run cb engine
              (accept_key ssl)
              (http_event (sent upgrade_session) i frame
                ∷ ws_event (received (some (encode f))) sv.ws.next_session
                ∷ [])
              mid
            ≡ some last)
        × (last.ws.objects sv.ws.next_session ≡ some q)
        × (q.owner ≡ message_callback cb cb.on_message g (connected_session t.recv_buf_len))
        × (g.payload ≡ f.payload)
        × (g.opcode ≡ f.opcode)
  unfolding servers_run connected_session
  servers_run-converses i frame sv s r key text f quiet e u k l b plain fin masked nonzero small =
      let accept = accept_key ssl in
      let (mid, t, resp, asked, kept, same, log, bytes, on_sent) =
        request_step i frame sv s r key text e u k l b in
      let (next, upgraded, made) = upgrade_step cb engine accept i frame mid t kept in
      let (own, ready, single) = upgraded_session-quiet cb frame t.recv_buf_len quiet in
      let p = upgraded_session cb none frame t.recv_buf_len in
      let (q, g, handled, told, payload, opcode, again) =
        recv_cb_message cb p f ready plain (ap (λ (w : WsSession). w.ready_state) own) single fin
          masked nonzero small in
      let there : next.ws.objects sv.ws.next_session ≡ some p =
        subst (λ (w : WsServer). next.ws.objects w.next_session ≡ some p) same made in
      let (last, came, has) =
        frame_step cb engine accept sv.ws.next_session (encode f) next p q there handled in
      (
        mid,
        last,
        t,
        resp,
        q,
        g,
        asked,
        kept,
        log,
        bytes,
        on_sent,
        rw (upgraded, servers_run) (rw (came, servers_run) refl),
        has,
        told ∙ ap (message_callback cb cb.on_message g) own,
        payload,
        opcode,
      )
