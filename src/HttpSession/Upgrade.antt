-- ===== src/HttpSession/Upgrade.antt =====
-- The opening handshake: from the request of a client, as src/core/httpserver.cpp reads it, to the
-- bytes of the answer.
use mathlib.Core.List.{Perm}
use mathlib.Core.List.Perm
use my_web_socket.Prelude.{
  ap₂, append_assoc, append-nil, text_eq, ℕ, ◌≡◌, refl, ap, subst, ◌∙◌, true, some, List, [], ◌∷◌,
  ◌++◌, codes, length, lookup, assign, take_whole, arith,
}
use my_web_socket.HttpReq.{HttpReq, ParamMap}
use my_web_socket.FileReader.{bytes_of}
use my_web_socket.HttpResp.{
  upgrade_session, HttpResp, resp_write, crlf, send, send_str, new_resp, set_header, set_status,
  http_status_str, header_lines, to_string,
}
use my_web_socket.Router.{RegexEngine, Route}
use my_web_socket.AcceptKey.{OpenSsl, ws_guid, sha_digest_length, calculate_accept_key}
use my_web_socket.HttpSession.{
  HttpSession, respond, value_or_empty, upgrade_to_ws, init_resp, handle_request, execute,
}
use my_web_socket.HttpSession.Requests.{RequestText, request_events, first_value, execute-request}

-- The answer to a client, with its headers in the order `hs`.
pub handshake_text : ParamMap → List ℕ
handshake_text hs =
    codes "HTTP/1.1 101 Web Socket Protocol Handshake"
    ++ (crlf ++ (header_lines hs ++ (codes "Content-Length: 0" ++ (crlf ++ crlf))))

pub handshake_headers : List ℕ → ParamMap
handshake_headers accept =
    (codes "upgrade", codes "websocket")
    ∷ (codes "connection", codes "Upgrade")
    ∷ (codes "sec-websocket-accept", accept)
    ∷ (codes "Content-Type", codes "text/plain")
    ∷ []

-- The order of an `unordered_map` is not told.
pub record IsHandshake (accept bytes : List ℕ) : Type 0 where
  pub headers : ParamMap
  pub all : Perm headers (handshake_headers accept)
  pub written : bytes ≡ handshake_text headers

-- The key that `calculate_accept_key` gives; nothing is claimed where it throws.
pub accept_key : OpenSsl → List ℕ → List ℕ
accept_key ssl key = value_or_empty (calculate_accept_key ssl key)

accept_key-some :
    (ssl : OpenSsl) (key text : List ℕ)
    → length (ssl.sha1 (key ++ ws_guid)) ≡ sha_digest_length
    → ssl.bio_base64 (ssl.sha1 (key ++ ws_guid)) ≡ some text
    → accept_key ssl key ≡ text
unfolding accept_key calculate_accept_key
accept_key-some ssl key text l e =
    let digest = ssl.sha1 (key ++ ws_guid) in
    rw (take_whole sha_digest_length digest (omega (arith, l)), e) refl

-- What a write of two buffers puts on the wire.
pub two_buffers :
    (head body : List ℕ)
    → bytes_of
        (record { base = head; len = length head } ∷ record { base = body; len = length body } ∷ [])
      ≡ head ++ body
unfolding bytes_of
two_buffers head body =
    rw (take_whole (length head) head (omega arith), take_whole (length body) body (omega arith))
      (ap (◌++◌ head) (append-nil body))

upgrade_to_ws-text :
    (f : List ℕ → List ℕ) (req : HttpReq) (key : List ℕ)
    → lookup (codes "sec-websocket-key") req.headers ≡ some key
    → IsHandshake (f key) (bytes_of (upgrade_to_ws f req init_resp).0.buffers)
unfolding upgrade_to_ws init_resp new_resp set_header set_status send_str send http_status_str
    header_lines to_string handshake_text handshake_headers assign text_eq
upgrade_to_ws-text f req key e = record {
  headers = handshake_headers (f key);
  all = Perm.refl (handshake_headers (f key));
  written = rw (e, value_or_empty) (two_buffers _ [] ∙ simp (append-nil, append_assoc));
}

upgrade_to_ws-response :
    (f : List ℕ → List ℕ) (req : HttpReq)
    → ((upgrade_to_ws f req init_resp).1
        ≡ resp_write (upgrade_to_ws f req init_resp).0.buffers ∷ [])
      × ((upgrade_to_ws f req init_resp).0.on_sent ≡ some upgrade_session)
unfolding upgrade_to_ws send_str send
upgrade_to_ws-response f req = (refl, refl)

module _ {Pattern : Type 0} {Handler : Type 0} (ssl : OpenSsl) (engine : RegexEngine Pattern)
    (routes : List (ℕ × List (Route Pattern Handler))) where
  handle_request-upgrade :
      (s : HttpSession Handler)
      → (handle_request (accept_key ssl) engine routes true s).log
        ≡ respond (upgrade_to_ws (accept_key ssl) s.req init_resp) ∷ s.log
  unfolding handle_request
  handle_request-upgrade s = refl

  -- The events of an upgrade request whose first `sec-websocket-key` header, in any case of
  -- letters, has the value `key`, where the digest of `key` and the GUID has 20 bytes and is
  -- encoded as `text`: the session makes one response and nothing else, which writes the status
  -- 101 and the header `sec-websocket-accept: text`, its headers in some order, and whose end
  -- upgrades the session.
  pub execute-IsHandshake :
      (r : RequestText) (key text : List ℕ) (s : HttpSession Handler)
      → r.upgrade ≡ true
      → first_value (codes "sec-websocket-key") r.head ≡ some key
      → length (ssl.sha1 (key ++ ws_guid)) ≡ sha_digest_length
      → ssl.bio_base64 (ssl.sha1 (key ++ ws_guid)) ≡ some text
      → (resp : HttpResp) × ((execute (accept_key ssl) engine routes (request_events r) s).log
          ≡ respond (resp, resp_write resp.buffers ∷ []) ∷ s.log)
        × IsHandshake text (bytes_of resp.buffers)
        × (resp.on_sent ≡ some upgrade_session)
  execute-IsHandshake r key text s u k l e =
      let (q, run, _, headers, _, _, _, quiet) =
        execute-request (accept_key ssl) engine routes r (codes "sec-websocket-key") s in
      let resp = (upgrade_to_ws (accept_key ssl) q.req init_resp).0 in
      let response = upgrade_to_ws-response (accept_key ssl) q.req in
      let asked : lookup (codes "sec-websocket-key") q.req.headers ≡ some key = headers ∙ k in
      (
        resp,
        ap (λ (t : HttpSession Handler). t.log) run
            ∙ ap (λ b. (handle_request (accept_key ssl) engine routes b q).log) u
            ∙ handle_request-upgrade q
            ∙ ap₂ (λ a es. respond (resp, a) ∷ es) response.0 quiet,
        subst (λ a. IsHandshake a (bytes_of resp.buffers)) (accept_key-some ssl key text l e)
            (upgrade_to_ws-text (accept_key ssl) q.req key asked),
        response.1,
      )
