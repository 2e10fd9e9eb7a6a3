-- ===== src/WebSocket/Sending.antt =====
-- What `send`, `sendPong` and `sendFile` put on the wire.
use my_web_socket.Prelude.{
  ℕ, suc, ◌≤◌, ◌<◌, ◌^◌, ◌≡◌, refl, ap, ◌∙◌, false, List, [], ◌∷◌, ◌++◌, length, take, arith,
  append-nil, take_whole, IsBytes,
}
use my_web_socket.Parser.{WsFrame, WsParser, returns, success, parse, limit_payload_len}
use my_web_socket.Parser.Encode.{IsFragment, encode}
use my_web_socket.Parser.RoundTrip.{IsReady, received, delivered, parse-encode}
use my_web_socket.FileReader.{FileReader, UvBuf, bytes_of, append_to_buff, get_read_byte}
use my_web_socket.FileReader.Round.{HasRead}
use my_web_socket.WebSocket.{
  WsSession, uv_write, str, file, message_buffers, frame_header, inter_send, send, send_pong,
  file_closed, ws_text, ws_pong,
}
use my_web_socket.WebSocket.Header.{sent, header-encode}

-- `uv_write` was called once, with these bytes, and nothing else changed.
pub record Writes (s : WsSession) (bytes : List ℕ) (q : WsSession) : Type 0 where
  pub bufs : List UvBuf
  pub wire : bytes_of bufs ≡ bytes
  pub write : q ≡ record s { next_ctx = suc s.next_ctx; log = uv_write s.next_ctx bufs ∷ s.log }

inter_send_str-Writes :
    (text : List ℕ) (opcode : ℕ) (s : WsSession)
    → opcode < 16
    → length text < 2 ^ 64
    → Writes s (encode (sent opcode text)) (inter_send (str text) opcode s)
unfolding inter_send bytes_of
inter_send_str-Writes text opcode s o h =
    let header = frame_header opcode (length text) in
    record {
      bufs = message_buffers (str text) (record { base = header; len = length header } ∷ []);
      wire =
          rw
            (
              take_whole (length header) header (omega arith),
              take_whole (length text) text (omega arith),
              append-nil text,
            )
            (header-encode opcode text o h);
      write = refl;
    }

-- A text goes out as one unmasked text frame.
pub send-Writes :
    (text : List ℕ) (s : WsSession)
    → length text < 2 ^ 64
    → Writes s (encode (sent ws_text text)) (send text s)
unfolding send
send-Writes text s h = inter_send_str-Writes text ws_text s (omega arith) h

pub send_pong-Writes : (s : WsSession) → Writes s (encode (sent ws_pong [])) (send_pong s)
unfolding send_pong
send_pong-Writes s = inter_send_str-Writes [] ws_pong s (omega arith) (omega arith)

-- For a reader that holds a file shorter than 2 ^ 64 bytes, the callback of `sendFile` adds one
-- write to the log, of the encoding of one unmasked text frame with the file as payload.
pub file_closed-Writes :
    (content : List ℕ) (r : FileReader) (s : WsSession)
    → HasRead content r
    → length content < 2 ^ 64
    → Writes s (encode (sent ws_text content)) (file_closed r s)
unfolding file_closed inter_send bytes_of append_to_buff
file_closed-Writes content r s v h =
    let header = frame_header ws_text (get_read_byte r) in
    record {
      bufs = message_buffers (file r) (record { base = header; len = length header } ∷ []);
      wire = rw (take_whole (length header) header (omega arith)) (
          ap (λ (n : ℕ). frame_header ws_text n ++ bytes_of (take r.buff_used r.buffer_vec)) v.size
          ∙ ap (◌++◌ (frame_header ws_text (length content))) v.bytes
          ∙ header-encode ws_text content (omega arith) h);
      write = refl;
    }

module _ {S : Type 0} (on_complete : WsFrame → S → S) where
  -- For a text of bytes that is neither empty nor over the parser's limit, `send` adds one write to
  -- the log, and any parser at the start of a frame outside a continued message reads back its
  -- bytes: it returns SUCCESS after one run of its callback, on an unmasked text frame with that
  -- payload.
  pub parse-send :
      (text : List ℕ) (s : WsSession) (p : WsParser S)
      → IsBytes text
      → 0 < length text
      → length text ≤ limit_payload_len
      → IsReady p
      → p.is_continuation ≡ false
      → (bufs : List UvBuf) × (q : WsParser S) × (g : WsFrame) × ((send text s).log
          ≡ uv_write s.next_ctx bufs ∷ s.log)
        × (parse on_complete p (bytes_of bufs) ≡ returns success q)
        × (q.owner ≡ on_complete g p.owner)
        × (g.payload ≡ text)
        × (g.opcode ≡ ws_text)
        × (g.mask ≡ false)
  unfolding delivered
  parse-send text s p b n l r c =
      let w = send-Writes text s (omega (arith, l)) in
      let f = sent ws_text text in
      let v : IsFragment f = record {
        rsv_fits = omega arith;
        opcode_fits = omega arith;
        length_fits = omega (arith, l);
        key_fits = tt;
        payload_fits = b;
      } in
      (
        w.bufs,
        delivered on_complete p f,
        received p f,
        ap (λ (q : WsSession). q.log) w.write,
        rw (w.wire, ← append-nil (encode f))
            (parse-encode on_complete p f [] r v n l ∙ unfold parse in refl),
        refl,
        ground arith,
        ground arith,
        refl,
      )
