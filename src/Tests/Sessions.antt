-- ===== src/Tests/Sessions.antt =====
-- The websocket session of src/core/WebSocket.cpp and the file reader of src/core/FileReader.cpp
-- at concrete inputs.
use my_web_socket.Prelude.{
  suc, ◌≡◌, refl, true, false, none, some, List, [], ◌∷◌, ◌++◌, codes, arith,
}
use my_web_socket.Parser.{WsFrame, WsParser, fin_and_opcode, returns, success, parse}
use my_web_socket.Parser.Encode.{encode}
use my_web_socket.Parser.Invariant.{IsValid}
use my_web_socket.Parser.RoundTrip.{IsReady}
use my_web_socket.Parser.Messages.{IsPlain}
use my_web_socket.FileReader.{FileReader, UvBuf, bytes_of, append_to_buff, get_read_byte}
use my_web_socket.FileReader.Round.{HasRead}
use my_web_socket.WebSocket.{
  WsSession, closed, open_, uv_write, close_, send_, Callbacks, recv_cb, write_cb, inter_close,
  ws_callback, call_on_error, run, send, file_closed, frame_header, ws_text, ws_pong,
}
use my_web_socket.WebSocket.Header.{sent}
use my_web_socket.WebSocket.Sending.{Writes, parse-send, file_closed-Writes}
use my_web_socket.WebSocket.Closing.{closes}
use my_web_socket.WebSocket.Contexts.{deletes, write_cb_after_close}
use my_web_socket.WebSocket.Frames.{
  recv_cb_ping, recv_cb_unmasked, recv_cb_too_long, recv_cb_close_twice,
}
use my_web_socket.Tests.Parsing.{
  start, blank, collect, fragment, plain, fragment-IsPlain, too_long, too_long-IsFragment,
  too_long-lt,
}

-- A program that echoes each message and closes on an error.
abbrev pub echo : Callbacks
echo = record {
  on_connect = none;
  on_close = none;
  on_error = some (λ s. close_ ∷ []);
  on_message = some (λ f s. send_ f.payload ∷ []);
}

abbrev pub session : WsSession
session = record { ready_state = open_; recv_buf_len = 65536; next_ctx = 0; log = [] }

abbrev gone : WsSession
gone = record session { ready_state = closed }

abbrev pub listening : WsParser WsSession
listening = record {
  status = fin_and_opcode;
  byte_need = 1;
  frame = blank;
  is_continuation = false;
  mask_index = 0;
  owner = session;
}

abbrev pub after_close : WsParser WsSession
after_close = record listening { owner = gone }

pub listening-IsReady : IsReady listening
listening-IsReady = record { at_start = refl; index = refl }

listening-IsValid : IsValid listening
listening-IsValid = record { agrees = tt; index = omega arith }

pub text-IsPlain : IsPlain (fragment true 1 (codes "hi"))
text-IsPlain = fragment-IsPlain _ _ _ (omega arith) (omega arith) (omega arith) (omega arith)

pub ping-IsPlain : IsPlain (fragment true 9 (codes "hi"))
ping-IsPlain = fragment-IsPlain _ _ _ (omega arith) (omega arith) (omega arith) (omega arith)

close-IsPlain : IsPlain (fragment true 8 (3 ∷ 232 ∷ []))
close-IsPlain = fragment-IsPlain _ _ _ (omega arith) (omega arith) (omega arith) (omega arith)

sent-IsPlain : IsPlain (sent 1 (codes "hi"))
sent-IsPlain =
    plain _
      (record {
        rsv_fits = omega arith;
        opcode_fits = omega arith;
        length_fits = omega arith;
        key_fits = omega arith;
        payload_fits = omega arith;
      })
      (omega arith) (omega arith)

parse-send_example :
    (bufs : List UvBuf) × (q : WsParser (List WsFrame)) × (g : WsFrame) × ((send
        (codes "hi")
        session).log
      ≡ uv_write 0 bufs ∷ [])
    × (parse collect start (bytes_of bufs) ≡ returns success q)
    × (q.owner ≡ g ∷ [])
    × (g.payload ≡ codes "hi")
    × (g.opcode ≡ ws_text)
    × (g.mask ≡ false)
parse-send_example =
    parse-send collect (codes "hi") session start (omega arith) (omega arith) (omega arith)
      (record { at_start = refl; index = refl }) refl

recv_cb_ping_example :
    (q : WsParser WsSession) × (recv_cb echo
        (some (encode (fragment true 9 (codes "hi"))))
        listening
      ≡ some q)
    × Writes session (encode (sent ws_pong [])) q.owner
recv_cb_ping_example =
    recv_cb_ping echo listening (fragment true 9 (codes "hi")) listening-IsReady ping-IsPlain refl
      refl refl refl refl

recv_cb_close_twice_example :
    (q : WsParser WsSession) × (recv_cb echo
        (some (encode (fragment true 8 (3 ∷ 232 ∷ [])) ++ encode (fragment true 8 (3 ∷ 232 ∷ []))))
        listening
      ≡ some q)
    × (closes q.owner.log ≡ suc (suc (closes [])))
recv_cb_close_twice_example =
    recv_cb_close_twice echo listening (fragment true 8 (3 ∷ 232 ∷ []))
      (fragment true 8 (3 ∷ 232 ∷ [])) listening-IsReady close-IsPlain close-IsPlain refl refl refl
      refl refl refl refl refl

recv_cb_unmasked_example :
    (q : WsParser WsSession) × (recv_cb echo (some (encode (sent 1 (codes "hi")))) listening
      ≡ some q)
    × (q.owner ≡ inter_close echo (ws_callback echo.on_error call_on_error (run echo) session))
    × (q.owner.ready_state ≡ closed)
recv_cb_unmasked_example =
    recv_cb_unmasked echo listening (sent 1 (codes "hi")) listening-IsReady sent-IsPlain refl refl
      refl

recv_cb_too_long_example :
    (q : WsParser WsSession) × (recv_cb echo (some (encode too_long ++ [])) listening ≡ some q)
    × (q.owner ≡ inter_close echo (ws_callback echo.on_error call_on_error (run echo) session))
    × (q.owner.ready_state ≡ closed)
recv_cb_too_long_example =
    recv_cb_too_long echo listening too_long [] listening-IsReady too_long-IsFragment too_long-lt
      refl

abbrev read_hi : FileReader
read_hi = record {
  buffer_vec = record { base = codes "hi"; len = 2 } ∷ [];
  buff_used = 1;
  result = none;
  fd = some 5;
  path = codes "a";
  read_byte = 2;
  on_close = true;
  on_error = true;
}

read_hi-HasRead : HasRead (codes "hi") read_hi
unfolding bytes_of append_to_buff get_read_byte
read_hi-HasRead = record { bytes = refl; size = refl }

file_closed-Writes_example :
    Writes session (encode (sent ws_text (codes "hi"))) (file_closed read_hi session)
file_closed-Writes_example =
    file_closed-Writes (codes "hi") read_hi session read_hi-HasRead (omega arith)

short_header : frame_header 1 5 ≡ 0x81 ∷ 5 ∷ []
unfolding frame_header
short_header = refl

long_header : frame_header 1 65536 ≡ 0x81 ∷ 127 ∷ 0 ∷ 0 ∷ 0 ∷ 0 ∷ 0 ∷ 1 ∷ 0 ∷ 0 ∷ []
unfolding frame_header
long_header = refl

write_cb_after_close_example :
    (deletes (write_cb echo 3 true gone).log 3 ≡ suc (suc (deletes [] 3)))
    × (closes (write_cb echo 3 true gone).log ≡ suc (closes []))
    × ((write_cb echo 3 true gone).ready_state ≡ closed)
write_cb_after_close_example = write_cb_after_close 3 echo true gone refl
