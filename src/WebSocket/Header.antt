-- ===== src/WebSocket/Header.antt =====
-- The header of `inter_send` is the one of RFC 6455 for an unmasked frame.
use my_web_socket.Prelude.{
  ℕ, ◌^◌, ◌<◌, ◌≡◌, true, List, ◌++◌, length, arith, bit_or-zero, bit_or_fin, bit_and_byte,
}
use my_web_socket.Parser.Encode.{
  Fragment, unmasked, encode, big_endian, len_code, len_extension, mask_payload,
}
use my_web_socket.WebSocket.{frame_header, length_bytes}

-- The frame that the server sends: last, with no mask.
abbrev pub sent : ℕ → List ℕ → Fragment
sent opcode text = record {
  fin = true;
  rsv = 0;
  opcode = opcode;
  masking = unmasked;
  payload = text;
}

length_bytes_lem : (n : ℕ) → n < 2 ^ 64 → length_bytes 8 n ≡ big_endian 8 n
unfolding length_bytes big_endian
length_bytes_lem n h = ground arith

pub header-encode :
    (opcode : ℕ) (text : List ℕ)
    → opcode < 16
    → length text < 2 ^ 64
    → frame_header opcode (length text) ++ text ≡ encode (sent opcode text)
unfolding frame_header encode len_code len_extension mask_payload big_endian
header-encode opcode text o h = ground (
  arith,
  bit_or_fin opcode o,
  bit_or-zero (length text),
  bit_and_byte (length text),
  length_bytes_lem (length text) h,
)
