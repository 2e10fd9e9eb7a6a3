-- ===== src/Parser/Encode.antt =====
-- The frame format of RFC 6455, section 5.2, as the comment of src/core/websocket_parser.h draws
-- it: what a peer sends. Nothing here is code of the parser.
use my_web_socket.Prelude.{
  ℕ, zero, suc, ◌+◌, ◌*◌, ◌/◌, ◌%◌, ◌^◌, ◌<◌, bit_xor, Bool, true, false, List, [], ◌∷◌, ◌++◌,
  length, IsBytes, ltb, if◌then◌else◌,
}

pub data Masking : Type 0 where
  unmasked : Masking
  masked : ℕ → ℕ → ℕ → ℕ → Masking

pub record Fragment : Type 0 where
  pub fin : Bool
  pub rsv : ℕ
  pub opcode : ℕ
  pub masking : Masking
  pub payload : List ℕ

abbrev pub to_bit : Bool → ℕ
to_bit true = 1
to_bit false = 0

abbrev pub has_mask : Masking → Bool
has_mask unmasked = false
has_mask (masked a b c d) = true

abbrev pub key_bytes : Masking → List ℕ
key_bytes unmasked = []
key_bytes (masked a b c d) = a ∷ b ∷ c ∷ d ∷ []

-- The low `w` bytes of a number, the most significant first.
unfoldable pub big_endian : ℕ → ℕ → List ℕ
big_endian zero n = []
big_endian (suc w) n = big_endian w (n / 256) ++ (n % 256 ∷ [])

unfoldable pub len_code : ℕ → ℕ
len_code n = if ltb n 126 then n else if ltb n 65536 then 126 else 127

unfoldable pub len_extension : ℕ → List ℕ
len_extension n = if ltb n 126 then [] else if ltb n 65536 then big_endian 2 n else big_endian 8 n

-- The key's byte for the payload's byte `i` is byte `i % 4`.
abbrev pub key_at : ℕ → ℕ → ℕ → ℕ → ℕ → ℕ
key_at a b c d zero = a
key_at a b c d (suc zero) = b
key_at a b c d (suc (suc zero)) = c
key_at a b c d (suc (suc (suc i))) = d

unfoldable pub mask_from : (ℕ → ℕ) → ℕ → List ℕ → List ℕ
mask_from key i [] = []
mask_from key i (x ∷ xs) = bit_xor x (key (i % 4)) ∷ mask_from key (i + 1) xs

unfoldable pub mask_payload : Masking → List ℕ → List ℕ
mask_payload unmasked xs = xs
mask_payload (masked a b c d) xs = mask_from (key_at a b c d) 0 xs

abbrev pub first_byte : Fragment → ℕ
first_byte f = to_bit f.fin * 128 + f.rsv * 16 + f.opcode

abbrev pub second_byte : Masking → ℕ → ℕ
second_byte m n = to_bit (has_mask m) * 128 + len_code n

unfoldable pub encode : Fragment → List ℕ
encode f =
    let n = length f.payload in
    first_byte f
    ∷ second_byte f.masking n
    ∷ (len_extension n ++ (key_bytes f.masking ++ mask_payload f.masking f.payload))

-- The fields fit their places in the frame.
pub record IsFragment (f : Fragment) : Type 0 where
  pub rsv_fits : f.rsv < 8
  pub opcode_fits : f.opcode < 16
  pub length_fits : length f.payload < 2 ^ 64
  pub key_fits : IsBytes (key_bytes f.masking)
  pub payload_fits : IsBytes f.payload
