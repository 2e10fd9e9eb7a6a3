-- ===== src/Tests/Parsing.antt =====
-- The frame parser of src/core/websocket_parser.cpp at the frames of RFC 6455, section 5.7.
use my_web_socket.Prelude.{
  ℕ, zero, suc, ap, IsBytes, ◌≤◌, ◌<◌, ◌≡◌, refl, Bool, true, false, List, [], ◌∷◌, ◌++◌, length,
  codes, arith,
}
use my_web_socket.Parser.{
  WsParseErr, get_fin, get_rsv, get_opcode, get_mask, get_payload_len, unmask, WsFrame, WsParser,
  fin_and_opcode, returns, success, invalid_payload_len, parse, limit_payload_len,
}
use my_web_socket.Parser.Bounds.{Fits, parse-Fits}
use my_web_socket.Parser.Feed.{feed}
use my_web_socket.Parser.Invariant.{IsValid, Returns, parse-Returns}
use my_web_socket.Parser.Refinement.{and_then, parse-append, parse-feed}
use my_web_socket.Parser.Encode.{
  Fragment, IsFragment, masked, encode, len_code, len_extension, mask_payload, mask_from,
}
use my_web_socket.Parser.RoundTrip.{
  IsReady, delivered, parse-encode, parse-encode_empty, parse-encode_too_long,
}
use my_web_socket.Parser.Messages.{
  IsPlain, Completes, encode_all, payloads, parse-Completes, parse_control-Completes,
}

abbrev pub blank : WsFrame
blank = record {
  fin = false;
  rsv = 0;
  opcode = 0;
  mask = false;
  payload_len = 0;
  mask_key = [];
  payload = [];
}

abbrev pub collect : WsFrame → List WsFrame → List WsFrame
collect f fs = f ∷ fs

abbrev pub start : WsParser (List WsFrame)
start = record {
  status = fin_and_opcode;
  byte_need = 1;
  frame = blank;
  is_continuation = false;
  mask_index = 0;
  owner = [];
}

-- In the middle of a message.
abbrev middle : WsParser (List WsFrame)
middle = record start {
  is_continuation = true;
  frame = record blank { opcode = 1; payload = codes "Hel" };
}

abbrev pub fragment : Bool → ℕ → List ℕ → Fragment
fragment fin opcode text = record {
  fin = fin;
  rsv = 0;
  opcode = opcode;
  masking = masked 0x37 0xfa 0x21 0x3d;
  payload = text;
}

abbrev hello : Fragment
hello = fragment true 1 (codes "Hello")

abbrev hello_bytes : List ℕ
hello_bytes = 0x81 ∷ 0x85 ∷ 0x37 ∷ 0xfa ∷ 0x21 ∷ 0x3d ∷ 0x7f ∷ 0x9f ∷ 0x4d ∷ 0x51 ∷ 0x58 ∷ []

encode-hello : encode hello ≡ hello_bytes
unfolding encode len_code len_extension mask_payload mask_from
encode-hello = refl

start-IsReady : IsReady start
start-IsReady = record { at_start = refl; index = refl }

middle-IsReady : IsReady middle
middle-IsReady = record { at_start = refl; index = refl }

start-IsValid : IsValid start
start-IsValid = record { agrees = tt; index = omega arith }

hello-IsFragment : IsFragment hello
hello-IsFragment = record {
  rsv_fits = omega arith;
  opcode_fits = omega arith;
  length_fits = omega arith;
  key_fits = omega arith;
  payload_fits = omega arith;
}

pub plain :
    (f : Fragment)
    → IsFragment f
    → 0 < length f.payload
    → length f.payload ≤ limit_payload_len
    → IsPlain f
plain f v n l = record { is_fragment = v; not_empty = n; not_long = l }

pub fragment-IsPlain :
    (fin : Bool) (opcode : ℕ) (text : List ℕ)
    → opcode < 16
    → 0 < length text
    → length text ≤ limit_payload_len
    → IsBytes text
    → IsPlain (fragment fin opcode text)
fragment-IsPlain fin opcode text o n l b =
    plain _
      (record {
        rsv_fits = omega arith;
        opcode_fits = o;
        length_fits = omega (arith, l);
        key_fits = omega arith;
        payload_fits = b;
      })
      n l

hel-IsPlain : IsPlain (fragment false 1 (codes "Hel"))
hel-IsPlain = fragment-IsPlain _ _ _ (omega arith) (omega arith) (omega arith) (omega arith)

lo-IsPlain : IsPlain (fragment true 0 (codes "lo"))
lo-IsPlain = fragment-IsPlain _ _ _ (omega arith) (omega arith) (omega arith) (omega arith)

ping-IsPlain : IsPlain (fragment true 9 (codes "lo"))
ping-IsPlain = fragment-IsPlain _ _ _ (omega arith) (omega arith) (omega arith) (omega arith)

parse-Completes_example :
    (q : WsParser (List WsFrame)) × (parse collect start
        (encode_all (fragment false 1 (codes "Hel") ∷ fragment true 0 (codes "lo") ∷ []))
      ≡ returns success q)
    × Completes collect start 1 true (codes "Hel" ++ (payloads [] ++ codes "lo")) q
parse-Completes_example =
    parse-Completes collect start (fragment false 1 (codes "Hel")) [] (fragment true 0 (codes "lo"))
      start-IsReady refl (omega arith) refl tt refl (hel-IsPlain, tt) lo-IsPlain

parse_control-Completes_example :
    (q : WsParser (List WsFrame)) × (parse collect middle (encode (fragment true 9 (codes "lo")))
      ≡ returns success q)
    × Completes collect middle 1 true (codes "Hel" ++ codes "lo") q
parse_control-Completes_example =
    parse_control-Completes collect middle (fragment true 9 (codes "lo")) middle-IsReady refl refl
      (omega arith) ping-IsPlain

parse-encode_example :
    parse collect start (encode hello ++ (0x89 ∷ []))
    ≡ parse collect (delivered collect start hello) (0x89 ∷ [])
parse-encode_example =
    parse-encode collect start hello (0x89 ∷ []) start-IsReady hello-IsFragment (omega arith)
      (omega arith)

parse-append_example :
    parse collect start ((0x81 ∷ 0x85 ∷ []) ++ (0x37 ∷ 0xfa ∷ []))
    ≡ and_then (parse collect start (0x81 ∷ 0x85 ∷ [])) (λ q. parse collect q (0x37 ∷ 0xfa ∷ []))
parse-append_example = parse-append collect start (0x81 ∷ 0x85 ∷ []) (0x37 ∷ 0xfa ∷ [])

parse-feed_example : parse collect start hello_bytes ≡ feed collect start hello_bytes
parse-feed_example = parse-feed collect start hello_bytes

parse-Returns_example : Returns collect (parse collect start hello_bytes)
parse-Returns_example = parse-Returns collect start hello_bytes start-IsValid

nothing-IsFragment : IsFragment (fragment true 9 [])
nothing-IsFragment = record {
  rsv_fits = omega arith;
  opcode_fits = omega arith;
  length_fits = omega arith;
  key_fits = omega arith;
  payload_fits = tt;
}

parse-encode_empty_example :
    ((q : WsParser (List WsFrame)) × (parse collect start (encode (fragment true 9 []))
        ≡ returns success q)
      × (q.owner ≡ []))
    × (parse collect start (encode (fragment true 9 []) ++ (0x81 ∷ []))
        ≡ parse collect (delivered collect start (fragment true 9 [])) (0x81 ∷ []))
parse-encode_empty_example =
    parse-encode_empty collect start (fragment true 9 []) 0x81 [] start-IsReady nothing-IsFragment
      refl

-- A payload of zero bytes, shut, so that a long one is not computed.
pub zeros : ℕ → List ℕ
zeros zero = []
zeros (suc n) = 0 ∷ zeros n

length-zeros : (n : ℕ) → length (zeros n) ≡ n
unfolding zeros
length-zeros zero = refl
length-zeros (suc n) = ap suc (length-zeros n)

zeros-IsBytes : (n : ℕ) → IsBytes (zeros n)
unfolding zeros
zeros-IsBytes zero = tt
zeros-IsBytes (suc n) = (omega arith, zeros-IsBytes n)

abbrev pub too_long : Fragment
too_long = fragment true 1 (zeros 1048577)

pub too_long-IsFragment : IsFragment too_long
too_long-IsFragment = record {
  rsv_fits = omega arith;
  opcode_fits = omega arith;
  length_fits = omega (arith, length-zeros 1048577);
  key_fits = omega arith;
  payload_fits = zeros-IsBytes 1048577;
}

pub too_long-lt : limit_payload_len < length too_long.payload
too_long-lt = omega (arith, length-zeros 1048577)

parse-encode_too_long_example :
    (q : WsParser (List WsFrame)) × (parse collect start (encode too_long ++ [])
      ≡ returns invalid_payload_len q)
    × (q.owner ≡ [])
    × (q.status ≡ fin_and_opcode)
    × (q.is_continuation ≡ false)
parse-encode_too_long_example =
    parse-encode_too_long collect start too_long [] start-IsReady too_long-IsFragment too_long-lt

-- The RFC's masked "Hello", byte by byte.
parse_hello :
    parse collect start hello_bytes
    ≡ returns success (record start {
      byte_need = 0;
      frame = record {
        fin = true;
        rsv = 0;
        opcode = 1;
        mask = true;
        payload_len = 5;
        mask_key = 0x37 ∷ 0xfa ∷ 0x21 ∷ 0x3d ∷ [];
        payload = codes "Hello";
      };
      owner =
          record {
            fin = true;
            rsv = 0;
            opcode = 1;
            mask = true;
            payload_len = 5;
            mask_key = 0x37 ∷ 0xfa ∷ 0x21 ∷ 0x3d ∷ [];
            payload = codes "Hello";
          }
          ∷ [];
    })
unfolding parse get_fin get_rsv get_opcode get_mask get_payload_len unmask
parse_hello = refl

middle-Fits : Fits middle
middle-Fits = record {
  sizes = record {
    rsv_size = omega arith;
    opcode_size = omega arith;
    len_size = omega arith;
    key_size = tt;
    payload_size = omega arith;
  };
  need = omega arith;
}

parse-Fits_example :
    (e : WsParseErr) × (q : WsParser (List WsFrame)) × (parse collect middle
        (0x80 ∷ 0x82 ∷ 1 ∷ 2 ∷ [])
      ≡ returns e q)
    × Fits q
parse-Fits_example =
    parse-Fits collect middle (0x80 ∷ 0x82 ∷ 1 ∷ 2 ∷ []) (omega arith)
      (record { agrees = tt; index = omega arith }) middle-Fits
