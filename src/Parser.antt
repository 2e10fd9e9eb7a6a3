-- ===== src/Parser.antt =====
-- The frame parser, src/core/websocket_parser.h and src/core/websocket_parser.cpp.
-- A byte is a number below 256, a `char` its bit pattern. `frame` is the frame that `m_frame`
-- points to, `owner` the state that the callback `m_onComplete` changes.
pub mod Feed
pub mod Refinement
pub mod Invariant
pub mod Encode
pub mod Header
pub mod Payload
pub mod RoundTrip
pub mod Messages
pub mod Streams
pub mod Owner
pub mod Bounds
use my_web_socket.Prelude.{
  ℕ, zero, suc, ◌+◌, ◌-◌, ◌*◌, ◌/◌, ◌%◌, ◌^◌, min, bit_and, bit_or, bit_xor, Bool, true, false, not,
  ◌&&◌, Option, none, some, List, [], ◌∷◌, ◌++◌, length, get_elem?, take, drop, ltb, leb, ◌==◌,
  if◌then◌else◌,
}

pub data Status : Type 0 where
  fin_and_opcode payload_len_and_mask payload_len mask_key payload complete : Status

pub data WsParseErr : Type 0 where
  success not_completed invalid_frame invalid_opcode invalid_payload_len invalid_mask : WsParseErr

pub record WsFrame : Type 0 where
  pub fin : Bool
  pub rsv : ℕ
  pub opcode : ℕ
  pub mask : Bool
  pub payload_len : ℕ
  pub mask_key : List ℕ
  pub payload : List ℕ

pub record WsParser (S : Type 0) : Type 0 where
  pub status : Status
  pub byte_need : ℕ
  pub frame : WsFrame
  pub is_continuation : Bool
  pub mask_index : ℕ
  pub owner : S

abbrev pub limit_payload_len : ℕ
limit_payload_len = 1024 * 1024

abbrev pub is_set : ℕ → Bool
is_set n = not (n == 0)

-- The macros `GET_FIN` to `GET_PAYLOAD_LEN`.
unfoldable pub get_fin : ℕ → Bool
get_fin ch = is_set (bit_and ch 0x80)

unfoldable pub get_rsv : ℕ → ℕ
get_rsv ch = bit_and ch 0x70 / 16

unfoldable pub get_opcode : ℕ → ℕ
get_opcode ch = bit_and ch 0x0f

unfoldable pub get_mask : ℕ → Bool
get_mask ch = is_set (bit_and ch 0x80)

unfoldable pub get_payload_len : ℕ → ℕ
get_payload_len ch = bit_and ch 0x7f

-- The loop that unmasks a chunk onto the end of the payload; `none` is a read beyond the key.
unfoldable pub unmask : List ℕ → ℕ → List ℕ → List ℕ → Option (List ℕ × ℕ)
unmask key index [] out = some (out, index)
unmask key index (ch ∷ chs) out = elim (get_elem? key index) [
  | none ↦ none
  | some k ↦ unmask key ((index + 1) % 4) chs (out ++ (bit_xor ch k ∷ []))
]

-- What one round of the loop leaves: the next round's state and bytes, or the end of `parse`.
pub data Step (S : Type 0) : Type 0 where
  next : WsParser S → List ℕ → Step S
  stop : WsParseErr → WsParser S → Step S
  bad_read : Step S

-- The end of `parse`. Reading beyond the mask key is undefined in C++.
pub data Outcome (S : Type 0) : Type 0 where
  returns : WsParseErr → WsParser S → Outcome S
  undefined : Outcome S
  out_of_fuel : Outcome S

module _ {S : Type 0} where
  -- The macro `SWITCH_TO_MASK`.
  unfoldable pub switch_to_mask : WsParser S → WsParser S
  switch_to_mask p =
      if p.frame.mask
      then record p { status = mask_key; byte_need = 4; frame = record p.frame { mask_key = [] } }
      else record p { status = payload; byte_need = p.frame.payload_len }

  unfoldable pub read_fin_and_opcode : WsParser S → ℕ → WsParser S
  read_fin_and_opcode p ch =
      let frame = record p.frame { fin = get_fin ch; rsv = get_rsv ch } in
      let opcode = get_opcode ch in
      let reset = record frame { opcode = opcode; mask_key = []; payload = [] } in
      record p {
        frame = if not p.is_continuation && is_set opcode then reset else frame;
        status = payload_len_and_mask;
      }

  unfoldable pub read_payload_len_and_mask : WsParser S → ℕ → WsParser S
  unfolding switch_to_mask
  read_payload_len_and_mask p ch =
      let len = get_payload_len ch in
      let frame = record p.frame { mask = get_mask ch; payload_len = len } in
      let extended = record frame { payload_len = 0 } in
      if leb len 125
      then switch_to_mask (record p { frame = frame })
      else if len == 126
      then record p { frame = extended; status = payload_len; byte_need = 2 }
      else record p { frame = extended; status = payload_len; byte_need = 8 }

  unfoldable pub read_payload_len : WsParser S → ℕ → WsParser S
  unfolding switch_to_mask
  read_payload_len p ch =
      let len = bit_or (p.frame.payload_len * 256 % 2 ^ 64) ch in
      let shifted = record p {
        frame = record p.frame { payload_len = len };
        byte_need = p.byte_need - 1;
      } in
      let q = if is_set p.byte_need then shifted else p in
      if q.byte_need == 0 then switch_to_mask q else q

  unfoldable pub read_mask_key : WsParser S → ℕ → WsParser S
  read_mask_key p ch =
      let key = p.frame.mask_key ++ (ch ∷ []) in
      let pushed = record p {
        frame = record p.frame { mask_key = key };
        byte_need = p.byte_need - 1;
      } in
      let q = if is_set p.byte_need then pushed else p in
      if q.byte_need == 0 then record q { byte_need = q.frame.payload_len; status = payload } else q

  -- `m_status` and `m_isContinuation` after a payload that is too long.
  abbrev pub rejected : WsParser S → WsParser S
  rejected p = record p { status = fin_and_opcode; is_continuation = false }

  -- The bytes of a chunk go to the payload, and `m_byteNeed` falls by their number.
  unfoldable pub store : WsParser S → List ℕ → Option (WsParser S)
  store p chunk =
      let left = p.byte_need - length chunk in
      if p.frame.mask
      then elim (unmask p.frame.mask_key p.mask_index chunk p.frame.payload) [
        | none ↦ none
        | some (out, index) ↦ some (record p {
          frame = record p.frame { payload = out };
          mask_index = index;
          byte_need = left;
        })
      ]
      else some (record p {
        frame = record p.frame { payload = p.frame.payload ++ chunk };
        byte_need = left;
      })

  module _ (on_complete : WsFrame → S → S) where
    -- The case `complete`, which the case `payload` falls through to.
    unfoldable pub finish : WsParser S → WsParser S
    finish p =
        let q = record p { mask_index = 0; byte_need = 0; status = fin_and_opcode } in
        if p.frame.fin
        then record q { is_continuation = false; owner = on_complete p.frame p.owner }
        else record q { is_continuation = true }

    unfoldable pub after_store : WsParser S → WsParser S
    unfolding finish
    after_store q = if q.byte_need == 0 then finish q else q

    -- The case `payload`. `ch += to_read - 1` and the loop's `ch ++` skip `to_read` bytes.
    unfoldable pub read_payload : WsParser S → List ℕ → Step S
    unfolding store after_store
    read_payload p chs =
        let to_read = min (length chs) p.byte_need in
        if ltb limit_payload_len p.frame.payload_len
        then stop invalid_payload_len (rejected p)
        else elim (store p (take to_read chs)) [
          | none ↦ bad_read
          | some q ↦ next (after_store q) (drop to_read chs)
        ]

    -- One round: the switch over `m_status`, at the byte `ch` before the bytes `chs`.
    unfoldable pub step_at : Status → WsParser S → ℕ → List ℕ → Step S
    unfolding read_fin_and_opcode read_payload_len_and_mask read_payload_len read_mask_key
        read_payload finish
    step_at fin_and_opcode p ch chs = next (read_fin_and_opcode p ch) chs
    step_at payload_len_and_mask p ch chs = next (read_payload_len_and_mask p ch) chs
    step_at payload_len p ch chs = next (read_payload_len p ch) chs
    step_at mask_key p ch chs = next (read_mask_key p ch) chs
    step_at payload p ch chs = read_payload p (ch ∷ chs)
    step_at complete p ch chs = next (finish p) chs

    -- The loop. An empty payload takes a round that reads no byte, hence the fuel.
    unfoldable pub loop : ℕ → WsParser S → List ℕ → Outcome S
    unfolding step_at
    loop fuel p [] = returns success p
    loop zero p (ch ∷ chs) = out_of_fuel
    loop (suc fuel) p (ch ∷ chs) = elim (step_at p.status p ch chs) [
      | next q rest ↦ loop fuel q rest
      | stop e q ↦ returns e q
      | bad_read ↦ undefined
    ]

    -- `parse` on the `len` bytes of the buffer.
    unfoldable pub parse : WsParser S → List ℕ → Outcome S
    unfolding loop
    parse p chs = if length chs == 0 then returns success p else loop (2 * length chs + 1) p chs

  -- The constructor of `websocket_parser`; the frame is the session's.
  unfoldable pub new_parser : WsFrame → S → WsParser S
  new_parser f s = record {
    status = fin_and_opcode;
    byte_need = 1;
    frame = f;
    is_continuation = false;
    mask_index = 0;
    owner = s;
  }
