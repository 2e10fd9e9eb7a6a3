-- ===== src/FileReader.antt =====
-- The asynchronous file reader, src/core/FileReader.h and src/core/FileReader.cpp.
-- libuv is the environment: a handler is given what the request brought and says which requests
-- and callbacks it makes. A failed request is a negative `req->result`.
pub mod Round
pub mod Whole
use my_web_socket.Prelude.{
  ℕ, suc, ◌+◌, Bool, true, false, Option, none, some, List, [], ◌∷◌, ◌++◌, length, get_elem?, set,
  take, leb, ltb, ◌^◌, ◌-◌, ◌==◌, if◌then◌else◌,
}

pub data FileReaderErr : Type 0 where
  read_success open_failed read_failed close_failed : FileReaderErr

-- A `uv_buf_t`: what libuv wrote at `base`, and `len`.
pub record UvBuf : Type 0 where
  pub base : List ℕ
  pub len : ℕ

-- `m_result` is not initialised, hence the `Option`.
pub record FileReader : Type 0 where
  pub buffer_vec : List UvBuf
  pub buff_used : ℕ
  pub result : Option FileReaderErr
  pub fd : Option ℕ
  pub path : List ℕ
  pub read_byte : ℕ
  pub on_close : Bool
  pub on_error : Bool

-- Requests to libuv, and calls of the two callbacks.
pub data Action : Type 0 where
  fs_open : List ℕ → Action
  fs_read : ℕ → ℕ → Action
  fs_close : ℕ → Action
  call_on_close call_on_error : Action

abbrev pub default_file_reader_buff_size : ℕ
default_file_reader_buff_size = 1024

abbrev pub new_buff : UvBuf
new_buff = record { base = []; len = default_file_reader_buff_size }

unfoldable pub new_file_reader : FileReader
new_file_reader = record {
  buffer_vec = new_buff ∷ [];
  buff_used = 0;
  result = none;
  fd = none;
  path = [];
  read_byte = 0;
  on_close = false;
  on_error = false;
}

-- The setters of the callbacks.
unfoldable pub set_on_error : FileReader → FileReader
set_on_error r = record r { on_error = true }

unfoldable pub set_on_close : FileReader → FileReader
set_on_close r = record r { on_close = true }

-- The macro `FILE_CALLBACK`.
abbrev pub file_callback : Bool → Action → List Action
file_callback b a = if b then a ∷ [] else []

-- The macro `FILE_ON_ERROR`, for a negative result.
abbrev pub file_on_error : FileReader → FileReaderErr → FileReader × List Action
file_on_error r err = (record r { result = some err }, file_callback r.on_error call_on_error)

unfoldable pub file_read : FileReader → List ℕ → FileReader × List Action
file_read r path = (record r { path = path; buff_used = 0; read_byte = 0 }, fs_open path ∷ [])

-- `onOpen`, on a file descriptor or a failure.
unfoldable pub handle_open : FileReader → Option ℕ → FileReader × List Action
handle_open r none = file_on_error r open_failed
handle_open r (some fd) =
    let bufs = if length r.buffer_vec == 0 then r.buffer_vec ++ (new_buff ∷ []) else r.buffer_vec in
    (record r { buffer_vec = bufs; buff_used = 0; fd = some fd }, fs_read fd 0 ∷ [])

-- What libuv does for the request `fs_read fd i` before it calls back: it writes the bytes to the
-- buffer `i`. `none` is a buffer that there is not, or more bytes than it has room for.
unfoldable pub write_buffer : ℕ → List ℕ → FileReader → Option FileReader
write_buffer i bytes r = elim (get_elem? r.buffer_vec i) [
  | none ↦ none
  | some buf ↦
      if ltb buf.len (length bytes)
      then none
      else some (record r { buffer_vec = set r.buffer_vec i (record buf { base = bytes }) })
]

-- The greatest `int`, of which `m_buffUsed` is one.
abbrev pub int_max : ℕ
int_max = 2 ^ 31 - 1

-- After a whole buffer: the next one is read.
abbrev pub keep_reading : FileReader → ℕ → FileReader × List Action
keep_reading r fd =
    let used = suc r.buff_used in
    let grown =
      if used == length r.buffer_vec then r.buffer_vec ++ (new_buff ∷ []) else r.buffer_vec in
    (record r { buffer_vec = grown; buff_used = used }, fs_read fd used ∷ [])

-- After less than a buffer: it is cut to the `n` bytes that were read.
abbrev pub end_reading : FileReader → ℕ → UvBuf → ℕ → FileReader × List Action
end_reading r fd buf n =
    let cut = set r.buffer_vec r.buff_used (record buf { len = n }) in
    (record r { buffer_vec = cut; buff_used = suc r.buff_used }, fs_close fd ∷ [])

-- `onRead`, on the result of the request: a number of bytes, or a failure. `none` is an access
-- beyond the buffers, a read of no file, or an overflow of `m_buffUsed`.
unfoldable pub handle_read : FileReader → Option ℕ → Option (FileReader × List Action)
handle_read r none = some (file_on_error r read_failed)
handle_read r (some n) = elim r.fd [
  | none ↦ none
  | some fd ↦ elim (get_elem? r.buffer_vec r.buff_used) [
    | none ↦ none
    | some buf ↦
        let q = record r { read_byte = r.read_byte + n } in
        if leb int_max r.buff_used
        then none
        else some (if n == buf.len then keep_reading q fd else end_reading q fd buf n)
  ]
]

-- `onClose`: after a failure both callbacks are made.
unfoldable pub handle_close : FileReader → Bool → FileReader × List Action
handle_close r failed =
    let (q, actions) = if failed then file_on_error r close_failed else (r, []) in
    (q, actions ++ file_callback q.on_close call_on_close)

unfoldable pub get_read_byte : FileReader → ℕ
get_read_byte r = r.read_byte

unfoldable pub append_to_buff : FileReader → List UvBuf → List UvBuf
append_to_buff r buff = buff ++ take r.buff_used r.buffer_vec

-- The bytes that buffers stand for.
unfoldable pub bytes_of : List UvBuf → List ℕ
bytes_of [] = []
bytes_of (b ∷ bs) = take b.len b.base ++ bytes_of bs
