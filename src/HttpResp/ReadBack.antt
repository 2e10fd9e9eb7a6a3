-- ===== src/HttpResp/ReadBack.antt =====
-- What `httpResp::send` of src/core/httpResp.cpp writes, as a client reads it.
use my_web_socket.Prelude.{
  ℕ, ◌+◌, ◌*◌, ◌/◌, ◌^◌, ◌<◌, ◌≡◌, some, List, codes, length, if◌then◌else◌,
}
use my_web_socket.FileReader.{
  int_max, default_file_reader_buff_size, file_read, set_on_close, set_on_error, new_file_reader,
  FileReader,
}
use my_web_socket.FileReader.Whole.{serve_file}
use my_web_socket.HttpResp.{is_file, HttpResp}

-- A reader that has read a file, as libuv serves it.
pub record HasServed (content : List ℕ) (q : FileReader) : Type 0 where
  pub descriptor : ℕ
  pub name : List ℕ
  pub fits : length content < int_max * default_file_reader_buff_size
  pub served :
      serve_file
        (length content / 1024 + 1)
        descriptor
        content
        (file_read (set_on_close (set_on_error new_file_reader)) name).0
      ≡ some q

-- The content of a response: the file that was read, or a body whose length is an `unsigned int`.
abbrev pub Holds : List ℕ → HttpResp → Type 0
Holds content r =
    if is_file r.send_type
    then HasServed content r.reader
    else (r.body ≡ content) × (length content < 2 ^ 32)

abbrev content_length : List ℕ
content_length = codes "Content-Length"
