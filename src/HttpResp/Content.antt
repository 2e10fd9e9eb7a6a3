-- ===== src/HttpResp/Content.antt =====
-- When the file reader of a response of src/core/httpResp.cpp is deleted.
use my_web_socket.Prelude.{ℕ, suc, ◌≡◌, refl, Option, none, some, List, [], ◌∷◌, ◌++◌}
use my_web_socket.FileReader.{FileReader}
use my_web_socket.HttpResp.{
  OnSent, call_on_sent, delete_context, HttpResp, RespAction, delete_reader, send, send_file,
  reader_error, reader_close, on_write_end,
}

pub reader_deletions : List RespAction → ℕ
reader_deletions [] = 0
reader_deletions (delete_reader ∷ rest) = suc (reader_deletions rest)
reader_deletions (_ ∷ rest) = reader_deletions rest

-- The reader that `sendFile` makes is deleted once when the write has ended, both after the file
-- was read and after the reader failed, when the response is an error text.
pub send_file-deletes_once :
    (path ext : List ℕ) (q : FileReader) (r : HttpResp)
    → (reader_deletions (
          (reader_error (send_file path ext r).0).1
          ++ on_write_end (reader_error (send_file path ext r).0).0)
        ≡ 1)
      × (reader_deletions (
            (reader_close q (send_file path ext r).0).1
            ++ on_write_end (reader_close q (send_file path ext r).0).0)
          ≡ 1)
unfolding reader_deletions send_file reader_error reader_close on_write_end send
send_file-deletes_once path ext q r = (once r.on_sent, once r.on_sent)
  where
    once :
        (o : Option OnSent)
        → reader_deletions (
            delete_reader
            ∷ ((elim o [ none ↦ [] | some cb ↦ call_on_sent cb ∷ [] ]) ++ (delete_context ∷ [])))
          ≡ 1
    once none = refl
    once (some cb) = refl
