-- ===== src/FileReader/Whole.antt =====
-- Reading a whole file: libuv gives full buffers and then a short one.
use my_web_socket.Prelude.{
  ℕ, zero, suc, Option, none, some, List, [], ◌∷◌, length, get_elem?, take, drop, ◌*◌, ◌/◌,
  take_whole,
}
use my_web_socket.Prelude.{◌*◌, ◌/◌, take_whole}
use my_web_socket.FileReader.{FileReader, fs_read, handle_open, write_buffer, handle_read}
use my_web_socket.FileReader.Round.{written}

-- Serving the requests for a file, from the request for the buffer `i` on: libuv writes at most what
-- the buffer has room for to the buffer that the request names, and calls back with the number of
-- bytes; the loop ends when the reader makes another request. `none` is an access out of bounds, an
-- overflow or the end of the fuel.
unfoldable pub serve : ℕ → ℕ → List ℕ → FileReader → Option FileReader
unfolding write_buffer handle_read
serve zero i content r = none
serve (suc fuel) i content r = elim (get_elem? r.buffer_vec i) [
  | none ↦ none
  | some buf ↦
      let bytes = take buf.len content in
      elim (write_buffer i bytes r) [
        | none ↦ none
        | some written ↦ elim (handle_read written (some (length bytes))) [
          | none ↦ none
          | some (q, actions) ↦ elim actions [
            | fs_read fd k ∷ [] ↦ serve fuel k (drop buf.len content) q
            | _ ↦ some q
          ]
        ]
      ]
]

-- Serving what `fileRead` and `onOpen` ask for.
unfoldable pub serve_file : ℕ → ℕ → List ℕ → FileReader → Option FileReader
unfolding handle_open serve
serve_file fuel fd content r =
    let (opened, actions) = handle_open r (some fd) in
    elim actions [ fs_read fd i ∷ [] ↦ serve fuel i content opened | _ ↦ none ]
