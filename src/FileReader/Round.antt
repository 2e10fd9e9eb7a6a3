-- ===== src/FileReader/Round.antt =====
-- One read of a file by the reader of src/core/FileReader.cpp: libuv fills a buffer, and `onRead` goes
-- on or ends.
use my_web_socket.Prelude.{
  ℕ, suc, ◌+◌, ◌≤◌, ◌<◌, ◌≡◌, refl, sym, ap, ◌∙◌, some, List, [], ◌∷◌, ◌++◌, length, get_elem?,
  take, arith, append_assoc, append-nil, length-append, set-append, get_elem?-append, take_whole,
}
use my_web_socket.Prelude.{take_whole}
use my_web_socket.FileReader.{
  FileReader, UvBuf, fs_read, fs_close, new_buff, int_max, write_buffer, handle_read,
  append_to_buff, bytes_of, get_read_byte, default_file_reader_buff_size,
}

pub bytes_of-append : (xs ys : List UvBuf) → bytes_of (xs ++ ys) ≡ bytes_of xs ++ bytes_of ys
unfolding bytes_of
bytes_of-append [] ys = refl
bytes_of-append (x ∷ xs) ys =
    rw (bytes_of-append xs ys) (sym (append_assoc (take x.len x.base) (bytes_of xs) (bytes_of ys)))

take_all : (xs : List ℕ) → take (length xs) xs ≡ xs
take_all [] = refl
take_all (x ∷ xs) = ap (◌∷◌ x) (take_all xs)

take_last : (xs : List UvBuf) (x : UvBuf) → take (suc (length xs)) (xs ++ (x ∷ [])) ≡ xs ++ (x ∷ [])
take_last [] x = refl
take_last (y ∷ xs) x = ap (◌∷◌ y) (take_last xs x)

-- Between two reads: the used buffers hold what was read, and an unused one follows.
pub record IsReading (done : List ℕ) (r : FileReader) : Type 0 where
  pub used : List UvBuf
  pub descriptor : ℕ
  pub opened : r.fd ≡ some descriptor
  pub buffers : r.buffer_vec ≡ used ++ (new_buff ∷ [])
  pub counted : r.buff_used ≡ length used
  pub holds : bytes_of used ≡ done
  pub total : r.read_byte ≡ length done

-- All of the file has been read and is in the buffers.
pub record HasRead (content : List ℕ) (r : FileReader) : Type 0 where
  pub bytes : bytes_of (append_to_buff r []) ≡ content
  pub size : get_read_byte r ≡ length content

module _ {done : List ℕ} {r : FileReader} (v : IsReading done r) (bytes : List ℕ) where
  filled : UvBuf
  filled = record { base = bytes; len = default_file_reader_buff_size }

  pub written : FileReader
  unfolding filled
  written = record r { buffer_vec = v.used ++ (filled ∷ []) }

  pub requested : get_elem? r.buffer_vec (length v.used) ≡ some new_buff
  requested =
      ap (λ bs. get_elem? bs (length v.used)) v.buffers ∙ get_elem?-append v.used [] new_buff

  pub write_buffer-written :
      length bytes ≤ default_file_reader_buff_size
      → write_buffer (length v.used) bytes r ≡ some written
  unfolding write_buffer written filled
  write_buffer-written room =
      ground (arith, v.buffers, room, requested, set-append v.used [] new_buff filled)

  pub full_read :
      length bytes ≡ default_file_reader_buff_size
      → length v.used < int_max
      → (q : FileReader) × (handle_read written (some (length bytes))
          ≡ some (q, fs_read v.descriptor (suc (length v.used)) ∷ []))
        × IsReading (done ++ bytes) q
        × (q.result ≡ r.result)
        × (q.buff_used ≡ suc (length v.used))
  unfolding handle_read bytes_of filled written
  full_read full few = (
    record r {
      buffer_vec = (v.used ++ (filled ∷ [])) ++ (new_buff ∷ []);
      buff_used = suc (length v.used);
      read_byte = r.read_byte + length bytes;
    },
    ground (
      arith,
      v.opened,
      v.counted,
      full,
      few,
      length-append v.used (filled ∷ []),
      get_elem?-append v.used [] filled,
    ),
    record {
      used = v.used ++ (filled ∷ []);
      descriptor = v.descriptor;
      opened = v.opened;
      buffers = refl;
      counted = omega (arith, length-append v.used (filled ∷ []));
      holds =
          bytes_of-append v.used (filled ∷ [])
          ∙ ground (
            arith,
            v.holds,
            append-nil (take default_file_reader_buff_size bytes),
            take_whole default_file_reader_buff_size bytes (omega (arith, full)),
          );
      total = omega (arith, v.total, length-append done bytes);
    },
    refl,
    refl,
  )

  pub short_read :
      length bytes < default_file_reader_buff_size
      → length v.used < int_max
      → (q : FileReader) × (handle_read written (some (length bytes))
          ≡ some (q, fs_close v.descriptor ∷ []))
        × HasRead (done ++ bytes) q
        × (q.result ≡ r.result)
  unfolding handle_read bytes_of append_to_buff get_read_byte filled written
  short_read short few =
      let cut : UvBuf = record { base = bytes; len = length bytes } in
      (
        record r {
          buffer_vec = v.used ++ (cut ∷ []);
          buff_used = suc (length v.used);
          read_byte = r.read_byte + length bytes;
        },
        ground (
          arith,
          v.opened,
          v.counted,
          short,
          few,
          get_elem?-append v.used [] filled,
          set-append v.used [] filled cut,
        ),
        record {
          bytes =
              ap bytes_of (take_last v.used cut)
              ∙ bytes_of-append v.used (cut ∷ [])
              ∙ ground (arith, v.holds, append-nil (take (length bytes) bytes), take_all bytes);
          size = omega (arith, v.total, length-append done bytes);
        },
        refl,
      )
