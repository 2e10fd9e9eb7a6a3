-- ===== src/Parser/Header.antt =====
-- The parser on a frame's header.
use native.Mathlib.Nat.{pow-suc}
use my_web_socket.Prelude.{
  ℕ, zero, suc, ◌+◌, ◌/◌, ◌%◌, ◌^◌, ◌<◌, ◌≡◌, refl, ap, ◌∙◌, ◌⊎◌, inl, inr, Bool-cases, Bool, true,
  false, not, ◌&&◌, List, [], ◌∷◌, ◌++◌, ltb, arith, append_assoc, bit_and_high, bit_and_low_7,
  bit_and_low_4, bit_and_rsv, bit_or_byte, if◌then◌else◌,
}
use my_web_socket.Parser.{
  Status, payload_len_and_mask, payload_len, payload, WsFrame, WsParser, is_set, get_fin, get_rsv,
  get_opcode, get_mask, get_payload_len, switch_to_mask, read_fin_and_opcode,
  read_payload_len_and_mask, read_payload_len, read_mask_key,
}
use my_web_socket.Parser.Feed.{feed, feed_at, go_on}
use my_web_socket.Parser.Encode.{
  Masking, unmasked, masked, Fragment, IsFragment, has_mask, key_bytes, big_endian, len_code,
  len_extension, first_byte, second_byte,
}

-- The fields read back from the first two bytes.
get_fin-first_byte : (f : Fragment) → IsFragment f → get_fin (first_byte f) ≡ f.fin
unfolding get_fin
get_fin-first_byte f v = ground (arith, bit_and_high (first_byte f))

get_rsv-first_byte : (f : Fragment) → IsFragment f → get_rsv (first_byte f) ≡ f.rsv
unfolding get_rsv
get_rsv-first_byte f v = ground (arith, bit_and_rsv (first_byte f))

get_opcode-first_byte : (f : Fragment) → IsFragment f → get_opcode (first_byte f) ≡ f.opcode
unfolding get_opcode
get_opcode-first_byte f v = ground (arith, bit_and_low_4 (first_byte f))

len_code-lt : (n : ℕ) → len_code n < 128
unfolding len_code
len_code-lt n = ground arith

get_mask-second_byte : (m : Masking) (n : ℕ) → get_mask (second_byte m n) ≡ has_mask m
unfolding get_mask
get_mask-second_byte m n = ground (arith, len_code-lt n, bit_and_high (second_byte m n))

get_payload_len-second_byte : (m : Masking) (n : ℕ) → get_payload_len (second_byte m n) ≡ len_code n
unfolding get_payload_len
get_payload_len-second_byte m n = ground (arith, len_code-lt n, bit_and_low_7 (second_byte m n))

module _ {S : Type 0} where
  -- Whether a frame with this opcode begins a message, so that the parser resets the frame.
  abbrev pub begins : WsParser S → ℕ → Bool
  begins p opcode = not p.is_continuation && is_set opcode

  -- The frame after the first byte.
  abbrev pub opened : WsParser S → Fragment → WsFrame
  opened p f =
      let frame = record p.frame { fin = f.fin; rsv = f.rsv } in
      if begins p f.opcode
      then record frame { opcode = f.opcode; mask_key = []; payload = [] }
      else frame

  pub read_fin_and_opcode-first_byte :
      (p : WsParser S) (f : Fragment)
      → IsFragment f
      → read_fin_and_opcode p (first_byte f)
        ≡ record p { frame = opened p f; status = payload_len_and_mask }
  unfolding read_fin_and_opcode
  read_fin_and_opcode-first_byte p f v =
      rw (get_fin-first_byte f v, get_rsv-first_byte f v, get_opcode-first_byte f v)

  -- The state after the length: what `SWITCH_TO_MASK` makes of it.
  abbrev pub sized : WsParser S → Masking → ℕ → WsParser S
  sized p m n =
      switch_to_mask (record p { frame = record p.frame { mask = has_mask m; payload_len = n } })

  -- One byte of the length that is not its last, and the last one.
  read_len :
      (p : WsParser S) (n k : ℕ)
      → p.byte_need ≡ suc (suc k)
      → p.frame.payload_len ≡ n / 256
      → n < 2 ^ 64
      → read_payload_len p (n % 256)
        ≡ record p { byte_need = suc k; frame = record p.frame { payload_len = n } }
  unfolding read_payload_len
  read_len p n k e l h = ground (arith, bit_or_byte (n / 256) (n % 256))

  read_last :
      (p : WsParser S) (n : ℕ)
      → p.byte_need ≡ 1
      → p.frame.payload_len ≡ n / 256
      → n < 2 ^ 64
      → read_payload_len p (n % 256)
        ≡ switch_to_mask (record p { byte_need = 0; frame = record p.frame { payload_len = n } })
  unfolding read_payload_len
  read_last p n e l h = ground (arith, bit_or_byte (n / 256) (n % 256))

  -- The state where `k` bytes of the length follow.
  abbrev extended : WsParser S → Masking → ℕ → WsParser S
  extended p m k = record p {
    status = payload_len;
    byte_need = k;
    frame = record p.frame { mask = has_mask m; payload_len = 0 };
  }

  read_short :
      (p : WsParser S) (m : Masking) (n : ℕ)
      → ltb n 126 ≡ true
      → read_payload_len_and_mask p (second_byte m n) ≡ sized p m n
  unfolding read_payload_len_and_mask len_code
  read_short p m n e = ground (arith, get_mask-second_byte m n, get_payload_len-second_byte m n)

  read_extended :
      (p : WsParser S) (m : Masking) (n : ℕ)
      → ltb n 126 ≡ false
      → read_payload_len_and_mask p (second_byte m n) ≡ extended p m (if ltb n 65536 then 2 else 8)
  unfolding read_payload_len_and_mask len_code
  read_extended p m n e = ground (arith, get_mask-second_byte m n, get_payload_len-second_byte m n)

  sized-extended :
      (p : WsParser S) (m : Masking) (n k : ℕ)
      → switch_to_mask (record (extended p m k) {
        byte_need = 0;
        frame = record p.frame { mask = has_mask m; payload_len = n };
      })
        ≡ sized p m n
  unfolding switch_to_mask
  sized-extended p m n k = ground arith

  module _ (on_complete : WsFrame → S → S) where
    pub feed-cons :
        (s : Status) (p q : WsParser S) (b : ℕ) (bs : List ℕ)
        → p.status ≡ s
        → feed_at on_complete s p b ≡ go_on q
        → feed on_complete p (b ∷ bs) ≡ feed on_complete q bs
    unfolding feed
    feed-cons s p q b bs e h = ground arith

    -- All but the last of the length's bytes.
    feed-big_endian :
        (w n k : ℕ) (p : WsParser S) (bs : List ℕ)
        → p.status ≡ payload_len
        → p.byte_need ≡ suc (w + k)
        → p.frame.payload_len ≡ 0
        → n < 256 ^ w
        → n < 2 ^ 56
        → feed on_complete p (big_endian w n ++ bs)
          ≡ feed on_complete
              (record p { byte_need = suc k; frame = record p.frame { payload_len = n } })
              bs
    unfolding big_endian feed_at
    feed-big_endian zero n k p bs s e z h h' =
        ap (λ (q : WsParser S). feed on_complete q bs) (ground arith)
    feed-big_endian (suc w) n k p bs s e z h h' =
        let before = record p {
          byte_need = suc (suc k);
          frame = record p.frame { payload_len = n / 256 };
        } in
        rw (append_assoc (big_endian w (n / 256)) (n % 256 ∷ []) bs) (
          feed-big_endian w (n / 256) (suc k) p (n % 256 ∷ bs) s (omega (arith, e)) z
            (omega (arith, pow-suc 256 w)) (omega arith)
          ∙ feed-cons payload_len before _ (n % 256) bs s
              (ap go_on (read_len before n k refl refl (omega arith))))

    -- The length, one byte short of its end, and that end.
    feed-len_extension :
        (w n : ℕ) (p : WsParser S) (bs : List ℕ)
        → p.status ≡ payload_len
        → p.byte_need ≡ suc w
        → p.frame.payload_len ≡ 0
        → n < 256 ^ suc w
        → n < 2 ^ 64
        → feed on_complete p (big_endian (suc w) n ++ bs)
          ≡ feed on_complete
              (switch_to_mask
                (record p { byte_need = 0; frame = record p.frame { payload_len = n } }))
              bs
    unfolding big_endian feed_at switch_to_mask
    feed-len_extension w n p bs s e z h h' =
        let before = record p { byte_need = 1; frame = record p.frame { payload_len = n / 256 } } in
        rw (append_assoc (big_endian w (n / 256)) (n % 256 ∷ []) bs) (
          feed-big_endian w (n / 256) 0 p (n % 256 ∷ bs) s (omega (arith, e)) z
            (omega (arith, pow-suc 256 w)) (omega arith)
          ∙ feed-cons payload_len before _ (n % 256) bs s
              (ap go_on (read_last before n refl refl h')))

    -- The length and the mask bit.
    pub feed-length :
        (p : WsParser S) (m : Masking) (n : ℕ) (bs : List ℕ)
        → p.status ≡ payload_len_and_mask
        → n < 2 ^ 64
        → feed on_complete p (second_byte m n ∷ (len_extension n ++ bs))
          ≡ feed on_complete (sized p m n) bs
    unfolding len_extension feed_at
    feed-length p m n bs s h =
        feed-cons payload_len_and_mask p _ (second_byte m n) _ s refl
        ∙ at (Bool-cases (ltb n 126)) (Bool-cases (ltb n 65536))
      where
        at :
            (ltb n 126 ≡ true) ⊎ (ltb n 126 ≡ false)
            → (ltb n 65536 ≡ true) ⊎ (ltb n 65536 ≡ false)
            → feed on_complete
                (read_payload_len_and_mask p (second_byte m n))
                (len_extension n ++ bs)
              ≡ feed on_complete (sized p m n) bs
        at (inl e) _ = rw (e, read_short p m n e)
        at (inr e) (inl e') =
            rw (e, e', read_extended p m n e, e')
              (feed-len_extension 1 n (extended p m 2) bs refl refl refl (ground arith) h
                ∙ ap (λ (q : WsParser S). feed on_complete q bs) (sized-extended p m n 2))
        at (inr e) (inr e') =
            rw (e, e', read_extended p m n e, e')
              (feed-len_extension 7 n (extended p m 8) bs refl refl refl (omega arith) h
                ∙ ap (λ (q : WsParser S). feed on_complete q bs) (sized-extended p m n 8))

    -- The key, if there is one.
    abbrev pub keyed : WsParser S → Masking → ℕ → WsParser S
    keyed p m n = record p {
      status = payload;
      byte_need = n;
      frame = record p.frame {
        mask = has_mask m;
        payload_len = n;
        mask_key = if has_mask m then key_bytes m else p.frame.mask_key;
      };
    }

    pub feed-key :
        (p : WsParser S) (m : Masking) (n : ℕ) (bs : List ℕ)
        → feed on_complete (sized p m n) (key_bytes m ++ bs) ≡ feed on_complete (keyed p m n) bs
    unfolding switch_to_mask feed feed_at read_mask_key
    feed-key p unmasked n bs = refl
    feed-key p (masked a b c d) n bs = refl
