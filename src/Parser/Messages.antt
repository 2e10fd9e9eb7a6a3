-- ===== src/Parser/Messages.antt =====
-- Sequences of frames: messages in fragments, and what a control frame does to one.
use my_web_socket.Prelude.{
  ℕ, ◌≤◌, ◌<◌, ◌≡◌, refl, ◌∙◌, ◌≢◌, Bool, true, false, List, [], ◌∷◌, ◌++◌, length, arith,
  append_assoc, append-nil, All,
}
use my_web_socket.Parser.{WsFrame, WsParser, returns, success, limit_payload_len, parse}
use my_web_socket.Parser.Encode.{Fragment, IsFragment, has_mask, encode}
use my_web_socket.Parser.RoundTrip.{IsReady, received, delivered, delivered-IsReady, parse-encode}

-- The bytes and the payloads of a sequence of frames.
unfoldable pub encode_all : List Fragment → List ℕ
encode_all [] = []
encode_all (f ∷ fs) = encode f ++ encode_all fs

unfoldable pub payloads : List Fragment → List ℕ
payloads [] = []
payloads (f ∷ fs) = f.payload ++ payloads fs

-- A frame that is delivered at its last byte.
pub record IsPlain (f : Fragment) : Type 0 where
  pub is_fragment : IsFragment f
  pub not_empty : 0 < length f.payload
  pub not_long : length f.payload ≤ limit_payload_len

module _ {S : Type 0} (on_complete : WsFrame → S → S) where
  unfoldable pub delivered_all : WsParser S → List Fragment → WsParser S
  delivered_all p [] = p
  delivered_all p (f ∷ fs) = delivered_all (delivered on_complete p f) fs

  pub parse-encode_all :
      (p : WsParser S) (fs : List Fragment)
      → IsReady p
      → All IsPlain fs
      → parse on_complete p (encode_all fs) ≡ returns success (delivered_all p fs)
  unfolding encode_all delivered_all
  parse-encode_all p [] r a = unfold parse in refl
  parse-encode_all p (f ∷ fs) r a =
      parse-encode on_complete p f (encode_all fs) r a.0.is_fragment a.0.not_empty a.0.not_long
      ∙ parse-encode_all (delivered on_complete p f) fs (delivered-IsReady on_complete p f) a.1

  -- A message has been handed to the callback, once, and the parser is ready for the next one.
  pub record Completes (p : WsParser S) (opcode : ℕ) (masked : Bool) (text : List ℕ)
      (q : WsParser S) : Type 0 where
    pub message : WsFrame
    pub called : q.owner ≡ on_complete message p.owner
    pub has_opcode : message.opcode ≡ opcode
    pub is_masked : message.mask ≡ masked
    pub has_text : message.payload ≡ text
    pub is_last : message.fin ≡ true
    pub ready : IsReady q
    pub restarted : q.is_continuation ≡ false

  delivered_all-Completes :
      (p : WsParser S) (ms : List Fragment) (last : Fragment)
      → p.is_continuation ≡ true
      → All (λ m. m.fin ≡ false) ms
      → last.fin ≡ true
      → Completes p p.frame.opcode
          (has_mask last.masking)
          (p.frame.payload ++ (payloads ms ++ last.payload))
          (delivered_all p (ms ++ (last ∷ [])))
  unfolding delivered_all payloads delivered
  delivered_all-Completes p [] last c a e = record {
    message = received p last;
    called = ground arith;
    has_opcode = ground arith;
    is_masked = refl;
    has_text = ground arith;
    is_last = ground arith;
    ready = record { at_start = refl; index = refl };
    restarted = ground arith;
  }
  delivered_all-Completes p (m ∷ ms) last c a e =
      let rest = delivered_all-Completes (delivered on_complete p m) ms last (ground arith) a.1 e in
      record {
        message = rest.message;
        called = ground (arith, rest.called);
        has_opcode = ground (arith, rest.has_opcode);
        is_masked = rest.is_masked;
        has_text = ground (
          arith,
          rest.has_text,
          append_assoc m.payload (payloads ms) last.payload,
          append_assoc p.frame.payload m.payload (payloads ms ++ last.payload),
        );
        is_last = rest.is_last;
        ready = rest.ready;
        restarted = rest.restarted;
      }

  All-append_last :
      (ms : List Fragment) (last : Fragment)
      → All IsPlain ms
      → IsPlain last
      → All IsPlain (ms ++ (last ∷ []))
  All-append_last [] last a h = (h, tt)
  All-append_last (m ∷ ms) last a h = (a.0, All-append_last ms last a.1 h)

  pub first-Completes :
      (p : WsParser S) (first : Fragment) (ms : List Fragment) (last : Fragment)
      → p.is_continuation ≡ false
      → first.opcode ≢ 0
      → first.fin ≡ false
      → All (λ m. m.fin ≡ false) ms
      → last.fin ≡ true
      → Completes p first.opcode
          (has_mask last.masking)
          (first.payload ++ (payloads ms ++ last.payload))
          (delivered_all p (first ∷ (ms ++ (last ∷ []))))
  unfolding delivered_all delivered
  first-Completes p first ms last c o f a e =
      let rest =
        delivered_all-Completes (delivered on_complete p first) ms last (ground arith) a e in
      record {
        message = rest.message;
        called = ground (arith, rest.called);
        has_opcode = ground (arith, rest.has_opcode);
        is_masked = rest.is_masked;
        has_text = ground (arith, rest.has_text);
        is_last = rest.is_last;
        ready = rest.ready;
        restarted = rest.restarted;
      }

  -- For a parser at the start of a frame outside a continued message, and a message in at least two
  -- well-formed fragments with payloads that are neither empty nor over the limit, the last alone
  -- with FIN and the first with an opcode other than 0: `parse` of their encodings returns SUCCESS,
  -- and the callback has run once, on the joined payload under the first fragment's opcode and the
  -- last one's mask bit.
  pub parse-Completes :
      (p : WsParser S) (first : Fragment) (ms : List Fragment) (last : Fragment)
      → IsReady p
      → p.is_continuation ≡ false
      → first.opcode ≢ 0
      → first.fin ≡ false
      → All (λ m. m.fin ≡ false) ms
      → last.fin ≡ true
      → All IsPlain (first ∷ ms)
      → IsPlain last
      → (q : WsParser S) × (parse on_complete p (encode_all (first ∷ (ms ++ (last ∷ []))))
          ≡ returns success q)
        × Completes p first.opcode
            (has_mask last.masking)
            (first.payload ++ (payloads ms ++ last.payload))
            q
  parse-Completes p first ms last r c o f a e plain h = (
    delivered_all p (first ∷ (ms ++ (last ∷ []))),
    parse-encode_all p (first ∷ (ms ++ (last ∷ []))) r (plain.0, All-append_last ms last plain.1 h),
    first-Completes p first ms last c o f a e,
  )

  -- At the start of a frame within a continued message, a FIN frame with a control opcode and a
  -- payload neither empty nor over the limit is taken for the message's last fragment: `parse`
  -- returns SUCCESS after one run of the callback, on the joined payload under the message's opcode
  -- and the frame's mask bit.
  pub parse_control-Completes :
      (p : WsParser S) (ping : Fragment)
      → IsReady p
      → p.is_continuation ≡ true
      → ping.fin ≡ true
      → 8 ≤ ping.opcode
      → IsPlain ping
      → (q : WsParser S) × (parse on_complete p (encode ping) ≡ returns success q)
        × Completes p p.frame.opcode (has_mask ping.masking) (p.frame.payload ++ ping.payload) q
  unfolding encode_all payloads
  parse_control-Completes p ping r c e o h = (
    delivered_all p (ping ∷ []),
    rw (← append-nil (encode ping)) (parse-encode_all p (ping ∷ []) r (h, tt)),
    delivered_all-Completes p [] ping c tt e,
  )
