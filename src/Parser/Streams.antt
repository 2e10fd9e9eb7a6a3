-- ===== src/Parser/Streams.antt =====
-- One message after another in a stream, each in one frame or in fragments.
use my_web_socket.Prelude.{
  ℕ, ◌≡◌, ◌≢◌, refl, ap, ap₂, ◌∙◌, true, false, List, [], ◌∷◌, ◌++◌, map, arith, append_assoc, All,
}
use my_web_socket.Parser.{WsFrame, WsParser, returns, success, parse}
use my_web_socket.Parser.Encode.{Fragment, has_mask}
use my_web_socket.Parser.Refinement.{and_then, parse-append}
use my_web_socket.Parser.RoundTrip.{IsReady, received, delivered}
use my_web_socket.Parser.Messages.{
  IsPlain, Completes, encode_all, payloads, delivered_all, parse-encode_all, first-Completes,
}

-- A message as its frames, the last one apart.
pub record SentMessage : Type 0 where
  pub init : List Fragment
  pub last : Fragment

abbrev pub frames : SentMessage → List Fragment
frames m = m.init ++ (m.last ∷ [])

-- The message's opcode is that of its first frame.
abbrev pub first_opcode : List Fragment → Fragment → ℕ
first_opcode [] last = last.opcode
first_opcode (f ∷ fs) last = f.opcode

abbrev pub opcode_of : SentMessage → ℕ
opcode_of m = first_opcode m.init m.last

unfoldable pub text_of : SentMessage → List ℕ
unfolding payloads
text_of m = payloads m.init ++ m.last.payload

-- A message that a client may send: only the last frame has FIN, and it is masked.
pub record IsMessage (m : SentMessage) : Type 0 where
  pub plain : All IsPlain (frames m)
  pub unfinished : All (λ f. f.fin ≡ false) m.init
  pub finished : m.last.fin ≡ true
  pub is_masked : has_mask m.last.masking ≡ true
  pub has_opcode : opcode_of m ≢ 0

unfoldable pub encode_messages : List SentMessage → List ℕ
encode_messages [] = []
encode_messages (m ∷ ms) = encode_all (frames m) ++ encode_messages ms

-- What is seen of a frame, and what was told by a message.
abbrev pub seen : WsFrame → ℕ × List ℕ
seen g = (g.opcode, g.payload)

abbrev pub told : SentMessage → ℕ × List ℕ
told m = (opcode_of m, text_of m)

module _ {S : Type 0} (on_complete : WsFrame → S → S) where
  unfoldable pub handed : List WsFrame → S → S
  handed [] s = s
  handed (g ∷ gs) s = handed gs (on_complete g s)

  message-Completes :
      (p : WsParser S) (fs : List Fragment) (last : Fragment)
      → p.is_continuation ≡ false
      → first_opcode fs last ≢ 0
      → All (λ f. f.fin ≡ false) fs
      → last.fin ≡ true
      → Completes on_complete p
          (first_opcode fs last)
          (has_mask last.masking)
          (payloads fs ++ last.payload)
          (delivered_all on_complete p (fs ++ (last ∷ [])))
  unfolding delivered_all delivered payloads
  message-Completes p [] last c o a e = record {
    message = received p last;
    called = ground arith;
    has_opcode = ground arith;
    is_masked = refl;
    has_text = ground arith;
    is_last = ground arith;
    ready = record { at_start = refl; index = refl };
    restarted = ground arith;
  }
  message-Completes p (f ∷ fs) last c o a e =
      rw (append_assoc f.payload (payloads fs) last.payload)
        (first-Completes on_complete p f fs last c o a.0 a.1 e)

  -- The callback has run once for each message, in their order, on a masked frame with the message's
  -- opcode and text, and the parser is ready for the next one.
  pub record CompletesAll (p : WsParser S) (ms : List SentMessage) (q : WsParser S) : Type 0 where
    pub given : List WsFrame
    pub called : q.owner ≡ handed given p.owner
    pub in_order : map seen given ≡ map told ms
    pub are_masked : All (λ g. g.mask ≡ true) given
    pub ready : IsReady q
    pub restarted : q.is_continuation ≡ false

  pub parse-CompletesAll :
      (p : WsParser S) (ms : List SentMessage)
      → IsReady p
      → p.is_continuation ≡ false
      → All IsMessage ms
      → (q : WsParser S) × (parse on_complete p (encode_messages ms) ≡ returns success q)
        × CompletesAll p ms q
  unfolding encode_messages handed text_of
  parse-CompletesAll p [] r c a = (
    p,
    unfold parse in refl,
    record {
      given = [];
      called = refl;
      in_order = refl;
      are_masked = tt;
      ready = r;
      restarted = c;
    },
  )
  parse-CompletesAll p (m ∷ ms) r c a =
      let mid = delivered_all on_complete p (frames m) in
      let one = message-Completes p m.init m.last c a.0.has_opcode a.0.unfinished a.0.finished in
      let (q, run, rest) = parse-CompletesAll mid ms one.ready one.restarted a.1 in
      (
        q,
        parse-append on_complete p (encode_all (frames m)) (encode_messages ms)
            ∙ ap (λ o. and_then o (λ q. parse on_complete q (encode_messages ms)))
                (parse-encode_all on_complete p (frames m) r a.0.plain)
            ∙ run,
        record {
          given = one.message ∷ rest.given;
          called = rest.called ∙ ap (handed rest.given) one.called;
          in_order = ap₂ ◌∷◌ (ap₂ (λ k t. (k, t)) one.has_opcode one.has_text) rest.in_order;
          are_masked = (one.is_masked ∙ a.0.is_masked, rest.are_masked);
          ready = rest.ready;
          restarted = rest.restarted;
        },
      )
