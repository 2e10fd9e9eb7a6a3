-- ===== src/Tests/Stream.antt =====
-- A session of src/core/WebSocket.cpp and the stream of one client.
use my_web_socket.Prelude.{
  ℕ, ◌≡◌, refl, true, false, some, List, [], ◌∷◌, map, concat, codes, arith, All,
}
use my_web_socket.Parser.{WsFrame, WsParser}
use my_web_socket.Parser.Encode.{encode, len_code, len_extension, mask_payload, mask_from}
use my_web_socket.Parser.Messages.{encode_all, payloads}
use my_web_socket.Parser.RoundTrip.{IsReady}
use my_web_socket.Parser.Streams.{SentMessage, IsMessage, encode_messages, text_of, seen}
use my_web_socket.WebSocket.{WsSession, open_, run, send, inter_send}
use my_web_socket.WsServer.Stream.{recv_all, reacted, KeepsOpen, recv_all-reacts}
use my_web_socket.Tests.Parsing.{fragment, fragment-IsPlain}
use my_web_socket.Tests.Sessions.{echo, session, listening, listening-IsReady}

echo-KeepsOpen : KeepsOpen echo
unfolding run send inter_send
echo-KeepsOpen g s o = o

-- A message in two frames, and a ping.
abbrev hello_ping : List SentMessage
hello_ping =
    record { init = fragment false 1 (codes "Hel") ∷ []; last = fragment true 0 (codes "lo") }
    ∷ record { init = []; last = fragment true 9 (codes "x") }
    ∷ []

hello_ping-IsMessage : All IsMessage hello_ping
hello_ping-IsMessage = (
  record {
    plain = (
      fragment-IsPlain _ _ _ (omega arith) (omega arith) (omega arith) (omega arith),
      (fragment-IsPlain _ _ _ (omega arith) (omega arith) (omega arith) (omega arith), tt),
    );
    unfinished = (refl, tt);
    finished = refl;
    is_masked = refl;
    has_opcode = omega arith;
  },
  (
    record {
      plain = (fragment-IsPlain _ _ _ (omega arith) (omega arith) (omega arith) (omega arith), tt);
      unfinished = tt;
      finished = refl;
      is_masked = refl;
      has_opcode = omega arith;
    },
    tt,
  ),
)

-- Its bytes, cut within a key and within a header.
abbrev reads : List (List ℕ)
reads =
    (0x01 ∷ 0x83 ∷ 0x37 ∷ 0xfa ∷ [])
    ∷ (0x21 ∷ 0x3d ∷ 0x7f ∷ 0x9f ∷ 0x4d ∷ 0x80 ∷ [])
    ∷ (0x82 ∷ 0x37 ∷ 0xfa ∷ 0x21 ∷ 0x3d ∷ 0x5b ∷ 0x95 ∷ 0x89 ∷ 0x81 ∷ 0x37 ∷ 0xfa ∷ 0x21 ∷ 0x3d
        ∷ [])
    ∷ (0x4f ∷ [])
    ∷ []

reads_sent : concat reads ≡ encode_messages hello_ping
unfolding encode_messages encode_all encode len_code len_extension mask_payload mask_from
reads_sent = refl

recv_all-reacts_example :
    (q : WsParser WsSession) × (gs : List WsFrame) × (recv_all echo reads listening ≡ some q)
    × (q.owner ≡ reacted echo gs session)
    × (map seen gs ≡ (1, codes "Hello") ∷ (9, codes "x") ∷ [])
    × (q.owner.ready_state ≡ open_)
    × IsReady q
unfolding text_of payloads
recv_all-reacts_example =
    recv_all-reacts echo listening hello_ping reads echo-KeepsOpen listening-IsReady refl refl
      hello_ping-IsMessage (omega arith, (omega arith, tt)) reads_sent
