-- ===== src/WsServer/Stream.antt =====
-- The messages of a client through the session of src/core/WebSocket.cpp, however the stream that
-- carries them is cut into reads.
use my_web_socket.Prelude.{
  concat, if_elim, ℕ, ◌≡◌, ◌≢◌, refl, ap, ◌∙◌, sym, true, false, Option, none, some, List, [], ◌∷◌,
  map, ◌==◌, if◌then◌else◌, arith, All,
}
use my_web_socket.Parser.{WsFrame, WsParser, WsParseErr, success, Outcome, returns, parse}
use my_web_socket.Parser.Owner.{parse-owner}
use my_web_socket.Parser.Refinement.{and_then, parse-append}
use my_web_socket.Parser.RoundTrip.{IsReady}
use my_web_socket.Parser.Streams.{
  SentMessage, IsMessage, opcode_of, encode_messages, seen, told, handed, parse-CompletesAll,
}
use my_web_socket.WebSocket.{
  WsSession, WsStatus, connecting, open_, closing, closed, Callbacks, recv_cb, handle_ws_frame,
  message_callback, send_pong, inter_send, ws_ping, ws_pong, ws_close,
}
use my_web_socket.WebSocket.Closing.{inter_close-state}
use my_web_socket.WebSocket.Receiving.{recv_open, handle_success}
use my_web_socket.WsServer.Sessions.{handle_ws_frame-keeps}

-- The reads of a session in their order.
unfoldable pub recv_all :
    Callbacks → List (List ℕ) → WsParser WsSession → Option (WsParser WsSession)
unfolding recv_cb
recv_all cb [] p = some p
recv_all cb (c ∷ cs) p = elim (recv_cb cb (some c) p) [ none ↦ none | some q ↦ recv_all cb cs q ]

-- What a session does for the messages that it gets: a ping is answered, a pong passed over, and
-- all else goes to the message callback.
unfoldable pub reacted : Callbacks → List WsFrame → WsSession → WsSession
reacted cb [] s = s
reacted cb (g ∷ gs) s = reacted cb gs (
    if g.opcode == ws_pong
    then s
    else if g.opcode == ws_ping
    then send_pong s
    else message_callback cb cb.on_message g s)

module _ (cb : Callbacks) where
  NotOpen : WsSession → Type 0
  NotOpen s = s.ready_state ≢ open_

  handle_ws_frame-NotOpen :
      (f : WsFrame) (s : WsSession) → NotOpen s → NotOpen (handle_ws_frame cb f s)
  unfolding NotOpen
  handle_ws_frame-NotOpen =
      handle_ws_frame-keeps NotOpen (λ e n s q h. h) cb
        (λ s h o. let c = inter_close-state cb s in cc) (λ f s h. h)

  -- A session that is open after a run of the parser was open before.
  parse-open :
      (p q : WsParser WsSession) (bs : List ℕ) {e : WsParseErr}
      → parse (handle_ws_frame cb) p bs ≡ returns e q
      → q.owner.ready_state ≡ open_
      → p.owner.ready_state ≡ open_
  unfolding NotOpen
  parse-open p q bs r o = at p.owner.ready_state refl
    where
      not_open : NotOpen p.owner → p.owner.ready_state ≡ open_
      not_open n =
          absurd (parse-owner (handle_ws_frame cb) NotOpen handle_ws_frame-NotOpen p bs n r o)

      at : (st : WsStatus) → p.owner.ready_state ≡ st → p.owner.ready_state ≡ open_
      at open_ e = e
      at connecting e = not_open (λ o. cc)
      at closing e = not_open (λ o. cc)
      at closed e = not_open (λ o. cc)

  parse_nothing : (p : WsParser WsSession) → parse (handle_ws_frame cb) p [] ≡ returns success p
  unfolding parse
  parse_nothing p = refl

  recv_all-parse :
      (cs : List (List ℕ)) (p q : WsParser WsSession)
      → parse (handle_ws_frame cb) p (concat cs) ≡ returns success q
      → q.owner.ready_state ≡ open_
      → recv_all cb cs p ≡ some q
  unfolding recv_all
  recv_all-parse [] p q r o =
      let same : returns success p ≡ returns success q = sym (parse_nothing p) ∙ r in ground arith
  recv_all-parse (c ∷ cs) p q r o =
      at (parse (handle_ws_frame cb) p c) refl
        (sym (parse-append (handle_ws_frame cb) p c (concat cs)) ∙ r)
        (λ s k. recv_all-parse cs s q k o)
    where
      at :
          (out : Outcome WsSession)
          → parse (handle_ws_frame cb) p c ≡ out
          → and_then out (λ s. parse (handle_ws_frame cb) s (concat cs)) ≡ returns success q
          → ((s : WsParser WsSession)
              → parse (handle_ws_frame cb) s (concat cs) ≡ returns success q
              → recv_all cb cs s ≡ some q)
          → recv_all cb (c ∷ cs) p ≡ some q
      at (returns success s) e k ih =
          let open_s = parse-open s q (concat cs) k o in
          let here = recv_open cb p c (parse-open p s c e open_s) ∙ handle_success cb p s c e in
          rw (here, recv_all) (ih s k)
      at _ e k ih = ground arith

  ==_false : (a b : ℕ) → a ≢ b → (a == b) ≡ false
  ==_false a b n = ground arith

  -- A frame that is masked and no close frame.
  handle_ws_frame-reacted :
      (g : WsFrame) (s : WsSession)
      → g.mask ≡ true
      → g.opcode ≢ ws_close
      → handle_ws_frame cb g s ≡ reacted cb (g ∷ []) s
  unfolding reacted handle_ws_frame
  handle_ws_frame-reacted g s m k = rw (handle_ws_frame, m, ==_false g.opcode ws_close k) refl

  reacted-handed :
      (gs : List WsFrame) (s : WsSession)
      → All (λ g. g.mask ≡ true) gs
      → All (λ g. g.opcode ≢ ws_close) gs
      → handed (handle_ws_frame cb) gs s ≡ reacted cb gs s
  unfolding handed reacted
  reacted-handed [] s m k = refl
  reacted-handed (g ∷ gs) s m k =
      ap (handed (handle_ws_frame cb) gs) (handle_ws_frame-reacted g s m.0 k.0)
      ∙ reacted-handed gs _ m.1 k.1

  closes_none :
      (gs : List WsFrame) (ms : List SentMessage)
      → map seen gs ≡ map told ms
      → All (λ m. opcode_of m ≢ ws_close) ms
      → All (λ g. g.opcode ≢ ws_close) gs
  closes_none [] ms e a = tt
  closes_none (g ∷ gs) [] e a = absurd (ground arith)
  closes_none (g ∷ gs) (m ∷ ms) e a =
      let first : g.opcode ≡ opcode_of m = ground arith in
      let rest : map seen gs ≡ map told ms = ground arith in
      (λ c. a.0 (sym first ∙ c), closes_none gs ms rest a.1)

  -- The message callback leaves an open session open.
  abbrev pub KeepsOpen : Type 0
  KeepsOpen =
      (g : WsFrame) (s : WsSession)
      → s.ready_state ≡ open_
      → (message_callback cb cb.on_message g s).ready_state ≡ open_

  abbrev IsOpen : WsSession → Type 0
  IsOpen s = s.ready_state ≡ open_

  reacted-open :
      (gs : List WsFrame) (s : WsSession)
      → KeepsOpen
      → s.ready_state ≡ open_
      → (reacted cb gs s).ready_state ≡ open_
  unfolding reacted send_pong inter_send
  reacted-open [] s k o = o
  reacted-open (g ∷ gs) s k o = reacted-open gs _ k (
      if_elim IsOpen (g.opcode == ws_pong) (λ _. o)
        (λ _. if_elim IsOpen (g.opcode == ws_ping) (λ _. o) (λ _. k g s o)))

  -- In an open session at the start of a frame outside a continued message, where the message
  -- callback leaves an open session open: a stream of messages, of which none is a close frame, each
  -- in one frame or in fragments, of which the last is masked and all have payloads that are neither
  -- empty nor over the limit, cut into reads in any places. The reads end; what they did to the session is to answer
  -- the pings and to run the message callback on the other messages but the pongs, in the stream's
  -- order, on frames with the opcodes and the texts that were sent; and the session is open and at
  -- the start of a frame.
  pub recv_all-reacts :
      (p : WsParser WsSession) (ms : List SentMessage) (cs : List (List ℕ))
      → KeepsOpen
      → IsReady p
      → p.is_continuation ≡ false
      → p.owner.ready_state ≡ open_
      → All IsMessage ms
      → All (λ m. opcode_of m ≢ ws_close) ms
      → concat cs ≡ encode_messages ms
      → (q : WsParser WsSession) × (gs : List WsFrame) × (recv_all cb cs p ≡ some q)
        × (q.owner ≡ reacted cb gs p.owner)
        × (map seen gs ≡ map told ms)
        × (q.owner.ready_state ≡ open_)
        × IsReady q
  recv_all-reacts p ms cs k r c o v n e =
      let (q, run, done) = parse-CompletesAll (handle_ws_frame cb) p ms r c v in
      let gs = done.given in
      let made =
        done.called
        ∙ reacted-handed gs p.owner done.are_masked (closes_none gs ms done.in_order n) in
      let still = ap (λ (s : WsSession). s.ready_state) made ∙ reacted-open gs p.owner k o in
      (
        q,
        gs,
        recv_all-parse cs p q (ap (parse (handle_ws_frame cb) p) e ∙ run) still,
        made,
        done.in_order,
        still,
        done.ready,
      )
