-- ===== src/WsServer/HangUp.antt =====
-- Peers that hang up: no session stays in the server's vector.
use my_web_socket.Prelude.{
  ℕ, ◌≡◌, refl, ap, ◌∙◌, ◌⊎◌, inl, inr, Bool-cases, Option, none, some, List, [], ◌∷◌, ◌==◌, ==_iff,
  if◌then◌else◌, arith, Option-cases, subst,
}
use my_web_socket.Parser.{WsParser}
use my_web_socket.WebSocket.{is_open, WsStatus, WsSession, Call, Callbacks, inter_close, recv_cb}
use my_web_socket.WebSocket.Closing.{inter_close-state}
use my_web_socket.Registry.Counting.{count, count-none, count-cons, count-nil}
use my_web_socket.WsServer.{WsServer, received, session_step, settle, server_step, Reach}
use my_web_socket.WsServer.Settling.{IsConsistent, settled-others, listed, listed_at, update_same}
use my_web_socket.WsServer.Registered.{server_step-IsConsistent, Reach-IsConsistent}

module _ (cb : Callbacks) where
  -- The end of the stream of each session.
  pub hang_ups : List ℕ → WsServer → Option WsServer
  hang_ups [] srv = some srv
  hang_ups (i ∷ is) srv = elim (server_step cb (received none) i srv) [
    | none ↦ none
    | some next ↦ hang_ups is next
  ]

  closed_session : WsParser WsSession → WsParser WsSession
  closed_session p = record p { owner = inter_close cb p.owner }

  closed_session-listed : (p : WsParser WsSession) → listed (closed_session p) ≡ 0
  unfolding closed_session
  closed_session-listed p =
      ap (λ (st : WsStatus). if is_open st then 1 else 0) (inter_close-state cb p.owner)

  step_none :
      (i : ℕ) (srv : WsServer)
      → srv.objects i ≡ none
      → server_step cb (received none) i srv ≡ some srv
  unfolding server_step
  step_none i srv o = rw (o, server_step) refl

  step_some :
      (i : ℕ) (srv : WsServer) (p : WsParser WsSession)
      → srv.objects i ≡ some p
      → server_step cb (received none) i srv ≡ some (settle srv i p (closed_session p))
  unfolding server_step session_step recv_cb closed_session
  step_some i srv p o = rw (o, server_step) refl

  settled_closed :
      (i x : ℕ) (srv : WsServer) (p : WsParser WsSession)
      → IsConsistent (settle srv i p (closed_session p))
      → count x (settle srv i p (closed_session p)).ws_sessions
        ≡ (if i == x then 0 else count x srv.ws_sessions)
  unfolding settle
  settled_closed i x srv p d = elim (Bool-cases (i == x)) [
    | inl e ↦
        d.counted x
        ∙ ap listed_at (update_same srv.objects i x (some (closed_session p)) e)
        ∙ closed_session-listed p
        ∙ ground (arith, e)
    | inr n ↦ settled-others srv i x p (closed_session p) n ∙ ground (arith, n)
  ]

  hung_up :
      (i : ℕ) (srv : WsServer)
      → IsConsistent srv
      → (next : WsServer) × (server_step cb (received none) i srv ≡ some next)
        × IsConsistent next
        × ((x : ℕ) → count x next.ws_sessions ≡ (if i == x then 0 else count x srv.ws_sessions))
  hung_up i srv c =
      let (next, e, d) = server_step-IsConsistent cb (received none) i srv c in
      elim (Option-cases (srv.objects i)) [
        | inl o ↦ (
          srv,
          step_none i srv o,
          c,
          λ x. ground (arith, c.counted x, ap listed_at o, ==_iff i x),
        )
        | inr (p, o) ↦
            let same : next ≡ settle srv i p (closed_session p) =
              ground (arith, e, step_some i srv p o) in
            let kept = subst IsConsistent same d in
            (
              settle srv i p (closed_session p),
              step_some i srv p o,
              kept,
              λ x. settled_closed i x srv p kept,
            )
      ]

  hang_ups-count :
      (is : List ℕ) (srv : WsServer)
      → IsConsistent srv
      → (last : WsServer) × (hang_ups is srv ≡ some last)
        × ((x : ℕ)
            → (count x last.ws_sessions ≡ 0)
              ⊎ ((count x is ≡ 0) × (count x last.ws_sessions ≡ count x srv.ws_sessions)))
  unfolding hang_ups
  hang_ups-count [] srv c = (srv, refl, λ x. inr (count-nil x, refl))
  hang_ups-count (i ∷ is) srv c =
      let (next, e, d, counts) = hung_up i srv c in
      let (last, r, rest) = hang_ups-count is next d in
      (last, rw (e, hang_ups) r, λ x. ground (arith, rest x, counts x, count-cons x i is))

  -- In every state that the server can come to, once the peer of each session in the vector has
  -- hung up, in the vector's order: each of these events ends, and the vector is empty.
  pub hang_ups-empty :
      (on_connect : Option (WsSession → List Call)) {srv : WsServer}
      → Reach cb on_connect srv
      → (last : WsServer) × (hang_ups srv.ws_sessions srv ≡ some last) × (last.ws_sessions ≡ [])
  hang_ups-empty on_connect {srv} r =
      let c = Reach-IsConsistent cb on_connect r in
      let (last, e, counts) = hang_ups-count srv.ws_sessions srv c in
      (last, e, count-none last.ws_sessions (λ x. ground (arith, counts x)))
