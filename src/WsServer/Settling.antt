-- ===== src/WsServer/Settling.antt =====
-- The vector and the objects of the server of src/core/WsServer.cpp after one of its sessions has
-- changed.
use my_web_socket.Prelude.{
  ℕ, zero, suc, ◌-◌, ◌<◌, ◌≡◌, refl, ap, sym, subst, ◌∙◌, ◌⊎◌, inl, inr, true, false, Bool-cases,
  Option, none, some, List, ◌==◌, ==_iff, if◌then◌else◌, arith,
}
use my_web_socket.Parser.{new_parser, WsFrame, WsParser}
use my_web_socket.Parser.Invariant.{IsValid}
use my_web_socket.WebSocket.{WsSession, closed, is_open}
use my_web_socket.Registry.{push_ws_session}
use my_web_socket.Registry.Counting.{count, count-remove_ws_session, count-push_ws_session}
use my_web_socket.Registry
use my_web_socket.WsServer.{
  register, WsServer, new_ws_session, removals, remove_times, update, settle,
}
use my_web_socket.WsServer.Sessions.{removals-quiet, IsTracked, KeepsQuiet}

count-remove_times :
    (n x i : ℕ) (xs : List ℕ)
    → count x (remove_times n i xs) ≡ (if i == x then count x xs - n else count x xs)
unfolding remove_times
count-remove_times zero x i xs = ground arith
count-remove_times (suc n) x i xs = ground (
  arith,
  count-remove_times n x i (Registry.remove_ws_session xs i),
  count-remove_ws_session x xs i,
)

-- A session stands in the vector once if it is open, else not at all.
abbrev pub listed : WsParser WsSession → ℕ
listed p = if is_open p.owner.ready_state then 1 else 0

abbrev pub listed_at : Option (WsParser WsSession) → ℕ
listed_at none = 0
listed_at (some p) = listed p

pub update_same {ℓ} :
    {A : Type ℓ} (f : ℕ → A) (i j : ℕ) (a : A) → (i == j) ≡ true → update f i a j ≡ a
update_same f i j a e = rw e refl

update_other {ℓ} :
    {A : Type ℓ} (f : ℕ → A) (i j : ℕ) (a : A) → (i == j) ≡ false → update f i a j ≡ f j
update_other f i j a e = rw e refl

-- A session's object, and how often the vector holds it.
abbrev pub Entry : ℕ → ℕ → Option (WsParser WsSession) → Type 0
Entry next i none = Unit
Entry next i (some p) = (i < next) × IsValid p × IsTracked p.owner

pub record IsConsistent (srv : WsServer) : Type 0 where
  pub entry : (i : ℕ) → Entry srv.next_session i (srv.objects i)
  pub counted : (i : ℕ) → count i srv.ws_sessions ≡ listed_at (srv.objects i)

-- The vector after an event of the session `i`, once it stands there if it was open before.
pub settled-counted :
    (srv : WsServer) (i : ℕ) (p q : WsParser WsSession)
    → IsTracked q.owner
    → (((count i srv.ws_sessions ≡ 1) × (removals p.owner.log ≡ 0))
        ⊎ ((count i srv.ws_sessions ≡ 0) × (q.owner.ready_state ≡ closed)))
    → count i (settle srv i p q).ws_sessions ≡ listed q
unfolding settle
settled-counted srv i p q t h =
    count-remove_times (removals q.owner.log - removals p.owner.log) i i srv.ws_sessions
    ∙ ground (arith, t, h)

pub settled-others :
    (srv : WsServer) (i j : ℕ) (p q : WsParser WsSession)
    → (i == j) ≡ false
    → count j (settle srv i p q).ws_sessions ≡ count j srv.ws_sessions
unfolding settle
settled-others srv i j p q n =
    count-remove_times (removals q.owner.log - removals p.owner.log) j i srv.ws_sessions
    ∙ ground (arith, n)

-- The state after `settle` is consistent if that of all other sessions was.
pub settle-IsConsistent :
    (srv : WsServer) (i : ℕ) (p q : WsParser WsSession)
    → ((j : ℕ) → (i == j) ≡ false → Entry srv.next_session j (srv.objects j))
    → ((j : ℕ) → (i == j) ≡ false → count j srv.ws_sessions ≡ listed_at (srv.objects j))
    → Entry srv.next_session i (some q)
    → count i (settle srv i p q).ws_sessions ≡ listed q
    → IsConsistent (settle srv i p q)
unfolding settle
settle-IsConsistent srv i p q entries counts own once = record {
  entry = λ j. elim (Bool-cases (i == j)) [
    | inl e ↦ rw e (subst (λ (k : ℕ). Entry srv.next_session k (some q)) ((==_iff i j).0 e) own)
    | inr n ↦ rw n (entries j n)
  ];
  counted = λ j. elim (Bool-cases (i == j)) [
    | inl e ↦
        subst (λ (k : ℕ). count k (settle srv i p q).ws_sessions ≡ listed q) ((==_iff i j).0 e) once
        ∙ sym (ap listed_at (update_same srv.objects i j (some q) e))
    | inr n ↦
        settled-others srv i j p q n
        ∙ counts j n
        ∙ sym (ap listed_at (update_other srv.objects i j (some q) n))
  ];
}

pub tracked_cases :
    (p : WsParser WsSession)
    → IsTracked p.owner
    → ((listed p ≡ 1) × (removals p.owner.log ≡ 0))
      ⊎ ((listed p ≡ 0) × (p.owner.ready_state ≡ closed))
tracked_cases p (inl h) = inl (ground (arith, h), h.1)
tracked_cases p (inr h) = inr (ground (arith, h), h.0)

-- A session before it is connected.
abbrev pub IsFresh : WsSession → Type 0
IsFresh s = (s.ready_state ≡ closed) × (removals s.log ≡ 0)

pub IsFresh-quiet : KeepsQuiet IsFresh
IsFresh-quiet e n s q h = (h.0, removals-quiet e s.log q ∙ h.1)

pub new_ws_session-IsFresh : (frame : WsFrame) (len : ℕ) → IsFresh (new_ws_session frame len).owner
unfolding new_ws_session new_parser removals
new_ws_session-IsFresh frame len = (refl, refl)

pub new_ws_session-IsValid : (frame : WsFrame) (len : ℕ) → IsValid (new_ws_session frame len)
unfolding new_ws_session new_parser
new_ws_session-IsValid frame len = record { agrees = tt; index = omega arith }

Entry-suc : (n i : ℕ) (o : Option (WsParser WsSession)) → Entry n i o → Entry (suc n) i o
Entry-suc n i none h = tt
Entry-suc n i (some p) h = (omega (arith, h.0), h.1, h.2)

Entry-self : (n : ℕ) (o : Option (WsParser WsSession)) → Entry n n o → listed_at o ≡ 0
Entry-self n none h = refl
Entry-self n (some p) h = absurd (omega (arith, h.0))

module _ (p : WsParser WsSession) (srv : WsServer) (c : IsConsistent srv) where
  pub register-Entry :
      (j : ℕ)
      → (srv.next_session == j) ≡ false
      → Entry (suc srv.next_session) j ((register p srv).objects j)
  unfolding register
  register-Entry j n =
      subst (Entry (suc srv.next_session) j)
        (sym (update_other srv.objects srv.next_session j (some p) n))
        (Entry-suc srv.next_session j (srv.objects j) (c.entry j))

  pub register-counted :
      (j : ℕ)
      → (srv.next_session == j) ≡ false
      → count j (register p srv).ws_sessions ≡ listed_at ((register p srv).objects j)
  unfolding register
  register-counted j n =
      count-push_ws_session j srv.ws_sessions srv.next_session
      ∙ ground (arith, n)
      ∙ c.counted j
      ∙ sym (ap listed_at (update_other srv.objects srv.next_session j (some p) n))

  pub register-once : count srv.next_session (register p srv).ws_sessions ≡ 1
  unfolding register
  register-once =
      let unlisted =
        c.counted srv.next_session
        ∙ Entry-self srv.next_session (srv.objects srv.next_session) (c.entry srv.next_session) in
      count-push_ws_session srv.next_session srv.ws_sessions srv.next_session
      ∙ ground (arith, unlisted)
