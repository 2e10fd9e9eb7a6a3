-- ===== src/HttpServer/Listed.antt =====
-- The vector of the HTTP server holds the sessions that are in use, each once.
use my_web_socket.Prelude.{
  ℤ, ℕ, zero, suc, ◌-◌, ◌<◌, ◌≡◌, refl, ap, subst, ◌∙◌, ◌⊎◌, inl, inr, Bool, true, false, Option,
  none, some, Option-cases, List, ◌∷◌, ◌==◌, ==_iff, if◌then◌else◌, if_elim, arith,
}
use my_web_socket.HttpResp.{keep_or_close, upgrade_session}
use my_web_socket.HttpSession.{
  HttpEvent, read, sent, timer_fired, HttpSession, http_step, run_on_sent, upgrade, close_session,
}
use my_web_socket.HttpSession.Connection.{closes}
use my_web_socket.HttpSession.Timer.{
  removals, IsAlive, IsGone, new_http_session-IsAlive, http_step-IsAlive,
}
use my_web_socket.Router.{RegexEngine, Route}
use my_web_socket.Registry.{push_ws_session, remove_session}
use my_web_socket.Registry.Counting.{count, count-nil, count-remove_session, count-push_ws_session}
use my_web_socket.WsServer.{update}
use my_web_socket.HttpServer.{
  Peer, HttpServer, call_on_connect, set_ip, Accepted, accept_failed, accepted, new_http_server,
  start, on_connect, on_request, on_upgrade, set_keep_alive_timeout, handle_connect,
  inter_on_connect, remove_times, settle, get, post, server_step, Reach, start_of, routed_get,
  routed_post, timed, on_connect_set, on_request_set, on_upgrade_set, started, connected, stepped,
}

count-remove_times :
    (n x i : ℕ) (xs : List ℕ)
    → count x (remove_times n i xs) ≡ (if i == x then count x xs - n else count x xs)
unfolding remove_times
count-remove_times zero x i xs = ground arith
count-remove_times (suc n) x i xs =
    ground (arith, count-remove_times n x i (remove_session xs i), count-remove_session x xs i)

module _ {Handler : Type 0} where
  abbrev pub in_use : Option (HttpSession Handler) → ℕ
  in_use none = 0
  in_use (some s) = 1

  abbrev pub Entry : ℕ → ℕ → Option (HttpSession Handler) → Type 0
  Entry next i none = Unit
  Entry next i (some s) = (i < next) × IsAlive s

  -- Of a session: its handle is not closed and it was not taken out of the vector.
  abbrev pub IsUntouched : Option (HttpSession Handler) → Type 0
  IsUntouched none = Unit
  IsUntouched (some s) = (closes s.log ≡ 0) × (removals s.log ≡ 0)

  Entry-IsUntouched : (n i : ℕ) (o : Option (HttpSession Handler)) → Entry n i o → IsUntouched o
  Entry-IsUntouched n i none h = tt
  Entry-IsUntouched n i (some s) h = (h.1.not_closed, h.1.in_use)

  Entry-suc : (n i : ℕ) (o : Option (HttpSession Handler)) → Entry n i o → Entry (suc n) i o
  Entry-suc n i none h = tt
  Entry-suc n i (some p) h = (omega (arith, h.0), h.1)

  Entry-self : (n : ℕ) (o : Option (HttpSession Handler)) → Entry n n o → in_use o ≡ 0
  Entry-self n none h = refl
  Entry-self n (some p) h = absurd (omega (arith, h.0))

  upgrade-removals : (s : HttpSession Handler) → removals (upgrade s).log ≡ suc (removals s.log)
  unfolding upgrade close_session removals
  upgrade-removals s = refl

  with_ip-IsAlive :
      (peer : Option Peer) {s : HttpSession Handler}
      → IsAlive s
      → IsAlive (record s { req = set_ip peer s.req })
  with_ip-IsAlive peer v = record {
    in_use = v.in_use;
    not_closed = v.not_closed;
    kept = v.kept;
    owned = v.owned;
  }

  -- The vector `xs` holds the sessions in use of the memory `f`, each once.
  pub record Tracks (next : ℕ) (xs : List ℕ) (f : ℕ → Option (HttpSession Handler)) : Type 0 where
    pub entry : (i : ℕ) → Entry next i (f i)
    pub counted : (i : ℕ) → count i xs ≡ in_use (f i)

  update-Tracks :
      (next i : ℕ) (xs : List ℕ) (f : ℕ → Option (HttpSession Handler))
      (o : Option (HttpSession Handler))
      → ((j : ℕ) → (i == j) ≡ false → Entry next j (f j) × (count j xs ≡ in_use (f j)))
      → Entry next i o
      → count i xs ≡ in_use o
      → Tracks next xs (update f i o)
  update-Tracks next i xs f o others own once = record {
    entry = λ j.
        if_elim (Entry next j) (i == j)
          (λ e. subst (λ (k : ℕ). Entry next k o) ((==_iff i j).0 e) own) (λ n. (others j n).0);
    counted = λ j.
        if_elim (λ r. count j xs ≡ in_use r) (i == j)
          (λ e. subst (λ (k : ℕ). count k xs ≡ in_use o) ((==_iff i j).0 e) once)
          (λ n. (others j n).1);
  }

  push-Tracks :
      (next : ℕ) (xs : List ℕ) (f : ℕ → Option (HttpSession Handler)) (s : HttpSession Handler)
      → IsAlive s
      → Tracks next xs f
      → Tracks (suc next) (push_ws_session xs next) (update f next (some s))
  push-Tracks next xs f s v c =
      update-Tracks (suc next) next (push_ws_session xs next) f (some s)
        (λ j n. (
          Entry-suc next j (f j) (c.entry j),
          count-push_ws_session j xs next ∙ ground (arith, n, c.counted j),
        ))
        (omega arith, v)
        (count-push_ws_session next xs next
          ∙ ground (arith, c.counted next, Entry-self next (f next) (c.entry next)))

  gone : {t : HttpSession Handler} → IsAlive t ⊎ IsGone t → IsAlive t ⊎ (removals t.log ≡ 1)
  gone (inl v) = inl v
  gone (inr g) = inr g.removed

  -- A session in use stays so, or was taken out once.
  abbrev Stays : HttpSession Handler → Type 0
  Stays t = IsAlive t ⊎ (removals t.log ≡ 1)

  one_or_none : {t : HttpSession Handler} → Stays t → (removals t.log ≡ 0) ⊎ (removals t.log ≡ 1)
  one_or_none (inl v) = inl v.in_use
  one_or_none (inr r) = inr r

  still_alive : {t : HttpSession Handler} → Stays t → removals t.log ≡ 0 → IsAlive t
  still_alive (inl v) z = v
  still_alive (inr r) z = absurd (omega (arith, r, z))

  settled-Tracks :
      (next i : ℕ) (xs : List ℕ) (f : ℕ → Option (HttpSession Handler)) (s t : HttpSession Handler)
      → Tracks next xs f
      → f i ≡ some s
      → Stays t
      → let n = removals t.log - removals s.log in
        Tracks next (remove_times n i xs) (update f i (if n == 0 then some t else none))
  settled-Tracks next i xs f s t c e h =
      let own = subst (Entry next i) e (c.entry i) in
      let once = c.counted i ∙ ap in_use e in
      let n = removals t.log - removals s.log in
      update-Tracks next i (remove_times n i xs) f (if n == 0 then some t else none)
        (λ j d. (c.entry j, count-remove_times n j i xs ∙ ground (arith, d, c.counted j)))
        (if_elim (Entry next i) (n == 0)
          (λ z. (own.0, still_alive h (ground (arith, own.1.in_use, z)))) (λ z. tt))
        (count-remove_times n i i xs ∙ ground (arith, once, own.1.in_use, one_or_none h))

module _ {Pattern Handler : Type 0} (engine : RegexEngine Pattern) (accept : List ℕ → List ℕ) where
  http_step-Stays :
      (router : List (ℕ × List (Route Pattern Handler))) (timeout : ℤ) (ev : HttpEvent)
      (s : HttpSession Handler)
      → IsAlive s
      → Stays (http_step accept engine router timeout ev s)
  unfolding http_step run_on_sent
  http_step-Stays router timeout (sent upgrade_session) s v =
      inr (upgrade-removals s ∙ ap suc v.in_use)
  http_step-Stays router timeout (sent keep_or_close) s v =
      gone (http_step-IsAlive accept engine router timeout (sent keep_or_close) s v (λ e. cc))
  http_step-Stays router timeout (read r) s v =
      gone (http_step-IsAlive accept engine router timeout (read r) s v (λ e. cc))
  http_step-Stays router timeout timer_fired s v =
      gone (http_step-IsAlive accept engine router timeout timer_fired s v (λ e. cc))

module _ {Pattern Handler Callback : Type 0} (engine : RegexEngine Pattern)
    (accept : List ℕ → List ℕ) where
  abbrev IsConsistent : HttpServer Pattern Handler Callback → Type 0
  IsConsistent srv = Tracks srv.next_session srv.sessions srv.objects

  inter_on_connect-IsConsistent :
      (failed : Bool) (a : Accepted) (srv : HttpServer Pattern Handler Callback)
      → IsConsistent srv
      → IsConsistent (inter_on_connect failed a srv)
  unfolding inter_on_connect handle_connect
  inter_on_connect-IsConsistent true a srv c = c
  inter_on_connect-IsConsistent false accept_failed srv c = c
  inter_on_connect-IsConsistent false (accepted peer req) srv c = at srv.on_connect_cb
    where
      pushed : IsConsistent (handle_connect peer req srv)
      pushed =
          push-Tracks srv.next_session srv.sessions srv.objects _
            (with_ip-IsAlive peer (new_http_session-IsAlive req)) c

      at :
          (o : Option Callback)
          → IsConsistent (elim o [
            | none ↦ handle_connect peer req srv
            | some cb ↦ handle_connect peer req (record srv { log = call_on_connect cb ∷ srv.log })
          ])
      at none = pushed
      at (some cb) = pushed

  server_step-IsConsistent :
      (ev : HttpEvent) (i : ℕ) (srv : HttpServer Pattern Handler Callback)
      → IsConsistent srv
      → IsConsistent (server_step engine accept ev i srv)
  unfolding server_step settle
  server_step-IsConsistent ev i srv c = elim (Option-cases (srv.objects i)) [
    | inl e ↦ rw (e, server_step) c
    | inr (s, e) ↦
        let t = http_step accept engine srv.router srv.keep_alive_timeout ev s in
        let v = subst (Entry srv.next_session i) e (c.entry i) in
        let k =
          settled-Tracks srv.next_session i srv.sessions srv.objects s t c e
            (http_step-Stays engine accept srv.router srv.keep_alive_timeout ev s v.1) in
        rw (e, server_step) k
  ]

  Reach-IsConsistent :
      {ip : List ℕ} {port : ℕ} {srv : HttpServer Pattern Handler Callback}
      → Reach engine accept ip port srv
      → IsConsistent srv
  unfolding new_http_server get post set_keep_alive_timeout on_connect on_request on_upgrade start
  Reach-IsConsistent start_of = record { entry = λ i. tt; counted = λ i. count-nil i }
  Reach-IsConsistent (routed_get url h r) = Reach-IsConsistent r
  Reach-IsConsistent (routed_post url h r) = Reach-IsConsistent r
  Reach-IsConsistent (timed timeout r) = Reach-IsConsistent r
  Reach-IsConsistent (on_connect_set cb r) = Reach-IsConsistent r
  Reach-IsConsistent (on_request_set cb r) = Reach-IsConsistent r
  Reach-IsConsistent (on_upgrade_set cb r) = Reach-IsConsistent r
  Reach-IsConsistent (started r) = Reach-IsConsistent r
  Reach-IsConsistent (connected {srv} failed a r) =
      inter_on_connect-IsConsistent failed a srv (Reach-IsConsistent r)
  Reach-IsConsistent (stepped {srv} ev i r) =
      server_step-IsConsistent ev i srv (Reach-IsConsistent r)

  -- In every state that the server can come to, by routes, settings, connections and events of the
  -- sessions in any order: the vector holds a pointer once if it leads to a session, and else not;
  -- and a session that it leads to has not closed its handle or left the vector.
  pub Reach-in_use :
      {ip : List ℕ} {port : ℕ} {srv : HttpServer Pattern Handler Callback} (i : ℕ)
      → Reach engine accept ip port srv
      → (count i srv.sessions ≡ in_use (srv.objects i)) × IsUntouched (srv.objects i)
  Reach-in_use {ip} {port} {srv} i r =
      let c = Reach-IsConsistent r in
      (c.counted i, Entry-IsUntouched srv.next_session i (srv.objects i) (c.entry i))
