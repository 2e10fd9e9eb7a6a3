-- ===== src/Jwt/Verify.antt =====
-- Which tokens `verify` takes.
use my_web_socket.Prelude.{
  ℕ, true, ◌≡◌, refl, sym, ◌∙◌, ◌↔◌, inl, inr, some, Option-cases, List, ℤ, pos, negsuc, add_pos,
  ltb_int, ltb_int_iff, lt→ltb, ltb→lt, ◌*◌, ◌-◌, ◌^◌, ◌≤◌, ◌≤ℤ◌, arith,
}
use my_web_socket.Jwt.{LeptValue, Picojson, JwtCpp, returned, iat, check_age, check_iat, verify}

module _ {Double : Type 0} (pj : Picojson Double) (jwt : JwtCpp Double pj.Value) where
  -- `now` is at most the given hours, of 3600 seconds each, after the token's `iat`, and both the
  -- age and the time of its end are signed numbers of 64 bits.
  abbrev pub IsFresh : ℤ → jwt.Decoded → ℤ → Type 0
  IsFresh now d (negsuc n) = Unit
  IsFresh now d (pos hours) =
      (c : pj.Value) × (t : ℤ) × (jwt.get_payload_claim d iat ≡ some c)
      × (jwt.as_date c ≡ some t)
      × (hours * (3600 * jwt.ticks_per_second) ≤ 2 ^ 63 - 1)
      × (add_pos t (hours * (3600 * jwt.ticks_per_second)) ≤ℤ pos (2 ^ 63 - 1))
      × (now ≤ℤ add_pos t (hours * (3600 * jwt.ticks_per_second)))

  pub IsAccepted : ℤ → ℤ → List ℕ → List ℕ → ℤ → LeptValue Double → Type 0
  IsAccepted checked_at now token key max_age_hours v =
      (d : jwt.Decoded) × (jwt.decode token ≡ some d)
      × (jwt.verify_hs256 key checked_at d ≡ true)
      × IsFresh now d max_age_hours
      × (v ≡ jwt.parse_json (jwt.get_payload d))

  ltb_int-max : (x : ℤ) → (ltb_int x (pos (2 ^ 63)) ≡ true) ↔ (x ≤ℤ pos (2 ^ 63 - 1))
  unfolding ltb_int
  ltb_int-max (pos a) = ground (arith, lt→ltb a (2 ^ 63), ltb→lt a (2 ^ 63))
  ltb_int-max (negsuc a) = ground arith

  check_age_iff :
      (now t : ℤ) (hours : ℕ) (d : jwt.Decoded) (v : LeptValue Double)
      → let age = hours * (3600 * jwt.ticks_per_second) in
        (check_age pj jwt now t hours d ≡ returned v) ↔ (
          (age ≤ 2 ^ 63 - 1)
          × (add_pos t age ≤ℤ pos (2 ^ 63 - 1))
          × (now ≤ℤ add_pos t age)
          × (v ≡ jwt.parse_json (jwt.get_payload d)))
  unfolding check_age
  check_age_iff now t hours d v =
      let age = hours * (3600 * jwt.ticks_per_second) in
      ground (arith, ltb_int_iff (add_pos t age) now, ltb_int-max (add_pos t age))

  check_iat_iff :
      (now : ℤ) (d : jwt.Decoded) (age : ℤ) (v : LeptValue Double)
      → (check_iat pj jwt now d age ≡ returned v)
        ↔ (IsFresh now d age × (v ≡ jwt.parse_json (jwt.get_payload d)))
  unfolding check_iat
  check_iat_iff now d (negsuc n) v = ground arith
  check_iat_iff now d (pos hours) v = elim (Option-cases (jwt.get_payload_claim d iat)) [
    | inl n ↦ ground arith
    | inr (c, n) ↦ elim (Option-cases (jwt.as_date c)) [
      | inl m ↦ ground arith
      | inr (t, m) ↦
          let r = check_age_iff now t hours d v in
          let e0 : check_iat pj jwt now d (pos hours) ≡ check_age pj jwt now t hours d =
            rw (n, m, check_iat) refl in
          (
            λ e. (let (o, f, g, w) = r.0 (sym e0 ∙ e) in ((c, t, n, m, o, f, g), w)),
            λ h.
                (let ((c', t', n', m', o, f, g), w) = h in
                  let same : t' ≡ t = ground arith in e0 ∙ r.1 (rw (sym same) (o, f, g, w))),
          )
    ]
  ]

  -- `verify` returns a payload exactly when the token decodes, jwt-cpp's verifier accepts it, and,
  -- unless the maximal age is negative, its `iat` claim is a date that lies at most that age
  -- before the clock's time, in hours of 3600 seconds, where neither the age nor its end leaves 64
  -- bits; the payload is the token's, parsed.
  pub verify_iff :
      (checked_at now : ℤ) (token key : List ℕ) (max_age_hours : ℤ) (v : LeptValue Double)
      → (verify pj jwt checked_at now token key max_age_hours ≡ returned v)
        ↔ IsAccepted checked_at now token key max_age_hours v
  unfolding verify IsAccepted
  verify_iff checked_at now token key max_age_hours v = elim (Option-cases (jwt.decode token)) [
    | inl n ↦ ground arith
    | inr (d, n) ↦ let r = check_iat_iff now d max_age_hours v in ground arith
  ]
