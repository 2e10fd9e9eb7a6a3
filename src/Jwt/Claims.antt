-- ===== src/Jwt/Claims.antt =====
-- What the claims of a signed token are, and when `verify` takes it.
use my_web_socket.Prelude.{
  ℕ, zero, suc, ◌*◌, true, false, ◌≡◌, refl, ap, ◌∙◌, inl, inr, Option, none, some, Option-cases,
  List, codes, text_eq, ℤ, pos, negsuc, add_pos, ltb_int, arith, if◌then◌else◌,
}
use my_web_socket.Jwt.{
  object, Members, no_members, member, Picojson, JwtCpp, returned, runtime_error, iat, transform,
  set_claims, with_expiry, sign, ticks_of, out_of_range, check_age, check_iat, verify,
}
use my_web_socket.Jwt.Transform.{get_member}

abbrev pub exp : List ℕ
exp = codes "exp"

module _ {Double : Type 0} (pj : Picojson Double) (jwt : JwtCpp Double pj.Value) where
  -- jwt-cpp's builder keeps a value for each claim, of which the last one set counts; a date is kept
  -- in whole seconds. Decoding gives back what was signed.
  pub record JwtLaws : Type 0 where
    pub claim : jwt.Builder → List ℕ → Option pj.Value
    pub date : ℤ → pj.Value
    pub whole : ℤ → ℤ
    pub claim-create : (k : List ℕ) → claim jwt.create k ≡ none
    pub claim-set_type :
        (t : List ℕ) (b : jwt.Builder) (k : List ℕ) → claim (jwt.set_type t b) k ≡ claim b k
    pub claim-set_issued_at :
        (t : ℤ) (b : jwt.Builder) (k : List ℕ)
        → claim (jwt.set_issued_at t b) k ≡ (if text_eq iat k then some (date t) else claim b k)
    pub claim-set_expires_at :
        (t : ℤ) (b : jwt.Builder) (k : List ℕ)
        → claim (jwt.set_expires_at t b) k ≡ (if text_eq exp k then some (date t) else claim b k)
    pub claim-set_payload_claim :
        (j : List ℕ) (v : pj.Value) (b : jwt.Builder) (k : List ℕ)
        → claim (jwt.set_payload_claim j v b) k ≡ (if text_eq j k then some v else claim b k)
    pub as_date-date : (t : ℤ) → jwt.as_date (date t) ≡ some (whole t)
    pub decode-sign :
        (key : List ℕ) (b : jwt.Builder) (token : List ℕ)
        → jwt.sign_hs256 key b ≡ some token
        → (d : jwt.Decoded) × (jwt.decode token ≡ some d)
          × ((k : List ℕ) → jwt.get_payload_claim d k ≡ claim b k)

  module _ (laws : JwtLaws) where
    -- The claims that `sign` sets itself.
    pub registered : ℤ → ℤ → List ℕ → Option pj.Value
    registered now (pos (suc n)) k =
        if text_eq exp k
        then some (laws.date (add_pos now (suc n * jwt.ticks_per_second)))
        else if text_eq iat k
        then some (laws.date now)
        else none
    registered now _ k = if text_eq iat k then some (laws.date now) else none

    issued : ℤ → jwt.Builder
    issued now = jwt.set_issued_at now (jwt.set_type (codes "JWT") jwt.create)

    issued-claim :
        (now : ℤ) (k : List ℕ)
        → laws.claim (issued now) k ≡ (if text_eq iat k then some (laws.date now) else none)
    unfolding issued
    issued-claim now k =
        laws.claim-set_issued_at now (jwt.set_type (codes "JWT") jwt.create) k
        ∙ ap (λ r. if text_eq iat k then some (laws.date now) else r)
            (laws.claim-set_type (codes "JWT") jwt.create k ∙ laws.claim-create k)

    with_expiry-claim :
        (now seconds : ℤ) (k : List ℕ)
        → laws.claim (with_expiry pj jwt now seconds (issued now)) k ≡ registered now seconds k
    unfolding with_expiry registered
    with_expiry-claim now (pos (suc n)) k =
        let t = add_pos now (suc n * jwt.ticks_per_second) in
        laws.claim-set_expires_at t (issued now) k
        ∙ ap (λ r. if text_eq exp k then some (laws.date t) else r) (issued-claim now k)
    with_expiry-claim now (pos zero) k = issued-claim now k
    with_expiry-claim now (negsuc n) k = issued-claim now k

    set_claims-claim :
        (ms : Members Double) (b c : jwt.Builder) (k : List ℕ)
        → set_claims pj jwt ms b ≡ some c
        → laws.claim c k
          ≡ elim (get_member ms k) [ none ↦ laws.claim b k | some u ↦ transform pj u ]
    unfolding set_claims get_member
    set_claims-claim no_members b c k e = ground arith
    set_claims-claim (member j x ms) b c k e = elim (Option-cases (transform pj x)) [
      | inl n ↦ ground arith
      | inr (v, n) ↦
          let rest : set_claims pj jwt ms (jwt.set_payload_claim j v b) ≡ some c = ground arith in
          let ih = set_claims-claim ms (jwt.set_payload_claim j v b) c k rest in
          let l = laws.claim-set_payload_claim j v b k in
          elim (Option-cases (get_member ms k)) [ inl g ↦ ground arith | inr (u, g) ↦ ground arith ]
    ]

    -- The claims of a token that `sign` makes are the payload's members, transformed, and where the
    -- payload has no member of the name: `iat`, the time of the signing, and `exp`, if the number of
    -- seconds is positive, that many seconds later. The payload's own `iat` and `exp` count more.
    pub sign-claims :
        (now seconds : ℤ) (ms : Members Double) (key token : List ℕ)
        → sign pj jwt now (object ms) key seconds ≡ some token
        → (d : jwt.Decoded) × (jwt.decode token ≡ some d)
          × ((k : List ℕ)
              → jwt.get_payload_claim d k ≡ elim (get_member ms k) [
                | none ↦ registered now seconds k
                | some u ↦ transform pj u
              ])
    unfolding sign issued
    sign-claims now seconds ms key token e =
        elim (Option-cases (set_claims pj jwt ms (with_expiry pj jwt now seconds (issued now)))) [
          | inl n ↦ ground arith
          | inr (c, n) ↦
              let s : jwt.sign_hs256 key c ≡ some token = ground arith in
              let (d, t, g) = laws.decode-sign key c token s in
              (
                d,
                t,
                λ k.
                    (let own =
                        set_claims-claim ms (with_expiry pj jwt now seconds (issued now)) c k n in
                      let reg = with_expiry-claim now seconds k in
                      g k
                      ∙ own
                      ∙ ap (λ r. elim (get_member ms k) [ none ↦ r | some u ↦ transform pj u ])
                          reg),
              )
        ]

    registered-iat : (now seconds : ℤ) → registered now seconds iat ≡ some (laws.date now)
    unfolding registered text_eq
    registered-iat now (pos zero) = refl
    registered-iat now (pos (suc n)) = refl
    registered-iat now (negsuc n) = refl

    -- A token that was signed without an own `iat` and that jwt-cpp's verifier accepts, verified
    -- with a maximal age that stays in the clock's range: `verify` returns the token's payload if
    -- the time is at most the age after the signing, in whole seconds, and else reports that the token is expired.
    pub verify-sign :
        (now seconds checked_at later : ℤ) (hours : ℕ) (ms : Members Double) (key token : List ℕ)
        → sign pj jwt now (object ms) key seconds ≡ some token
        → get_member ms iat ≡ none
        → ((d : jwt.Decoded) → jwt.decode token ≡ some d → jwt.verify_hs256 key checked_at d ≡ true)
        → out_of_range pj jwt (laws.whole now) hours ≡ false
        → (d : jwt.Decoded) × (jwt.decode token ≡ some d)
          × (verify pj jwt checked_at later token key (pos hours) ≡ (
              if ltb_int (add_pos (laws.whole now) (ticks_of pj jwt hours)) later
              then runtime_error (codes "Token is expired")
              else returned (jwt.parse_json (jwt.get_payload d))))
    unfolding verify check_age
    verify-sign now seconds checked_at later hours ms key token e own accepted range =
        let (d, t, g) = sign-claims now seconds ms key token e in
        let r = registered-iat now seconds in
        let claims : jwt.get_payload_claim d iat ≡ some (laws.date now) = g iat ∙ rw own r in
        let a = laws.as_date-date now in
        let c = accepted d t in
        (d, t, rw (t, c, claims, a, range, verify, check_iat, check_age) refl)
