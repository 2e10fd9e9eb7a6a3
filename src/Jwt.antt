-- ===== src/Jwt.antt =====
-- The tokens of the login, src/util/jwt.h and src/util/jwt.cpp. jwt-cpp, picojson, leptjson's parser
-- and the clock are parameters; `none` is an exception of theirs. A time is a number of the clock's
-- ticks.
pub mod Transform
pub mod Claims
pub mod Verify
use my_web_socket.Prelude.{
  ℕ, zero, suc, ◌*◌, not, ◌||◌, leb, ◌^◌, Bool, Option, none, some, List, [], ◌∷◌, ◌++◌, codes,
  assign, ℤ, pos, negsuc, add_pos, ltb_int, if◌then◌else◌,
}

-- The values of `lept_type`'s cases. `object` holds the members in the order of the map.
mutual
  pub data LeptValue (Double : Type 0) : Type 0 where
    null : LeptValue Double
    boolean : Bool → LeptValue Double
    number : Double → LeptValue Double
    integer : ℤ → LeptValue Double
    string : List ℕ → LeptValue Double
    array : Elements Double → LeptValue Double
    object : Members Double → LeptValue Double

  pub data Elements (Double : Type 0) : Type 0 where
    no_elements : Elements Double
    element : LeptValue Double → Elements Double → Elements Double

  pub data Members (Double : Type 0) : Type 0 where
    no_members : Members Double
    member : List ℕ → LeptValue Double → Members Double → Members Double

-- The constructors of `picojson::value`; the one for a `double` throws on infinities.
pub record Picojson (Double : Type 0) : Type 1 where
  pub Value : Type 0
  pub null_value : Value
  pub of_boolean : Bool → Value
  pub of_number : Double → Option Value
  pub of_integer : ℤ → Value
  pub of_string : List ℕ → Value
  pub of_array : List Value → Value
  pub of_object : List (List ℕ × Value) → Value

-- What `sign` and `verify` call. `verify_hs256` is jwt-cpp's verifier for the key, at a time.
pub record JwtCpp (Double Value : Type 0) : Type 1 where
  pub Builder : Type 0
  pub Decoded : Type 0
  pub create : Builder
  pub set_type : List ℕ → Builder → Builder
  pub set_issued_at : ℤ → Builder → Builder
  pub set_expires_at : ℤ → Builder → Builder
  pub set_payload_claim : List ℕ → Value → Builder → Builder
  pub sign_hs256 : List ℕ → Builder → Option (List ℕ)
  pub decode : List ℕ → Option Decoded
  pub verify_hs256 : List ℕ → ℤ → Decoded → Bool
  pub get_payload : Decoded → List ℕ
  pub get_payload_claim : Decoded → List ℕ → Option Value
  pub as_date : Value → Option ℤ
  pub parse_json : List ℕ → LeptValue Double
  pub ticks_per_second : ℕ

abbrev pub iat : List ℕ
iat = codes "iat"

-- How `verify` ends: `overflow` is an addition that leaves the clock's 64 bits, undefined in C++.
pub data Verified (Double : Type 0) : Type 0 where
  returned : LeptValue Double → Verified Double
  jwt_error overflow : Verified Double
  runtime_error : List ℕ → Verified Double

module _ {Double : Type 0} (pj : Picojson Double) where
  unfoldable mutual
    pub transform : LeptValue Double → Option pj.Value
    transform null = some pj.null_value
    transform (boolean b) = some (pj.of_boolean b)
    transform (number d) = pj.of_number d
    transform (integer i) = some (pj.of_integer i)
    transform (string s) = some (pj.of_string s)
    transform (array xs) = elim (transform_elements xs) [
      | none ↦ none
      | some arr ↦ some (pj.of_array arr)
    ]
    transform (object ms) = elim (transform_members ms []) [
      | none ↦ none
      | some obj ↦ some (pj.of_object obj)
    ]

    pub transform_elements : Elements Double → Option (List pj.Value)
    transform_elements no_elements = some []
    transform_elements (element x xs) = elim (transform x) [
      | none ↦ none
      | some v ↦ elim (transform_elements xs) [ none ↦ none | some arr ↦ some (v ∷ arr) ]
    ]

    pub transform_members :
        Members Double → List (List ℕ × pj.Value) → Option (List (List ℕ × pj.Value))
    transform_members no_members obj = some obj
    transform_members (member key x ms) obj = elim (transform x) [
      | none ↦ none
      | some v ↦ transform_members ms (assign key v obj)
    ]

  module _ (jwt : JwtCpp Double pj.Value) where
    unfoldable pub set_claims : Members Double → jwt.Builder → Option jwt.Builder
    unfolding transform
    set_claims no_members builder = some builder
    set_claims (member key x ms) builder = elim (transform x) [
      | none ↦ none
      | some v ↦ set_claims ms (jwt.set_payload_claim key v builder)
    ]

    unfoldable pub with_expiry : ℤ → ℤ → jwt.Builder → jwt.Builder
    with_expiry now (pos zero) builder = builder
    with_expiry now (pos (suc n)) builder =
        jwt.set_expires_at (add_pos now (suc n * jwt.ticks_per_second)) builder
    with_expiry now (negsuc n) builder = builder

    -- `get_object` asserts that the payload is an object.
    unfoldable pub sign : ℤ → LeptValue Double → List ℕ → ℤ → Option (List ℕ)
    unfolding set_claims with_expiry
    sign now (object ms) key expires_seconds =
        let builder = jwt.set_issued_at now (jwt.set_type (codes "JWT") jwt.create) in
        elim (set_claims ms (with_expiry now expires_seconds builder)) [
          | none ↦ none
          | some claimed ↦ jwt.sign_hs256 key claimed
        ]
    sign now _ key expires_seconds = none

    abbrev pub ticks_of : ℕ → ℕ
    ticks_of hours = hours * (3600 * jwt.ticks_per_second)

    abbrev pub out_of_range : ℤ → ℕ → Bool
    out_of_range t hours =
        leb (2 ^ 63) (ticks_of hours) || not (ltb_int (add_pos t (ticks_of hours)) (pos (2 ^ 63)))

    unfoldable pub check_age : ℤ → ℤ → ℕ → jwt.Decoded → Verified Double
    check_age now t hours d =
        if out_of_range t hours
        then overflow
        else if ltb_int (add_pos t (ticks_of hours)) now
        then runtime_error (codes "Token is expired")
        else returned (jwt.parse_json (jwt.get_payload d))

    unfoldable pub check_iat : ℤ → jwt.Decoded → ℤ → Verified Double
    unfolding check_age
    check_iat now d (negsuc n) = returned (jwt.parse_json (jwt.get_payload d))
    check_iat now d (pos hours) = elim (jwt.get_payload_claim d iat) [
      | none ↦ runtime_error (codes "Token is missing 'iat' claim")
      | some c ↦ elim (jwt.as_date c) [ none ↦ jwt_error | some t ↦ check_age now t hours d ]
    ]

    -- The clock is read twice: by jwt-cpp's verifier, and by `verify`.
    unfoldable pub verify : ℤ → ℤ → List ℕ → List ℕ → ℤ → Verified Double
    unfolding check_iat
    verify checked_at now token key max_age_hours = elim (jwt.decode token) [
      | none ↦ jwt_error
      | some d ↦
          if jwt.verify_hs256 key checked_at d then check_iat now d max_age_hours else jwt_error
    ]
