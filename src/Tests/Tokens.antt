-- ===== src/Tests/Tokens.antt =====
-- The tokens of src/util/jwt.cpp at concrete values, with a library of JSON values and of signed
-- tokens that hold two numbers.
use my_web_socket.Prelude.{
  ℕ, ◌≡◌, ◌↔◌, refl, ap, Bool, true, Option, none, some, List, [], ◌∷◌, codes, text_eq, text_eq_iff,
  lookup, assign, lookup-assign, ℤ, pos, ltb_int, add_pos, if◌then◌else◌, arith,
}
use my_web_socket.Jwt.{
  LeptValue, Members, integer, string, array, object, element, no_elements, member, no_members,
  Picojson, JwtCpp, returned, runtime_error, iat, transform, sign, verify,
}
use my_web_socket.Jwt.Transform.{
  Place, at_index, at_key, select, Accessors, select_value, transform-select, get_member,
}
use my_web_socket.Jwt.Claims.{exp, JwtLaws, registered, sign-claims}
use my_web_socket.Jwt.Verify.{IsAccepted, verify_iff}

mutual
  data Json : Type 0 where
    null_json : Json
    bool_json : Bool → Json
    double_json : ℕ → Json
    int_json : ℤ → Json
    text_json : List ℕ → Json
    array_json : Items → Json
    object_json : Fields → Json

  data Items : Type 0 where
    nil : Items
    cons : Json → Items → Items

  data Fields : Type 0 where
    end : Fields
    field : List ℕ → Json → Fields → Fields

to_items : List Json → Items
to_items [] = nil
to_items (x ∷ xs) = cons x (to_items xs)

of_items : Items → List Json
of_items nil = []
of_items (cons x xs) = x ∷ of_items xs

of_items-to_items : (xs : List Json) → of_items (to_items xs) ≡ xs
unfolding of_items to_items
of_items-to_items [] = refl
of_items-to_items (x ∷ xs) = ap (◌∷◌ x) (of_items-to_items xs)

to_fields : List (List ℕ × Json) → Fields
to_fields [] = end
to_fields ((k, x) ∷ xs) = field k x (to_fields xs)

of_fields : Fields → List (List ℕ × Json)
of_fields end = []
of_fields (field k x xs) = (k, x) ∷ of_fields xs

of_fields-to_fields : (xs : List (List ℕ × Json)) → of_fields (to_fields xs) ≡ xs
unfolding of_fields to_fields
of_fields-to_fields [] = refl
of_fields-to_fields ((k, x) ∷ xs) = ap (◌∷◌ (k, x)) (of_fields-to_fields xs)

abbrev picojson : Picojson ℕ
picojson = record {
  Value = Json;
  null_value = null_json;
  of_boolean = bool_json;
  of_number = λ d. some (double_json d);
  of_integer = int_json;
  of_string = text_json;
  of_array = λ xs. array_json (to_items xs);
  of_object = λ m. object_json (to_fields m);
}

as_array : Json → Option (List Json)
as_array (array_json xs) = some (of_items xs)
as_array _ = none

as_object : Json → Option (List (List ℕ × Json))
as_object (object_json m) = some (of_fields m)
as_object _ = none

accessors : Accessors picojson
unfolding as_array as_object
accessors = record {
  as_array = as_array;
  as_object = as_object;
  as_array-of_array = λ xs. ap some (of_items-to_items xs);
  as_object-of_object = λ m. ap some (of_fields-to_fields m);
}

-- {"roles": ["user", 7]}.
abbrev roles : LeptValue ℕ
roles = object (
    member (codes "roles")
      (array (element (string (codes "user")) (element (integer (pos 7)) no_elements))) no_members)

abbrev roles_json : Json
roles_json = object_json (
    field (codes "roles")
      (array_json (cons (text_json (codes "user")) (cons (int_json (pos 7)) nil))) end)

transform-roles : transform picojson roles ≡ some roles_json
unfolding transform to_items to_fields assign text_eq
transform-roles = refl

abbrev second_role : List Place
second_role = at_key (codes "roles") ∷ at_index 1 ∷ []

select-roles : select roles second_role ≡ some (integer (pos 7))
unfolding select text_eq
select-roles = refl

transform-select_example :
    (x : Json) × (transform picojson (integer (pos 7)) ≡ some x)
    × (select_value picojson accessors roles_json second_role ≡ some x)
transform-select_example =
    transform-select picojson accessors roles roles_json second_role (integer (pos 7))
      transform-roles select-roles

-- A token of two numbers: the time of the signing and one other claim.
sign_two : List (List ℕ × Json) → Option (List ℕ)
sign_two ((j, int_json (pos t)) ∷ (k, int_json (pos u)) ∷ []) =
    if text_eq j iat then some (t ∷ u ∷ k) else none
sign_two _ = none

decode_two : List ℕ → Option (List (List ℕ × Json))
decode_two (t ∷ u ∷ k) = some ((iat, int_json (pos t)) ∷ (k, int_json (pos u)) ∷ [])
decode_two _ = none

date_of : Json → Option ℤ
date_of (int_json t) = some t
date_of _ = none

decode_two-sign_two :
    (b : List (List ℕ × Json)) (token : List ℕ)
    → sign_two b ≡ some token
    → decode_two token ≡ some b
unfolding sign_two decode_two
decode_two-sign_two ((j, int_json (pos t)) ∷ (k, int_json (pos u)) ∷ []) token e =
    ground (arith, text_eq_iff j iat)
decode_two-sign_two _ token e = cc

abbrev two_numbers : JwtCpp ℕ Json
two_numbers = record {
  Builder = List (List ℕ × Json);
  Decoded = List (List ℕ × Json);
  create = [];
  set_type = λ t b. b;
  set_issued_at = λ t b. assign iat (int_json t) b;
  set_expires_at = λ t b. assign exp (int_json t) b;
  set_payload_claim = λ k v b. assign k v b;
  sign_hs256 = λ key b. sign_two b;
  decode = decode_two;
  verify_hs256 = λ key at d. true;
  get_payload = λ d. codes "{}";
  get_payload_claim = λ d k. lookup k d;
  as_date = date_of;
  parse_json = λ text. object no_members;
  ticks_per_second = 1;
}

laws : JwtLaws picojson two_numbers
unfolding date_of lookup
laws = record {
  claim = λ b k. lookup k b;
  date = int_json;
  whole = λ t. t;
  claim-create = λ k. refl;
  claim-set_type = λ t b k. refl;
  claim-set_issued_at = λ t b k. lookup-assign iat k (int_json t) b;
  claim-set_expires_at = λ t b k. lookup-assign exp k (int_json t) b;
  claim-set_payload_claim = λ j v b k. lookup-assign j k v b;
  as_date-date = λ t. refl;
  decode-sign = λ key b token e. (b, decode_two-sign_two b token e, λ k. refl);
}

abbrev id_member : Members ℕ
id_member = member (codes "id") (integer (pos 7)) no_members

-- {"id": 7}, signed at the time 5 without an end.
abbrev signed : List ℕ
signed = 5 ∷ 7 ∷ codes "id"

sign_id :
    sign picojson two_numbers (pos 5) (object id_member) (codes "secret") (pos 0) ≡ some signed
unfolding sign sign_two assign text_eq
sign_id = refl

sign-claims_example :
    (d : List (List ℕ × Json)) × (decode_two signed ≡ some d)
    × ((k : List ℕ)
        → lookup k d ≡ elim (get_member id_member k) [
          | none ↦ registered picojson two_numbers laws (pos 5) (pos 0) k
          | some u ↦ transform picojson u
        ])
sign-claims_example =
    sign-claims picojson two_numbers laws (pos 5) (pos 0) id_member (codes "secret") signed sign_id

verify_iff_example :
    (verify picojson two_numbers (pos 6) (pos 6) signed (codes "secret") (pos 1)
      ≡ returned (object no_members))
    ↔ IsAccepted picojson two_numbers
        (pos 6)
        (pos 6)
        signed
        (codes "secret")
        (pos 1)
        (object no_members)
verify_iff_example =
    verify_iff picojson two_numbers (pos 6) (pos 6) signed (codes "secret") (pos 1)
      (object no_members)

-- It is taken one hour after the signing, and not a second later.
verify_in_time :
    verify picojson two_numbers (pos 3605) (pos 3605) signed (codes "secret") (pos 1)
    ≡ returned (object no_members)
unfolding verify decode_two date_of lookup text_eq ltb_int add_pos
verify_in_time = refl

verify_late :
    verify picojson two_numbers (pos 3606) (pos 3606) signed (codes "secret") (pos 1)
    ≡ runtime_error (codes "Token is expired")
unfolding verify decode_two date_of lookup text_eq ltb_int add_pos
verify_late = refl
