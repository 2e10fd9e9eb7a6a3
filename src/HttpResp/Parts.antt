-- ===== src/HttpResp/Parts.antt =====
-- The status line of src/core/httpResp.cpp and the digits of its `Content-Length`, as a client reads
-- them.
use my_web_socket.Prelude.{
  ap, ◌∙◌, ℕ, zero, suc, ◌+◌, ◌/◌, ◌%◌, ◌^◌, ◌<◌, ◌≡◌, refl, some, List, [], ◌∷◌, ◌++◌, codes,
  arith, ◌≢◌, All, text_eq, ltb, Bool-cases, inl, inr,
}
use my_web_socket.HttpResp.Client.{
  read_number, read_number-append, read_digits, read_digits-append, read_status,
}
use my_web_socket.HttpResp.{
  HttpStatus, switching_protocols, ok, created, accepted, no_content, moved_permanently,
  status_found, not_modified, bad_request, unauthorized, forbidden, not_found,
  internal_server_error, not_implemented, bad_gateway, service_unavailable, gateway_timeout,
  http_status_str, decimal, to_string,
}

pub All-append :
    {A : Type 0} (P : A → Type 0) (xs ys : List A) → All P xs → All P ys → All P (xs ++ ys)
All-append P [] ys h k = k
All-append P (x ∷ xs) ys h k = (h.0, All-append P xs ys h.1 k)

-- The number of a status.
unfoldable pub status_code : HttpStatus → ℕ
status_code switching_protocols = 101
status_code ok = 200
status_code created = 201
status_code accepted = 202
status_code no_content = 204
status_code moved_permanently = 301
status_code status_found = 302
status_code not_modified = 304
status_code bad_request = 400
status_code unauthorized = 401
status_code forbidden = 403
status_code not_found = 404
status_code internal_server_error = 500
status_code not_implemented = 501
status_code bad_gateway = 502
status_code service_unavailable = 503
status_code gateway_timeout = 504

unfoldable pub status_line : HttpStatus → List ℕ
unfolding http_status_str
status_line st = codes "HTTP/1.1 " ++ http_status_str st

pub read_status-status_line :
    (st : HttpStatus) → read_status (status_line st) ≡ some (status_code st)
unfolding read_status read_number read_digits status_line http_status_str status_code text_eq
read_status-status_line ok = refl
read_status-status_line _ = refl

pub status_line-on_line : (st : HttpStatus) → All (λ c. c ≢ 13) (status_line st)
unfolding status_line http_status_str
status_line-on_line ok = omega arith
status_line-on_line _ = omega arith

pub decimal-digits : (fuel n : ℕ) → All (λ c. c ≢ 13) (decimal fuel n)
unfolding decimal
decimal-digits zero n = tt
decimal-digits (suc fuel) n = elim (Bool-cases (ltb n 10)) [
  | inl e ↦ rw (e, decimal) (omega arith, tt)
  | inr e ↦
      rw (e, decimal)
        (All-append _ (decimal fuel (n / 10)) _ (decimal-digits fuel (n / 10)) (omega arith, tt))
]

read_digits-decimal : (fuel n : ℕ) → n < 10 ^ fuel → read_digits 0 (decimal fuel n) ≡ some n
unfolding read_digits decimal
read_digits-decimal zero n h = ground (arith, h)
read_digits-decimal (suc fuel) n h = elim (Bool-cases (ltb n 10)) [
  | inl e ↦ rw (e, decimal) (ground (arith, e))
  | inr e ↦
      rw (e, decimal)
        (read_digits-append (decimal fuel (n / 10)) (48 + n % 10) 0 (n / 10) (omega arith)
            (omega arith) (read_digits-decimal fuel (n / 10) (omega (arith, h)))
          ∙ ap some (omega arith))
]

read_number-digits :
    (fuel n : ℕ) → read_number (decimal (suc fuel) n) ≡ read_digits 0 (decimal (suc fuel) n)
unfolding decimal read_number
read_number-digits fuel n = elim (Bool-cases (ltb n 10)) [
  | inl e ↦ rw (e, decimal) refl
  | inr e ↦ rw (e, decimal) (read_number-append (decimal fuel (n / 10)) (48 + n % 10))
]

pub read_number-to_string : (n : ℕ) → n < 10 ^ 20 → read_number (to_string n) ≡ some n
unfolding to_string
read_number-to_string n h = read_number-digits 19 n ∙ read_digits-decimal 20 n h
