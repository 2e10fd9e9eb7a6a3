-- ===== src/HttpResp/Client.antt =====
-- How a client reads a response: RFC 9112, sections 2.2, 4, 5 and 6.3. Nothing here is code of the
-- server.
use my_web_socket.Prelude.{
  ℕ, zero, suc, ◌+◌, ◌-◌, ◌*◌, ◌≤◌, ◌≡◌, ◌≢◌, refl, true, ◌&&◌, leb, Option, none, some, List, [],
  ◌∷◌, ◌++◌, codes, length, take, drop, lookup, text_eq, split_first, split_first-append, ◌==◌,
  if◌then◌else◌, All, arith,
}
use my_web_socket.HttpReq.{ParamMap}

-- A response: the number of its status, its fields, and its content.
pub record Answer : Type 0 where
  pub status : ℕ
  pub fields : ParamMap
  pub content : List ℕ

pub after_lf : List ℕ → Option (List ℕ)
after_lf [] = none
after_lf (c ∷ cs) = if c == 10 then some cs else none

-- The text before the first CR, which LF must follow, and the text after the two.
pub read_line : List ℕ → Option (List ℕ × List ℕ)
read_line [] = none
read_line (c ∷ cs) =
    let rest = read_line cs in
    if c == 13
    then elim (after_lf cs) [ none ↦ none | some r ↦ some ([], r) ]
    else elim rest [ none ↦ none | some (line, r) ↦ some (c ∷ line, r) ]

unfoldable pub read_digits : ℕ → List ℕ → Option ℕ
read_digits n [] = some n
read_digits n (d ∷ ds) = if leb 48 d && leb d 57 then read_digits (n * 10 + (d - 48)) ds else none

-- A decimal number of at least one digit.
unfoldable pub read_number : List ℕ → Option ℕ
unfolding read_digits
read_number [] = none
read_number (d ∷ ds) = read_digits 0 (d ∷ ds)

-- The status line: the version, a space, three digits, a space and a reason.
unfoldable pub read_status : List ℕ → Option ℕ
unfolding read_number
read_status line =
    if text_eq (take 9 line) (codes "HTTP/1.1 ") && text_eq (take 1 (drop 12 line)) (codes " ")
    then read_number (take 3 (drop 9 line))
    else none

-- A name, a colon, a space and a value.
pub read_field : List ℕ → Option (List ℕ × List ℕ)
read_field line = elim (split_first b':' line) [
  | none ↦ none
  | some (name, value) ↦ elim value [
    | [] ↦ none
    | c ∷ cs ↦ if c == b' ' then some (name, cs) else none
  ]
]

-- The fields up to the empty line, and the text after it. `fuel` is more than the number of lines.
pub read_fields : ℕ → List ℕ → Option (ParamMap × List ℕ)
unfolding read_line read_field
read_fields zero text = none
read_fields (suc fuel) text = elim (read_line text) [
  | none ↦ none
  | some (line, rest) ↦ elim line [
    | [] ↦ some ([], rest)
    | c ∷ cs ↦ elim (read_field (c ∷ cs)) [
      | none ↦ none
      | some f ↦ elim (read_fields fuel rest) [
        | none ↦ none
        | some (fs, after) ↦ some (f ∷ fs, after)
      ]
    ]
  ]
]

-- A whole response: the content is as long as the field `Content-Length` says.
pub read_response : List ℕ → Option Answer
unfolding read_line read_status read_fields read_number
read_response text = elim (read_line text) [
  | none ↦ none
  | some (line, rest) ↦ elim (read_status line) [
    | none ↦ none
    | some status ↦ elim (read_fields (length text) rest) [
      | none ↦ none
      | some (fields, after) ↦ elim (lookup (codes "Content-Length") fields) [
        | none ↦ none
        | some digits ↦ elim (read_number digits) [
          | none ↦ none
          | some n ↦
              if n == length after
              then some (record { status = status; fields = fields; content = after })
              else none
        ]
      ]
    ]
  ]
]

-- A field that stands on its line: no colon in the name, and no CR in either.
pub record IsField (f : List ℕ × List ℕ) : Type 0 where
  pub no_colon : All (λ c. c ≢ b':') f.0
  pub name_on_line : All (λ c. c ≢ 13) f.0
  pub value_on_line : All (λ c. c ≢ 13) f.1

pub read_line-append :
    (line rest : List ℕ)
    → All (λ c. c ≢ 13) line
    → read_line (line ++ (13 ∷ (10 ∷ rest))) ≡ some (line, rest)
unfolding read_line after_lf
read_line-append [] rest h = refl
read_line-append (c ∷ cs) rest h = ground (arith, h.0, read_line-append cs rest h.1)

pub read_field-append :
    (name value : List ℕ)
    → All (λ c. c ≢ b':') name
    → read_field (name ++ (b':' ∷ (b' ' ∷ value))) ≡ some (name, value)
unfolding read_field
read_field-append name value h = rw (split_first-append b':' name (b' ' ∷ value) h, read_field) refl

pub read_digits-append :
    (ds : List ℕ) (d n m : ℕ)
    → 48 ≤ d
    → d ≤ 57
    → read_digits n ds ≡ some m
    → read_digits n (ds ++ (d ∷ [])) ≡ some (m * 10 + (d - 48))
unfolding read_digits
read_digits-append [] d n m l u h = ground (arith, l, u, h)
read_digits-append (e ∷ ds) d n m l u h =
    ground (arith, h, read_digits-append ds d (n * 10 + (e - 48)) m l u)

pub read_fields-line :
    (fuel : ℕ) (text line rest : List ℕ) (f : List ℕ × List ℕ)
    → read_line text ≡ some (line, rest)
    → read_field line ≡ some f
    → read_fields (suc fuel) text
      ≡ elim (read_fields fuel rest) [ none ↦ none | some (fs, after) ↦ some (f ∷ fs, after) ]
unfolding read_fields read_field split_first
read_fields-line fuel text [] rest f l e = absurd (ground arith)
read_fields-line fuel text (c ∷ cs) rest f l e = rw (l, e, read_fields) refl

pub read_fields-end :
    (fuel : ℕ) (content : List ℕ)
    → read_fields (suc fuel) (13 ∷ (10 ∷ content)) ≡ some ([], content)
unfolding read_fields read_line after_lf
read_fields-end fuel content = refl

pub read_number-append :
    (ds : List ℕ) (d : ℕ) → read_number (ds ++ (d ∷ [])) ≡ read_digits 0 (ds ++ (d ∷ []))
unfolding read_number
read_number-append [] d = refl
read_number-append (e ∷ ds) d = refl

-- A response in its parts.
pub read_response-parts :
    (text line rest digits content : List ℕ) (status n : ℕ) (fields : ParamMap)
    → read_line text ≡ some (line, rest)
    → read_status line ≡ some status
    → read_fields (length text) rest ≡ some (fields, content)
    → lookup (codes "Content-Length") fields ≡ some digits
    → read_number digits ≡ some n
    → n ≡ length content
    → read_response text ≡ some (record { status = status; fields = fields; content = content })
unfolding read_response
read_response-parts text line rest digits content status n fields l s f c d e =
    let whole : (n == length content) ≡ true = ground (arith, e) in
    rw (l, s, f, c, d, whole, read_response) refl
