-- ===== src/HttpSession/Requests.antt =====
-- The request that the parser callbacks of src/core/httpserver.cpp put together.
use my_web_socket.Prelude.{
  concat, ℕ, ◌≡◌, refl, ap, ◌∙◌, sym, Bool, Option, none, some, List, [], ◌∷◌, ◌++◌, map, text_eq,
  text_eq_iff, lookup, lookup-assign, if◌then◌else◌, or_else, Option-cases, inl, inr, arith,
  append_assoc, append-nil,
}
use my_web_socket.HttpReq.{ParamMap}
use my_web_socket.Router.{RegexEngine, Route}
use my_web_socket.HttpSession.{
  on_req_url, on_req_message_begin, on_req_header_complete, on_req_header_field,
  on_req_header_value, ParserEvent, message_begin, url_event, header_field, header_value,
  headers_complete, body_event, message_complete, HttpSession, to_lower, insert, on_event, execute,
  handle_request,
}

-- A request as the client writes it, its body in the pieces that the parser reports.
pub record RequestText : Type 0 where
  pub url : List ℕ
  pub head : List (List ℕ × List ℕ)
  pub method : ℕ
  pub major : ℕ
  pub minor : ℕ
  pub chunks : List (List ℕ)
  pub upgrade : Bool

pub header_events : List (List ℕ × List ℕ) → List ParserEvent
header_events [] = []
header_events ((n, v) ∷ hs) = header_field n ∷ header_value v ∷ header_events hs

pub body_events : List (List ℕ) → List ParserEvent
body_events [] = []
body_events (c ∷ cs) = body_event c ∷ body_events cs

pub request_events : RequestText → List ParserEvent
request_events r =
    message_begin
    ∷ url_event r.url
    ∷ (header_events r.head
        ++ (headers_complete r.method r.major r.minor
            ∷ (body_events r.chunks ++ (message_complete r.upgrade ∷ []))))

-- The value of the first header with a name, whose letters' case does not matter.
unfoldable pub first_value : List ℕ → List (List ℕ × List ℕ) → Option (List ℕ)
first_value name [] = none
first_value name ((n, v) ∷ hs) =
    if text_eq (map to_lower n) name then some v else first_value name hs

insert_all : List (List ℕ × List ℕ) → ParamMap → ParamMap
insert_all [] m = m
insert_all ((n, v) ∷ hs) m = insert_all hs (insert (map to_lower n) v m)

last_key : List (List ℕ × List ℕ) → List ℕ → List ℕ
last_key [] k = k
last_key ((n, v) ∷ hs) k = last_key hs (map to_lower n)

lookup-insert :
    (j k v : List ℕ) (m : ParamMap)
    → lookup j (insert k v m) ≡ or_else (lookup j m) (if text_eq k j then some v else none)
unfolding insert
lookup-insert j k v m = elim (Option-cases (lookup k m)) [
  | inl e ↦ ground (arith, e, lookup-assign k j v m, text_eq_iff k j, Option-cases (lookup j m))
  | inr (w, e) ↦ ground (arith, e, text_eq_iff k j, Option-cases (lookup j m))
]

insert-present : (k v w : List ℕ) (m : ParamMap) → lookup k m ≡ some v → insert k w m ≡ m
unfolding insert
insert-present k v w m e = rw (e, insert) refl

insert-insert : (k v w : List ℕ) (m : ParamMap) → insert k w (insert k v m) ≡ insert k v m
insert-insert k v w m = elim (Option-cases (lookup k (insert k v m))) [
  | inl e ↦ ground (arith, e, lookup-insert k k v m, text_eq_iff k k, Option-cases (lookup k m))
  | inr (_, e) ↦ insert-present k _ w (insert k v m) e
]

lookup-insert_all :
    (name : List ℕ) (hs : List (List ℕ × List ℕ)) (m : ParamMap)
    → lookup name (insert_all hs m) ≡ or_else (lookup name m) (first_value name hs)
unfolding insert_all first_value
lookup-insert_all name [] m = ground (arith, Option-cases (lookup name m))
lookup-insert_all name ((n, v) ∷ hs) m = ground (
  arith,
  lookup-insert_all name hs (insert (map to_lower n) v m),
  lookup-insert name (map to_lower n) v m,
  Option-cases (lookup name m),
)

module _ {Pattern : Type 0} {Handler : Type 0} (accept : List ℕ → List ℕ)
    (engine : RegexEngine Pattern) (routes : List (ℕ × List (Route Pattern Handler))) where
  execute-append :
      (xs ys : List ParserEvent) (s : HttpSession Handler)
      → execute accept engine routes (xs ++ ys) s
        ≡ execute accept engine routes ys (execute accept engine routes xs s)
  unfolding execute
  execute-append [] ys s = refl
  execute-append (x ∷ xs) ys s = execute-append xs ys (on_event accept engine routes x s)

  execute-header_events :
      (hs : List (List ℕ × List ℕ)) (s : HttpSession Handler)
      → execute accept engine routes (header_events hs) s ≡ record s {
        tmp_key = last_key hs s.tmp_key;
        req = record s.req { headers = insert_all hs s.req.headers };
      }
  unfolding execute on_event header_events insert_all last_key
  execute-header_events [] s = refl
  execute-header_events ((n, v) ∷ hs) s = execute-header_events hs _

  execute-body_events :
      (cs : List (List ℕ)) (s : HttpSession Handler)
      → execute accept engine routes (body_events cs) s
        ≡ record s { req = record s.req { body = s.req.body ++ concat cs } }
  unfolding execute on_event body_events
  execute-body_events [] s =
      ap (λ b. record s { req = record s.req { body = b } }) (sym (append-nil s.req.body))
  execute-body_events (c ∷ cs) s =
      execute-body_events cs _
      ∙ ap (λ b. record s { req = record s.req { body = b } })
          (append_assoc s.req.body c (concat cs))

  -- The events of a request, in whatever state the session was: the callbacks end in
  -- `handle_request` on a request with the URL, the method and the joined body. Each header has the
  -- value of its first line, whatever the case of the name was. The log is as it was, and so are
  -- the route parameters of the request before.
  pub execute-request :
      (r : RequestText) (name : List ℕ) (s : HttpSession Handler)
      → (q : HttpSession Handler) × (execute accept engine routes (request_events r) s
          ≡ handle_request accept engine routes r.upgrade q)
        × (q.req.url ≡ r.url)
        × (lookup name q.req.headers ≡ first_value name r.head)
        × (q.req.body ≡ concat r.chunks)
        × (q.req.method ≡ r.method)
        × (q.req.params ≡ s.req.params)
        × (q.log ≡ s.log)
  unfolding execute on_event request_events on_req_url on_req_message_begin on_req_header_complete
      lookup
  execute-request r name s =
      let named = on_req_url r.url (on_req_message_begin s) in
      let headed : HttpSession Handler = record named {
        tmp_key = last_key r.head named.tmp_key;
        req = record named.req { headers = insert_all r.head [] };
      } in
      let complete = on_req_header_complete r.method r.major r.minor headed in
      let q : HttpSession Handler = record complete {
        req = record complete.req { body = [] ++ concat r.chunks };
      } in
      (
        q,
        execute-append (header_events r.head) _ named
            ∙ ap
                (execute accept engine routes (
                  headers_complete r.method r.major r.minor
                  ∷ (body_events r.chunks ++ (message_complete r.upgrade ∷ []))))
                (execute-header_events r.head named)
            ∙ execute-append (body_events r.chunks) _ complete
            ∙ ap (execute accept engine routes (message_complete r.upgrade ∷ []))
                (execute-body_events r.chunks complete),
        refl,
        lookup-insert_all name r.head [],
        refl,
        refl,
        refl,
        refl,
      )

  -- Parts that the parser reports in two pieces, as it does when a read ends within them: of a URL
  -- and of a header's name the last piece is kept, of a header's value the first.
  pub execute-pieces :
      (a b : List ℕ) (es : List ParserEvent) (s : HttpSession Handler)
      → (execute accept engine routes (url_event a ∷ url_event b ∷ es) s
          ≡ execute accept engine routes (url_event b ∷ es) s)
        × (execute accept engine routes (header_field a ∷ header_field b ∷ es) s
            ≡ execute accept engine routes (header_field b ∷ es) s)
        × (execute accept engine routes (header_value a ∷ header_value b ∷ es) s
            ≡ execute accept engine routes (header_value a ∷ es) s)
  unfolding execute on_event on_req_url on_req_header_field on_req_header_value
  execute-pieces a b es s = (
    refl,
    refl,
    ap (λ h. execute accept engine routes es (record s { req = record s.req { headers = h } }))
        (insert-insert s.tmp_key a b s.req.headers),
  )
