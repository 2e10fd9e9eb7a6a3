-- ===== src/Router/Dispatch.antt =====
-- What `httpRouter::dispatch` of src/core/httpRouter.cpp chooses and which parameters it assigns.
use my_web_socket.Prelude.{
  or_else, ap, assign, inl, inr, ℕ, suc, ◌-◌, min, ◌≡◌, refl, Option, none, some, List, [], ◌∷◌,
  ◌++◌, length, ◌==◌, if◌then◌else◌, All, arith, Option-cases, ==_iff,
}
use my_web_socket.HttpReq.{HttpReq, ParamMap}
use my_web_socket.HttpReq.Query.{assign_all}
use my_web_socket.Router.{
  RegexEngine, Route, assign_params, method_routes, push_route, path_of, parse_path_to_regex,
  add_route, dispatch_among, dispatch,
}

-- All the names but the last, each with its value.
unfoldable pub zip_init : List (List ℕ) → List (List ℕ) → ParamMap
zip_init (k ∷ (j ∷ ks)) (v ∷ vs) = (k, v) ∷ zip_init (j ∷ ks) vs
zip_init _ _ = []

assign_params-zip_init :
    (ks vs : List (List ℕ)) (m : ParamMap)
    → length vs ≡ length ks
    → assign_params (length ks - 1) ks vs m ≡ assign_all (zip_init ks vs) m
unfolding assign_params zip_init assign_all
assign_params-zip_init [] vs m h = refl
assign_params-zip_init (k ∷ []) vs m h = refl
assign_params-zip_init (k ∷ (j ∷ ks)) [] m h = absurd (omega (arith, h))
assign_params-zip_init (k ∷ (j ∷ ks)) (v ∷ vs) m h =
    ground (arith, assign_params-zip_init (j ∷ ks) vs (assign k v m))

module _ {Pattern : Type 0} {Handler : Type 0} (engine : RegexEngine Pattern) where
  among-first :
      (pre post : List (Route Pattern Handler)) (r : Route Pattern Handler) (path : List ℕ)
      (req : HttpReq)
      → All (λ s. engine.regex_match s.pattern path ≡ none) pre
      → dispatch_among engine (pre ++ (r ∷ post)) path req
        ≡ dispatch_among engine (r ∷ post) path req
  unfolding dispatch_among
  among-first [] post r path req h = refl
  among-first (s ∷ pre) post r path req h =
      rw (h.0, dispatch_among) (among-first pre post r path req h.1)

  -- A template with as many names as groups, where the first route of the method that matches the
  -- path is that of the template: `dispatch` gives its handler, and assigns the groups to all the
  -- names but the last.
  pub dispatch-params :
      (routes : List (ℕ × List (Route Pattern Handler))) (req : HttpReq)
      (pre post : List (Route Pattern Handler)) (r : Route Pattern Handler) (whole : List ℕ)
      (groups : List (List ℕ))
      → method_routes req.method routes ≡ some (pre ++ (r ∷ post))
      → All (λ s. engine.regex_match s.pattern (path_of req.url) ≡ none) pre
      → engine.regex_match r.pattern (path_of req.url) ≡ some (whole ∷ groups)
      → length groups ≡ length r.param_names
      → dispatch engine routes req ≡ (
        record req { params = assign_all (zip_init r.param_names groups) req.params },
        some r.handler,
      )
  unfolding dispatch dispatch_among
  dispatch-params routes req pre post r whole groups found before matched same =
      rw
        (
          found,
          dispatch,
          among-first pre post r (path_of req.url) req before,
          matched,
          dispatch_among,
        )
        (let shorter : min (suc (length groups)) (length r.param_names) ≡ length r.param_names =
            omega (arith, same) in
          rw shorter (
            ap (λ ps. (record req { params = ps }, some r.handler))
              (assign_params-zip_init r.param_names groups req.params same)))

  -- The handler that a request is given.
  unfoldable pub handler_of : List (ℕ × List (Route Pattern Handler)) → HttpReq → Option Handler
  unfolding dispatch
  handler_of routes req = (dispatch engine routes req).1

  matching : Route Pattern Handler → List ℕ → Option Handler
  matching r path = elim (engine.regex_match r.pattern path) [
    | none ↦ none
    | some _ ↦ some r.handler
  ]

  among-append :
      (rs : List (Route Pattern Handler)) (r : Route Pattern Handler) (path : List ℕ)
      (req : HttpReq)
      → (dispatch_among engine (rs ++ (r ∷ [])) path req).1
        ≡ or_else (dispatch_among engine rs path req).1 (matching r path)
  unfolding dispatch_among matching
  among-append [] r path req = elim (Option-cases (engine.regex_match r.pattern path)) [
    | inl e ↦ ground (arith, e)
    | inr (_, e) ↦ ground (arith, e)
  ]
  among-append (s ∷ rs) r path req = elim (Option-cases (engine.regex_match s.pattern path)) [
    | inl e ↦ ground (arith, e, among-append rs r path req)
    | inr (_, e) ↦ ground (arith, e)
  ]

  pushed :
      Route Pattern Handler → Option (List (Route Pattern Handler)) → List (Route Pattern Handler)
  pushed r none = r ∷ []
  pushed r (some rs) = rs ++ (r ∷ [])

  method_routes-push_route :
      (m k : ℕ) (r : Route Pattern Handler) (routes : List (ℕ × List (Route Pattern Handler)))
      → method_routes m (push_route k r routes)
        ≡ (if k == m then some (pushed r (method_routes m routes)) else method_routes m routes)
  unfolding method_routes push_route pushed
  method_routes-push_route m k r [] = refl
  method_routes-push_route m k r ((j, rs) ∷ routes) =
      ground (arith, ==_iff j k, ==_iff j m, ==_iff k m, method_routes-push_route m k r routes)

  -- The handler of a new route, for a request that its method and pattern fit.
  pub fits : ℕ → List ℕ → Handler → HttpReq → Option Handler
  unfolding matching
  fits method template h req =
      let (regex, names) = parse_path_to_regex engine template in
      elim (engine.compile regex) [
        | none ↦ none
        | some pattern ↦
            let r : Route Pattern Handler = record {
              pattern = pattern;
              handler = h;
              param_names = names;
            } in
            if method == req.method then matching r (path_of req.url) else none
      ]

  handler_of-push_route :
      (k : ℕ) (r : Route Pattern Handler) (routes : List (ℕ × List (Route Pattern Handler)))
      (req : HttpReq)
      → handler_of (push_route k r routes) req
        ≡ or_else
            (handler_of routes req)
            (if k == req.method then matching r (path_of req.url) else none)
  unfolding handler_of dispatch dispatch_among pushed matching
  handler_of-push_route k r routes req = elim (Option-cases (method_routes req.method routes)) [
    | inl e ↦ ground (
      arith,
      e,
      method_routes-push_route req.method k r routes,
      among-append [] r (path_of req.url) req,
    )
    | inr (rs, e) ↦ ground (
      arith,
      e,
      method_routes-push_route req.method k r routes,
      among-append rs r (path_of req.url) req,
    )
  ]

  -- Adding a route changes nothing for a request that has a handler; any other request gets the
  -- new handler if the template compiles and its method and pattern fit, and none otherwise.
  pub dispatch-add_route :
      (method : ℕ) (template : List ℕ) (h : Handler)
      (routes : List (ℕ × List (Route Pattern Handler))) (req : HttpReq)
      → handler_of (add_route engine method template h routes) req
        ≡ or_else (handler_of routes req) (fits method template h req)
  unfolding add_route fits
  dispatch-add_route method template h routes req =
      elim (Option-cases (engine.compile (parse_path_to_regex engine template).0)) [
        | inl e ↦ rw (e, add_route, fits) (keep (handler_of routes req))
        | inr (pattern, e) ↦ rw (e, add_route, fits) (handler_of-push_route method _ routes req)
      ]
    where
      keep : (o : Option Handler) → o ≡ or_else o none
      keep none = refl
      keep (some g) = refl
