-- ===== src/Router/Fields.antt =====
-- What `httpRouter::dispatch` of src/core/httpRouter.cpp reads and leaves of a request.
use my_web_socket.Prelude.{
  ℕ, ◌≡◌, refl, ap₂, ◌∙◌, sym, Option, none, some, Option-cases, inl, inr, List, [], ◌∷◌,
}
use my_web_socket.HttpReq.{HttpReq}
use my_web_socket.Router.{RegexEngine, Route, method_routes, path_of, dispatch_among, dispatch}
use my_web_socket.Router.Dispatch.{handler_of}

module _ {Pattern Handler : Type 0} (engine : RegexEngine Pattern)
    (routes : List (ℕ × List (Route Pattern Handler))) where
  among-request :
      (rs : List (Route Pattern Handler)) (path : List ℕ) (a b : HttpReq)
      → (dispatch_among engine rs path a).1 ≡ (dispatch_among engine rs path b).1
  unfolding dispatch_among
  among-request [] path a b = refl
  among-request (r ∷ rs) path a b = elim (Option-cases (engine.regex_match r.pattern path)) [
    | inl e ↦ rw (e, dispatch_among) (among-request rs path a b)
    | inr (_, e) ↦ rw (e, dispatch_among) refl
  ]

  among-fields :
      (rs : List (Route Pattern Handler)) (path : List ℕ) (a : HttpReq)
      → let b = (dispatch_among engine rs path a).0 in
        (b.url ≡ a.url) × (b.method ≡ a.method) × (b.body ≡ a.body)
  unfolding dispatch_among
  among-fields [] path a = (refl, refl, refl)
  among-fields (r ∷ rs) path a = elim (Option-cases (engine.regex_match r.pattern path)) [
    | inl e ↦ rw (e, dispatch_among) (among-fields rs path a)
    | inr (_, e) ↦ rw (e, dispatch_among) (refl, refl, refl)
  ]

  pub dispatch-fields :
      (a : HttpReq)
      → let b = (dispatch engine routes a).0 in
        (b.url ≡ a.url) × (b.method ≡ a.method) × (b.body ≡ a.body)
  unfolding dispatch
  dispatch-fields a = elim (Option-cases (method_routes a.method routes)) [
    | inl e ↦ rw (e, dispatch) (refl, refl, refl)
    | inr (rs, e) ↦ rw (e, dispatch) (among-fields rs (path_of a.url) a)
  ]

  handler_for : HttpReq → Option (List (Route Pattern Handler)) → List ℕ → Option Handler
  handler_for req none path = none
  handler_for req (some rs) path = (dispatch_among engine rs path req).1

  handler_of-handler_for :
      (req a : HttpReq)
      → handler_of engine routes a ≡ handler_for req (method_routes a.method routes) (path_of a.url)
  unfolding handler_of dispatch handler_for
  handler_of-handler_for req a = elim (Option-cases (method_routes a.method routes)) [
    | inl e ↦ rw (e, handler_of) refl
    | inr (rs, e) ↦ rw (e, handler_of) (among-request rs (path_of a.url) a req)
  ]

  -- The handler depends on the URL and the method.
  pub handler_of-fields :
      (a b : HttpReq)
      → a.url ≡ b.url
      → a.method ≡ b.method
      → handler_of engine routes a ≡ handler_of engine routes b
  handler_of-fields a b u m =
      handler_of-handler_for a a
      ∙ ap₂ (λ k url. handler_for a (method_routes k routes) (path_of url)) m u
      ∙ sym (handler_of-handler_for a b)
