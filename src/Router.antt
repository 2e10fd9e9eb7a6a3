-- ===== src/Router.antt =====
-- The router, src/core/httpRouter.h and src/core/httpRouter.cpp. The regular expressions are
-- std::regex's: the engine is a parameter. `Handler` is the type of the program's handlers.
pub mod Dispatch
pub mod Fields
use my_web_socket.Prelude.{
  ℕ, zero, suc, ◌-◌, min, Option, none, some, List, [], ◌∷◌, ◌++◌, codes, length, drop, ◌==◌,
  split_first, assign, if◌then◌else◌,
}
use my_web_socket.HttpReq.{HttpReq, ParamMap}

-- What the router uses of std::regex. `compile` fails with a regex_error; `first_groups` has the
-- first group of each match of a regular expression in a text; `regex_match` gives the whole match
-- and then the groups.
pub record RegexEngine (Pattern : Type 0) : Type 0 where
  pub compile : List ℕ → Option Pattern
  pub first_groups : List ℕ → List ℕ → List (List ℕ)
  pub regex_replace : List ℕ → List ℕ → List ℕ → List ℕ
  pub regex_match : Pattern → List ℕ → Option (List (List ℕ))

pub record Route (Pattern : Type 0) (Handler : Type 0) : Type 0 where
  pub pattern : Pattern
  pub handler : Handler
  pub param_names : List (List ℕ)

-- The loop over `i`, for as many rounds as are left: `paramNames[i - 1]` gets the group `i`.
unfoldable pub assign_params : ℕ → List (List ℕ) → List (List ℕ) → ParamMap → ParamMap
assign_params (suc n) (name ∷ names) (group ∷ groups) m =
    assign_params n names groups (assign name group m)
assign_params _ _ _ m = m

module _ {Pattern : Type 0} {Handler : Type 0} where
  -- The table by method. A method without an entry is `none`.
  unfoldable pub method_routes :
      ℕ → List (ℕ × List (Route Pattern Handler)) → Option (List (Route Pattern Handler))
  method_routes method [] = none
  method_routes method ((k, rs) ∷ routes) =
      if k == method then some rs else method_routes method routes

  -- `routes[method].push_back(route)`.
  unfoldable pub push_route :
      ℕ
      → Route Pattern Handler
      → List (ℕ × List (Route Pattern Handler))
      → List (ℕ × List (Route Pattern Handler))
  push_route method r [] = (method, r ∷ []) ∷ []
  push_route method r ((k, rs) ∷ routes) =
      if k == method then (k, rs ++ (r ∷ [])) ∷ routes else (k, rs) ∷ push_route method r routes

-- `url.substr(0, url.find('?'))`.
unfoldable pub path_of : List ℕ → List ℕ
path_of url = elim (split_first b'?' url) [ none ↦ url | some (path, _) ↦ path ]

module _ {Pattern : Type 0} (engine : RegexEngine Pattern) where
  -- The names of a template, and the template as a regular expression.
  unfoldable pub parse_path_to_regex : List ℕ → List ℕ × List (List ℕ)
  parse_path_to_regex path_template =
      let param_names = engine.first_groups (codes ":(\\w+)") path_template in
      let with_regex =
        engine.regex_replace (codes ":(\\w+)\\((.+?)\\)") (codes "($2)") path_template in
      let regex_str = engine.regex_replace (codes ":(\\w+)") (codes "([^/]+)") with_regex in
      (codes "^" ++ (regex_str ++ codes "$"), param_names)

module _ {Pattern : Type 0} {Handler : Type 0} (engine : RegexEngine Pattern) where
  -- A template that is no regular expression is skipped.
  unfoldable pub add_route :
      ℕ
      → List ℕ
      → Handler
      → List (ℕ × List (Route Pattern Handler))
      → List (ℕ × List (Route Pattern Handler))
  unfolding parse_path_to_regex push_route
  add_route method pattern_template handler routes =
      let (regex_str, param_names) = parse_path_to_regex engine pattern_template in
      elim (engine.compile regex_str) [
        | none ↦ routes
        | some pattern ↦
            let r : Route Pattern Handler = record {
              pattern = pattern;
              handler = handler;
              param_names = param_names;
            } in
            push_route method r routes
      ]

  -- The loop over the routes of the method, from the first that is left.
  unfoldable pub dispatch_among :
      List (Route Pattern Handler) → List ℕ → HttpReq → HttpReq × Option Handler
  unfolding assign_params
  dispatch_among [] path req = (record req { params = [] }, none)
  dispatch_among (r ∷ rs) path req = elim (engine.regex_match r.pattern path) [
    | none ↦ dispatch_among rs path req
    | some match_results ↦
        let param_len = min (length match_results) (length r.param_names) in
        let params =
          assign_params (param_len - 1) r.param_names (drop 1 match_results) req.params in
        (record req { params = params }, some r.handler)
  ]

  unfoldable pub dispatch :
      List (ℕ × List (Route Pattern Handler)) → HttpReq → HttpReq × Option Handler
  unfolding dispatch_among method_routes path_of
  dispatch routes req = elim (method_routes req.method routes) [
    | none ↦ (req, none)
    | some rs ↦ dispatch_among rs (path_of req.url) req
  ]
