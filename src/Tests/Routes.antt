-- ===== src/Tests/Routes.antt =====
-- The router of src/core/httpRouter.cpp at concrete routes, with an engine whose patterns are
-- prefixes and whose one group is what comes after.
use my_web_socket.Prelude.{
  or_else, ◌-◌, ℕ, ◌≡◌, refl, none, some, List, [], ◌∷◌, codes, length, take, drop, text_eq,
  split_first, if◌then◌else◌, false,
}
use my_web_socket.HttpReq.{HttpReq}
use my_web_socket.Router.{RegexEngine, Route, add_route, dispatch}
use my_web_socket.Router.Dispatch.{handler_of, fits, dispatch-add_route}

abbrev pub prefixes : RegexEngine (List ℕ)
prefixes = record {
  compile = λ s. some (take (length s - 2) (drop 1 s));
  first_groups = λ regex text. [];
  regex_replace = λ regex format text. text;
  regex_match =
      λ p t. if text_eq (take (length p) t) p then some (t ∷ drop (length p) t ∷ []) else none;
}

abbrev by_id : Route (List ℕ) ℕ
by_id = record { pattern = codes "/id/"; handler = 7; param_names = codes "id" ∷ [] }

abbrev pub get_routes : List (ℕ × List (Route (List ℕ) ℕ))
get_routes = (1, by_id ∷ []) ∷ []

abbrev pub get_id : HttpReq
get_id = record {
  url = codes "/id/42?x=1";
  headers = [];
  body = [];
  method = 1;
  version = codes "1.1";
  params = [];
  is_query_params_parsed = false;
  ip = [];
  port = 0;
  query_params = [];
}

-- The one parameter of the template `/id/:id` is not assigned.
id_is_lost : (dispatch prefixes get_routes get_id).0.params ≡ []
unfolding dispatch text_eq split_first
id_is_lost = refl

dispatch-add_route_example :
    handler_of prefixes (add_route prefixes 1 (codes "/") 8 get_routes) get_id
    ≡ or_else (handler_of prefixes get_routes get_id) (fits prefixes 1 (codes "/") 8 get_id)
dispatch-add_route_example = dispatch-add_route prefixes 1 (codes "/") 8 get_routes get_id
