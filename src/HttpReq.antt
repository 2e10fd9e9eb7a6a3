-- ===== src/HttpReq.antt =====
-- A request and its query, src/core/httpReq.h and src/core/httpReq.cpp. Texts are lists of
-- character codes; a suffix `str.substr(pos)` stands for the position `pos`.
pub mod Query
use my_web_socket.Prelude.{
  ℕ, zero, suc, ◌+◌, Bool, true, false, Option, none, some, List, [], ◌∷◌, length, split_first,
  assign, if◌then◌else◌,
}

abbrev pub ParamMap : Type 0
ParamMap = List (List ℕ × List ℕ)

pub record HttpReq : Type 0 where
  pub url : List ℕ
  pub headers : ParamMap
  pub body : List ℕ
  pub method : ℕ
  pub version : List ℕ
  pub params : ParamMap
  pub is_query_params_parsed : Bool
  pub ip : List ℕ
  pub port : ℕ
  pub query_params : ParamMap

-- The constructor. It leaves `method` and `port` as they are in the memory that it is given.
unfoldable pub new_http_req : HttpReq → HttpReq
new_http_req memory = record {
  url = [];
  headers = [];
  body = [];
  method = memory.method;
  version = [];
  params = [];
  is_query_params_parsed = false;
  ip = [];
  port = memory.port;
  query_params = [];
}

-- The key and the value of one piece of the query.
unfoldable pub pair_of : List ℕ → List ℕ × List ℕ
pair_of s = elim (split_first b'=' s) [ none ↦ (s, []) | some (k, v) ↦ (k, v) ]

abbrev pub add_param : List ℕ → List ℕ → ParamMap → ParamMap
add_param [] v m = m
add_param (c ∷ k) v m = assign (c ∷ k) v m

unfoldable pub add_pair : List ℕ → ParamMap → ParamMap
unfolding pair_of
add_pair s m = let (k, v) = pair_of s in add_param k v m

-- The loop, from the suffix at `pos`. Each round passes a `&`.
unfoldable pub decode_loop : ℕ → List ℕ → ParamMap → ParamMap
unfolding add_pair
decode_loop zero rest m = m
decode_loop (suc fuel) [] m = m
decode_loop (suc fuel) (c ∷ cs) m = elim (split_first b'&' (c ∷ cs)) [
  | none ↦ add_pair (c ∷ cs) m
  | some (s, rest) ↦ decode_loop fuel rest (add_pair s m)
]

unfoldable pub url_decode : List ℕ → ParamMap → ParamMap
unfolding decode_loop
url_decode str m = elim (split_first b'?' str) [
  | none ↦ m
  | some (_, rest) ↦ decode_loop (length rest + 1) rest m
]

-- `query` parses the address once, until a new request resets the flag.
unfoldable pub query : HttpReq → HttpReq × ParamMap
unfolding url_decode
query r =
    let q = record r { query_params = url_decode r.url []; is_query_params_parsed = true } in
    if r.is_query_params_parsed then (r, r.query_params) else (q, q.query_params)
