-- ===== src/Tests/Requests.antt =====
-- The session vectors of src/core/WsServer.cpp and src/core/httpserver.cpp and the query parser of
-- src/core/httpReq.cpp at concrete inputs.
use my_web_socket.Prelude.{
  split_first, assign, text_eq, ℕ, ◌≡◌, refl, length, List, [], ◌∷◌, ◌++◌, codes, arith,
}
use my_web_socket.Registry.{push_ws_session, remove_ws_session}
use my_web_socket.Registry.Bag.{
  Change, push, remove, bag_of, run_ws, run_http, run_on_bag, size, run-bag,
}
use my_web_socket.HttpReq.{ParamMap, url_decode}
use my_web_socket.HttpReq.Query.{
  query_text, add_pairs, all_pieces, url_decode-pieces, print_query, assign_all,
  url_decode-print_query,
}

abbrev three : List ℕ
three = 10 ∷ 20 ∷ 30 ∷ []

abbrev changes : List Change
changes = push 40 ∷ remove 10 ∷ remove 50 ∷ push 20 ∷ []

run-bag_example :
    (bag_of (run_ws changes three) ≡ run_on_bag changes (bag_of three))
    × (bag_of (run_http changes three) ≡ run_on_bag changes (bag_of three))
    × (length (run_ws changes three) ≡ size (run_on_bag changes (bag_of three)))
    × (length (run_http changes three) ≡ size (run_on_bag changes (bag_of three)))
run-bag_example = run-bag changes three

run_changes : run_ws changes three ≡ 40 ∷ 20 ∷ 30 ∷ 20 ∷ []
unfolding run_ws remove_ws_session push_ws_session
run_changes = refl

remove_first : remove_ws_session three 10 ≡ 30 ∷ 20 ∷ []
unfolding remove_ws_session
remove_first = refl

abbrev pairs : ParamMap
pairs = (codes "a", codes "1") ∷ (codes "b", []) ∷ []

url_decode-print_query_example :
    url_decode (codes "/id" ++ (b'?' ∷ print_query pairs)) [] ≡ assign_all pairs []
url_decode-print_query_example =
    url_decode-print_query (codes "/id") pairs [] (grind arith) (grind arith)

url_decode-pieces_example :
    url_decode (codes "/id?a&=2&b=3&") []
    ≡ add_pairs (all_pieces (query_text (codes "/id?a&=2&b=3&"))) []
url_decode-pieces_example = url_decode-pieces (codes "/id?a&=2&b=3&") []

decode_test : url_decode (codes "/id?a&=2&b=3&") [] ≡ (codes "a", []) ∷ (codes "b", codes "3") ∷ []
unfolding url_decode split_first assign text_eq
decode_test = refl
