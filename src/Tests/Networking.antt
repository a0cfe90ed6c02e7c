-- ===== src/Tests/Networking.antt =====
-- Two routes, one of them with a parameter.
use chat_system.Prelude.{
  ◌≡◌, refl, ap, inl, true, none, List, [], ◌∷◌, ◌++◌, length, arith, some, Text, text_eq, false,
}
use chat_system.Networking.Credentials.{auth_scheme}
use chat_system.Networking.Http.{Request, Response}
use chat_system.Networking.Segments.{parsed_segments, discard_leading_empty_string}
use chat_system.Networking.Segments.Laws.{join, parsed_segments-join}
use chat_system.Networking.Router.{
  PathParams, HandlerFunc, is_dynamic_parameter, route_request, handle_not_found,
}
use chat_system.Networking.Router.Matching.{Segment, lit, param, done, literal, capture}
use chat_system.Networking.Router.Dispatch.{
  Endpoint, IsRegistrable, add_routes, request_segments, Answers, Matches-length,
  route_request-first, route_request-not_found, request_segments-join,
}

-- /a and /u/{id}
abbrev chats : List Segment
chats = lit (97 ∷ []) ∷ []

abbrev users : List Segment
users = lit (117 ∷ []) ∷ param (105 ∷ 100 ∷ []) ∷ []

abbrev echo : HandlerFunc Response
echo req ps = record { status = 200; body = req.body }

abbrev get_chats : Endpoint Response
get_chats = record { method = 1; segs = chats; handler = echo }

abbrev get_user : Endpoint Response
get_user = record { method = 1; segs = users; handler = echo }

-- GET /u/7
abbrev asks : Request
asks = record { method = 1; target = 47 ∷ 117 ∷ 47 ∷ 55 ∷ []; authorization = none; body = 3 ∷ [] }

chats-IsRegistrable : IsRegistrable get_chats
unfolding is_dynamic_parameter
chats-IsRegistrable = (((((λ e. cc), tt), refl), tt), λ e. cc)

users-IsRegistrable : IsRegistrable get_user
unfolding is_dynamic_parameter
users-IsRegistrable = (((((λ e. cc), tt), refl), (((λ e. cc), ((λ e. cc), tt)), tt)), λ e. cc)

asks-segments : request_segments asks ≡ (117 ∷ []) ∷ (55 ∷ []) ∷ []
unfolding request_segments parsed_segments discard_leading_empty_string
asks-segments = refl

get_user-Answers : Answers get_user asks ((105 ∷ 100 ∷ [], 55 ∷ []) ∷ [])
get_user-Answers = record {
  same_method = refl;
  matched = rw asks-segments (literal (117 ∷ []) (capture (105 ∷ 100 ∷ []) (55 ∷ []) done));
}

get_chats-silent : (ps : PathParams) → ¬ Answers get_chats asks ps
get_chats-silent ps answers =
    let two : length (request_segments asks) ≡ 2 = ap (λ ss. length ss) asks-segments in
    let one : length (request_segments asks) ≡ 1 = Matches-length answers.matched in
    omega (arith, two, one)

route_request-first_example :
    route_request (λ r. r) (λ target. true) (add_routes [] (get_chats ∷ get_user ∷ [])) asks
    ≡ get_user.handler asks ((105 ∷ 100 ∷ [], 55 ∷ []) ∷ [])
route_request-first_example =
    route_request-first (λ r. r) (λ target. true) asks refl (get_chats ∷ []) [] get_user
      ((105 ∷ 100 ∷ [], 55 ∷ []) ∷ []) (chats-IsRegistrable, (users-IsRegistrable, tt))
      (get_chats-silent, tt) get_user-Answers

route_request-not_found_example :
    route_request (λ r. r) (λ target. true) (add_routes [] (get_chats ∷ [])) asks ≡ handle_not_found
route_request-not_found_example =
    route_request-not_found (λ r. r) (λ target. true) asks refl (get_chats ∷ [])
      (chats-IsRegistrable, tt) (get_chats-silent, tt)

request_segments-join_example : request_segments asks ≡ (117 ∷ []) ∷ (55 ∷ []) ∷ []
request_segments-join_example =
    request_segments-join asks ((117 ∷ []) ∷ (55 ∷ []) ∷ []) []
      (((λ e. cc), tt), (((λ e. cc), tt), tt)) (λ e. cc) ((λ e. cc), ((λ e. cc), ((λ e. cc), tt)))
      (inl refl)

parsed_segments-join_example :
    parsed_segments (join ((97 ∷ []) ∷ [] ∷ (98 ∷ []) ∷ [])) ≡ (97 ∷ []) ∷ [] ∷ (98 ∷ []) ∷ []
parsed_segments-join_example =
    parsed_segments-join ((97 ∷ []) ∷ [] ∷ (98 ∷ []) ∷ [])
      (((λ e. cc), tt), (tt, (((λ e. cc), tt), tt))) (λ e. cc)

-- GET /u/7 with the token 9.
abbrev asks_with_token : Request
asks_with_token = record asks { authorization = some (auth_scheme ++ (57 ∷ [])) }

abbrev other_param : Text × Text
other_param = (97 ∷ [], 49 ∷ [])

other_param-differs : text_eq other_param.0 (105 ∷ []) ≡ false
unfolding text_eq
other_param-differs = refl
