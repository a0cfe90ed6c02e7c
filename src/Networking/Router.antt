-- ===== src/Networking/Router.antt =====
-- Server/Source/Networking/router.cpp. A handler is a function of the request and the parameters into
-- a type R: a response, or a change of the server's state that ends with one. The router's own
-- responses become such values by `answer`. The parser of the URL library is a parameter.
pub mod Matching
pub mod Dispatch
use chat_system.Prelude.{
  ℕ, zero, suc, ◌+◌, ◌-◌, ◌*◌, ◌/◌, ◌%◌, ◌≤◌, ◌<◌, min, ◌≡◌, refl, sym, ap, ◌∙◌, ◌≢◌, ◌↔◌, ◌⊎◌, inl,
  inr, Bool, true, false, not, ◌&&◌, ◌||◌, Option, none, some, List, [], ◌∷◌, ◌++◌, map, append-nil,
  append_assoc, String, Text, codes, text_eq, text_eq_iff, text_eq_refl, length, set, take, drop,
  replicate, All, length-append, length-set, length-take, length-replicate, arith, ltb, leb, ◌==◌,
  if◌then◌else◌, Bool-cases, Option-cases, ltb→lt, lt→ltb, leb→le, ==_iff, tests,
}
use chat_system.Networking.Http.{Request, Response}
use chat_system.Networking.Segments.{slash, parsed_segments, discard_leading_empty_string}

abbrev pub PathParams : Type 0
PathParams = List (Text × Text)

abbrev pub HandlerFunc : Type 0 → Type 0
HandlerFunc R = Request → PathParams → R

pub record Route (R : Type 0) : Type 0 where
  pub method : ℕ
  pub segments : List Text
  pub param_names : List Text
  pub is_dynamic : List Bool
  pub handler : HandlerFunc R

-- The target up to the first `?`.
extract_path : Text → Text
extract_path [] = []
extract_path (c ∷ target) = if c == b'?' then [] else c ∷ extract_path target

starts_with : ℕ → Text → Bool
starts_with c [] = false
starts_with c (d ∷ s) = d == c

ends_with : ℕ → Text → Bool
ends_with c [] = false
ends_with c (d ∷ []) = d == c
ends_with c (d ∷ e ∷ s) = ends_with c (e ∷ s)

unfoldable pub is_dynamic_parameter : Text → Bool
unfolding starts_with ends_with
is_dynamic_parameter segment = starts_with b'{' segment && ends_with b'}' segment

process_dynamic_parameter : {R : Type 0} → Route R → Text → Route R
process_dynamic_parameter route param = record route {
  segments = route.segments ++ ([] ∷ []);
  param_names = route.param_names ++ (take (length param - 2) (drop 1 param) ∷ []);
  is_dynamic = route.is_dynamic ++ (true ∷ []);
}

process_string_match : {R : Type 0} → Route R → Text → Route R
process_string_match route param = record route {
  segments = route.segments ++ (param ∷ []);
  param_names = route.param_names ++ ([] ∷ []);
  is_dynamic = route.is_dynamic ++ (false ∷ []);
}

process_segment : {R : Type 0} → Route R → Text → Route R
unfolding process_dynamic_parameter process_string_match
process_segment route segment =
    if is_dynamic_parameter segment
    then process_dynamic_parameter route segment
    else process_string_match route segment

process_segments : {R : Type 0} → Route R → List Text → Route R
process_segments route [] = route
process_segments route (segment ∷ rest) = process_segments (process_segment route segment) rest

-- The loop reads the template's segments in order.
process_route_template : {R : Type 0} → Text → Route R → Route R
process_route_template path_template route =
    process_segments route (parsed_segments (discard_leading_empty_string path_template))

-- AddRoute: the routes are tried in the order in which they were added.
unfoldable pub add_route : {R : Type 0} → List (Route R) → ℕ → Text → HandlerFunc R → List (Route R)
unfolding process_route_template process_segments process_segment is_dynamic_parameter
add_route {R} routes method path_template handler =
    let route : Route R = record {
      method = method;
      segments = [];
      param_names = [];
      is_dynamic = [];
      handler = handler;
    } in
    routes ++ (process_route_template path_template route ∷ [])

-- The loop over the index of four arrays of one length, as a recursion on the four lists.
unfoldable pub try_extract_params :
    List Bool → List Text → List Text → List Text → PathParams → Option PathParams
try_extract_params (dynamic ∷ ds) (name ∷ ns) (request_segment ∷ rs) (segment ∷ ss) params_out =
    if dynamic
    then try_extract_params ds ns rs ss (params_out ++ ((name, request_segment) ∷ []))
    else (if not (text_eq segment request_segment)
        then none
        else try_extract_params ds ns rs ss params_out)
try_extract_params ds ns rs ss params_out = some params_out

unfoldable pub handle_not_found : Response
handle_not_found = record { status = 404; body = codes "{\"error\": \"Endpoint not found.\"}" }

unfoldable pub handle_bad_request : Response
handle_bad_request = record { status = 400; body = codes "{\"error\": \"Malformed URL.\"}" }

-- The loop of RouteRequest over the routes.
unfoldable pub find_route : {R : Type 0} → (Response → R) → List (Route R) → Request → List Text → R
find_route answer [] req request_segments = answer handle_not_found
find_route answer (route ∷ routes) req request_segments =
    let rest = find_route answer routes req request_segments in
    if not (req.method == route.method) || not (length request_segments == length route.segments)
    then rest
    else elim (try_extract_params route.is_dynamic route.param_names request_segments route.segments
        []) [ none ↦ rest | some params ↦ route.handler req params ]

unfoldable pub route_request :
    {R : Type 0} → (Response → R) → (Text → Bool) → List (Route R) → Request → R
unfolding extract_path
route_request answer is_origin_form routes req =
    if not (is_origin_form req.target)
    then answer handle_bad_request
    else find_route answer routes req
        (parsed_segments (discard_leading_empty_string (extract_path req.target)))
