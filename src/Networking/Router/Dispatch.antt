-- ===== src/Networking/Router/Dispatch.antt =====
-- RouteRequest over a table of endpoints: the first endpoint that answers, or 404.
use chat_system.Prelude.{
  ℕ, suc, ◌≡◌, refl, sym, ap, ◌∙◌, ◌≢◌, ◌⊎◌, inl, inr, Bool, true, List, [], ◌∷◌, ◌++◌, map,
  append-nil, append_assoc, Text, length, All, arith, ◌==◌, Bool-cases, Option-cases,
}
use mathlib.Core.List.{map-append}
use chat_system.Networking.Http.{Request, Response}
use chat_system.Networking.Segments.{slash, parsed_segments, discard_leading_empty_string}
use chat_system.Networking.Segments.Laws.{HasNoSlash, join, EndsFilled, parsed_segments-join}
use chat_system.Networking.Router.{
  PathParams, HandlerFunc, Route, extract_path, add_route, handle_not_found, find_route,
  route_request,
}
use chat_system.Networking.Router.Matching.{
  Segment, show_segment, template, IsPlain, compiled, Matches, done, literal, capture, try_extract,
  try_extract_complete, try_extract_sound, add_route-template,
}

-- What a controller registers.
pub record Endpoint (R : Type 0) : Type 0 where
  pub method : ℕ
  pub segs : List Segment
  pub handler : HandlerFunc R

abbrev pub IsRegistrable : {R : Type 0} → Endpoint R → Type 0
IsRegistrable e = All IsPlain e.segs × EndsFilled (map show_segment e.segs)

abbrev pub compile : {R : Type 0} → Endpoint R → Route R
compile e = compiled e.method e.segs e.handler

-- AddRoute for each endpoint in turn.
pub add_routes : {R : Type 0} → List (Route R) → List (Endpoint R) → List (Route R)
add_routes routes [] = routes
add_routes routes (e ∷ es) = add_routes (add_route routes e.method (template e.segs) e.handler) es

add_routes-compile :
    {R : Type 0} (routes : List (Route R)) (es : List (Endpoint R))
    → All IsRegistrable es
    → add_routes routes es ≡ routes ++ map compile es
unfolding add_routes
add_routes-compile routes [] h = sym (append-nil routes)
add_routes-compile routes (e ∷ es) ((plain, filled), h) =
    ap (λ r. add_routes r es) (add_route-template routes e.method e.segs e.handler plain filled)
    ∙ add_routes-compile (routes ++ (compile e ∷ [])) es h
    ∙ append_assoc routes (compile e ∷ []) (map compile es)

-- The segments of a request's path, the query left out.
unfoldable pub request_segments : Request → List Text
unfolding extract_path
request_segments req = parsed_segments (discard_leading_empty_string (extract_path req.target))

-- The endpoint has the request's method, and its segments match with these parameters.
pub record Answers {R : Type 0} (e : Endpoint R) (req : Request) (ps : PathParams) : Type 0 where
  pub same_method : req.method ≡ e.method
  pub matched : Matches e.segs (request_segments req) ps

pub Matches-length :
    {segs : List Segment} {values : List Text} {ps : PathParams}
    → Matches segs values ps
    → length values ≡ length segs
Matches-length done = refl
Matches-length (literal text m) = ap suc (Matches-length m)
Matches-length (capture name value m) = ap suc (Matches-length m)

length-segments : {R : Type 0} (e : Endpoint R) → length (compile e).segments ≡ length e.segs
length-segments e = go e.segs
  where
    go : (segs : List Segment) → length (compiled 0 segs e.handler).segments ≡ length segs
    go [] = refl
    go (seg ∷ segs) = ap suc (go segs)

-- One round of the loop, by whether the endpoint answers.
pub find_route-hit :
    {R : Type 0} (answer : Response → R) (e : Endpoint R) (routes : List (Route R)) (req : Request)
    (ps : PathParams)
    → Answers e req ps
    → find_route answer (compile e ∷ routes) req (request_segments req) ≡ e.handler req ps
unfolding find_route
find_route-hit answer e routes req ps a = ground (
  arith,
  try_extract_complete [] a.matched,
  Matches-length a.matched,
  length-segments e,
  a.same_method,
)

pub find_route-miss :
    {R : Type 0} (answer : Response → R) (e : Endpoint R) (routes : List (Route R)) (req : Request)
    → ((ps : PathParams) → ¬ Answers e req ps)
    → find_route answer (compile e ∷ routes) req (request_segments req)
      ≡ find_route answer routes req (request_segments req)
unfolding find_route
find_route-miss answer e routes req no_answer =
    elim (Option-cases (try_extract e.segs (request_segments req) [])) [
      | inl refused ↦ ground arith
      | inr (ps, accepted) ↦ elim (Bool-cases (req.method == e.method)) [
        | inr other ↦ ground arith
        | inl method ↦
            elim (Bool-cases (length (request_segments req) == length (compile e).segments)) [
              | inr differs ↦ ground arith
              | inl sized ↦
                  let (ps', _, matched) =
                    try_extract_sound e.segs (request_segments req) [] ps
                      (ground (arith, length-segments e)) accepted in
                  absurd (no_answer ps' (record { same_method = ground arith; matched = matched }))
            ]
      ]
    ]

find_route-skip :
    {R : Type 0} (answer : Response → R) (before : List (Endpoint R)) (routes : List (Route R))
    (req : Request)
    → All (λ e. (ps : PathParams) → ¬ Answers e req ps) before
    → find_route answer (map compile before ++ routes) req (request_segments req)
      ≡ find_route answer routes req (request_segments req)
find_route-skip answer [] routes req h = refl
find_route-skip answer (e ∷ before) routes req (no_answer, h) =
    find_route-miss answer e (map compile before ++ routes) req no_answer
    ∙ find_route-skip answer before routes req h

module _ {R : Type 0} (answer : Response → R) (is_origin_form : Text → Bool) (req : Request)
    (well_formed : is_origin_form req.target ≡ true) where
  route_request-find_route :
      (endpoints : List (Endpoint R))
      → All IsRegistrable endpoints
      → route_request answer is_origin_form (add_routes [] endpoints) req
        ≡ find_route answer (map compile endpoints) req (request_segments req)
  unfolding route_request request_segments
  route_request-find_route endpoints h = rw (well_formed, add_routes-compile [] endpoints h)

  -- Endpoints whose templates have plain segments, the last one not empty, are registered. A
  -- request whose target parses is answered by the first of them with its method whose template
  -- matches its path, and the handler gets the values of the parameters in template order.
  pub route_request-first :
      (before after : List (Endpoint R)) (e : Endpoint R) (ps : PathParams)
      → All IsRegistrable (before ++ (e ∷ after))
      → All (λ b. (qs : PathParams) → ¬ Answers b req qs) before
      → Answers e req ps
      → route_request answer is_origin_form (add_routes [] (before ++ (e ∷ after))) req
        ≡ e.handler req ps
  route_request-first before after e ps h earlier answers =
      route_request-find_route (before ++ (e ∷ after)) h
      ∙ rw (map-append) (find_route-skip answer before (map compile (e ∷ after)) req earlier)
      ∙ find_route-hit answer e (map compile after) req ps answers

  -- Endpoints whose templates have plain segments, the last one not empty, are registered. If the
  -- request's target parses and none of them has its method and matches its path, the response is
  -- 404.
  pub route_request-not_found :
      (endpoints : List (Endpoint R))
      → All IsRegistrable endpoints
      → All (λ e. (ps : PathParams) → ¬ Answers e req ps) endpoints
      → route_request answer is_origin_form (add_routes [] endpoints) req ≡ answer handle_not_found
  route_request-not_found endpoints h none_answers =
      route_request-find_route endpoints h
      ∙ ap (λ r. find_route answer r req (request_segments req))
          (sym (append-nil (map compile endpoints)))
      ∙ find_route-skip answer endpoints [] req none_answers
      ∙ (unfold find_route in refl)

abbrev pub HasNoQuery : Text → Type 0
HasNoQuery = All (λ c. c ≢ b'?')

extract_path-plain : (path : Text) → HasNoQuery path → extract_path path ≡ path
unfolding extract_path
extract_path-plain [] h = refl
extract_path-plain (c ∷ path) (p, h) = ground (arith, extract_path-plain path h)

extract_path-query :
    (path query : Text) → HasNoQuery path → extract_path (path ++ (b'?' ∷ query)) ≡ path
unfolding extract_path
extract_path-query [] query h = refl
extract_path-query (c ∷ path) query (p, h) = ground (arith, extract_path-query path query h)

segments_of_join :
    (values : List Text)
    → All HasNoSlash values
    → EndsFilled values
    → parsed_segments (discard_leading_empty_string (slash ∷ join values)) ≡ values
unfolding discard_leading_empty_string
segments_of_join values plain filled = parsed_segments-join values plain filled

-- The path that joins values without slashes and query marks, the last one not empty, is read back
-- as these values, with a query behind it or without one.
pub request_segments-join :
    (req : Request) (values : List Text) (query : Text)
    → All HasNoSlash values
    → EndsFilled values
    → HasNoQuery (join values)
    → (req.target ≡ slash ∷ join values) ⊎ (req.target ≡ slash ∷ (join values ++ (b'?' ∷ query)))
    → request_segments req ≡ values
unfolding request_segments
request_segments-join req values query plain filled unasked (inl bare) =
    rw (bare, extract_path-plain (slash ∷ join values) ((λ e. absurd (omega arith)), unasked))
      (segments_of_join values plain filled)
request_segments-join req values query plain filled unasked (inr asked) =
    rw
      (asked, extract_path-query (slash ∷ join values) query ((λ e. absurd (omega arith)), unasked))
      (segments_of_join values plain filled)
