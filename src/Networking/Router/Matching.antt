-- ===== src/Networking/Router/Matching.antt =====
-- Route templates as lists of segments: what AddRoute compiles them to, and which requests they match.
use chat_system.Prelude.{
  ℕ, ◌-◌, ◌≡◌, refl, sym, ap, ◌∙◌, inl, inr, Bool, true, false, Option, some, List, [], ◌∷◌, ◌++◌,
  map, append-nil, append_assoc, Text, text_eq, text_eq_iff, text_eq_refl, length, take, All,
  length-append, arith, Bool-cases,
}
use chat_system.Networking.Segments.{slash, discard_leading_empty_string}
use chat_system.Networking.Segments.Laws.{HasNoSlash, join, EndsFilled, parsed_segments-join}
use chat_system.Networking.Router.{
  PathParams, HandlerFunc, Route, ends_with, is_dynamic_parameter, process_segment,
  process_segments, add_route, try_extract_params,
}

pub data Segment : Type 0 where
  lit param : Text → Segment

abbrev pub show_segment : Segment → Text
show_segment (lit text) = text
show_segment (param name) = b'{' ∷ (name ++ (b'}' ∷ []))

abbrev pub template : List Segment → Text
template segs = slash ∷ join (map show_segment segs)

-- A literal that is not read as a parameter, or a parameter; neither holds a slash.
abbrev pub IsPlain : Segment → Type 0
IsPlain (lit text) = HasNoSlash text × (is_dynamic_parameter text ≡ false)
IsPlain (param name) = HasNoSlash name

abbrev segment_text : Segment → Text
segment_text (lit text) = text
segment_text (param name) = []

abbrev segment_name : Segment → Text
segment_name (lit text) = []
segment_name (param name) = name

abbrev segment_dynamic : Segment → Bool
segment_dynamic (lit text) = false
segment_dynamic (param name) = true

-- The route that a template stands for.
abbrev pub compiled : {R : Type 0} → ℕ → List Segment → HandlerFunc R → Route R
compiled method segs handler = record {
  method = method;
  segments = map segment_text segs;
  param_names = map segment_name segs;
  is_dynamic = map segment_dynamic segs;
  handler = handler;
}

-- The request's segments match, and these are the values of the parameters, in order.
pub data Matches : List Segment → List Text → PathParams → Type 0 where
  done : Matches [] [] []
  literal :
      {segs : List Segment} {values : List Text} {ps : PathParams} (text : Text)
      → Matches segs values ps
      → Matches (lit text ∷ segs) (text ∷ values) ps
  capture :
      {segs : List Segment} {values : List Text} {ps : PathParams} (name value : Text)
      → Matches segs values ps
      → Matches (param name ∷ segs) (value ∷ values) ((name, value) ∷ ps)

ends_with-append : (c : ℕ) (s : Text) → ends_with c (s ++ (c ∷ [])) ≡ true
unfolding ends_with
ends_with-append c [] = ground arith
ends_with-append c (d ∷ []) = ground arith
ends_with-append c (d ∷ e ∷ s) = ends_with-append c (e ∷ s)

ends_with-cons : (c d : ℕ) (s : Text) → ends_with c s ≡ true → ends_with c (d ∷ s) ≡ true
unfolding ends_with
ends_with-cons c d [] h = cc
ends_with-cons c d (e ∷ s) h = h

is_dynamic_parameter-braces :
    (name : Text) → is_dynamic_parameter (b'{' ∷ (name ++ (b'}' ∷ []))) ≡ true
unfolding is_dynamic_parameter
is_dynamic_parameter-braces name =
    ends_with-cons b'}' b'{' (name ++ (b'}' ∷ [])) (ends_with-append b'}' name)

take-all : (s rest : Text) → take (length s) (s ++ rest) ≡ s
take-all [] rest = refl
take-all (c ∷ s) rest = ap (◌∷◌ c) (take-all s rest)

-- The text between the braces.
braces_name :
    (name : Text) → take (length (b'{' ∷ (name ++ (b'}' ∷ []))) - 2) (name ++ (b'}' ∷ [])) ≡ name
braces_name name =
    let size : length (b'{' ∷ (name ++ (b'}' ∷ []))) - 2 ≡ length name =
      omega (arith, length-append name (b'}' ∷ [])) in
    rw size (take-all name (b'}' ∷ []))

abbrev extended : {R : Type 0} → Route R → List Segment → Route R
extended route segs = record route {
  segments = route.segments ++ map segment_text segs;
  param_names = route.param_names ++ map segment_name segs;
  is_dynamic = route.is_dynamic ++ map segment_dynamic segs;
}

process_segment-extended :
    {R : Type 0} (route : Route R) (seg : Segment)
    → IsPlain seg
    → process_segment route (show_segment seg) ≡ extended route (seg ∷ [])
unfolding process_segment
process_segment-extended route (lit text) (_, plain) = rw plain
process_segment-extended route (param name) _ =
    rw (is_dynamic_parameter-braces name, braces_name name)

process_segments-extended :
    {R : Type 0} (route : Route R) (segs : List Segment)
    → All IsPlain segs
    → process_segments route (map show_segment segs) ≡ extended route segs
unfolding process_segments
process_segments-extended route [] h = simp append-nil
process_segments-extended route (seg ∷ segs) (plain, h) =
    ap (λ r. process_segments r (map show_segment segs)) (process_segment-extended route seg plain)
    ∙ process_segments-extended (extended route (seg ∷ [])) segs h
    ∙ simp append_assoc

append-HasNoSlash : (s t : Text) → HasNoSlash s → HasNoSlash t → HasNoSlash (s ++ t)
append-HasNoSlash [] t h k = k
append-HasNoSlash (c ∷ s) t (p, h) k = (p, append-HasNoSlash s t h k)

show_segment-HasNoSlash : (seg : Segment) → IsPlain seg → HasNoSlash (show_segment seg)
show_segment-HasNoSlash (lit text) (h, _) = h
show_segment-HasNoSlash (param name) h = (
  (λ e. absurd (omega arith)),
  append-HasNoSlash name (b'}' ∷ []) h ((λ e. absurd (omega arith)), tt),
)

map-show_segment-HasNoSlash :
    (segs : List Segment) → All IsPlain segs → All HasNoSlash (map show_segment segs)
map-show_segment-HasNoSlash [] h = tt
map-show_segment-HasNoSlash (seg ∷ segs) (p, h) =
    (show_segment-HasNoSlash seg p, map-show_segment-HasNoSlash segs h)

-- AddRoute compiles the template of a list of plain segments, the last one not empty, to these
-- very segments, and appends the route behind those that were added before.
pub add_route-template :
    {R : Type 0} (routes : List (Route R)) (method : ℕ) (segs : List Segment)
    (handler : HandlerFunc R)
    → All IsPlain segs
    → EndsFilled (map show_segment segs)
    → add_route routes method (template segs) handler
      ≡ routes ++ (compiled method segs handler ∷ [])
unfolding add_route discard_leading_empty_string
add_route-template routes method segs handler plain filled =
    rw
      (parsed_segments-join (map show_segment segs) (map-show_segment-HasNoSlash segs plain) filled)
      (ap (λ r. routes ++ (r ∷ [])) (process_segments-extended _ segs plain))

abbrev pub try_extract : List Segment → List Text → PathParams → Option PathParams
try_extract segs values acc =
    try_extract_params (map segment_dynamic segs) (map segment_name segs) values
      (map segment_text segs) acc

-- The loop accepts what matches, and appends the parameters' values to those before.
pub try_extract_complete :
    {segs : List Segment} {values : List Text} {ps : PathParams} (acc : PathParams)
    → Matches segs values ps
    → try_extract segs values acc ≡ some (acc ++ ps)
unfolding try_extract_params
try_extract_complete acc done = ap some (sym (append-nil acc))
try_extract_complete acc (literal text m) = rw (text_eq_refl text) (try_extract_complete acc m)
try_extract_complete acc (capture name value m) =
    try_extract_complete (acc ++ ((name, value) ∷ [])) m
    ∙ ap some (append_assoc acc ((name, value) ∷ []) _)

pub try_extract_sound :
    (segs : List Segment) (values : List Text) (acc out : PathParams)
    → length values ≡ length segs
    → try_extract segs values acc ≡ some out
    → (ps : PathParams) × (out ≡ acc ++ ps) × Matches segs values ps
unfolding try_extract_params
try_extract_sound [] [] acc out n h = ([], cc (append-nil acc), done)
try_extract_sound [] (v ∷ values) acc out n h = absurd (omega arith)
try_extract_sound (seg ∷ segs) [] acc out n h = absurd (omega arith)
try_extract_sound (lit text ∷ segs) (v ∷ values) acc out n h = elim (Bool-cases (text_eq text v)) [
  | inl same ↦
      let (ps, e, m) = try_extract_sound segs values acc out (omega arith) (rw same at h) in
      let same' : text ≡ v = (text_eq_iff text v).0 same in (ps, e, rw (← same') (literal text m))
  | inr other ↦ cc (rw other at h)
]
try_extract_sound (param name ∷ segs) (v ∷ values) acc out n h =
    let (ps, e, m) = try_extract_sound segs values (acc ++ ((name, v) ∷ [])) out (omega arith) h in
    ((name, v) ∷ ps, e ∙ append_assoc acc ((name, v) ∷ []) ps, capture name v m)
