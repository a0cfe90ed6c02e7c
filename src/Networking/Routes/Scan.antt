-- ===== src/Networking/Routes/Scan.antt =====
-- A linear search through endpoints, the reference of the loop of RouteRequest.
use mathlib.Core.Option
use chat_system.Prelude.{
  All, ◌≡◌, refl, sym, ◌∙◌, inl, inr, Bool, true, false, not, Option, none, some, List, [], ◌∷◌,
  ◌++◌, map, Text, text_eq, text_eq_iff, text_eq_refl, ◌==◌, if◌then◌else◌, Bool-cases,
  Option-cases, arith,
}
use chat_system.Networking.Http.{Request, Response}
use chat_system.Networking.Router.{PathParams, handle_not_found, find_route}
use chat_system.Networking.Router.Matching.{Segment, lit, param, Matches, done, literal, capture}
use chat_system.Networking.Router.Dispatch.{
  Endpoint, compile, request_segments, find_route-hit, find_route-miss,
}

-- A text is the literal, or the test fails.
pub by_text : (P : Text → Type 0) (word a : Text) → P word → (text_eq word a ≡ false → P a) → P a
by_text P word a same other = elim (Bool-cases (text_eq word a)) [
  | inl h ↦ let e : word ≡ a = (text_eq_iff word a).0 h in rw (sym e) same
  | inr h ↦ other h
]

same_length : List Segment → List Text → Bool
same_length [] [] = true
same_length [] (v ∷ values) = false
same_length (seg ∷ segs) [] = false
same_length (seg ∷ segs) (v ∷ values) = same_length segs values

-- The values of the parameters, if the segments match.
match_segments : List Segment → List Text → Option PathParams
match_segments (lit text ∷ segs) (v ∷ values) =
    let rest = match_segments segs values in if text_eq text v then rest else none
match_segments (param name ∷ segs) (v ∷ values) =
    Option.map (λ ps. (name, v) ∷ ps) (match_segments segs values)
match_segments _ _ = some []

unfoldable pub fits : List Segment → List Text → Option PathParams
unfolding same_length match_segments
fits segs values = elim (same_length segs values) [
  | true ↦ match_segments segs values
  | false ↦ none
]

match_segments_sound :
    (segs : List Segment) (values : List Text) (ps : PathParams)
    → same_length segs values ≡ true
    → match_segments segs values ≡ some ps
    → Matches segs values ps
unfolding match_segments same_length
match_segments_sound [] [] ps l h = let e : [] ≡ ps = cc in rw (sym e) done
match_segments_sound [] (v ∷ values) ps l h = cc
match_segments_sound (seg ∷ segs) [] ps l h = cc
match_segments_sound (lit text ∷ segs) (v ∷ values) ps l h = elim (Bool-cases (text_eq text v)) [
  | inl same ↦
      let e : text ≡ v = (text_eq_iff text v).0 same in
      rw (sym e) (literal text (match_segments_sound segs values ps l (rw same at h)))
  | inr other ↦ cc (rw other at h)
]
match_segments_sound (param name ∷ segs) (v ∷ values) ps l h =
    elim (Option-cases (match_segments segs values)) [
      | inl refused ↦ cc (rw refused at h)
      | inr (qs, accepted) ↦
          let e : (name, v) ∷ qs ≡ ps = cc (rw accepted at h) in
          rw (sym e) (capture name v (match_segments_sound segs values qs l accepted))
    ]

fits_sound :
    (segs : List Segment) (values : List Text) (ps : PathParams)
    → fits segs values ≡ some ps
    → Matches segs values ps
unfolding fits
fits_sound segs values ps h = elim (Bool-cases (same_length segs values)) [
  | inl l ↦ match_segments_sound segs values ps l (rw (fits, l) at h)
  | inr l ↦ cc (rw (fits, l) at h)
]

Matches-same_length :
    {segs : List Segment} {values : List Text} {ps : PathParams}
    → Matches segs values ps
    → same_length segs values ≡ true
unfolding same_length
Matches-same_length done = refl
Matches-same_length (literal text m) = Matches-same_length m
Matches-same_length (capture name value m) = Matches-same_length m

match_segments_complete :
    {segs : List Segment} {values : List Text} {ps : PathParams}
    → Matches segs values ps
    → match_segments segs values ≡ some ps
unfolding match_segments
match_segments_complete done = refl
match_segments_complete (literal text m) = rw (text_eq_refl text) (match_segments_complete m)
match_segments_complete (capture name value m) = rw (match_segments_complete m) refl

fits_complete :
    {segs : List Segment} {values : List Text} {ps : PathParams}
    → Matches segs values ps
    → fits segs values ≡ some ps
unfolding fits
fits_complete m = rw (fits, Matches-same_length m) (match_segments_complete m)

-- The first segment is a literal other than the text.
unfoldable pub starts_otherwise : List Segment → Text → Bool
starts_otherwise (lit text ∷ segs) a = not (text_eq text a)
starts_otherwise _ a = false

pub starts_otherwise-fits :
    (segs : List Segment) (a : Text) (vs : List Text)
    → starts_otherwise segs a ≡ true
    → fits segs (a ∷ vs) ≡ none
unfolding starts_otherwise fits match_segments same_length
starts_otherwise-fits [] a vs h = refl
starts_otherwise-fits (param name ∷ segs) a vs h = cc
starts_otherwise-fits (lit text ∷ segs) a vs h =
    let n : text_eq text a ≡ false = ground arith in
    elim (Bool-cases (same_length segs vs)) [
      | inl l ↦ rw (fits, l, n) refl
      | inr l ↦ rw (fits, l) refl
    ]

-- The first endpoint whose template and method fit.
unfoldable pub scan : {R : Type 0} → (Response → R) → Request → List (Endpoint R) → List Text → R
scan answer req [] values = answer handle_not_found
scan answer req (e ∷ es) values =
    let rest = scan answer req es values in
    elim (fits e.segs values) [
      | none ↦ rest
      | some ps ↦ if req.method == e.method then e.handler req ps else rest
    ]

pub find_route-scan :
    {R : Type 0} (answer : Response → R) (req : Request) (es : List (Endpoint R))
    → find_route answer (map compile es) req (request_segments req)
      ≡ scan answer req es (request_segments req)
unfolding scan
find_route-scan answer req [] = unfold find_route in refl
find_route-scan answer req (e ∷ es) = elim (Option-cases (fits e.segs (request_segments req))) [
  | inl refused ↦
      find_route-miss answer e (map compile es) req (λ ps a. cc (fits_complete a.matched, refused))
      ∙ find_route-scan answer req es
      ∙ rw (scan, refused) refl
  | inr (ps, accepted) ↦ elim (Bool-cases (req.method == e.method)) [
    | inl same ↦
        find_route-hit answer e (map compile es) req ps
          (record { same_method = ground arith; matched = fits_sound _ _ ps accepted })
        ∙ rw (scan, accepted, same) refl
    | inr other ↦
        find_route-miss answer e (map compile es) req
          (λ qs a. let m : req.method ≡ e.method = a.same_method in ground arith)
        ∙ find_route-scan answer req es
        ∙ rw (scan, accepted, other) refl
  ]
]

module _ {R : Type 0} (answer : Response → R) (req : Request) where
  pub scan-none :
      (es : List (Endpoint R)) (vs : List Text)
      → All (λ e. fits e.segs vs ≡ none) es
      → scan answer req es vs ≡ answer handle_not_found
  unfolding scan
  scan-none [] vs h = refl
  scan-none (e ∷ es) vs (refused, h) = rw (scan, refused) (scan-none es vs h)

  pub scan-skip :
      (before es : List (Endpoint R)) (vs : List Text)
      → All (λ e. fits e.segs vs ≡ none) before
      → scan answer req (before ++ es) vs ≡ scan answer req es vs
  unfolding scan
  scan-skip [] es vs h = refl
  scan-skip (e ∷ before) es vs (refused, h) = rw (scan, refused) (scan-skip before es vs h)

pub refused_endpoints :
    {R : Type 0} (es : List (Endpoint R)) (a : Text) (vs : List Text)
    → All (λ e. starts_otherwise e.segs a ≡ true) es
    → All (λ e. fits e.segs (a ∷ vs) ≡ none) es
refused_endpoints [] a vs h = tt
refused_endpoints (e ∷ es) a vs (h, hs) =
    (starts_otherwise-fits e.segs a vs h, refused_endpoints es a vs hs)
