-- ===== src/Validation/Rules/Laws.antt =====
-- What the composed rules of and_rule.h and bound_rule.h record.
use mathlib.Core.Path.{ap₂}
use mathlib.Core.List.{map-append}
use chat_system.Prelude.{
  ℕ, zero, suc, ◌+◌, ◌-◌, ◌*◌, ◌/◌, ◌%◌, ◌≤◌, ◌<◌, min, ◌≡◌, refl, sym, ap, ◌∙◌, ◌≢◌, ◌↔◌, ◌⊎◌, inl,
  inr, Bool, true, false, not, ◌&&◌, ◌||◌, Option, none, some, List, [], ◌∷◌, ◌++◌, map, append-nil,
  append_assoc, String, Text, codes, text_eq, text_eq_iff, text_eq_refl, length, set, take, drop,
  replicate, All, length-append, length-set, length-take, length-replicate, arith, ltb, leb, ◌==◌,
  if◌then◌else◌, Bool-cases, Option-cases, ltb→lt, lt→ltb, leb→le, ==_iff, tests,
}
use chat_system.Validation.Outcome.{
  ValidationError, ValidationResult, empty_result, ok, add_error, recorded, IsWithin,
  empty_result-IsWithin, add_error-IsWithin, add_error-count, recorded-add_error, ok-recorded_iff,
}
use chat_system.Validation.Rules.{
  Rule, IsBounded, error_if, add_errors, named, name_first, and_rule, bound_rule,
}

recorded-empty_result : (n : ℕ) → recorded (empty_result n) ≡ []
unfolding empty_result
recorded-empty_result n = refl

-- The errors of a failed test, if it failed.
abbrev pub when : Bool → String → String → List ValidationError
when failed name message = if failed then record { field = name; message = message } ∷ [] else []

pub error_if-IsWithin : (b : Bool) (m : String) → IsWithin 1 (error_if b m)
unfolding error_if
error_if-IsWithin b m = ground (
  arith,
  empty_result-IsWithin 1,
  add_error-IsWithin 1 (empty_result 1) (record { field = ""; message = m }),
)

pub recorded-error_if : (b : Bool) (m : String) → recorded (error_if b m) ≡ when b "" m
unfolding error_if add_error empty_result
recorded-error_if true m = refl
recorded-error_if false m = refl

add_errors-IsWithin :
    (n : ℕ) (r : ValidationResult) (es : List ValidationError)
    → IsWithin n r
    → IsWithin n (add_errors r es)
unfolding add_errors
add_errors-IsWithin n r [] h = h
add_errors-IsWithin n r (e ∷ es) h =
    add_errors-IsWithin n (add_error r e) es (add_error-IsWithin n r e h)

-- Where there is room for all, none is dropped.
recorded-add_errors :
    (n : ℕ) (r : ValidationResult) (es : List ValidationError)
    → IsWithin n r
    → r.count + length es ≤ n
    → (recorded (add_errors r es) ≡ recorded r ++ es)
      × ((add_errors r es).count ≡ r.count + length es)
unfolding add_errors
recorded-add_errors n r [] h room = (sym (append-nil _), omega arith)
recorded-add_errors n r (e ∷ es) h room =
    let sized : length r.errors ≡ n = h.sized in
    let fits : r.count < length r.errors = omega arith in
    let count : (add_error r e).count ≡ suc r.count = add_error-count r e fits in
    let (here, total) =
      recorded-add_errors n (add_error r e) es (add_error-IsWithin n r e h) (omega arith) in
    (
      here
          ∙ ap (λ l. l ++ es) (recorded-add_error r e fits)
          ∙ append_assoc (recorded r) (e ∷ []) es,
      omega arith,
    )

length-recorded : (n : ℕ) (r : ValidationResult) → IsWithin n r → length (recorded r) ≡ r.count
length-recorded n r h = omega (arith, length-take r.count r.errors, h.sized, h.counted)

length-name_first :
    (name : String) (n : ℕ) (es : List ValidationError) → length (name_first name n es) ≡ length es
length-name_first name zero es = refl
length-name_first name (suc n) [] = refl
length-name_first name (suc n) (e ∷ es) = ap suc (length-name_first name n es)

take-name_first :
    (name : String) (n : ℕ) (es : List ValidationError)
    → take n (name_first name n es) ≡ map (named name) (take n es)
take-name_first name zero es = refl
take-name_first name (suc n) [] = refl
take-name_first name (suc n) (e ∷ es) = ap (◌∷◌ (named name e)) (take-name_first name n es)

module _ {A : Type 0} where
  pub and_rule-IsBounded : (l r : Rule A) → IsBounded (and_rule l r)
  unfolding and_rule
  and_rule-IsBounded l r a =
      add_errors-IsWithin _ _ (recorded (r.check a))
        (add_errors-IsWithin _ _ (recorded (l.check a)) (empty_result-IsWithin _))

  -- A rule composed of two bounded rules records the errors of both, the left ones first, and
  -- drops none.
  pub recorded-and_rule :
      (l r : Rule A)
      → IsBounded l
      → IsBounded r
      → (a : A) → recorded ((and_rule l r).check a) ≡ recorded (l.check a) ++ recorded (r.check a)
  unfolding and_rule empty_result
  recorded-and_rule l r bl br a =
      let n : ℕ = l.capacity + r.capacity in
      let start : ValidationResult = empty_result n in
      let ll = length-recorded l.capacity (l.check a) (bl a) in
      let lr = length-recorded r.capacity (r.check a) (br a) in
      let cl : (l.check a).count ≤ l.capacity = (bl a).counted in
      let cr : (r.check a).count ≤ r.capacity = (br a).counted in
      let empty : start.count ≡ 0 = refl in
      let (first, count) =
        recorded-add_errors n start (recorded (l.check a)) (empty_result-IsWithin n)
          (omega arith) in
      let within = add_errors-IsWithin n start (recorded (l.check a)) (empty_result-IsWithin n) in
      let (second, _) =
        recorded-add_errors n (add_errors start (recorded (l.check a))) (recorded (r.check a))
          within (omega arith) in
      second ∙ ap (λ es. es ++ recorded (r.check a)) first

  module _ {B : Type 0} (member : A → B) (name : String) (rule : Rule B)
      (bounded : IsBounded rule) where
    pub bound_rule-IsBounded : IsBounded (bound_rule member name rule)
    unfolding bound_rule
    bound_rule-IsBounded a = record {
      sized = length-name_first name _ _ ∙ (bounded (member a)).sized;
      counted = (bounded (member a)).counted;
    }

    -- A bounded rule that is bound to a field records the same errors, each with the field's name.
    pub recorded-bound_rule :
        (a : A)
        → recorded ((bound_rule member name rule).check a)
          ≡ map (named name) (recorded (rule.check (member a)))
    unfolding bound_rule
    recorded-bound_rule a = take-name_first name _ _

-- A rule that records exactly the given errors.
pub record Records {A : Type 0} (r : Rule A) (f : A → List ValidationError) : Type 0 where
  pub bounded : IsBounded r
  pub exact : (a : A) → recorded (r.check a) ≡ f a

module _ {A : Type 0} where
  pub error_if-Records :
      (failed : A → Bool) (message : String)
      → Records
          (record { capacity = 1; check = λ a. error_if (failed a) message })
          (λ a. when (failed a) "" message)
  error_if-Records failed message = record {
    bounded = λ a. error_if-IsWithin (failed a) message;
    exact = λ a. recorded-error_if (failed a) message;
  }

  pub and_rule-Records :
      {l r : Rule A} {f g : A → List ValidationError}
      → Records l f
      → Records r g
      → Records (and_rule l r) (λ a. f a ++ g a)
  and_rule-Records {l} {r} hl hr = record {
    bounded = and_rule-IsBounded l r;
    exact =
        λ a. recorded-and_rule l r hl.bounded hr.bounded a ∙ ap₂ (◌++◌) (hl.exact a) (hr.exact a);
  }

  pub bound_rule-Records :
      {B : Type 0} {r : Rule B} {f : B → List ValidationError} (member : A → B) (name : String)
      → Records r f
      → Records (bound_rule member name r) (λ a. map (named name) (f (member a)))
  bound_rule-Records {r} member name h = record {
    bounded = bound_rule-IsBounded member name r h.bounded;
    exact = λ a.
        recorded-bound_rule member name r h.bounded a ∙ ap (map (named name)) (h.exact (member a));
  }

pub Records-cast :
    {A : Type 0} {r : Rule A} {f g : A → List ValidationError}
    → Records r f
    → ((a : A) → f a ≡ g a)
    → Records r g
Records-cast h same = record { bounded = h.bounded; exact = λ a. h.exact a ∙ same a }

pub map-named-when :
    (name : String) (b : Bool) (message : String)
    → map (named name) (when b "" message) ≡ when b name message
map-named-when name true message = refl
map-named-when name false message = refl

pub ruleset naming = (map-append, map-named-when, append_assoc)

-- The check passes exactly if no error is recorded.
pub Records-ok_iff :
    {A : Type 0} {r : Rule A} {f : A → List ValidationError}
    → Records r f
    → (a : A) → (ok (r.check a) ≡ true) ↔ (f a ≡ [])
Records-ok_iff {r} h a =
    let (to, from) = ok-recorded_iff r.capacity (r.check a) (h.bounded a) in
    (λ e. sym (h.exact a) ∙ to e, λ e. from (h.exact a ∙ e))
