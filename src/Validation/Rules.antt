-- ===== src/Validation/Rules.antt =====
-- Core/Include/Validation/Rules: a rule is its capacity and the check that it runs.
pub mod Laws
use chat_system.Prelude.{
  ℕ, zero, suc, ◌+◌, ◌-◌, ◌*◌, ◌/◌, ◌%◌, ◌≤◌, ◌<◌, min, ◌≡◌, refl, sym, ap, ◌∙◌, ◌≢◌, ◌↔◌, ◌⊎◌, inl,
  inr, Bool, true, false, not, ◌&&◌, ◌||◌, Option, none, some, List, [], ◌∷◌, ◌++◌, map, append-nil,
  append_assoc, String, Text, codes, text_eq, text_eq_iff, text_eq_refl, length, set, take, drop,
  replicate, All, length-append, length-set, length-take, length-replicate, arith, ltb, leb, ◌==◌,
  if◌then◌else◌, Bool-cases, Option-cases, ltb→lt, lt→ltb, leb→le, ==_iff, tests,
}
use chat_system.Validation.Outcome.{
  ValidationError, ValidationResult, blank, empty_result, ok, add_error, recorded, IsWithin,
  empty_result-IsWithin, add_error-IsWithin, add_error-count, recorded-add_error, ok-recorded_iff,
}

pub record Rule (A : Type 0) : Type 0 where
  pub capacity : ℕ
  pub check : A → ValidationResult

-- Every result of a rule has the rule's capacity and stays within it.
abbrev pub IsBounded : {A : Type 0} → Rule A → Type 0
IsBounded {A} r = (a : A) → IsWithin r.capacity (r.check a)

-- Every rule but the composed ones adds one error, without a field name, if its test fails.
unfoldable pub error_if : Bool → String → ValidationResult
error_if failed message =
    if failed
    then add_error (empty_result 1) (record { field = ""; message = message })
    else empty_result 1

-- GetLength of a sized range.
abbrev pub get_length {ℓ} : {A : Type ℓ} → List A → ℕ
get_length xs = length xs

module _ {A : Type 0} where
  abbrev pub not_empty : Rule (List A)
  not_empty = record { capacity = 1; check = λ v. error_if (get_length v == 0) "Must not be empty" }

  abbrev pub min_length : ℕ → Rule (List A)
  min_length m = record {
    capacity = 1;
    check = λ v. error_if (ltb (get_length v) m) "Is too short";
  }

  abbrev pub max_length : ℕ → Rule (List A)
  max_length m = record { capacity = 1; check = λ v. error_if (ltb m (get_length v)) "Is too long" }

-- A time point is its distance from the epoch, which is the default-constructed one.
abbrev pub time_point_must_be_set : Rule ℕ
time_point_must_be_set = record {
  capacity = 1;
  check = λ tp. error_if (tp == 0) "Has to be set to a concrete time point";
}

abbrev pub is_less_than_inclusive : ℕ → Rule ℕ
is_less_than_inclusive threshold = record {
  capacity = 1;
  check = λ v. error_if (not (leb v threshold)) "Must be less than or equal to the threshold";
}

module _ {A : Type 0} where
  abbrev pub true_rule : Rule A
  true_rule = record { capacity = 0; check = λ v. empty_result 0 }

  abbrev pub is_not_null : Rule (Option A)
  is_not_null = record {
    capacity = 1;
    check = λ ptr. error_if (elim ptr [ none ↦ true | some a ↦ false ]) "Must not be null";
  }

  -- The argument is the value's IsValid().
  abbrev pub is_valid : (A → Bool) → Rule A
  is_valid valid = record { capacity = 1; check = λ v. error_if (not (valid v)) "Has to be valid" }

add_errors : ValidationResult → List ValidationError → ValidationResult
add_errors final [] = final
add_errors final (e ∷ es) = add_errors (add_error final e) es

-- WriteAppliedRuleErrors: the first `count` slots, in order.
write_applied_rule_errors : ValidationResult → ValidationResult → ValidationResult
unfolding add_errors
write_applied_rule_errors final applied = add_errors final (recorded applied)

-- `errors[i].field = name`
abbrev pub named : String → ValidationError → ValidationError
named name e = record e { field = name }

abbrev name_first : String → ℕ → List ValidationError → List ValidationError
name_first name zero es = es
name_first name (suc n) [] = []
name_first name (suc n) (e ∷ es) = named name e ∷ name_first name n es

-- The name is written into the first `count` slots.
name_errors : String → ValidationResult → ValidationResult
name_errors name r = record r { errors = name_first name r.count r.errors }

module _ {A : Type 0} where
  unfoldable pub and_rule : Rule A → Rule A → Rule A
  unfolding write_applied_rule_errors
  and_rule left right = record {
    capacity = left.capacity + right.capacity;
    check = λ v.
        let left_result = left.check v in
        let right_result = right.check v in
        write_applied_rule_errors
          (write_applied_rule_errors (empty_result (left.capacity + right.capacity)) left_result)
          right_result;
  }

  -- VALIDATION_BIND_FIELD(Object, Member) | rule, the member given by its reader and its name.
  unfoldable pub bound_rule : {B : Type 0} → (A → B) → String → Rule B → Rule A
  unfolding name_errors
  bound_rule member name rule = record {
    capacity = rule.capacity;
    check = λ object. name_errors name (rule.check (member object));
  }
