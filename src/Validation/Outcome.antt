-- ===== src/Validation/Outcome.antt =====
-- Core/Include/Validation/Core: ValidationError and the fixed array of ValidationResult<MaxErrors>.
use Prim.Native.String
use chat_system.Prelude.{
  ℕ, zero, suc, ◌≤◌, ◌<◌, ◌≡◌, ◌↔◌, Bool, true, List, [], ◌∷◌, ◌++◌, String, length, set, take,
  replicate, length-set, length-replicate, take-set_next, arith, ltb, ◌==◌, if◌then◌else◌,
}

pub record ValidationError : Type 0 where
  pub field : String
  pub message : String

-- What the default constructor leaves in each slot of the array.
abbrev pub blank : ValidationError
blank = record { field = ""; message = "" }

-- The template argument MaxErrors is the length of the array.
pub record ValidationResult : Type 0 where
  pub errors : List ValidationError
  pub count : ℕ

unfoldable pub empty_result : ℕ → ValidationResult
empty_result max_errors = record { errors = replicate max_errors blank; count = 0 }

unfoldable pub ok : ValidationResult → Bool
ok r = r.count == 0

unfoldable pub add_error : ValidationResult → ValidationError → ValidationResult
add_error r e =
    if ltb r.count (length r.errors)
    then record { errors = set r.errors r.count e; count = suc r.count }
    else r

-- operator<< of ValidationError.
unfoldable pub show_error : ValidationError → String
show_error e =
    String.◌++◌ "Field: '" (String.◌++◌ e.field (String.◌++◌ "', Error Message: " e.message))

show_errors : List ValidationError → String
show_errors [] = ""
show_errors (e ∷ es) = String.◌++◌ (show_error e) (String.◌++◌ "\n" (show_errors es))

-- The loop runs over the whole array, not over the first `count` slots.
unfoldable pub summary : ValidationResult → String
unfolding show_errors
summary r = show_errors r.errors

-- The errors that were recorded.
abbrev pub recorded : ValidationResult → List ValidationError
recorded r = take r.count r.errors

-- A result whose array has the given length and whose count stays within it.
pub record IsWithin (capacity : ℕ) (r : ValidationResult) : Type 0 where
  pub sized : length r.errors ≡ capacity
  pub counted : r.count ≤ capacity

pub empty_result-IsWithin : (n : ℕ) → IsWithin n (empty_result n)
unfolding empty_result
empty_result-IsWithin n = record { sized = length-replicate n blank; counted = omega arith }

pub add_error-IsWithin :
    (n : ℕ) (r : ValidationResult) (e : ValidationError) → IsWithin n r → IsWithin n (add_error r e)
unfolding add_error
add_error-IsWithin n r e h = ground (arith, length-set r.errors r.count e)

pub add_error-count :
    (r : ValidationResult) (e : ValidationError)
    → r.count < length r.errors
    → (add_error r e).count ≡ suc r.count
unfolding add_error
add_error-count r e h = ground arith

pub recorded-add_error :
    (r : ValidationResult) (e : ValidationError)
    → r.count < length r.errors
    → recorded (add_error r e) ≡ recorded r ++ e ∷ []
unfolding add_error
recorded-add_error r e h = ground (arith, take-set_next r.errors r.count e h)

take-eq-nil_iff : (n : ℕ) (es : List ValidationError) → n ≤ length es → (take n es ≡ []) ↔ (n ≡ 0)
take-eq-nil_iff zero es h = ground arith
take-eq-nil_iff (suc n) [] h = absurd (omega arith)
take-eq-nil_iff (suc n) (e ∷ es) h = ground arith

pub ok-recorded_iff :
    (n : ℕ) (r : ValidationResult) → IsWithin n r → (ok r ≡ true) ↔ (recorded r ≡ [])
unfolding ok
ok-recorded_iff n r h = ground (arith, take-eq-nil_iff r.count r.errors)
