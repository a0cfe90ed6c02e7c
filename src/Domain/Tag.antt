-- ===== src/Domain/Tag.antt =====
-- Core/Include/Tags/user_tag.h and Server/Include/Tags/tags.h.
pub mod Shape
use chat_system.Prelude.{
  ℕ, zero, suc, ◌+◌, ◌-◌, ◌*◌, ◌/◌, ◌%◌, ◌≤◌, ◌<◌, min, ◌≡◌, refl, sym, ap, ◌∙◌, ◌≢◌, ◌↔◌, ◌⊎◌, inl,
  inr, Bool, true, false, not, ◌&&◌, ◌||◌, Option, none, some, List, [], ◌∷◌, ◌++◌, map, append-nil,
  append_assoc, String, Text, codes, text_eq, text_eq_iff, text_eq_refl, length, set, take, drop,
  replicate, All, length-append, length-set, length-take, length-replicate, arith, ltb, leb, ◌==◌,
  if◌then◌else◌, Bool-cases, Option-cases, ltb→lt, lt→ltb, leb→le, ==_iff, tests,
}
use mathlib.Core.Option
use chat_system.Exceptions.{Result, returns, throws, invalid_argument, ◌>>=◌, ◌>>◌}

pub record UserTag : Type 0 where
  pub value : Text

abbrev separator_char : ℕ
separator_char = b'#'

abbrev pub min_login_len : ℕ
min_login_len = 1

abbrev pub suffix_len : ℕ
suffix_len = 4

-- std::string::find of one character; npos is `none`.
find_char : ℕ → Text → Option ℕ
find_char c [] = none
find_char c (d ∷ s) = if d == c then some 0 else Option.map suc (find_char c s)

abbrev pub is_digit : ℕ → Bool
is_digit c = leb b'0' c && leb c b'9'

all_digits : Text → Bool
all_digits [] = true
all_digits (c ∷ s) = is_digit c && all_digits s

validate_non_empty : Text → Result (Unit {0})
validate_non_empty [] = throws (invalid_argument (codes "Tag cannot be empty"))
validate_non_empty (c ∷ s) = returns tt

validate_separator_presence : Option ℕ → Result ℕ
validate_separator_presence none = throws (invalid_argument (codes "Tag must contain '#'"))
validate_separator_presence (some separator) = returns separator

validate_login_part_non_empty : ℕ → Result (Unit {0})
validate_login_part_non_empty separator =
    if ltb separator min_login_len
    then throws (invalid_argument (codes "Tag login part cannot be empty"))
    else returns tt

validate_suffix : ℕ → Text → Result (Unit {0})
validate_suffix separator tag_value =
    let suffix = drop (suc separator) tag_value in
    if not (length suffix == suffix_len) || not (all_digits suffix)
    then throws (invalid_argument (codes "Tag suffix must be exactly 4 digits long"))
    else returns tt

validate : Text → Result (Unit {0})
unfolding find_char validate_non_empty validate_separator_presence validate_login_part_non_empty
    validate_suffix all_digits
validate tag_value = do
  validate_non_empty tag_value
  separator ← validate_separator_presence (find_char separator_char tag_value)
  validate_login_part_non_empty separator
  validate_suffix separator tag_value

unfoldable pub validate_and_create : Text → Result UserTag
unfolding validate
validate_and_create value = do validate value; returns (record { value = value })

unfoldable pub reconstitute : Text → UserTag
reconstitute value = record { value = value }

-- std::format("{}", n) of a number of four digits.
format_four : ℕ → Text
format_four n = (48 + n / 1000) ∷ (48 + n / 100 % 10) ∷ (48 + n / 10 % 10) ∷ (48 + n % 10) ∷ []

abbrev pub min_number : ℕ
min_number = 1000

abbrev pub max_number : ℕ
max_number = 9999

-- The number is the one that the distribution over 1000 to 9999 draws.
unfoldable pub generate_from_login : Text → ℕ → UserTag
unfolding format_four reconstitute
generate_from_login login number = reconstitute (login ++ (separator_char ∷ format_four number))
