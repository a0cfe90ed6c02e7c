-- ===== src/Domain/Tag/Shape.antt =====
-- Which texts the tag validation accepts, and which generated tags are among them.
use chat_system.Prelude.{
  ℕ, zero, suc, ◌≤◌, ◌≡◌, refl, sym, ap, ◌∙◌, ◌≢◌, ◌↔◌, inl, inr, true, none, some, [], ◌∷◌, ◌++◌,
  Text, length, take, drop, All, length-append, arith, Option-cases,
}
use chat_system.Exceptions.{returns}
use chat_system.Domain.Tag.{
  UserTag, find_char, all_digits, validate, validate_and_create, format_four, generate_from_login,
  min_number, max_number,
}

abbrev pub HasNoSeparator : Text → Type 0
HasNoSeparator login = All (λ c. c ≢ b'#') login

-- A login without a separator, the first separator, and four digits.
pub record IsTagOf (login suffix value : Text) : Type 0 where
  pub split : value ≡ login ++ (b'#' ∷ suffix)
  pub plain : HasNoSeparator login
  pub login_given : 1 ≤ length login
  pub suffix_sized : length suffix ≡ 4
  pub digits : All (λ c. (b'0' ≤ c) × (c ≤ b'9')) suffix

find_char-cut :
    (login suffix : Text)
    → HasNoSeparator login
    → find_char b'#' (login ++ (b'#' ∷ suffix)) ≡ some (length login)
unfolding find_char
find_char-cut [] suffix h = refl
find_char-cut (c ∷ login) suffix (here, rest) = ground (arith, find_char-cut login suffix rest)

drop-cut :
    (login suffix : Text) (c : ℕ) → drop (suc (length login)) (login ++ (c ∷ suffix)) ≡ suffix
drop-cut [] suffix c = refl
drop-cut (d ∷ login) suffix c = drop-cut login suffix c

-- The separator that is found is the first one.
find_char-eq-some :
    (s : Text) (n : ℕ)
    → find_char b'#' s ≡ some n
    → (s ≡ take n s ++ (b'#' ∷ drop (suc n) s))
      × HasNoSeparator (take n s)
      × (length (take n s) ≡ n)
unfolding find_char
find_char-eq-some [] n h = cc
find_char-eq-some (c ∷ s) zero h = ground arith
find_char-eq-some (c ∷ s) (suc n) h = ground (arith, find_char-eq-some s n)

all_digits_iff : (s : Text) → (all_digits s ≡ true) ↔ All (λ c. (b'0' ≤ c) × (c ≤ b'9')) s
unfolding all_digits
all_digits_iff [] = ground arith
all_digits_iff (c ∷ s) = ground (arith, all_digits_iff s)

-- Each step of the validation, for a separator that was found.
validate_found :
    (value : Text) (n : ℕ)
    → find_char b'#' value ≡ some n
    → (validate value ≡ returns tt)
      ↔ ((1 ≤ n) × (length (drop (suc n) value) ≡ 4) × (all_digits (drop (suc n) value) ≡ true))
unfolding validate
validate_found [] n found = cc
validate_found (c ∷ s) n found = rw (found) (ground arith)

validate_missing : (value : Text) → find_char b'#' value ≡ none → validate value ≢ returns tt
unfolding validate
validate_missing [] missing h = cc
validate_missing (c ∷ s) missing h = ground arith

validate-IsTagOf :
    (value : Text)
    → validate value ≡ returns tt
    → (login : Text) × (suffix : Text) × IsTagOf login suffix value
validate-IsTagOf value h = elim (Option-cases (find_char b'#' value)) [
  | inl missing ↦ absurd (validate_missing value missing h)
  | inr (n, found) ↦
      let (given, sized, digits) = (validate_found value n found).0 h in
      let (cut, plain, at) = find_char-eq-some value n found in
      (
        take n value,
        drop (suc n) value,
        record {
          split = cut;
          plain = plain;
          login_given = omega arith;
          suffix_sized = sized;
          digits = (all_digits_iff _).0 digits;
        },
      )
]

IsTagOf-validate :
    (login suffix value : Text) → IsTagOf login suffix value → validate value ≡ returns tt
IsTagOf-validate login suffix value t =
    let found : find_char b'#' value ≡ some (length login) =
      rw t.split (find_char-cut login suffix t.plain) in
    let cut : drop (suc (length login)) value ≡ suffix = rw t.split (drop-cut login suffix b'#') in
    (validate_found value (length login) found).1 (
      t.login_given,
      ap length cut ∙ t.suffix_sized,
      ap all_digits cut ∙ (all_digits_iff suffix).1 t.digits,
    )

-- The validation accepts exactly the texts with a first separator behind a non-empty login and
-- before exactly four digits, and wraps them unchanged.
pub validate_and_create_iff :
    (value : Text) (tag : UserTag)
    → (validate_and_create value ≡ returns tag)
      ↔ ((tag.value ≡ value) × ((login : Text) × (suffix : Text) × IsTagOf login suffix value))
unfolding validate_and_create
validate_and_create_iff value tag =
    (accepted, λ (same, (login, suffix, t)). created same (IsTagOf-validate login suffix value t))
  where
    accepted :
        validate_and_create value ≡ returns tag
        → (tag.value ≡ value) × ((login : Text) × (suffix : Text) × IsTagOf login suffix value)
    accepted h = (ground arith, validate-IsTagOf value (ground arith))

    created :
        tag.value ≡ value → validate value ≡ returns tt → validate_and_create value ≡ returns tag
    created same h = rw h (ground arith)

take-cut : (login rest : Text) → take (length login) (login ++ rest) ≡ login
take-cut [] rest = refl
take-cut (c ∷ login) rest = ap (◌∷◌ c) (take-cut login rest)

format_four-digits :
    (n : ℕ) → min_number ≤ n → n ≤ max_number → All (λ c. (b'0' ≤ c) × (c ≤ b'9')) (format_four n)
unfolding format_four
format_four-digits n lo hi = omega arith

-- The login in front of any four bytes is the one that the shape names.
IsTagOf-login :
    (login l s : Text) (a b c d : ℕ)
    → IsTagOf l s (login ++ (b'#' ∷ a ∷ b ∷ c ∷ d ∷ []))
    → l ≡ login
IsTagOf-login login l s a b c d t =
    let tail : Text = b'#' ∷ a ∷ b ∷ c ∷ d ∷ [] in
    let whole : length (login ++ tail) ≡ length (l ++ (b'#' ∷ s)) = ap length t.split in
    let same : length l ≡ length login =
      omega (arith, length-append login tail, length-append l (b'#' ∷ s), t.suffix_sized) in
    sym (take-cut l (b'#' ∷ s))
    ∙ ap (take (length l)) (sym t.split)
    ∙ ap (λ n. take n (login ++ tail)) same
    ∙ take-cut login tail

-- A tag generated with a number from 1000 to 9999 is valid exactly if the login is not empty and
-- holds no separator.
pub validate_and_create-generate_from_login_iff :
    (login : Text) (n : ℕ)
    → min_number ≤ n
    → n ≤ max_number
    → (validate_and_create (generate_from_login login n).value
        ≡ returns (generate_from_login login n))
      ↔ ((1 ≤ length login) × HasNoSeparator login)
unfolding generate_from_login
validate_and_create-generate_from_login_iff login n lo hi = (genuine, accepted)
  where
    value : Text
    value = login ++ (b'#' ∷ format_four n)

    genuine :
        validate_and_create value ≡ returns (record { value = value })
        → (1 ≤ length login) × HasNoSeparator login
    genuine h =
        let (_, (l, s, t)) = (validate_and_create_iff value _).0 h in
        let same : l ≡ login = IsTagOf-login login l s _ _ _ _ t in
        (rw same at t.login_given, rw same at t.plain)

    accepted :
        (1 ≤ length login) × HasNoSeparator login
        → validate_and_create value ≡ returns (record { value = value })
    accepted (given, plain) = (validate_and_create_iff value _).1 (
      refl,
      (
        login,
        format_four n,
        record {
          split = refl;
          plain = plain;
          login_given = given;
          suffix_sized = refl;
          digits = format_four-digits n lo hi;
        },
      ),
    )
