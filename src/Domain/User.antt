-- ===== src/Domain/User.antt =====
-- Core/Include/User: UserParams, User and UserValidator. A time point is its distance from the epoch.
pub mod Laws
use chat_system.Prelude.{
  ℕ, zero, suc, ◌+◌, ◌-◌, ◌*◌, ◌/◌, ◌%◌, ◌≤◌, ◌<◌, min, ◌≡◌, refl, sym, ap, ◌∙◌, ◌≢◌, ◌↔◌, ◌⊎◌, inl,
  inr, Bool, true, false, not, ◌&&◌, ◌||◌, Option, none, some, List, [], ◌∷◌, ◌++◌, map, append-nil,
  append_assoc, String, Text, codes, text_eq, text_eq_iff, text_eq_refl, length, set, take, drop,
  replicate, All, length-append, length-set, length-take, length-replicate, arith, ltb, leb, ◌==◌,
  if◌then◌else◌, Bool-cases, Option-cases, ltb→lt, lt→ltb, leb→le, ==_iff, tests,
}
use chat_system.Validation.Outcome.{
  ValidationError, ValidationResult, ok, summary, recorded, IsWithin, ok-recorded_iff,
}
use chat_system.Validation.Rules.{
  Rule, not_empty, min_length, max_length, time_point_must_be_set, is_less_than_inclusive, and_rule,
  bound_rule,
}
use chat_system.Exceptions.{Result, returns, throws, invalid_argument}
use chat_system.Domain.Tag.{UserTag}
use chat_system.Domain.Roles.{UserRoleVariant}

pub record UserParams : Type 0 where
  pub id : Text
  pub tag : UserTag
  pub login : Text
  pub password_hash : Text
  pub public_key : Text
  pub role : UserRoleVariant
  pub created_at : ℕ

pub record User : Type 0 where
  pub id : Text
  pub tag : UserTag
  pub login : Text
  pub password_hash : Text
  pub public_key : Text
  pub role : UserRoleVariant
  pub created_at : ℕ

abbrev pub min_login_length : ℕ
min_login_length = 3

abbrev pub max_login_length : ℕ
max_login_length = 32

login_rule : Rule Text
login_rule =
    and_rule (and_rule not_empty (min_length min_login_length)) (max_length max_login_length)

password_hash_rule : Rule Text
password_hash_rule = not_empty

public_key_rule : Rule Text
public_key_rule = not_empty

created_at_rule : Rule ℕ
created_at_rule = time_point_must_be_set

user_rules : Rule UserParams
unfolding login_rule password_hash_rule public_key_rule created_at_rule
user_rules =
    and_rule
      (and_rule
        (and_rule (bound_rule (λ p. p.login) "login" login_rule)
          (bound_rule (λ p. p.password_hash) "password_hash" password_hash_rule))
        (bound_rule (λ p. p.public_key) "public_key" public_key_rule))
      (bound_rule (λ p. p.created_at) "created_at" created_at_rule)

-- UserValidator::Validate.
unfoldable pub validate : UserParams → ValidationResult
unfolding user_rules
validate params = user_rules.check params

construct : UserParams → User
construct p = record {
  id = p.id;
  tag = p.tag;
  login = p.login;
  password_hash = p.password_hash;
  public_key = p.public_key;
  role = p.role;
  created_at = p.created_at;
}

-- User::Create with the UserValidator.
unfoldable pub create : UserParams → Result User
unfolding construct
create params =
    let result = validate params in
    if not (ok result)
    then throws (invalid_argument (codes (summary result)))
    else returns (construct params)

unfoldable pub reconstitute : UserParams → User
unfolding construct
reconstitute params = construct params

unfoldable pub set_role : User → UserRoleVariant → User
set_role user role = record user { role = role }

unfoldable pub set_login : User → Text → User
set_login user login = record user { login = login }

unfoldable pub set_password_hash : User → Text → User
set_password_hash user hash = record user { password_hash = hash }
