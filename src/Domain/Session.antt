-- ===== src/Domain/Session.antt =====
-- Core/Include/Session: SessionParams, Session and SessionValidator.
pub mod Laws
use chat_system.Prelude.{
  ℕ, zero, suc, ◌+◌, ◌-◌, ◌*◌, ◌/◌, ◌%◌, ◌≤◌, ◌<◌, min, ◌≡◌, refl, sym, ap, ◌∙◌, ◌≢◌, ◌↔◌, ◌⊎◌, inl,
  inr, Bool, true, false, not, ◌&&◌, ◌||◌, Option, none, some, List, [], ◌∷◌, ◌++◌, map, append-nil,
  append_assoc, String, Text, codes, text_eq, text_eq_iff, text_eq_refl, length, set, take, drop,
  replicate, All, length-append, length-set, length-take, length-replicate, arith, ltb, leb, ◌==◌,
  if◌then◌else◌, Bool-cases, Option-cases, ltb→lt, lt→ltb, leb→le, ==_iff, tests,
}
use chat_system.Validation.Outcome.{
  ValidationError, ValidationResult, ok, summary, recorded, IsWithin, ok-recorded_iff,
}
use chat_system.Validation.Rules.{
  Rule, not_empty, min_length, max_length, time_point_must_be_set, is_less_than_inclusive, and_rule,
  bound_rule,
}
use chat_system.Exceptions.{Result, returns, throws, invalid_argument}

pub record SessionParams : Type 0 where
  pub id : Text
  pub user_id : Text
  pub token : Text
  pub expires_at : ℕ
  pub created_at : ℕ

pub record Session : Type 0 where
  pub id : Text
  pub user_id : Text
  pub token : Text
  pub expires_at : ℕ
  pub created_at : ℕ

abbrev pub min_token_length : ℕ
min_token_length = 32

token_rule : Rule Text
token_rule = and_rule not_empty (min_length min_token_length)

expires_at_rule : Rule ℕ
expires_at_rule = time_point_must_be_set

created_at_rule : ℕ → Rule ℕ
created_at_rule other = and_rule time_point_must_be_set (is_less_than_inclusive other)

session_rules : ℕ → Rule SessionParams
unfolding token_rule expires_at_rule created_at_rule
session_rules expires_at =
    and_rule
      (and_rule (bound_rule (λ p. p.token) "token" token_rule)
        (bound_rule (λ p. p.expires_at) "expires_at" expires_at_rule))
      (bound_rule (λ p. p.created_at) "created_at" (created_at_rule expires_at))

-- SessionValidator::Validate; the creation rule is built from the expiration time.
unfoldable pub validate : SessionParams → ValidationResult
unfolding session_rules
validate params = (session_rules params.expires_at).check params

construct : SessionParams → Session
construct p = record {
  id = p.id;
  user_id = p.user_id;
  token = p.token;
  expires_at = p.expires_at;
  created_at = p.created_at;
}

-- Session::Create with the SessionValidator.
unfoldable pub create : SessionParams → Result Session
unfolding construct
create params =
    let result = validate params in
    if not (ok result)
    then throws (invalid_argument (codes (summary result)))
    else returns (construct params)

unfoldable pub reconstitute : SessionParams → Session
unfolding construct
reconstitute params = construct params

-- The clock's value is an argument.
unfoldable pub is_expired : Session → ℕ → Bool
is_expired session now = leb session.expires_at now

unfoldable pub refresh : Session → ℕ → ℕ → Session
refresh session now duration = record session { expires_at = now + duration }
