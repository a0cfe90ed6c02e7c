-- ===== src/Domain/User/Laws.antt =====
-- What the user validator records and which parameters it accepts.
use chat_system.Prelude.{◌≤◌, ◌≡◌, ◌↔◌, true, List, [], ◌++◌, codes, length, arith, ltb, ◌==◌}
use chat_system.Validation.Outcome.{ValidationError, ok, summary}
use chat_system.Validation.Rules.{bound_rule}
use chat_system.Exceptions.{returns, throws, invalid_argument}
use chat_system.Validation.Rules.Laws.{
  when, Records, error_if-Records, and_rule-Records, bound_rule-Records, naming, Records-ok_iff,
  Records-cast,
}
use chat_system.Domain.User.{
  UserParams, User, login_rule, user_rules, validate, create, reconstitute,
}

-- The errors of a user's parameters, in the order of the fields.
abbrev pub user_errors : UserParams → List ValidationError
user_errors p =
    when (length p.login == 0) "login" "Must not be empty"
    ++ (when (ltb (length p.login) 3) "login" "Is too short"
        ++ (when (ltb 32 (length p.login)) "login" "Is too long"
            ++ (when (length p.password_hash == 0) "password_hash" "Must not be empty"
                ++ (when (length p.public_key == 0) "public_key" "Must not be empty"
                    ++ when (p.created_at == 0) "created_at"
                        "Has to be set to a concrete time point"))))

login_rule-Records : Records (bound_rule (λ (p : UserParams). p.login) "login" login_rule) (λ p.
    when (length p.login == 0) "login" "Must not be empty"
    ++ (when (ltb (length p.login) 3) "login" "Is too short"
        ++ when (ltb 32 (length p.login)) "login" "Is too long"))
unfolding login_rule
login_rule-Records =
    Records-cast
      (bound_rule-Records (λ p. p.login) "login"
        (and_rule-Records (and_rule-Records (error_if-Records _ _) (error_if-Records _ _))
          (error_if-Records _ _)))
      (λ p. simp naming)

user_rules-Records : Records user_rules (λ p. user_errors p)
unfolding user_rules
user_rules-Records =
    Records-cast
      (and_rule-Records
        (and_rule-Records
          (and_rule-Records login_rule-Records
            (bound_rule-Records (λ p. p.password_hash) "password_hash" (error_if-Records _ _)))
          (bound_rule-Records (λ p. p.public_key) "public_key" (error_if-Records _ _)))
        (bound_rule-Records (λ p. p.created_at) "created_at" (error_if-Records _ _)))
      (λ p. simp naming)

-- What a user's parameters have to satisfy.
pub record IsAcceptable (p : UserParams) : Type 0 where
  pub login_long_enough : 3 ≤ length p.login
  pub login_short_enough : length p.login ≤ 32
  pub hash_given : 1 ≤ length p.password_hash
  pub key_given : 1 ≤ length p.public_key
  pub dated : 1 ≤ p.created_at

user_errors-eq-nil_iff : (p : UserParams) → (user_errors p ≡ []) ↔ IsAcceptable p
user_errors-eq-nil_iff p = ground arith

pub validate_user_iff : (p : UserParams) → (ok (validate p) ≡ true) ↔ IsAcceptable p
unfolding validate
validate_user_iff p =
    let (to, from) = Records-ok_iff user_rules-Records p in
    let (to', from') = user_errors-eq-nil_iff p in (λ e. to' (to e), λ a. from (from' a))

pub create_user_iff :
    (p : UserParams) (u : User) → (create p ≡ returns u) ↔ (IsAcceptable p × (u ≡ reconstitute p))
unfolding create reconstitute
create_user_iff p u = ground (arith, validate_user_iff p)

pub create_user-throws :
    (p : UserParams)
    → ¬ IsAcceptable p
    → create p ≡ throws (invalid_argument (codes (summary (validate p))))
unfolding create
create_user-throws p h = ground (arith, validate_user_iff p)
