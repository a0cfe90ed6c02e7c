-- ===== src/Domain/Session/Laws.antt =====
-- What the session validator records and which parameters it accepts.
use chat_system.Prelude.{
  ℕ, ◌+◌, ◌≤◌, ◌≡◌, ◌↔◌, true, not, List, [], ◌++◌, length, arith, ltb, leb, ◌==◌,
}
use chat_system.Validation.Outcome.{ValidationError, ok, recorded}
use chat_system.Exceptions.{returns}
use chat_system.Validation.Rules.Laws.{
  when, Records, error_if-Records, and_rule-Records, bound_rule-Records, naming, Records-ok_iff,
  Records-cast,
}
use chat_system.Domain.Session.{
  SessionParams, Session, session_rules, validate, create, reconstitute, is_expired, refresh,
}

abbrev pub session_errors : SessionParams → List ValidationError
session_errors p =
    when (length p.token == 0) "token" "Must not be empty"
    ++ (when (ltb (length p.token) 32) "token" "Is too short"
        ++ (when (p.expires_at == 0) "expires_at" "Has to be set to a concrete time point"
            ++ (when (p.created_at == 0) "created_at" "Has to be set to a concrete time point"
                ++ when (not (leb p.created_at p.expires_at)) "created_at"
                    "Must be less than or equal to the threshold")))

-- The rules for a given threshold of the creation time.
abbrev errors_before : ℕ → SessionParams → List ValidationError
errors_before expires_at p =
    when (length p.token == 0) "token" "Must not be empty"
    ++ (when (ltb (length p.token) 32) "token" "Is too short"
        ++ (when (p.expires_at == 0) "expires_at" "Has to be set to a concrete time point"
            ++ (when (p.created_at == 0) "created_at" "Has to be set to a concrete time point"
                ++ when (not (leb p.created_at expires_at)) "created_at"
                    "Must be less than or equal to the threshold")))

session_rules-Records :
    (expires_at : ℕ) → Records (session_rules expires_at) (λ p. errors_before expires_at p)
unfolding session_rules
session_rules-Records expires_at =
    Records-cast
      (and_rule-Records
        (and_rule-Records
          (bound_rule-Records (λ p. p.token) "token"
            (and_rule-Records (error_if-Records _ _) (error_if-Records _ _)))
          (bound_rule-Records (λ p. p.expires_at) "expires_at" (error_if-Records _ _)))
        (bound_rule-Records (λ p. p.created_at) "created_at"
          (and_rule-Records (error_if-Records _ _) (error_if-Records _ _))))
      (λ p. simp naming)

-- SessionValidator::Validate records exactly the errors of session_errors, in that order.
pub recorded-validate_session : (p : SessionParams) → recorded (validate p) ≡ session_errors p
unfolding validate
recorded-validate_session p = (session_rules-Records p.expires_at).exact p

pub record IsAcceptable (p : SessionParams) : Type 0 where
  pub token_long_enough : 32 ≤ length p.token
  pub expires : 1 ≤ p.expires_at
  pub dated : 1 ≤ p.created_at
  pub ordered : p.created_at ≤ p.expires_at

session_errors-eq-nil_iff : (p : SessionParams) → (session_errors p ≡ []) ↔ IsAcceptable p
session_errors-eq-nil_iff p = ground arith

pub validate_session_iff : (p : SessionParams) → (ok (validate p) ≡ true) ↔ IsAcceptable p
unfolding validate
validate_session_iff p =
    let (to, from) = Records-ok_iff (session_rules-Records p.expires_at) p in
    let (to', from') = session_errors-eq-nil_iff p in (λ e. to' (to e), λ a. from (from' a))

-- Session::Create returns the given values exactly if they are acceptable.
pub create_session_iff :
    (p : SessionParams) (s : Session)
    → (create p ≡ returns s) ↔ (IsAcceptable p × (s ≡ reconstitute p))
unfolding create reconstitute
create_session_iff p s = ground (arith, validate_session_iff p)

-- A refreshed session expires at, and not before, the end of the given duration.
pub is_expired-refresh_iff :
    (s : Session) (now duration later : ℕ)
    → (is_expired (refresh s now duration) later ≡ true) ↔ (now + duration ≤ later)
unfolding is_expired refresh
is_expired-refresh_iff s now duration later = ground arith
