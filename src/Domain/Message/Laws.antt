-- ===== src/Domain/Message/Laws.antt =====
-- What the message validator records and which parameters it accepts.
use chat_system.Prelude.{◌≤◌, ◌≡◌, ◌↔◌, true, List, [], ◌++◌, length, arith, ◌==◌}
use chat_system.Validation.Outcome.{ValidationError, ok, recorded}
use chat_system.Exceptions.{returns}
use chat_system.Validation.Rules.Laws.{
  when, Records, error_if-Records, and_rule-Records, bound_rule-Records, naming, Records-ok_iff,
  Records-cast,
}
use chat_system.Domain.Message.{
  MessageParams, Message, message_rules, validate, create, reconstitute,
}

abbrev pub message_errors : MessageParams → List ValidationError
message_errors p =
    when (p.created_at == 0) "created_at" "Has to be set to a concrete time point"
    ++ when (length p.ciphertext == 0) "ciphertext" "Must not be empty"

message_rules-Records : Records message_rules (λ p. message_errors p)
unfolding message_rules
message_rules-Records =
    Records-cast
      (and_rule-Records (bound_rule-Records (λ p. p.created_at) "created_at" (error_if-Records _ _))
        (bound_rule-Records (λ p. p.ciphertext) "ciphertext" (error_if-Records _ _)))
      (λ p. simp naming)

-- MessageValidator::Validate records exactly the errors of message_errors, in that order.
pub recorded-validate_message : (p : MessageParams) → recorded (validate p) ≡ message_errors p
unfolding validate
recorded-validate_message p = message_rules-Records.exact p

pub record IsAcceptable (p : MessageParams) : Type 0 where
  pub dated : 1 ≤ p.created_at
  pub ciphertext_given : 1 ≤ length p.ciphertext

message_errors-eq-nil_iff : (p : MessageParams) → (message_errors p ≡ []) ↔ IsAcceptable p
message_errors-eq-nil_iff p = ground arith

pub validate_message_iff : (p : MessageParams) → (ok (validate p) ≡ true) ↔ IsAcceptable p
unfolding validate
validate_message_iff p =
    let (to, from) = Records-ok_iff message_rules-Records p in
    let (to', from') = message_errors-eq-nil_iff p in (λ e. to' (to e), λ a. from (from' a))

-- Message::Create returns the given values exactly if they are acceptable.
pub create_message_iff :
    (p : MessageParams) (m : Message)
    → (create p ≡ returns m) ↔ (IsAcceptable p × (m ≡ reconstitute p))
unfolding create reconstitute
create_message_iff p m = ground (arith, validate_message_iff p)
