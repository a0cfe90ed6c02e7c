-- ===== src/Domain/Message.antt =====
-- Core/Include/Message: MessageParams, Message and MessageValidator.
pub mod Laws
use chat_system.Prelude.{
  ℕ, zero, suc, ◌+◌, ◌-◌, ◌*◌, ◌/◌, ◌%◌, ◌≤◌, ◌<◌, min, ◌≡◌, refl, sym, ap, ◌∙◌, ◌≢◌, ◌↔◌, ◌⊎◌, inl,
  inr, Bool, true, false, not, ◌&&◌, ◌||◌, Option, none, some, List, [], ◌∷◌, ◌++◌, map, append-nil,
  append_assoc, String, Text, codes, text_eq, text_eq_iff, text_eq_refl, length, set, take, drop,
  replicate, All, length-append, length-set, length-take, length-replicate, arith, ltb, leb, ◌==◌,
  if◌then◌else◌, Bool-cases, Option-cases, ltb→lt, lt→ltb, leb→le, ==_iff, tests,
}
use chat_system.Validation.Outcome.{
  ValidationError, ValidationResult, ok, summary, recorded, IsWithin, ok-recorded_iff,
}
use chat_system.Validation.Rules.{
  Rule, not_empty, min_length, max_length, time_point_must_be_set, is_less_than_inclusive, and_rule,
  bound_rule,
}
use chat_system.Exceptions.{Result, returns, throws, invalid_argument}
use chat_system.Domain.Types.{MessageTypeVariant}

pub record MessageParams : Type 0 where
  pub id : Text
  pub chat_id : Text
  pub sender_id : Text
  pub ciphertext : Text
  pub type : MessageTypeVariant
  pub created_at : ℕ

pub record Message : Type 0 where
  pub id : Text
  pub chat_id : Text
  pub sender_id : Text
  pub ciphertext : Text
  pub type : MessageTypeVariant
  pub created_at : ℕ

created_at_rule : Rule ℕ
created_at_rule = time_point_must_be_set

ciphertext_rule : Rule Text
ciphertext_rule = not_empty

message_rules : Rule MessageParams
unfolding created_at_rule ciphertext_rule
message_rules =
    and_rule (bound_rule (λ p. p.created_at) "created_at" created_at_rule)
      (bound_rule (λ p. p.ciphertext) "ciphertext" ciphertext_rule)

-- MessageValidator::Validate.
unfoldable pub validate : MessageParams → ValidationResult
unfolding message_rules
validate params = message_rules.check params

construct : MessageParams → Message
construct p = record {
  id = p.id;
  chat_id = p.chat_id;
  sender_id = p.sender_id;
  ciphertext = p.ciphertext;
  type = p.type;
  created_at = p.created_at;
}

-- Message::Create with the MessageValidator.
unfoldable pub create : MessageParams → Result Message
unfolding construct
create params =
    let result = validate params in
    if not (ok result)
    then throws (invalid_argument (codes (summary result)))
    else returns (construct params)

unfoldable pub reconstitute : MessageParams → Message
unfolding construct
reconstitute params = construct params
