-- ===== src/Domain/Chat.antt =====
-- Core/Include/Chat: ChatParams, Chat and ChatValidator.
pub mod Laws
use chat_system.Prelude.{
  ℕ, zero, suc, ◌+◌, ◌-◌, ◌*◌, ◌/◌, ◌%◌, ◌≤◌, ◌<◌, min, ◌≡◌, refl, sym, ap, ◌∙◌, ◌≢◌, ◌↔◌, ◌⊎◌, inl,
  inr, Bool, true, false, not, ◌&&◌, ◌||◌, Option, none, some, List, [], ◌∷◌, ◌++◌, map, append-nil,
  append_assoc, String, Text, codes, text_eq, text_eq_iff, text_eq_refl, length, set, take, drop,
  replicate, All, length-append, length-set, length-take, length-replicate, arith, ltb, leb, ◌==◌,
  if◌then◌else◌, Bool-cases, Option-cases, ltb→lt, lt→ltb, leb→le, ==_iff, tests,
}
use chat_system.Validation.Outcome.{
  ValidationError, ValidationResult, ok, summary, recorded, IsWithin, ok-recorded_iff,
}
use chat_system.Validation.Rules.{
  Rule, not_empty, min_length, max_length, time_point_must_be_set, is_less_than_inclusive, and_rule,
  bound_rule,
}
use chat_system.Exceptions.{Result, returns, throws, invalid_argument, logic_error}
use chat_system.Domain.Types.{ChatTypeVariant, direct_chat_type}
use chat_system.Domain.Message.{Message}

pub record ChatParams : Type 0 where
  pub id : Text
  pub created_at : ℕ
  pub type : ChatTypeVariant
  pub last_message : Option Message
  pub participant_ids : List Text

pub record Chat : Type 0 where
  pub id : Text
  pub created_at : ℕ
  pub type : ChatTypeVariant
  pub last_message : Option Message
  pub participant_ids : List Text

created_at_rule : Rule ℕ
created_at_rule = time_point_must_be_set

chat_rules : Rule ChatParams
unfolding created_at_rule
chat_rules = bound_rule (λ p. p.created_at) "created_at" created_at_rule

-- ChatValidator::Validate.
unfoldable pub validate : ChatParams → ValidationResult
unfolding chat_rules
validate params = chat_rules.check params

construct : ChatParams → Chat
construct p = record {
  id = p.id;
  created_at = p.created_at;
  type = p.type;
  last_message = p.last_message;
  participant_ids = p.participant_ids;
}

-- Chat::Create with the ChatValidator.
unfoldable pub create : ChatParams → Result Chat
unfolding construct
create params =
    let result = validate params in
    if not (ok result)
    then throws (invalid_argument (codes (summary result)))
    else returns (construct params)

unfoldable pub reconstitute : ChatParams → Chat
unfolding construct
reconstitute params = construct params

unfoldable pub add_participant : Chat → Text → Chat
add_participant chat user_id = record chat {
  participant_ids = chat.participant_ids ++ (user_id ∷ []);
}

-- std::erase of one value.
erase : Text → List Text → List Text
erase user_id [] = []
erase user_id (p ∷ ps) = let rest = erase user_id ps in if text_eq p user_id then rest else p ∷ rest

is_direct : ChatTypeVariant → Bool
is_direct direct_chat_type = true

unfoldable pub remove_participant : Chat → Text → Result Chat
unfolding erase is_direct
remove_participant chat user_id =
    if is_direct chat.type
    then throws (logic_error (codes "Cannot remove participants from a Direct Message."))
    else returns (record chat { participant_ids = erase user_id chat.participant_ids })

unfoldable pub set_last_message : Chat → Message → Chat
set_last_message chat message = record chat { last_message = some message }
