-- ===== src/Domain/Chat/Laws.antt =====
-- Which parameters make a chat, and the participants that it keeps.
use chat_system.Prelude.{◌≤◌, ◌≡◌, ◌↔◌, true, [], arith, ◌==◌}
use chat_system.Validation.Outcome.{ok}
use chat_system.Exceptions.{returns}
use chat_system.Validation.Rules.Laws.{
  when, Records, error_if-Records, bound_rule-Records, naming, Records-ok_iff, Records-cast,
}
use chat_system.Domain.Chat.{ChatParams, Chat, chat_rules, validate, create, reconstitute}

chat_rules-Records :
    Records chat_rules
      (λ p. when (p.created_at == 0) "created_at" "Has to be set to a concrete time point")
unfolding chat_rules
chat_rules-Records =
    Records-cast (bound_rule-Records (λ p. p.created_at) "created_at" (error_if-Records _ _))
      (λ p. simp naming)

dated_iff :
    (p : ChatParams)
    → (when (p.created_at == 0) "created_at" "Has to be set to a concrete time point" ≡ [])
      ↔ (1 ≤ p.created_at)
dated_iff p = ground arith

pub validate_chat_iff : (p : ChatParams) → (ok (validate p) ≡ true) ↔ (1 ≤ p.created_at)
unfolding validate
validate_chat_iff p =
    let (to, from) = Records-ok_iff chat_rules-Records p in
    let (to', from') = dated_iff p in (λ e. to' (to e), λ a. from (from' a))

-- Chat::Create returns the given values exactly if the creation time is set.
pub create_chat_iff :
    (p : ChatParams) (c : Chat)
    → (create p ≡ returns c) ↔ ((1 ≤ p.created_at) × (c ≡ reconstitute p))
unfolding create reconstitute
create_chat_iff p c = ground (arith, validate_chat_iff p)
