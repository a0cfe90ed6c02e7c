-- ===== src/Services/Message/Announced.antt =====
-- The callbacks that SendChatMessage calls, over the subscribers of the participants.
use chat_system.Prelude.{
  ◌≡◌, refl, ap, ◌∙◌, inl, inr, not, List, [], ◌∷◌, ◌++◌, map, Text, text_eq, Bool-cases, select,
}
use chat_system.Domain.Message.{Message}
use chat_system.Services.Notification.{
  NotificationPayloadVariant, new_message_event, Subscriber, NotificationService,
}
use chat_system.Services.Notification.Laws.{subscribers, notify_map}
use chat_system.Services.Message.{Calls, notify_others}

module _ {C : Type 0} (service : NotificationService C) where
  -- Each subscriber of each user in turn, with the event.
  abbrev pub calls_to : NotificationPayloadVariant → List Text → Calls C
  calls_to payload [] = []
  calls_to payload (user ∷ users) =
      map (λ (s : Subscriber C). (s.callback, payload)) (subscribers service user)
      ++ calls_to payload users

  -- The calls of a new message: those of the subscribers of every user but the sender.
  abbrev pub announced : (message_id sender : Text) → List Text → Calls C
  announced message_id sender users =
      calls_to (new_message_event message_id sender) (select (λ u. not (text_eq u sender)) users)

  pub notify_others-announced :
      (message : Message) (users : List Text)
      → notify_others service message.sender_id message users
        ≡ announced message.id message.sender_id users
  unfolding notify_others
  notify_others-announced message [] = refl
  notify_others-announced message (user ∷ users) =
      let rest = notify_others-announced message users in
      let calls = (notify_map service user [] [] message).0 in
      elim (Bool-cases (text_eq user message.sender_id)) [
        | inl own ↦ rw own rest
        | inr other ↦ rw other (
            ap (λ c. c ++ notify_others service message.sender_id message users) calls
            ∙ ap
                (◌++◌ (
                  map
                    (λ (s : Subscriber C).
                      (s.callback, new_message_event message.id message.sender_id))
                    (subscribers service user)))
                rest)
      ]
