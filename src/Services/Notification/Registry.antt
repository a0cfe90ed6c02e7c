-- ===== src/Services/Notification/Registry.antt =====
-- The notification service against the list of the registrations that its history leaves.
use chat_system.Prelude.{
  ℕ, ◌+◌, ◌<◌, ◌≡◌, refl, ap, ◌∙◌, not, ◌&&◌, List, [], ◌∷◌, ◌++◌, map, Text, text_eq, text_eq_iff,
  length, arith, ◌==◌, if◌then◌else◌, select,
}
use chat_system.Domain.Message.{Message}
use chat_system.Services.Notification.{
  NotificationPayloadVariant, new_message_event, read_receipt_event, Subscriber,
  NotificationService, id_modulus, new_service, find_entry, subscribe, unsubscribe,
  notify_new_message, notify_read_receipt,
}
use chat_system.Services.Notification.Laws.{
  subscribers, HasDistinctKeys, HasNoEmptyEntry, IsValid, subscribers-subscribe,
  subscribers-unsubscribe, notify_map,
}
use chat_system.Services.Notification.Validity.{
  subscribe-IsValid, unsubscribe-IsValid, new_service-IsValid,
}
use chat_system.Services.Notification.History.{
  Call, subscribes, unsubscribes, step, run, next_subscribe, next_unsubscribe,
  run-new_service-IsValid,
}

pub record Registration (C : Type 0) : Type 0 where
  pub id : ℕ
  pub user_id : Text
  pub observer : C

module _ {C : Type 0} where
  -- The ids count up from the given one; what is removed is gone, and the rest keeps its order.
  abbrev pub registrations : ℕ → List (Call C) → List (Registration C) → List (Registration C)
  registrations next [] so_far = so_far
  registrations next (subscribes user_id observer ∷ calls) so_far =
      registrations (next + 1) calls
        (so_far ++ (record { id = next; user_id = user_id; observer = observer } ∷ []))
  registrations next (unsubscribes user_id i ∷ calls) so_far =
      registrations next calls (select (λ r. not (text_eq r.user_id user_id && (r.id == i))) so_far)

  -- The registrations of the user that the calls leave, oldest first.
  abbrev pub registered : List (Call C) → Text → List (Registration C)
  registered calls user = select (λ r. text_eq r.user_id user) (registrations 1 calls [])

  abbrev pub as_subscriber : Registration C → Subscriber C
  as_subscriber r = record { id = r.id; callback = r.observer }

  abbrev listed : List (Registration C) → Text → List (Subscriber C)
  listed so_far user = map as_subscriber (select (λ r. text_eq r.user_id user) so_far)

  listed-append :
      (so_far : List (Registration C)) (r : Registration C) (user : Text)
      → listed (so_far ++ (r ∷ [])) user ≡ (
          if text_eq r.user_id user
          then listed so_far user ++ (as_subscriber r ∷ [])
          else listed so_far user)
  listed-append [] r user = ground arith
  listed-append (q ∷ so_far) r user = ground (arith, listed-append so_far r user)

  listed-select :
      (user_id other : Text) (i : ℕ) (so_far : List (Registration C))
      → select (λ s. not (text_eq user_id other && (s.id == i))) (listed so_far other)
        ≡ listed (select (λ r. not (text_eq r.user_id user_id && (r.id == i))) so_far) other
  listed-select user_id other i [] = refl
  listed-select user_id other i (r ∷ so_far) = ground (
    arith,
    text_eq_iff r.user_id other,
    text_eq_iff r.user_id user_id,
    text_eq_iff user_id other,
    listed-select user_id other i so_far,
  )

  subscribers-run_from :
      (service : NotificationService C) (calls : List (Call C)) (so_far : List (Registration C))
      → service.next_subscriber_id + length calls < id_modulus
      → IsValid service
      → ((user : Text) → subscribers service user ≡ listed so_far user)
      → (user : Text)
      → subscribers (run service calls) user
        ≡ listed (registrations service.next_subscriber_id calls so_far) user
  unfolding run step
  subscribers-run_from service [] so_far room valid same user = same user
  subscribers-run_from service (subscribes user_id observer ∷ calls) so_far room valid same user =
      let n = service.next_subscriber_id in
      let fits : n + 1 < id_modulus = omega arith in
      let next = next_subscribe service user_id observer fits in
      let r : Registration C = record { id = n; user_id = user_id; observer = observer } in
      subscribers-run_from (subscribe service user_id observer).0 calls (so_far ++ (r ∷ []))
        (omega (arith, next)) (subscribe-IsValid service user_id observer fits valid)
        (λ other. ground (
          arith,
          subscribers-subscribe service user_id other observer,
          listed-append so_far r other,
          same user_id,
          same other,
          text_eq_iff user_id other,
        ))
        user
      ∙ ap (λ k. listed (registrations k calls (so_far ++ (r ∷ []))) user) next
  subscribers-run_from service (unsubscribes user_id i ∷ calls) so_far room valid same user =
      let next = next_unsubscribe service user_id i in
      let left =
        select (λ (r : Registration C). not (text_eq r.user_id user_id && (r.id == i))) so_far in
      subscribers-run_from (unsubscribe service user_id i) calls left (omega (arith, next))
        (unsubscribe-IsValid service user_id i valid)
        (λ other.
          subscribers-unsubscribe service user_id other i valid
          ∙ ap (select (λ s. not (text_eq user_id other && (s.id == i)))) (same other)
          ∙ listed-select user_id other i so_far)
        user
      ∙ ap (λ k. listed (registrations k calls left) user) next

  subscribers-new_service : (user : Text) → subscribers (new_service {C = C}) user ≡ []
  unfolding subscribers new_service find_entry
  subscribers-new_service user = refl

  -- After any history of fewer than 2^64 - 1 calls the map has one entry for each user, none of them
  -- empty, and the subscribers of a user are those that the calls registered for the user and did
  -- not remove, oldest first: each with the id that it was given, the n-th subscription of the history with n,
  -- and with its callback.
  pub subscribers-run :
      (calls : List (Call C)) (user : Text)
      → length calls + 1 < id_modulus
      → HasDistinctKeys (run new_service calls).subscriptions
        × HasNoEmptyEntry (run new_service calls).subscriptions
        × (subscribers (run new_service calls) user ≡ map as_subscriber (registered calls user))
  subscribers-run calls user room =
      let valid = run-new_service-IsValid calls room in
      (
        valid.distinct,
        valid.filled,
        unfold new_service in
            subscribers-run_from new_service calls [] (omega arith) new_service-IsValid
              subscribers-new_service user,
      )

  abbrev call_of : NotificationPayloadVariant → Subscriber C → C × NotificationPayloadVariant
  call_of payload s = (s.callback, payload)

  abbrev pub observed : NotificationPayloadVariant → Registration C → C × NotificationPayloadVariant
  observed payload r = (r.observer, payload)

  calls_of_listed :
      (rs : List (Registration C)) (payload : NotificationPayloadVariant)
      → map (call_of payload) (map as_subscriber rs) ≡ map (observed payload) rs
  calls_of_listed [] payload = refl
  calls_of_listed (r ∷ rs) payload = ap (◌∷◌ (r.observer, payload)) (calls_of_listed rs payload)

  -- After any history of fewer than 2^64 - 1 calls, both notifications call the observers that are
  -- registered for the addressed user and not removed, each once, in the order of subscription, with
  -- the event built from their arguments, and call nobody else.
  pub notify-run :
      (calls : List (Call C)) (user_id message_id reader_id : Text) (message : Message)
      → length calls + 1 < id_modulus
      → (notify_new_message (run new_service calls) user_id message
          ≡ map
              (observed (new_message_event message.id message.sender_id))
              (registered calls user_id))
        × (notify_read_receipt (run new_service calls) user_id message_id reader_id
            ≡ map (observed (read_receipt_event message_id reader_id)) (registered calls user_id))
  notify-run calls user_id message_id reader_id message room =
      let (keys, filled, same) = subscribers-run calls user_id room in
      let (new, read) = notify_map (run new_service calls) user_id message_id reader_id message in
      let event = λ (payload : NotificationPayloadVariant).
        ap (map (call_of payload)) same ∙ calls_of_listed (registered calls user_id) payload in
      (
        new ∙ event (new_message_event message.id message.sender_id),
        read ∙ event (read_receipt_event message_id reader_id),
      )
