-- ===== src/Services/Notification/History.antt =====
-- Sequences of subscriptions and removals, from the service as it is built.
use chat_system.Prelude.{
  ℕ, ◌+◌, ◌<◌, ◌≡◌, refl, inl, inr, List, [], ◌∷◌, ◌++◌, Text, text_eq, text_eq_iff, text_eq_refl,
  length, arith, Bool-cases,
}
use chat_system.Services.Notification.{
  Subscriber, SubscribersMap, NotificationService, id_modulus, new_service, find_entry,
  erase_subscriber, subscribe, unsubscribe,
}
use chat_system.Services.Notification.Laws.{
  or_nothing, subscribers, IsBelow, IsValid, subscribers-subscribe, subscribers-unsubscribe_erase,
}
use chat_system.Services.Notification.Validity.{
  Below, subscribe-IsValid, unsubscribe-IsValid, new_service-IsValid,
}

pub data Call (C : Type 0) : Type 0 where
  subscribes : Text → C → Call C
  unsubscribes : Text → ℕ → Call C

module _ {C : Type 0} where
  unfoldable pub step : NotificationService C → Call C → NotificationService C
  step service (subscribes user_id observer) = (subscribe service user_id observer).0
  step service (unsubscribes user_id subscriber_id) = unsubscribe service user_id subscriber_id

  unfoldable pub run : NotificationService C → List (Call C) → NotificationService C
  run service [] = service
  run service (call ∷ calls) = run (step service call) calls

  pub next_subscribe :
      (service : NotificationService C) (user_id : Text) (observer : C)
      → service.next_subscriber_id + 1 < id_modulus
      → (subscribe service user_id observer).0.next_subscriber_id ≡ service.next_subscriber_id + 1
  unfolding subscribe
  next_subscribe service user_id observer room = omega arith

  pub next_unsubscribe :
      (service : NotificationService C) (user_id : Text) (subscriber_id : ℕ)
      → (unsubscribe service user_id subscriber_id).next_subscriber_id ≡ service.next_subscriber_id
  unfolding unsubscribe
  next_unsubscribe service user_id subscriber_id = refl

  run-IsValid :
      (service : NotificationService C) (calls : List (Call C))
      → service.next_subscriber_id + length calls < id_modulus
      → IsValid service
      → IsValid (run service calls)
  unfolding run step
  run-IsValid service [] room valid = valid
  run-IsValid service (subscribes user_id observer ∷ calls) room valid =
      let fits : service.next_subscriber_id + 1 < id_modulus = omega arith in
      run-IsValid (subscribe service user_id observer).0 calls
        (omega (arith, next_subscribe service user_id observer fits))
        (subscribe-IsValid service user_id observer fits valid)
  run-IsValid service (unsubscribes user_id subscriber_id ∷ calls) room valid =
      run-IsValid (unsubscribe service user_id subscriber_id) calls
        (omega (arith, next_unsubscribe service user_id subscriber_id))
        (unsubscribe-IsValid service user_id subscriber_id valid)

  pub run-new_service-IsValid :
      (calls : List (Call C)) → length calls + 1 < id_modulus → IsValid (run new_service calls)
  run-new_service-IsValid calls room =
      run-IsValid new_service calls (unfold new_service in omega arith) new_service-IsValid

  Below-find_entry :
      (n : ℕ) (user_id : Text) (m : SubscribersMap C)
      → IsBelow n m
      → Below n (or_nothing (find_entry user_id m))
  unfolding find_entry
  Below-find_entry n user_id [] h = tt
  Below-find_entry n user_id ((key, subs) ∷ m) (b, h) = elim (Bool-cases (text_eq key user_id)) [
    | inl hit ↦ rw hit b
    | inr miss ↦ rw miss (Below-find_entry n user_id m h)
  ]

  erase_subscriber-append :
      (n : ℕ) (subs : List (Subscriber C)) (observer : C)
      → Below n subs
      → erase_subscriber n (subs ++ (record { id = n; callback = observer } ∷ [])) ≡ subs
  unfolding erase_subscriber
  erase_subscriber-append n [] observer h = ground arith
  erase_subscriber-append n (s ∷ subs) observer (p, h) =
      ground (arith, erase_subscriber-append n subs observer h)

  Below-subscribers :
      (service : NotificationService C) (user_id : Text)
      → IsValid service
      → Below service.next_subscriber_id (subscribers service user_id)
  unfolding subscribers
  Below-subscribers service user_id valid =
      Below-find_entry _ user_id service.subscriptions valid.below

  subscribe-id :
      (service : NotificationService C) (user_id : Text) (observer : C)
      → (subscribe service user_id observer).1 ≡ service.next_subscriber_id
  unfolding subscribe
  subscribe-id service user_id observer = refl

  -- In a valid service whose next id and the one behind it are below 2^64, unsubscribing with the
  -- id that a subscription returned restores the subscribers of every user.
  pub unsubscribe-subscribe :
      (service : NotificationService C) (user_id other : Text) (observer : C)
      → IsValid service
      → service.next_subscriber_id + 1 < id_modulus
      → (let (subscribed, id) = subscribe service user_id observer in
          subscribers (unsubscribe subscribed user_id id) other)
        ≡ subscribers service other
  unsubscribe-subscribe service user_id other observer valid room =
      let n = service.next_subscriber_id in
      let after = (subscribe service user_id observer).0 in
      rw (subscribe-id service user_id observer) (
        ground (
          arith,
          subscribers-unsubscribe_erase after user_id other n
              (subscribe-IsValid service user_id observer room valid),
          subscribers-subscribe service user_id user_id observer,
          subscribers-subscribe service user_id other observer,
          text_eq_refl user_id,
          text_eq_iff user_id other,
          erase_subscriber-append n (subscribers service user_id) observer
              (Below-subscribers service user_id valid),
        ))
