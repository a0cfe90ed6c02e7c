-- ===== src/Services/Notification.antt =====
-- Server/Source/Services/notification_service.cpp. A callback is any value; a call of it is an
-- entry of the list that a notification returns. The hash map is an association list, and the
-- locks are left out: each operation runs as a whole, Subscribe with the id that it draws before
-- it takes the lock.
pub mod Laws
pub mod Validity
pub mod History
pub mod Registry
use chat_system.Prelude.{
  ℕ, zero, suc, ◌+◌, ◌-◌, ◌*◌, ◌/◌, ◌%◌, ◌^◌, ◌≤◌, ◌<◌, min, ◌≡◌, refl, sym, ap, ◌∙◌, ◌≢◌, ◌↔◌, ◌⊎◌,
  inl, inr, Bool, true, false, not, ◌&&◌, ◌||◌, Option, none, some, List, [], ◌∷◌, ◌++◌, map,
  append-nil, append_assoc, String, Text, codes, text_eq, text_eq_iff, text_eq_refl, length, set,
  take, drop, replicate, All, length-append, length-set, length-take, length-replicate, arith, ltb,
  leb, ◌==◌, if◌then◌else◌, Bool-cases, Option-cases, ltb→lt, lt→ltb, leb→le, ==_iff, tests,
}
use chat_system.Domain.Message.{Message}

pub data NotificationPayloadVariant : Type 0 where
  new_message_event : (message_id sender_id : Text) → NotificationPayloadVariant
  read_receipt_event : (message_id reader_id : Text) → NotificationPayloadVariant

pub record Subscriber (C : Type 0) : Type 0 where
  pub id : ℕ
  pub callback : C

abbrev pub SubscribersMap : Type 0 → Type 0
SubscribersMap C = List (Text × List (Subscriber C))

pub record NotificationService (C : Type 0) : Type 0 where
  pub next_subscriber_id : ℕ
  pub subscriptions : SubscribersMap C

-- The id is a uint64_t, and fetch_add wraps.
abbrev pub id_modulus : ℕ
id_modulus = 2 ^ 64

module _ {C : Type 0} where
  unfoldable pub new_service : NotificationService C
  new_service = record { next_subscriber_id = 1; subscriptions = [] }

  -- subscriptions_[userId], which makes an empty entry if there is none, changed in place.
  pub change_entry :
      Text → (List (Subscriber C) → List (Subscriber C)) → SubscribersMap C → SubscribersMap C
  change_entry user_id f [] = (user_id, f []) ∷ []
  change_entry user_id f ((key, subs) ∷ m) =
      if text_eq key user_id then (key, f subs) ∷ m else (key, subs) ∷ change_entry user_id f m

  pub find_entry : Text → SubscribersMap C → Option (List (Subscriber C))
  find_entry user_id [] = none
  find_entry user_id ((key, subs) ∷ m) =
      if text_eq key user_id then some subs else find_entry user_id m

  pub erase_entry : Text → SubscribersMap C → SubscribersMap C
  erase_entry user_id [] = []
  erase_entry user_id ((key, subs) ∷ m) =
      if text_eq key user_id then m else (key, subs) ∷ erase_entry user_id m

  -- std::erase_if by the id.
  pub erase_subscriber : ℕ → List (Subscriber C) → List (Subscriber C)
  erase_subscriber subscriber_id [] = []
  erase_subscriber subscriber_id (s ∷ subs) =
      let rest = erase_subscriber subscriber_id subs in
      if s.id == subscriber_id then rest else s ∷ rest

  abbrev is_empty_entry : Option (List (Subscriber C)) → Bool
  is_empty_entry (some []) = true
  is_empty_entry _ = false

  unfoldable pub subscribe : NotificationService C → Text → C → NotificationService C × ℕ
  unfolding change_entry
  subscribe service user_id observer =
      let id = service.next_subscriber_id in
      (
        record {
          next_subscriber_id = (id + 1) % id_modulus;
          subscriptions =
              change_entry user_id (λ subs. subs ++ (record { id = id; callback = observer } ∷ []))
                service.subscriptions;
        },
        id,
      )

  unfoldable pub unsubscribe : NotificationService C → Text → ℕ → NotificationService C
  unfolding change_entry find_entry erase_entry erase_subscriber
  unsubscribe service user_id subscriber_id =
      let erased = change_entry user_id (erase_subscriber subscriber_id) service.subscriptions in
      record service {
        subscriptions =
            if is_empty_entry (find_entry user_id erased)
            then erase_entry user_id erased
            else erased;
      }

  call_all :
      List (Subscriber C) → NotificationPayloadVariant → List (C × NotificationPayloadVariant)
  call_all [] payload = []
  call_all (s ∷ subs) payload = (s.callback, payload) ∷ call_all subs payload

  dispatch :
      NotificationService C
      → Text
      → NotificationPayloadVariant
      → List (C × NotificationPayloadVariant)
  unfolding find_entry call_all
  dispatch service target_user_id payload = elim (find_entry target_user_id service.subscriptions) [
    | none ↦ []
    | some subs ↦ call_all subs payload
  ]

  unfoldable pub notify_new_message :
      NotificationService C → Text → Message → List (C × NotificationPayloadVariant)
  unfolding dispatch
  notify_new_message service recipient_id message =
      dispatch service recipient_id (new_message_event message.id message.sender_id)

  unfoldable pub notify_read_receipt :
      NotificationService C → Text → Text → Text → List (C × NotificationPayloadVariant)
  unfolding dispatch
  notify_read_receipt service sender_id message_id reader_id =
      dispatch service sender_id (read_receipt_event message_id reader_id)
