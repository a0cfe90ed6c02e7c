-- ===== src/Services/Notification/Laws.antt =====
-- The notification service against a function from users to their subscribers.
use chat_system.Prelude.{
  ℕ, ◌<◌, ◌≡◌, refl, ap, ◌≢◌, inl, inr, Option, none, some, List, [], ◌∷◌, ◌++◌, map, Text, text_eq,
  text_eq_iff, text_eq_refl, All, arith, if◌then◌else◌, Option-cases, Bool-cases, select, sym, ◌∙◌,
  not, ◌&&◌, ◌==◌, true,
}
use chat_system.Domain.Message.{Message}
use chat_system.Services.Notification.{
  NotificationPayloadVariant, new_message_event, read_receipt_event, Subscriber, SubscribersMap,
  NotificationService, change_entry, find_entry, erase_entry, erase_subscriber, subscribe,
  unsubscribe, call_all, dispatch, notify_new_message, notify_read_receipt,
}

module _ {C : Type 0} where
  abbrev pub or_nothing : Option (List (Subscriber C)) → List (Subscriber C)
  or_nothing none = []
  or_nothing (some subs) = subs

  -- The subscribers of a user, oldest first.
  unfoldable pub subscribers : NotificationService C → Text → List (Subscriber C)
  unfolding find_entry
  subscribers service user_id = or_nothing (find_entry user_id service.subscriptions)

  abbrev pub Lacks : Text → SubscribersMap C → Type 0
  Lacks user_id = All (λ e. e.0 ≢ user_id)

  abbrev pub HasDistinctKeys : SubscribersMap C → Type 0
  HasDistinctKeys [] = Unit
  HasDistinctKeys ((key, subs) ∷ m) = Lacks key m × HasDistinctKeys m

  -- Every user with an entry has a subscriber.
  abbrev pub HasNoEmptyEntry : SubscribersMap C → Type 0
  HasNoEmptyEntry = All (λ e. e.1 ≢ [])

  -- Every id that was given out lies below the next one.
  abbrev pub IsBelow : ℕ → SubscribersMap C → Type 0
  IsBelow n = All (λ e. All (λ (s : Subscriber C). s.id < n) e.1)

  pub record IsValid (service : NotificationService C) : Type 0 where
    pub distinct : HasDistinctKeys service.subscriptions
    pub filled : HasNoEmptyEntry service.subscriptions
    pub below : IsBelow service.next_subscriber_id service.subscriptions

  pub find_entry-Lacks :
      (user_id : Text) (m : SubscribersMap C) → Lacks user_id m → find_entry user_id m ≡ none
  unfolding find_entry
  find_entry-Lacks user_id [] h = refl
  find_entry-Lacks user_id ((key, subs) ∷ m) (p, h) =
      ground (arith, text_eq_iff key user_id, find_entry-Lacks user_id m h)

  pub find_entry-change_entry :
      (user_id other : Text) (f : List (Subscriber C) → List (Subscriber C)) (m : SubscribersMap C)
      → find_entry other (change_entry user_id f m) ≡ (
          if text_eq user_id other
          then some (f (or_nothing (find_entry user_id m)))
          else find_entry other m)
  unfolding find_entry change_entry
  find_entry-change_entry user_id other f [] = refl
  find_entry-change_entry user_id other f ((key, subs) ∷ m) = ground (
    arith,
    text_eq_iff key user_id,
    text_eq_iff key other,
    text_eq_iff user_id other,
    find_entry-change_entry user_id other f m,
  )

  find_entry-erase_entry :
      (user_id other : Text) (m : SubscribersMap C)
      → HasDistinctKeys m
      → find_entry other (erase_entry user_id m)
        ≡ (if text_eq user_id other then none else find_entry other m)
  unfolding find_entry erase_entry
  find_entry-erase_entry user_id other [] h = ground arith
  find_entry-erase_entry user_id other ((key, subs) ∷ m) (lacks, h) = ground (
    arith,
    text_eq_iff key user_id,
    text_eq_iff key other,
    text_eq_iff user_id other,
    find_entry-Lacks key m lacks,
    find_entry-erase_entry user_id other m h,
  )

  -- A subscription adds one subscriber behind those of its user, and none to anybody else.
  pub subscribers-subscribe :
      (service : NotificationService C) (user_id other : Text) (observer : C)
      → subscribers (subscribe service user_id observer).0 other ≡ (
          if text_eq user_id other
          then subscribers service user_id
            ++ (record { id = service.next_subscriber_id; callback = observer } ∷ [])
          else subscribers service other)
  unfolding subscribers subscribe
  subscribers-subscribe service user_id other observer = ground (
    arith,
    find_entry-change_entry user_id other
        (λ subs. subs ++ (record { id = service.next_subscriber_id; callback = observer } ∷ []))
        service.subscriptions,
  )

  pub Lacks-change_entry :
      (key user_id : Text) (f : List (Subscriber C) → List (Subscriber C)) (m : SubscribersMap C)
      → user_id ≢ key
      → Lacks key m
      → Lacks key (change_entry user_id f m)
  unfolding change_entry
  Lacks-change_entry key user_id f [] ne h = (ne, tt)
  Lacks-change_entry key user_id f ((k, subs) ∷ m) ne (p, h) =
      ground (arith, Lacks-change_entry key user_id f m ne h)

  pub HasDistinctKeys-change_entry :
      (user_id : Text) (f : List (Subscriber C) → List (Subscriber C)) (m : SubscribersMap C)
      → HasDistinctKeys m
      → HasDistinctKeys (change_entry user_id f m)
  unfolding change_entry
  HasDistinctKeys-change_entry user_id f [] h = (tt, tt)
  HasDistinctKeys-change_entry user_id f ((k, subs) ∷ m) (p, h) = ground (
    arith,
    text_eq_iff k user_id,
    Lacks-change_entry k user_id f m,
    HasDistinctKeys-change_entry user_id f m h,
  )

  pub subscribers-unsubscribe_erase :
      (service : NotificationService C) (user_id other : Text) (subscriber_id : ℕ)
      → IsValid service
      → subscribers (unsubscribe service user_id subscriber_id) other ≡ (
          if text_eq user_id other
          then erase_subscriber subscriber_id (subscribers service user_id)
          else subscribers service other)
  unfolding subscribers unsubscribe
  subscribers-unsubscribe_erase service user_id other subscriber_id valid =
      let m = service.subscriptions in
      let erased = change_entry user_id (erase_subscriber subscriber_id) m in
      ground (
        arith,
        text_eq_iff user_id other,
        text_eq_refl user_id,
        find_entry-change_entry user_id user_id (erase_subscriber subscriber_id) m,
        find_entry-change_entry user_id other (erase_subscriber subscriber_id) m,
        find_entry-erase_entry user_id other erased (
            HasDistinctKeys-change_entry user_id (erase_subscriber subscriber_id) m valid.distinct),
      )

  erase_subscriber-select :
      (i : ℕ) (subs : List (Subscriber C))
      → erase_subscriber i subs ≡ select (λ s. not (s.id == i)) subs
  unfolding erase_subscriber
  erase_subscriber-select i [] = refl
  erase_subscriber-select i (s ∷ subs) = ground (arith, erase_subscriber-select i subs)

  select_all : (subs : List (Subscriber C)) → select (λ s. true) subs ≡ subs
  select_all [] = refl
  select_all (s ∷ subs) = ap (◌∷◌ s) (select_all subs)

  -- In a valid service, the lists of all users stay, in their order, but for the subscriber of the
  -- given user with the given id, which is in no list of that user any more.
  pub subscribers-unsubscribe :
      (service : NotificationService C) (user_id other : Text) (subscriber_id : ℕ)
      → IsValid service
      → subscribers (unsubscribe service user_id subscriber_id) other
        ≡ select
            (λ s. not (text_eq user_id other && (s.id == subscriber_id)))
            (subscribers service other)
  subscribers-unsubscribe service user_id other subscriber_id valid =
      elim (Bool-cases (text_eq user_id other)) [
        | inl same ↦
            let e : user_id ≡ other = (text_eq_iff user_id other).0 same in
            subscribers-unsubscribe_erase service user_id other subscriber_id valid
            ∙ rw (same) (rw e (erase_subscriber-select subscriber_id (subscribers service other)))
        | inr distinct ↦
            subscribers-unsubscribe_erase service user_id other subscriber_id valid
            ∙ rw distinct (sym (select_all (subscribers service other)))
      ]

  call_all-map :
      (subs : List (Subscriber C)) (payload : NotificationPayloadVariant)
      → call_all subs payload ≡ map (λ (s : Subscriber C). (s.callback, payload)) subs
  unfolding call_all
  call_all-map [] payload = refl
  call_all-map (s ∷ subs) payload = ap (◌∷◌ (s.callback, payload)) (call_all-map subs payload)

  dispatch-map :
      (service : NotificationService C) (user_id : Text) (payload : NotificationPayloadVariant)
      → dispatch service user_id payload
        ≡ map (λ (s : Subscriber C). (s.callback, payload)) (subscribers service user_id)
  unfolding dispatch subscribers
  dispatch-map service user_id payload =
      elim (Option-cases (find_entry user_id service.subscriptions)) [
        | inl offline ↦ rw (offline, dispatch)
        | inr (subs, online) ↦ rw (online, dispatch) (call_all-map subs payload)
      ]

  pub notify_map :
      (service : NotificationService C) (user_id message_id reader_id : Text) (message : Message)
      → (notify_new_message service user_id message
          ≡ map
              (λ (s : Subscriber C). (s.callback, new_message_event message.id message.sender_id))
              (subscribers service user_id))
        × (notify_read_receipt service user_id message_id reader_id
            ≡ map
                (λ (s : Subscriber C). (s.callback, read_receipt_event message_id reader_id))
                (subscribers service user_id))
  unfolding notify_new_message notify_read_receipt
  notify_map service user_id message_id reader_id message =
      (dispatch-map service user_id _, dispatch-map service user_id _)
