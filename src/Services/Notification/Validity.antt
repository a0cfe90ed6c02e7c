-- ===== src/Services/Notification/Validity.antt =====
-- The invariant of the subscription map, and unsubscribing what was just subscribed.
use chat_system.Prelude.{
  ℕ, ◌+◌, ◌%◌, ◌≤◌, ◌<◌, ◌≡◌, refl, ◌≢◌, inl, inr, Bool, true, false, List, [], ◌∷◌, ◌++◌, Text,
  text_eq, text_eq_refl, All, arith, if◌then◌else◌, Bool-cases,
}
use chat_system.Services.Notification.{
  Subscriber, SubscribersMap, NotificationService, id_modulus, new_service, change_entry,
  find_entry, erase_entry, erase_subscriber, is_empty_entry, subscribe, unsubscribe,
}
use chat_system.Services.Notification.Laws.{
  or_nothing, Lacks, HasDistinctKeys, HasNoEmptyEntry, IsBelow, IsValid, find_entry-change_entry,
  HasDistinctKeys-change_entry,
}

module _ {C : Type 0} where
  All-map {κ} :
      {P Q : Subscriber C → Type κ} (subs : List (Subscriber C))
      → ((s : Subscriber C) → P s → Q s)
      → All P subs
      → All Q subs
  All-map [] f h = tt
  All-map (s ∷ subs) f (p, h) = (f s p, All-map subs f h)

  abbrev pub Below : ℕ → List (Subscriber C) → Type 0
  Below n = All (λ (s : Subscriber C). s.id < n)

  IsBelow-mono : (m : SubscribersMap C) (n n' : ℕ) → n ≤ n' → IsBelow n m → IsBelow n' m
  IsBelow-mono [] n n' le h = tt
  IsBelow-mono ((k, subs) ∷ m) n n' le (b, h) =
      (All-map subs (λ s lt. omega arith) b, IsBelow-mono m n n' le h)

  IsBelow-change_entry :
      (user_id : Text) (f : List (Subscriber C) → List (Subscriber C)) (n : ℕ)
      (m : SubscribersMap C)
      → ((subs : List (Subscriber C)) → Below n subs → Below n (f subs))
      → IsBelow n m
      → IsBelow n (change_entry user_id f m)
  unfolding change_entry
  IsBelow-change_entry user_id f n [] keep h = (keep [] tt, tt)
  IsBelow-change_entry user_id f n ((k, subs) ∷ m) keep (b, h) =
      elim (Bool-cases (text_eq k user_id)) [
        | inl hit ↦ rw hit (keep subs b, h)
        | inr miss ↦ rw miss (b, IsBelow-change_entry user_id f n m keep h)
      ]

  Below-append :
      (n : ℕ) (subs : List (Subscriber C)) (s : Subscriber C)
      → Below n subs
      → s.id < n
      → Below n (subs ++ (s ∷ []))
  Below-append n [] s h b = (b, tt)
  Below-append n (x ∷ subs) s (p, h) b = (p, Below-append n subs s h b)

  Below-erase_subscriber :
      (n i : ℕ) (subs : List (Subscriber C)) → Below n subs → Below n (erase_subscriber i subs)
  unfolding erase_subscriber
  Below-erase_subscriber n i [] h = tt
  Below-erase_subscriber n i (x ∷ subs) (p, h) = ground (arith, Below-erase_subscriber n i subs h)

  append-ne-nil : (subs : List (Subscriber C)) (s : Subscriber C) → subs ++ (s ∷ []) ≢ []
  append-ne-nil [] s e = cc
  append-ne-nil (x ∷ subs) s e = cc

  HasNoEmptyEntry-change_entry :
      (user_id : Text) (f : List (Subscriber C) → List (Subscriber C)) (m : SubscribersMap C)
      → ((subs : List (Subscriber C)) → f subs ≢ [])
      → HasNoEmptyEntry m
      → HasNoEmptyEntry (change_entry user_id f m)
  unfolding change_entry
  HasNoEmptyEntry-change_entry user_id f [] filled h = (filled [], tt)
  HasNoEmptyEntry-change_entry user_id f ((k, subs) ∷ m) filled (p, h) =
      elim (Bool-cases (text_eq k user_id)) [
        | inl hit ↦ rw hit (filled subs, h)
        | inr miss ↦ rw miss (p, HasNoEmptyEntry-change_entry user_id f m filled h)
      ]

  pub new_service-IsValid : IsValid (new_service {C = C})
  unfolding new_service
  new_service-IsValid = record { distinct = tt; filled = tt; below = tt }

  pub subscribe-IsValid :
      (service : NotificationService C) (user_id : Text) (observer : C)
      → service.next_subscriber_id + 1 < id_modulus
      → IsValid service
      → IsValid (subscribe service user_id observer).0
  unfolding subscribe
  subscribe-IsValid service user_id observer room valid =
      let n = service.next_subscriber_id in
      let added =
        λ (subs : List (Subscriber C)). subs ++ (record { id = n; callback = observer } ∷ []) in
      let next : (n + 1) % id_modulus ≡ n + 1 = omega arith in
      record {
        distinct = HasDistinctKeys-change_entry user_id added service.subscriptions valid.distinct;
        filled =
            HasNoEmptyEntry-change_entry user_id added service.subscriptions
              (λ subs. append-ne-nil subs _) valid.filled;
        below = rw next (
            IsBelow-change_entry user_id added (n + 1) service.subscriptions
              (λ subs h. Below-append (n + 1) subs _ h (omega arith))
              (IsBelow-mono service.subscriptions n (n + 1) (omega arith) valid.below));
      }

  IsBelow-erase_entry :
      (user_id : Text) (n : ℕ) (m : SubscribersMap C)
      → IsBelow n m
      → IsBelow n (erase_entry user_id m)
  unfolding erase_entry
  IsBelow-erase_entry user_id n [] h = tt
  IsBelow-erase_entry user_id n ((k, subs) ∷ m) (b, h) = elim (Bool-cases (text_eq k user_id)) [
    | inl hit ↦ rw hit h
    | inr miss ↦ rw miss (b, IsBelow-erase_entry user_id n m h)
  ]

  Lacks-erase_entry :
      (key user_id : Text) (m : SubscribersMap C) → Lacks key m → Lacks key (erase_entry user_id m)
  unfolding erase_entry
  Lacks-erase_entry key user_id [] h = tt
  Lacks-erase_entry key user_id ((k, subs) ∷ m) (p, h) =
      ground (arith, Lacks-erase_entry key user_id m h)

  HasDistinctKeys-erase_entry :
      (user_id : Text) (m : SubscribersMap C)
      → HasDistinctKeys m
      → HasDistinctKeys (erase_entry user_id m)
  unfolding erase_entry
  HasDistinctKeys-erase_entry user_id [] h = tt
  HasDistinctKeys-erase_entry user_id ((k, subs) ∷ m) (p, h) =
      ground (arith, Lacks-erase_entry k user_id m p, HasDistinctKeys-erase_entry user_id m h)

  -- After a change of one entry only that entry can be empty.
  filled_of_change :
      (user_id : Text) (f : List (Subscriber C) → List (Subscriber C)) (m : SubscribersMap C)
      → HasNoEmptyEntry m
      → f (or_nothing (find_entry user_id m)) ≢ []
      → HasNoEmptyEntry (change_entry user_id f m)
  unfolding change_entry find_entry
  filled_of_change user_id f [] h e = (e, tt)
  filled_of_change user_id f ((k, subs) ∷ m) (p, h) e = elim (Bool-cases (text_eq k user_id)) [
    | inl hit ↦ rw hit (rw hit at e, h)
    | inr miss ↦ rw miss (p, filled_of_change user_id f m h (rw miss at e))
  ]

  filled_of_erase :
      (user_id : Text) (f : List (Subscriber C) → List (Subscriber C)) (m : SubscribersMap C)
      → HasNoEmptyEntry m
      → HasNoEmptyEntry (erase_entry user_id (change_entry user_id f m))
  unfolding change_entry erase_entry
  filled_of_erase user_id f [] h = rw (text_eq_refl user_id) tt
  filled_of_erase user_id f ((k, subs) ∷ m) (p, h) = elim (Bool-cases (text_eq k user_id)) [
    | inl hit ↦ rw (hit, hit) h
    | inr miss ↦ rw (miss, miss) (p, filled_of_erase user_id f m h)
  ]

  filled_of_unsubscribe :
      (user_id : Text) (f : List (Subscriber C) → List (Subscriber C)) (m : SubscribersMap C)
      (b : Bool)
      → is_empty_entry (find_entry user_id (change_entry user_id f m)) ≡ b
      → HasNoEmptyEntry m
      → HasNoEmptyEntry
          (if b then erase_entry user_id (change_entry user_id f m) else change_entry user_id f m)
  filled_of_unsubscribe user_id f m true e h = filled_of_erase user_id f m h
  filled_of_unsubscribe user_id f m false e h =
      filled_of_change user_id f m h
        (λ empty. cc (e, find_entry-change_entry user_id user_id f m, text_eq_refl user_id, empty))

  pub unsubscribe-IsValid :
      (service : NotificationService C) (user_id : Text) (subscriber_id : ℕ)
      → IsValid service
      → IsValid (unsubscribe service user_id subscriber_id)
  unfolding unsubscribe
  unsubscribe-IsValid service user_id subscriber_id valid =
      let m = service.subscriptions in
      let f = erase_subscriber {C = C} subscriber_id in
      let n = service.next_subscriber_id in
      let changed = change_entry user_id f m in
      let below =
        IsBelow-change_entry user_id f n m (Below-erase_subscriber n subscriber_id) valid.below in
      let distinct = HasDistinctKeys-change_entry user_id f m valid.distinct in
      record {
        distinct = ground (arith, HasDistinctKeys-erase_entry user_id changed distinct);
        filled = filled_of_unsubscribe user_id f m _ refl valid.filled;
        below = ground (arith, IsBelow-erase_entry user_id n changed below);
      }
