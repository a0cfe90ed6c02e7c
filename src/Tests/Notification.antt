-- ===== src/Tests/Notification.antt =====
-- A service with two users.
use chat_system.Prelude.{
  ℕ, ◌+◌, ◌<◌, ◌≡◌, List, [], ◌∷◌, map, codes, text_eq, arith, not, ◌&&◌, ◌==◌, select,
}
use chat_system.Domain.Types.{text_message_type}
use chat_system.Domain.Message.{Message}
use chat_system.Services.Notification.{
  NotificationService, new_message_event, read_receipt_event, id_modulus, new_service, subscribe,
  unsubscribe, notify_new_message, notify_read_receipt,
}
use chat_system.Services.Notification.Laws.{
  subscribers, HasDistinctKeys, HasNoEmptyEntry, subscribers-unsubscribe,
}
use chat_system.Services.Notification.Registry.{
  as_subscriber, registered, observed, subscribers-run, notify-run,
}
use chat_system.Services.Notification.History.{
  Call, subscribes, unsubscribes, step, run, run-new_service-IsValid, unsubscribe-subscribe,
}

abbrev history : List (Call ℕ)
history =
    subscribes (codes "ann") 7
    ∷ subscribes (codes "bob") 8
    ∷ subscribes (codes "ann") 9
    ∷ unsubscribes (codes "bob") 2
    ∷ []

abbrev used : NotificationService ℕ
used = run new_service history

subscribers-run_example :
    HasDistinctKeys used.subscriptions
    × HasNoEmptyEntry used.subscriptions
    × (subscribers used (codes "ann") ≡ map as_subscriber (registered history (codes "ann")))
subscribers-run_example = subscribers-run history (codes "ann") (omega arith)

subscribers-unsubscribe_example :
    subscribers (unsubscribe used (codes "ann") 1) (codes "ann")
    ≡ select
        (λ s. not (text_eq (codes "ann") (codes "ann") && (s.id == 1)))
        (subscribers used (codes "ann"))
subscribers-unsubscribe_example =
    subscribers-unsubscribe used (codes "ann") (codes "ann") 1
      (run-new_service-IsValid history (omega arith))

used-room : used.next_subscriber_id + 1 < id_modulus
unfolding new_service subscribe unsubscribe run step
used-room = omega arith

unsubscribe-subscribe_example :
    (let (subscribed, id) = subscribe used (codes "bob") 5 in
      subscribers (unsubscribe subscribed (codes "bob") id) (codes "ann"))
    ≡ subscribers used (codes "ann")
unsubscribe-subscribe_example =
    unsubscribe-subscribe used (codes "bob") (codes "ann") 5
      (run-new_service-IsValid history (omega arith)) used-room

abbrev hello : Message
hello = record {
  id = codes "m";
  chat_id = codes "c";
  sender_id = codes "bob";
  ciphertext = codes "x";
  type = text_message_type;
  created_at = 1;
}

notify-run_example :
    (notify_new_message used (codes "ann") hello
      ≡ map
          (observed (new_message_event (codes "m") (codes "bob")))
          (registered history (codes "ann")))
    × (notify_read_receipt used (codes "ann") (codes "m") (codes "bob")
        ≡ map
            (observed (read_receipt_event (codes "m") (codes "bob")))
            (registered history (codes "ann")))
notify-run_example = notify-run history (codes "ann") (codes "m") (codes "bob") hello (omega arith)
