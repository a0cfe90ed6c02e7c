-- ===== src/Services/Message.antt =====
-- Server/Source/Services/message_service.cpp over Repositories/Chats, Repositories/Messages and
-- Services/Notification. The new id and the clock are arguments; the calls of the subscribers'
-- callbacks are a result.
pub mod Delivery
pub mod Checks
pub mod Sending
pub mod Announced
pub mod History
use chat_system.Prelude.{
  ℕ, ◌+◌, Bool, true, false, not, Option, none, some, List, [], ◌∷◌, ◌++◌, Text, codes, text_eq,
  min, if◌then◌else◌,
}
use chat_system.Exceptions.{
  Result, returns, throws, invalid_argument, logic_error, ◌>>=◌, ◌>>◌, continue,
}
use chat_system.Domain.Message
use chat_system.Domain.Message.{Message}
use chat_system.Domain.Chat.{Chat}
use chat_system.Domain.Types.{MessageTypeVariant}
use chat_system.Repositories.ChatStore.{ChatDb, ChatPostgres}
use chat_system.Repositories.Chats.{is_participant, find_chat_by_id, update_last_message}
use chat_system.Repositories.Messages.{
  find_encrypted_key, delete_message_by_id, add_message, find_message_by_id, find_by_chat_id,
  find_undelivered, mark_delivered, mark_read,
}
use chat_system.Services.Notification.{
  NotificationPayloadVariant, NotificationService, notify_new_message, notify_read_receipt,
}

unfoldable pub enforce_participant : ChatDb → Text → Text → Result (Unit {0})
enforce_participant db chat_id user =
    if not (is_participant db chat_id user)
    then throws (
        logic_error (
          codes "User with id "
          ++ (user ++ (codes " is not a participant of the chat wit id " ++ chat_id))))
    else returns tt

unfoldable pub chat_exists_or_throw : Text → Option Chat → Result (Unit {0})
chat_exists_or_throw chat_id none =
    throws (logic_error (codes "Chat with id " ++ (chat_id ++ codes " does not exist.")))
chat_exists_or_throw chat_id (some chat) = returns tt

-- The callback calls that a service call makes, with the values of its notifications.
abbrev pub Calls : Type 0 → Type 0
Calls C = List (C × NotificationPayloadVariant)

module _ {C : Type 0} where
  -- The loop of SendChatMessage over the participants.
  unfoldable pub notify_others : NotificationService C → Text → Message → List Text → Calls C
  notify_others service sender message [] = []
  notify_others service sender message (participant ∷ participants) =
      let rest = notify_others service sender message participants in
      if not (text_eq participant sender)
      then notify_new_message service participant message ++ rest
      else rest

  -- With an absent chat the code dereferences an empty optional.
  unfoldable pub notify_chat :
      NotificationService C → Text → Message → Option Chat → Option (Calls C)
  unfolding notify_others
  notify_chat service sender message none = none
  notify_chat service sender message (some chat) =
      some (notify_others service sender message chat.participant_ids)

unfoldable pub get_encrypted_key : ChatDb → Text → Text → Option Text
get_encrypted_key db message_id user = find_encrypted_key db message_id user

abbrev pub max_limit : ℕ
max_limit = 100

unfoldable pub message_or_throw : Option Message → Result Message
message_or_throw none = throws (invalid_argument (codes "Message not found."))
message_or_throw (some message) = returns message

unfoldable pub enforce_sender : Text → Message → Result (Unit {0})
enforce_sender requester message =
    if not (text_eq message.sender_id requester)
    then throws (logic_error (codes "You are not allowed delete someone else's message."))
    else returns tt

module _ (postgres : ChatPostgres) where
  unfoldable pub enforce_chat_existence : ChatDb → Text → Result (Unit {0})
  unfolding chat_exists_or_throw
  enforce_chat_existence db chat_id =
      find_chat_by_id postgres db chat_id >>= chat_exists_or_throw chat_id

  -- SendChatMessage up to UpdateLastMessage.
  unfoldable pub store_message : Message → List (Text × Text) → ChatDb → Result Message × ChatDb
  store_message message encrypted_keys db =
      continue (add_message postgres message encrypted_keys db) λ done db.
        continue (update_last_message postgres message.chat_id message db)
          λ done db. (returns message, db)

  -- MessageParams{...} and Message::Create, behind the checks.
  unfoldable pub new_message :
      ChatDb → Text → ℕ → Text → Text → Text → MessageTypeVariant → Result Message
  unfolding enforce_chat_existence enforce_participant
  new_message db id now sender chat_id ciphertext type =
      enforce_chat_existence db chat_id
      >> (enforce_participant db chat_id sender
          >> Message.create (record {
            id = id;
            chat_id = chat_id;
            sender_id = sender;
            ciphertext = ciphertext;
            type = type;
            created_at = now;
          }))

  -- The message, the callback calls (none where the code has undefined behaviour), the tables.
  unfoldable pub send_chat_message :
      {C : Type 0}
      → NotificationService C
      → Text
      → ℕ
      → Text
      → Text
      → Text
      → List (Text × Text)
      → MessageTypeVariant
      → ChatDb
      → Result (Message × Option (Calls C)) × ChatDb
  unfolding new_message store_message notify_chat
  send_chat_message service id now sender chat_id ciphertext encrypted_keys type db =
      continue (new_message db id now sender chat_id ciphertext type, db)
        λ message db. continue (store_message message encrypted_keys db) λ message db.
          continue (find_chat_by_id postgres db chat_id, db)
            λ chat db. (returns (message, notify_chat service sender message chat), db)

  unfoldable pub get_history : ChatDb → Text → Text → ℕ → ℕ → Result (List Message)
  unfolding enforce_chat_existence enforce_participant
  get_history db chat_id requesting limit offset =
      enforce_chat_existence db chat_id
      >> (enforce_participant db chat_id requesting
          >> find_by_chat_id postgres db chat_id limit offset)

  -- MarkAsRead on the message that FindById returned.
  unfoldable pub read_message :
      {C : Type 0}
      → NotificationService C
      → ℕ
      → Text
      → Text
      → Message
      → ChatDb
      → Result (Calls C) × ChatDb
  read_message service now id reader message db =
      if text_eq message.sender_id reader
      then (returns [], db)
      else continue (mark_read postgres now id reader db)
          λ done db. (returns (notify_read_receipt service message.sender_id id reader), db)

  unfoldable pub mark_as_read :
      {C : Type 0} → NotificationService C → ℕ → Text → Text → ChatDb → Result (Calls C) × ChatDb
  unfolding message_or_throw read_message
  mark_as_read service now id reader db =
      continue (find_message_by_id postgres db id >>= message_or_throw, db)
        λ message db. read_message service now id reader message db

  -- The loop of GetUndelivered; each call of MarkDelivered has its own time.
  unfoldable pub mark_all : (ℕ → ℕ) → ℕ → Text → List Message → ChatDb → Result (Unit {0}) × ChatDb
  mark_all clock i user [] db = (returns tt, db)
  mark_all clock i user (message ∷ messages) db =
      continue (mark_delivered postgres (clock i) message.id user db)
        λ done db. mark_all clock (i + 1) user messages db

  unfoldable pub get_undelivered :
      (ℕ → ℕ) → Text → ℕ → Option Text → ChatDb → Result (List Message) × ChatDb
  unfolding mark_all
  get_undelivered clock user limit after db =
      continue (find_undelivered postgres db user (min max_limit limit) after, db)
        λ messages db.
          continue (mark_all clock 0 user messages db) λ done db. (returns messages, db)

  unfoldable pub delete_message : ChatDb → Text → Text → Result (Unit {0}) × ChatDb
  unfolding message_or_throw enforce_sender
  delete_message db id requester =
      continue
        (find_message_by_id postgres db id >>= message_or_throw >>= enforce_sender requester, db)
        λ done db. (returns tt, delete_message_by_id id db)
