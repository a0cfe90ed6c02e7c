-- ===== src/Services/Message/Sending.antt =====
-- SendChatMessage: the message that it returns and stores, and the callbacks that it calls.
use chat_system.Prelude.{ℕ, ◌≡◌, sym, ap, ◌∙◌, true, Option, some, List, Text}
use chat_system.Exceptions.{returns, continue-returns, continue_pure-returns, returns-injective}
use chat_system.Domain.Message.{Message}
use chat_system.Domain.Chat.{Chat}
use chat_system.Domain.Types.{MessageTypeVariant}
use chat_system.Repositories.Rows.{find}
use chat_system.Repositories.ChatStore.{ChatRow, ChatDb, ChatPostgres, chat_key}
use chat_system.Repositories.Chats.{is_participant, find_chat_by_id}
use chat_system.Repositories.Chats.Reading.{find_chat_by_id-found}
use chat_system.Repositories.Messages.{find_message_by_id}
use chat_system.Repositories.Messages.Storing.{find_message_by_id-stored}
use chat_system.Services.Notification.{NotificationService}
use chat_system.Services.Message.Announced.{announced, notify_others-announced}
use chat_system.Services.Message.Checks.{new_message-returns, store_message-returns}
use chat_system.Services.Message.{
  Calls, notify_others, notify_chat, store_message, new_message, send_chat_message,
}

module _ (postgres : ChatPostgres) where
  notify_chat-found :
      {C : Type 0} (service : NotificationService C) (sender : Text) (message : Message)
      (o : Option Chat) (chat : Chat)
      → o ≡ some chat
      → notify_chat service sender message o
        ≡ some (notify_others service sender message chat.participant_ids)
  unfolding notify_chat
  notify_chat-found service sender message o chat h = ap (notify_chat service sender message) h

  -- The part of SendChatMessage behind Message::Create.
  sent :
      {C : Type 0} (service : NotificationService C) (sender : Text) (made kept message : Message)
      (keys : List (Text × Text)) (row : ChatRow) (db new : ChatDb) (o : Option Chat)
      (calls : Option (Calls C))
      → find chat_key made.chat_id db.chats ≡ some row
      → store_message postgres made keys db ≡ (returns kept, new)
      → find_chat_by_id postgres new made.chat_id ≡ returns o
      → kept ≡ message
      → notify_chat service sender kept o ≡ calls
      → (message ≡ made)
        × (find_message_by_id postgres new made.id
            ≡ returns (some (record message { created_at = postgres.stored_time made.created_at })))
        × ((after : ChatRow) × (find chat_key made.chat_id new.chats ≡ some after)
            × (after.last_message_id ≡ some made.id))
        × (new.participants ≡ db.participants)
        × ((chat : Chat) × (find_chat_by_id postgres new made.chat_id ≡ returns (some chat))
            × (calls ≡ some (notify_others service sender message chat.participant_ids)))
  sent service sender made kept message keys row db new o calls exists store fetched is_message
        is_calls =
      let (same, stored, (after, mentioned, last), members) =
        store_message-returns postgres made kept keys row db new store exists in
      let (chat, is_some) =
        find_chat_by_id-found postgres new made.chat_id after o mentioned fetched in
      (
        sym is_message ∙ same,
        find_message_by_id-stored postgres made new stored
            ∙ ap
                (λ (m : Message).
                  returns (some (record m { created_at = postgres.stored_time made.created_at })))
                (sym same ∙ is_message),
        (after, mentioned, last),
        members,
        (
          chat,
          fetched ∙ ap returns is_some,
          sym is_calls
              ∙ notify_chat-found service sender kept o chat is_some
              ∙ ap (λ m. some (notify_others service sender m chat.participant_ids)) is_message,
        ),
      )

  -- The calls for a message with the given id and sender.
  announces :
      {C : Type 0} (service : NotificationService C) (id sender chat_id : Text) (message : Message)
      (db : ChatDb) (calls : Option (Calls C))
      → message.id ≡ id
      → message.sender_id ≡ sender
      → ((chat : Chat) × (find_chat_by_id postgres db chat_id ≡ returns (some chat))
          × (calls ≡ some (notify_others service sender message chat.participant_ids)))
      → (chat : Chat) × (find_chat_by_id postgres db chat_id ≡ returns (some chat))
        × (calls ≡ some (announced service id sender chat.participant_ids))
  announces service id sender chat_id message db calls same_id same_sender (chat, found, called) = (
    chat,
    found,
    rw (sym same_id, sym same_sender)
        ((rw (sym same_sender) at called)
          ∙ ap some (notify_others-announced service message chat.participant_ids)),
  )

  -- When SendChatMessage returns, the sender was a participant of the chat, the message has the
  -- given values, FindById finds it with the creation time as the database keeps it, it is the last
  -- message of its chat, the participants are as before, and the chat is found once more, so that
  -- the callbacks are those of the subscribers of its participants other than the sender, participant by
  -- participant, each with the event of the message.
  pub send_chat_message-returns :
      {C : Type 0} (service : NotificationService C) (id : Text) (now : ℕ)
      (sender chat_id ciphertext : Text) (keys : List (Text × Text)) (type : MessageTypeVariant)
      (db new : ChatDb) (message : Message) (calls : Option (Calls C))
      → send_chat_message postgres service id now sender chat_id ciphertext keys type db
        ≡ (returns (message, calls), new)
      → (is_participant db chat_id sender ≡ true)
        × (message ≡ record {
          id = id;
          chat_id = chat_id;
          sender_id = sender;
          ciphertext = ciphertext;
          type = type;
          created_at = now;
        })
        × (find_message_by_id postgres new id
            ≡ returns (some (record message { created_at = postgres.stored_time now })))
        × ((row : ChatRow) × (find chat_key chat_id new.chats ≡ some row)
            × (row.last_message_id ≡ some id))
        × (new.participants ≡ db.participants)
        × ((chat : Chat) × (find_chat_by_id postgres new chat_id ≡ returns (some chat))
            × (calls ≡ some (announced service id sender chat.participant_ids)))
  unfolding send_chat_message
  send_chat_message-returns service id now sender chat_id ciphertext keys type db new message calls
        h =
      let (made, created, h1) =
        continue_pure-returns (new_message postgres db id now sender chat_id ciphertext type) db _
          (message, calls) new h in
      let (kept, stored_db, store, h2) =
        continue-returns (store_message postgres made keys db) _ (message, calls) new h1 in
      let (o, fetched, h3) =
        continue_pure-returns (find_chat_by_id postgres stored_db chat_id) stored_db _
          (message, calls) new h2 in
      let ((row, exists), allowed, values) =
        new_message-returns postgres db id now sender chat_id ciphertext type made created in
      let tables : stored_db ≡ new = ap (λ p. p.1) h3 in
      let result = returns-injective _ (message, calls) (ap (λ p. p.0) h3) in
      let (is_made, found, last, members, notified) =
        sent service sender made kept message keys row db stored_db o calls
          (ap (λ (m : Message). find chat_key m.chat_id db.chats) values ∙ exists) store
          (ap (λ (m : Message). find_chat_by_id postgres stored_db m.chat_id) values ∙ fetched)
          (ap (λ p. p.0) result) (ap (λ p. p.1) result) in
      (
        allowed,
        is_made ∙ values,
        rw (values, tables) at found,
        rw (values, tables) at last,
        ap (λ (d : ChatDb). d.participants) (sym tables) ∙ members,
        announces service id sender chat_id message new calls
            (ap (λ (m : Message). m.id) (is_made ∙ values))
            (ap (λ (m : Message). m.sender_id) (is_made ∙ values))
            (rw (values, tables) at notified),
      )
