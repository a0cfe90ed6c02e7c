-- ===== src/Services/Message/Checks.antt =====
-- SendChatMessage up to UpdateLastMessage: its checks, and what it stores.
use chat_system.Prelude.{ℕ, ◌≡◌, refl, sym, ap, ◌∙◌, true, Option, none, some, List, Text}
use chat_system.Exceptions.{
  returns, bind-returns, continue-returns, returns-injective, guard-returns,
}
use chat_system.Domain.Message
use chat_system.Domain.Message.{Message}
use chat_system.Domain.Message.Laws.{create_message_iff}
use chat_system.Domain.Chat.{Chat}
use chat_system.Domain.Types.{MessageTypeVariant}
use chat_system.Repositories.Rows.{find}
use chat_system.Repositories.ChatStore.{ChatRow, ChatDb, ChatPostgres, chat_key, message_key}
use chat_system.Repositories.Chats.{is_participant, find_chat_by_id, update_last_message}
use chat_system.Repositories.Chats.Reading.{read_found_chat-returns}
use chat_system.Repositories.Messages.{add_message}
use chat_system.Repositories.Messages.Storing.{
  message_row, add_message-returns, update_last_message-returns,
}
use chat_system.Services.Message.{
  enforce_participant, chat_exists_or_throw, enforce_chat_existence, store_message, new_message,
}

pub enforce_participant-allows :
    (db : ChatDb) (chat_id user : Text) (u : Unit {0})
    → enforce_participant db chat_id user ≡ returns u
    → is_participant db chat_id user ≡ true
unfolding enforce_participant
enforce_participant-allows db chat_id user u h = guard-returns _ _ u h

chat_exists_or_throw-returns :
    (chat_id : Text) (o : Option Chat) (u : Unit {0})
    → chat_exists_or_throw chat_id o ≡ returns u
    → (chat : Chat) × (o ≡ some chat)
unfolding chat_exists_or_throw
chat_exists_or_throw-returns chat_id none u h = cc
chat_exists_or_throw-returns chat_id (some chat) u h = (chat, refl)

module _ (postgres : ChatPostgres) where
  find_chat_by_id-row :
      (db : ChatDb) (id : Text) (chat : Chat)
      → find_chat_by_id postgres db id ≡ returns (some chat)
      → (row : ChatRow) × (find chat_key id db.chats ≡ some row)
  unfolding find_chat_by_id
  find_chat_by_id-row db id chat h =
      let (row, found, read) = read_found_chat-returns postgres db _ chat h in (row, found)

  enforce_chat_existence-returns :
      (db : ChatDb) (chat_id : Text) (u : Unit {0})
      → enforce_chat_existence postgres db chat_id ≡ returns u
      → (row : ChatRow) × (find chat_key chat_id db.chats ≡ some row)
  unfolding enforce_chat_existence
  enforce_chat_existence-returns db chat_id u h =
      let (o, found, exists) =
        bind-returns (find_chat_by_id postgres db chat_id) (chat_exists_or_throw chat_id) u h in
      let (chat, is_some) = chat_exists_or_throw-returns chat_id o u exists in
      find_chat_by_id-row db chat_id chat (found ∙ ap returns is_some)

  pub new_message-returns :
      (db : ChatDb) (id : Text) (now : ℕ) (sender chat_id ciphertext : Text)
      (type : MessageTypeVariant) (message : Message)
      → new_message postgres db id now sender chat_id ciphertext type ≡ returns message
      → ((row : ChatRow) × (find chat_key chat_id db.chats ≡ some row))
        × (is_participant db chat_id sender ≡ true)
        × (message ≡ record {
          id = id;
          chat_id = chat_id;
          sender_id = sender;
          ciphertext = ciphertext;
          type = type;
          created_at = now;
        })
  unfolding new_message Message.reconstitute
  new_message-returns db id now sender chat_id ciphertext type message h =
      let (u, exists, h1) = bind-returns (enforce_chat_existence postgres db chat_id) _ message h in
      let (v, allowed, h2) = bind-returns (enforce_participant db chat_id sender) _ message h1 in
      (
        enforce_chat_existence-returns db chat_id u exists,
        enforce_participant-allows db chat_id sender v allowed,
        ((create_message_iff _ message).0 h2).1,
      )

  pub store_message-returns :
      (message stored : Message) (keys : List (Text × Text)) (row : ChatRow) (db new : ChatDb)
      → store_message postgres message keys db ≡ (returns stored, new)
      → find chat_key message.chat_id db.chats ≡ some row
      → (stored ≡ message)
        × (find message_key message.id new.messages ≡ some (message_row postgres message))
        × ((after : ChatRow) × (find chat_key message.chat_id new.chats ≡ some after)
            × (after.last_message_id ≡ some message.id))
        × (new.participants ≡ db.participants)
  unfolding store_message
  store_message-returns message stored keys row db new h exists =
      let (u, added, add, rest) =
        continue-returns (add_message postgres message keys db) _ stored new h in
      let (v, last, update, made) =
        continue-returns (update_last_message postgres message.chat_id message added) _ stored new
          rest in
      let (found, chats, members) = add_message-returns postgres message keys db added u add in
      let (messages, members', mentioned) =
        update_last_message-returns postgres message.chat_id message row added last v update
          (ap (find chat_key message.chat_id) chats ∙ exists) in
      let tables : last ≡ new = ap (λ p. p.1) made in
      rw (sym tables) (
        sym (returns-injective message stored (ap (λ p. p.0) made)),
        ap (find message_key message.id) messages ∙ found,
        (_, mentioned, refl),
        members' ∙ members,
      )
