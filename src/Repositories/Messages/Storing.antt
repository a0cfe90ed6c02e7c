-- ===== src/Repositories/Messages/Storing.antt =====
-- A message that Add stored: FindById reads it back, and UpdateLastMessage puts it into its chat.
use chat_system.Prelude.{
  ◌≡◌, refl, ap, ◌∙◌, true, false, some, List, [], ◌∷◌, ◌++◌, Text, arith, if◌then◌else◌,
}
use chat_system.Exceptions.{returns, throws, bind-returns, unless-returns, ◌>>=◌}
use chat_system.Domain.Message
use chat_system.Domain.Message.{Message}
use chat_system.Domain.Types.{message_type_string, create_message_type-message_type_string}
use chat_system.Repositories.Rows.{find, taken, update_rows}
use chat_system.Repositories.Rows.Laws.{find-append, find-singleton, find-some-taken}
use chat_system.Repositories.Rows.Updates.{find-update_rows}
use chat_system.Repositories.Store.{user_id}
use chat_system.Repositories.ChatStore.{
  ChatRow, MessageRow, ChatDb, ChatPostgres, chat_key, message_key, get_string, map_message,
}
use chat_system.Repositories.Chats.{update_last_message}
use chat_system.Repositories.Chats.Writing.{in_transaction-returns}
use chat_system.Repositories.Messages.{
  insert_message, insert_keys, add_message, read_found_message, find_message_by_id,
}

module _ (postgres : ChatPostgres) where
  -- The row that Add inserts.
  abbrev pub message_row : Message → MessageRow
  message_row message = record {
    id = message.id;
    chat_id = message.chat_id;
    sender_id = some message.sender_id;
    ciphertext = message.ciphertext;
    type = message_type_string message.type;
    created_at = postgres.stored_time message.created_at;
  }

  pub insert_message-returns :
      (message : Message) (keys : List (Text × Text)) (db new : ChatDb)
      → insert_message postgres message keys db ≡ returns new
      → (taken message_key message.id db.messages ≡ false)
        × (taken chat_key message.chat_id db.chats ≡ true)
        × (taken user_id message.sender_id db.accounts.users ≡ true)
        × (new ≡ record db { messages = db.messages ++ (message_row message ∷ []) })
  unfolding insert_message
  insert_message-returns message keys db new h = ground arith

  pub insert_keys-returns :
      (message_id : Text) (keys : List (Text × Text)) (db new : ChatDb)
      → insert_keys postgres message_id keys db ≡ returns new
      → new ≡ record db { keys = new.keys }
  unfolding insert_keys
  insert_keys-returns message_id [] db new h = ground arith
  insert_keys-returns message_id ((user, key) ∷ keys) db new h =
      let (free, rest) = unless-returns _ postgres.violation _ new h in
      insert_keys-returns message_id keys _ new rest

  map_message-message_row :
      (message : Message)
      → map_message postgres (message_row message)
        ≡ returns (record message { created_at = postgres.stored_time message.created_at })
  unfolding map_message get_string Message.reconstitute
  map_message-message_row message =
      rw ((create_message_type-message_type_string _ message.type).1 refl) refl

  -- What Add leaves: the tables with the message and its keys.
  pub add_message-returns :
      (message : Message) (keys : List (Text × Text)) (db new : ChatDb) (done : Unit {0})
      → add_message postgres message keys db ≡ (returns done, new)
      → (find message_key message.id new.messages ≡ some (message_row message))
        × (new.chats ≡ db.chats)
        × (new.participants ≡ db.participants)
  unfolding add_message
  add_message-returns message keys db new done h =
      let (stored, inserted, rest) =
        bind-returns (insert_message postgres message keys db) _ new
          (in_transaction-returns db new _ done h) in
      let (free, chat, user, same) = insert_message-returns message keys db stored inserted in
      let with_keys = insert_keys-returns message.id keys stored new rest in
      (
        ap (λ (d : ChatDb). find message_key message.id d.messages) (with_keys)
            ∙ ap (λ (d : ChatDb). find message_key message.id d.messages) same
            ∙ find-append message_key message.id db.messages (message_row message ∷ []) free
            ∙ find-singleton message_key (message_row message),
        ap (λ (d : ChatDb). d.chats) with_keys ∙ ap (λ (d : ChatDb). d.chats) same,
        ap (λ (d : ChatDb). d.participants) with_keys ∙ ap (λ (d : ChatDb). d.participants) same,
      )

  -- FindById of a message whose row is stored.
  pub find_message_by_id-stored :
      (message : Message) (db : ChatDb)
      → find message_key message.id db.messages ≡ some (message_row message)
      → find_message_by_id postgres db message.id
        ≡ returns (some (record message { created_at = postgres.stored_time message.created_at }))
  unfolding find_message_by_id read_found_message
  find_message_by_id-stored message db h =
      ap (read_found_message postgres) h
      ∙ ap (λ r. r >>= λ m. returns (some m)) (map_message-message_row message)

  abbrev pub mentions : Message → ChatRow → ChatRow
  mentions message row = record row {
    last_message_id = some message.id;
    last_message_timestamp = some (postgres.stored_time message.created_at);
  }

  update_last_message-writes :
      (chat_id : Text) (message : Message) (db new : ChatDb)
      → (if taken chat_key chat_id db.chats
          then (if taken message_key message.id db.messages
              then returns
                  (record db { chats = update_rows chat_key chat_id (mentions message) db.chats })
              else throws postgres.violation)
          else returns db)
        ≡ returns new
      → taken chat_key chat_id db.chats ≡ true
      → new ≡ record db { chats = update_rows chat_key chat_id (mentions message) db.chats }
  update_last_message-writes chat_id message db new h e = ground arith

  pub update_last_message-returns :
      (chat_id : Text) (message : Message) (row : ChatRow) (db new : ChatDb) (done : Unit {0})
      → update_last_message postgres chat_id message db ≡ (returns done, new)
      → find chat_key chat_id db.chats ≡ some row
      → (new.messages ≡ db.messages)
        × (new.participants ≡ db.participants)
        × (find chat_key chat_id new.chats ≡ some (mentions message row))
  unfolding update_last_message
  update_last_message-returns chat_id message row db new done h found =
      let same =
        update_last_message-writes chat_id message db new (in_transaction-returns db new _ done h)
          (find-some-taken chat_key chat_id db.chats row found) in
      rw same (
        refl,
        refl,
        find-update_rows chat_key chat_id (mentions message) db.chats row (λ q. refl) found,
      )
