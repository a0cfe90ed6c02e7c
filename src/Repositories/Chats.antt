-- ===== src/Repositories/Chats.antt =====
-- Server/Source/Database/Postgres/Repositories/pqxx_chat_repository.cpp. Each operation runs in one
-- Transaction, so it takes effect as a whole or not at all.
pub mod Reading
pub mod Writing
use chat_system.Prelude.{
  ℕ, Bool, true, false, not, ◌&&◌, ◌||◌, Option, none, some, List, [], ◌∷◌, ◌++◌, Text, text_eq,
  ltb, if◌then◌else◌,
}
use chat_system.Exceptions.{Exception, Result, returns, throws, ◌>>=◌}
use chat_system.Domain.Message.{Message}
use chat_system.Domain.Chat.{Chat}
use chat_system.Domain.Types.{chat_type_string}
use chat_system.Repositories.Rows.{keep, taken, find, delete, update_rows}
use chat_system.Repositories.Where.{any, change_where, order_by, limit_offset}
use chat_system.Repositories.Store.{Db, user_id}
use chat_system.Repositories.ChatStore.{
  ChatRow, ParticipantRow, MessageRow, KeyRow, ReceiptRow, ChatDb, ChatPostgres, chat_key,
  message_key, is_membership, is_set, string_agg, split_csv, get_string, map_chat,
}

-- SELECT user_id FROM chat_participants WHERE chat_id = $1 AND left_at IS NULL.
unfoldable pub current_users : List ParticipantRow → Text → List Text
current_users [] chat_id = []
current_users (p ∷ rows) chat_id =
    let rest = current_users rows chat_id in
    if text_eq p.chat_id chat_id && not (is_set p.left_at) then p.user_id ∷ rest else rest

-- The statements of a Transaction with its Commit(): the tables that they leave, or the exception of
-- the first that fails, and the tables as they were.
unfoldable pub in_transaction : ChatDb → Result ChatDb → Result (Unit {0}) × ChatDb
in_transaction db (returns new) = (returns tt, new)
in_transaction db (throws e) = (throws e, db)

-- Whether a row of messages is left when the chat is deleted, and a row that refers to one.
unfoldable pub outlives : List MessageRow → Text → Text → Bool
outlives messages chat_id message_id =
    not (any (λ m. text_eq m.id message_id && text_eq m.chat_id chat_id) messages)

-- ON DELETE SET NULL of last_message_id.
unfoldable pub clear_last_message : (Text → Bool) → ChatRow → ChatRow
clear_last_message stays row = elim row.last_message_id [
  | none ↦ row
  | some id ↦ if stays id then row else record row { last_message_id = none }
]

unfoldable pub clear_last_messages : (Text → Bool) → List ChatRow → List ChatRow
unfolding clear_last_message
clear_last_messages stays [] = []
clear_last_messages stays (row ∷ rows) =
    clear_last_message stays row ∷ clear_last_messages stays rows

-- PqxxChatRepository::DeleteById, with ON DELETE CASCADE from the chat to its participants and its
-- messages, and from these to their keys and receipts.
unfoldable pub delete_chat_by_id : Text → ChatDb → ChatDb
unfolding outlives clear_last_messages
delete_chat_by_id id db = record db {
  chats = clear_last_messages (outlives db.messages id) (delete chat_key id db.chats);
  participants = keep (λ p. not (text_eq p.chat_id id)) db.participants;
  messages = keep (λ m. not (text_eq m.chat_id id)) db.messages;
  keys = keep (λ k. outlives db.messages id k.message_id) db.keys;
  receipts = keep (λ r. outlives db.messages id r.message_id) db.receipts;
}

unfoldable pub is_participant : ChatDb → Text → Text → Bool
is_participant db chat_id user_id = any (is_membership chat_id user_id) db.participants

unfoldable pub remove_chat_participant : ℕ → Text → Text → ChatDb → ChatDb
remove_chat_participant now chat_id user_id db = record db {
  participants =
      change_where (λ p. is_membership chat_id user_id p && not (is_set p.left_at))
        (λ p. record p { left_at = some now }) db.participants;
}

-- ORDER BY last_message_timestamp DESC NULLS LAST.
unfoldable pub more_recent : Option ℕ → Option ℕ → Bool
more_recent none t = false
more_recent (some s) none = true
more_recent (some s) (some t) = ltb t s

unfoldable pub precedes_chat : ChatRow → ChatRow → Bool
unfolding more_recent
precedes_chat c d = more_recent c.last_message_timestamp d.last_message_timestamp

module _ (postgres : ChatPostgres) where
  unfoldable pub insert_chat : Chat → ChatDb → Result ChatDb
  insert_chat chat db = elim (postgres.refuses_chat chat) [
    | some e ↦ throws e
    | none ↦
        if taken chat_key chat.id db.chats
        then throws postgres.violation
        else returns (record db {
          chats =
              db.chats
              ++ (record {
                id = chat.id;
                created_at = postgres.stored_time chat.created_at;
                type = chat_type_string chat.type;
                last_message_id = none;
                last_message_timestamp = none;
              }
                  ∷ []);
        })
  ]

  -- The constraints of chat_participants: its primary key and its foreign keys.
  unfoldable pub insert_participant : Text → Text → ChatDb → Result ChatDb
  insert_participant chat_id new_user db =
      if any (is_membership chat_id new_user) db.participants
        || (not (taken chat_key chat_id db.chats) || not (taken user_id new_user db.accounts.users))
      then throws postgres.violation
      else returns (record db {
        participants =
            db.participants
            ++ (record { chat_id = chat_id; user_id = new_user; left_at = none } ∷ []);
      })

  -- The loop of Add.
  unfoldable pub insert_participants : Text → List Text → ChatDb → Result ChatDb
  unfolding insert_participant
  insert_participants chat_id [] db = returns db
  insert_participants chat_id (new_user ∷ users) db =
      insert_participant chat_id new_user db >>= insert_participants chat_id users

  -- PqxxChatRepository::Add.
  unfoldable pub add_chat : Chat → ChatDb → Result (Unit {0}) × ChatDb
  unfolding in_transaction insert_chat insert_participants
  add_chat chat db =
      in_transaction db (insert_chat chat db >>= insert_participants chat.id chat.participant_ids)

  -- PqxxChatRepository::AddParticipant.
  unfoldable pub add_chat_participant : Text → Text → ChatDb → Result (Unit {0}) × ChatDb
  unfolding in_transaction insert_participant
  add_chat_participant chat_id new_user db =
      in_transaction db (insert_participant chat_id new_user db)

  -- A chat row with its participants_csv, as FindById and FindByUserId read it.
  unfoldable pub read_chat : ChatDb → ChatRow → Result Chat
  unfolding current_users string_agg split_csv get_string map_chat
  read_chat db row =
      get_string postgres (string_agg (postgres.users_order (current_users db.participants row.id)))
      >>= λ csv. map_chat postgres db row (split_csv [] csv)

  unfoldable pub read_found_chat : ChatDb → Option ChatRow → Result (Option Chat)
  unfolding read_chat
  read_found_chat db none = returns none
  read_found_chat db (some row) = read_chat db row >>= λ chat. returns (some chat)

  -- PqxxChatRepository::FindById.
  unfoldable pub find_chat_by_id : ChatDb → Text → Result (Option Chat)
  unfolding read_found_chat
  find_chat_by_id db id = read_found_chat db (find chat_key id db.chats)

  unfoldable pub read_chats : ChatDb → List ChatRow → Result (List Chat)
  unfolding read_chat
  read_chats db [] = returns []
  read_chats db (row ∷ rows) =
      read_chat db row >>= λ chat. read_chats db rows >>= λ chats. returns (chat ∷ chats)

  -- The rows of FindByUserId in order: a chat joins the user's one row of chat_participants.
  unfoldable pub chat_rows_of : ChatDb → Text → ℕ → ℕ → List ChatRow
  unfolding precedes_chat order_by
  chat_rows_of db user limit offset = order_by precedes_chat (
      postgres.chats_order limit offset (
        keep (λ c. any (λ p. is_membership c.id user p && not (is_set p.left_at)) db.participants)
          db.chats))

  -- PqxxChatRepository::FindByUserId.
  unfoldable pub find_chats_by_user_id : ChatDb → Text → ℕ → ℕ → Result (List Chat)
  unfolding chat_rows_of limit_offset read_chats
  find_chats_by_user_id db user limit offset =
      limit_offset postgres.negative_count limit offset (chat_rows_of db user limit offset)
      >>= read_chats db

  -- PqxxChatRepository::UpdateLastMessage; no chat with the id, nothing to write.
  unfoldable pub update_last_message : Text → Message → ChatDb → Result (Unit {0}) × ChatDb
  unfolding in_transaction
  update_last_message chat_id message db = in_transaction db (
      if taken chat_key chat_id db.chats
      then (if taken message_key message.id db.messages
          then returns (record db {
            chats =
                update_rows chat_key chat_id
                  (λ c. record c {
                    last_message_id = some message.id;
                    last_message_timestamp = some (postgres.stored_time message.created_at);
                  })
                  db.chats;
          })
          else throws postgres.violation)
      else returns db)
