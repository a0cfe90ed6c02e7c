-- ===== src/Repositories/Messages.antt =====
-- Server/Source/Database/Postgres/Repositories/pqxx_message_repository.cpp. Each operation runs in
-- one Transaction, so it takes effect as a whole or not at all.
pub mod Receipts
pub mod Storing
pub mod Pages
use chat_system.Prelude.{
  ℕ, Bool, true, false, not, ◌&&◌, ◌||◌, Option, none, some, List, [], ◌∷◌, ◌++◌, Text, text_eq,
  ltb, if◌then◌else◌,
}
use chat_system.Exceptions.{Exception, Result, returns, throws, ◌>>=◌}
use chat_system.Domain.Message.{Message}
use chat_system.Domain.Types.{message_type_string}
use chat_system.Repositories.Rows.{keep, taken, find, delete}
use chat_system.Repositories.Where.{any, first, change_where, order_by, limit_offset}
use chat_system.Repositories.Store.{user_id}
use chat_system.Repositories.ChatStore.{
  ParticipantRow, MessageRow, KeyRow, ReceiptRow, ChatDb, ChatPostgres, chat_key, message_key,
  is_membership, is_key_of, is_receipt_of, is_set, map_message, map_messages,
}
use chat_system.Repositories.Chats.{in_transaction, clear_last_messages}

unfoldable pub key_text : Option KeyRow → Option Text
key_text none = none
key_text (some k) = some k.encrypted_key

-- PqxxMessageRepository::GetEncryptedKey.
unfoldable pub find_encrypted_key : ChatDb → Text → Text → Option Text
unfolding key_text
find_encrypted_key db message_id user = key_text (first (is_key_of message_id user) db.keys)

-- PqxxMessageRepository::DeleteById, with ON DELETE CASCADE and SET NULL.
unfoldable pub delete_message_by_id : Text → ChatDb → ChatDb
delete_message_by_id id db = record db {
  chats = clear_last_messages (λ last. not (text_eq last id)) db.chats;
  messages = delete message_key id db.messages;
  keys = keep (λ k. not (text_eq k.message_id id)) db.keys;
  receipts = keep (λ r. not (text_eq r.message_id id)) db.receipts;
}

-- ORDER BY created_at DESC, and ASC.
unfoldable pub newer : MessageRow → MessageRow → Bool
newer m n = ltb n.created_at m.created_at

unfoldable pub older : MessageRow → MessageRow → Bool
older m n = ltb m.created_at n.created_at

-- sender_id != $1, which a NULL fails.
unfoldable pub sent_by_other : Text → Option Text → Bool
sent_by_other user none = false
sent_by_other user (some sender) = not (text_eq sender user)

-- created_at > (SELECT created_at FROM messages WHERE id = $2), which fails if there is none.
unfoldable pub later_than : Option MessageRow → MessageRow → Bool
later_than none m = false
later_than (some cursor) m = ltb cursor.created_at m.created_at

unfoldable pub is_behind : ChatDb → Option Text → MessageRow → Bool
unfolding later_than
is_behind db none m = true
is_behind db (some id) m = later_than (find message_key id db.messages) m

-- A receipt of the recipient with delivered_at.
unfoldable pub is_delivered : ChatDb → Text → Text → Bool
is_delivered db message_id user =
    any (λ r. is_receipt_of message_id user r && is_set r.delivered_at) db.receipts

-- The WHERE clause of FindUndelivered: the joins find at most one row each, by the primary keys.
unfoldable pub is_undelivered : ChatDb → Text → Option Text → MessageRow → Bool
unfolding sent_by_other is_delivered is_behind
is_undelivered db user after m =
    any (is_membership m.chat_id user) db.participants
    && (sent_by_other user m.sender_id && (not (is_delivered db m.id user) && is_behind db after m))

-- SELECT user_id FROM message_receipts WHERE message_id = $1 AND column IS NOT NULL.
unfoldable pub receipt_users : (ReceiptRow → Option ℕ) → Text → List ReceiptRow → List Text
receipt_users column message_id [] = []
receipt_users column message_id (r ∷ rows) =
    let rest = receipt_users column message_id rows in
    if text_eq r.message_id message_id && is_set (column r) then r.user_id ∷ rest else rest

abbrev pub delivered_column : ReceiptRow → Option ℕ
delivered_column r = r.delivered_at

abbrev pub read_column : ReceiptRow → Option ℕ
read_column r = r.read_at

-- PqxxMessageRepository::GetDeliveredTo and GetReaders, up to the order of the users.
unfoldable pub get_delivered_to : ChatDb → Text → List Text
unfolding receipt_users
get_delivered_to db message_id = receipt_users delivered_column message_id db.receipts

unfoldable pub get_readers : ChatDb → Text → List Text
unfolding receipt_users
get_readers db message_id = receipt_users read_column message_id db.receipts

-- COALESCE(column, CURRENT_TIMESTAMP).
unfoldable pub coalesce : Option ℕ → ℕ → Option ℕ
coalesce none now = some now
coalesce (some t) now = some t

module _ (postgres : ChatPostgres) where
  unfoldable pub insert_message : Message → List (Text × Text) → ChatDb → Result ChatDb
  insert_message message encrypted_keys db =
      elim (postgres.refuses_message message encrypted_keys) [
        | some e ↦ throws e
        | none ↦
            if taken message_key message.id db.messages
              || (not (taken chat_key message.chat_id db.chats)
                  || not (taken user_id message.sender_id db.accounts.users))
            then throws postgres.violation
            else returns (record db {
              messages =
                  db.messages
                  ++ (record {
                    id = message.id;
                    chat_id = message.chat_id;
                    sender_id = some message.sender_id;
                    ciphertext = message.ciphertext;
                    type = message_type_string message.type;
                    created_at = postgres.stored_time message.created_at;
                  }
                      ∷ []);
            })
      ]

  -- The loop of Add over the map from users to keys.
  unfoldable pub insert_keys : Text → List (Text × Text) → ChatDb → Result ChatDb
  insert_keys message_id [] db = returns db
  insert_keys message_id ((user, key) ∷ encrypted_keys) db =
      if any (is_key_of message_id user) db.keys
        || (not (taken message_key message_id db.messages)
            || not (taken user_id user db.accounts.users))
      then throws postgres.violation
      else insert_keys message_id encrypted_keys (record db {
        keys =
            db.keys
            ++ (record { message_id = message_id; user_id = user; encrypted_key = key } ∷ []);
      })

  -- PqxxMessageRepository::Add.
  unfoldable pub add_message : Message → List (Text × Text) → ChatDb → Result (Unit {0}) × ChatDb
  unfolding in_transaction insert_message insert_keys
  add_message message encrypted_keys db =
      in_transaction db
        (insert_message message encrypted_keys db >>= insert_keys message.id encrypted_keys)

  unfoldable pub read_found_message : Option MessageRow → Result (Option Message)
  read_found_message none = returns none
  read_found_message (some row) = map_message postgres row >>= λ m. returns (some m)

  -- PqxxMessageRepository::FindById.
  unfoldable pub find_message_by_id : ChatDb → Text → Result (Option Message)
  unfolding read_found_message
  find_message_by_id db id = read_found_message (find message_key id db.messages)

  unfoldable pub message_rows_of : ChatDb → Text → ℕ → ℕ → List MessageRow
  unfolding newer order_by
  message_rows_of db chat_id limit offset =
      order_by newer
        (postgres.messages_order limit offset (keep (λ m. text_eq m.chat_id chat_id) db.messages))

  -- PqxxMessageRepository::FindByChatId.
  unfoldable pub find_by_chat_id : ChatDb → Text → ℕ → ℕ → Result (List Message)
  unfolding message_rows_of limit_offset
  find_by_chat_id db chat_id limit offset =
      limit_offset postgres.negative_count limit offset (message_rows_of db chat_id limit offset)
      >>= map_messages postgres

  unfoldable pub undelivered_rows : ChatDb → Text → ℕ → Option Text → List MessageRow
  unfolding older order_by is_undelivered
  undelivered_rows db user limit after =
      order_by older
        (postgres.messages_order limit 0 (keep (is_undelivered db user after) db.messages))

  -- PqxxMessageRepository::FindUndelivered.
  unfoldable pub find_undelivered : ChatDb → Text → ℕ → Option Text → Result (List Message)
  unfolding undelivered_rows limit_offset
  find_undelivered db user limit after =
      limit_offset postgres.negative_count limit 0 (undelivered_rows db user limit after)
      >>= map_messages postgres

  -- INSERT INTO message_receipts ... ON CONFLICT DO UPDATE.
  unfoldable pub upsert_receipt :
      Text → Text → ReceiptRow → (ReceiptRow → ReceiptRow) → ChatDb → Result ChatDb
  upsert_receipt message_id user new change db =
      if any (is_receipt_of message_id user) db.receipts
      then returns
          (record db { receipts = change_where (is_receipt_of message_id user) change db.receipts })
      else (if taken message_key message_id db.messages && taken user_id user db.accounts.users
          then returns (record db { receipts = db.receipts ++ (new ∷ []) })
          else throws postgres.violation)

  -- PqxxMessageRepository::MarkDelivered at the given time.
  unfoldable pub mark_delivered : ℕ → Text → Text → ChatDb → Result (Unit {0}) × ChatDb
  unfolding in_transaction upsert_receipt coalesce
  mark_delivered now message_id user db = in_transaction db (
      upsert_receipt message_id user
        (record {
          message_id = message_id;
          user_id = user;
          delivered_at = some now;
          read_at = none;
        })
        (λ r. if is_set r.delivered_at then r else record r { delivered_at = some now }) db)

  -- PqxxMessageRepository::MarkRead at the given time.
  unfoldable pub mark_read : ℕ → Text → Text → ChatDb → Result (Unit {0}) × ChatDb
  unfolding in_transaction upsert_receipt coalesce
  mark_read now message_id user db = in_transaction db (
      upsert_receipt message_id user
        (record {
          message_id = message_id;
          user_id = user;
          delivered_at = some now;
          read_at = some now;
        })
        (λ r. record r { read_at = some now; delivered_at = coalesce r.delivered_at now }) db)
