-- ===== src/Repositories/ChatValidity.antt =====
-- The constraints of the chat tables: db/migrations/V1__Init.sql, V2__Add_chat_metadata.sql and
-- V3__messages_col_rename_and_create_message_keys.sql.
pub mod Insertions
pub mod Deletions
pub mod Additions
pub mod Calls
use chat_system.Prelude.{Bool, true, ◌&&◌, Option, none, some, List, Text}
use chat_system.Domain.User.{User}
use chat_system.Repositories.Rows.{taken, Distinct}
use chat_system.Repositories.Where.{Unique}
use chat_system.Repositories.Where.Laws.{Fulfils}
use chat_system.Repositories.Store.{user_id}
use chat_system.Repositories.ChatStore.{
  ChatRow, ParticipantRow, MessageRow, KeyRow, ReceiptRow, ChatDb, chat_key, message_key,
  is_membership, is_key_of, is_receipt_of,
}

-- The primary keys of two columns.
abbrev pub same_membership : ParticipantRow → ParticipantRow → Bool
same_membership p q = is_membership p.chat_id p.user_id q

abbrev pub same_key : KeyRow → KeyRow → Bool
same_key k l = is_key_of k.message_id k.user_id l

abbrev pub same_receipt : ReceiptRow → ReceiptRow → Bool
same_receipt r s = is_receipt_of r.message_id r.user_id s

-- The foreign keys.
abbrev pub user_exists : ChatDb → Text → Bool
user_exists db user = taken user_id user db.accounts.users

abbrev pub message_exists : ChatDb → Text → Bool
message_exists db id = taken message_key id db.messages

abbrev pub sender_exists : ChatDb → Option Text → Bool
sender_exists db none = true
sender_exists db (some user) = user_exists db user

abbrev pub last_exists : ChatDb → Option Text → Bool
last_exists db none = true
last_exists db (some id) = message_exists db id

pub record IsValid (db : ChatDb) : Type 0 where
  pub chat_ids : Distinct chat_key db.chats
  pub message_ids : Distinct message_key db.messages
  pub memberships : Unique same_membership db.participants
  pub key_pairs : Unique same_key db.keys
  pub receipt_pairs : Unique same_receipt db.receipts
  pub members :
      Fulfils (λ p. taken chat_key p.chat_id db.chats && user_exists db p.user_id) db.participants
  pub last_messages : Fulfils (λ c. last_exists db c.last_message_id) db.chats
  pub messages :
      Fulfils (λ m. taken chat_key m.chat_id db.chats && sender_exists db m.sender_id) db.messages
  pub keys : Fulfils (λ k. message_exists db k.message_id && user_exists db k.user_id) db.keys
  pub receipts :
      Fulfils (λ r. message_exists db r.message_id && user_exists db r.user_id) db.receipts
