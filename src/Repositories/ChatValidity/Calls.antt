-- ===== src/Repositories/ChatValidity/Calls.antt =====
-- The writing calls of pqxx_chat_repository.cpp and pqxx_message_repository.cpp, one by one.
use chat_system.Prelude.{
  ◌⊎◌, ◌≡◌, refl, sym, inl, inr, Bool, true, none, some, List, [], ◌∷◌, Text, arith, if◌then◌else◌,
  ℕ,
}
use chat_system.Exceptions.{returns, throws, bind-returns}
use chat_system.Domain.Chat.{Chat}
use chat_system.Domain.Message.{Message}
use chat_system.Repositories.Rows.{taken, update_rows}
use chat_system.Repositories.Rows.Updates.{taken-update_rows, Distinct-update_rows}
use chat_system.Repositories.Where.{any}
use chat_system.Repositories.Where.Laws.{Fulfils, Fulfils-imp}
use chat_system.Repositories.ChatStore.{
  ChatRow, ReceiptRow, ChatDb, ChatPostgres, chat_key, message_key,
}
use chat_system.Repositories.Chats.{insert_chat, insert_participants}
use chat_system.Repositories.Messages.{insert_message, insert_keys}
use chat_system.Repositories.ChatValidity.{last_exists, IsValid}
use chat_system.Repositories.Chats.{
  delete_chat_by_id, remove_chat_participant, add_chat, add_chat_participant, update_last_message,
}
use chat_system.Repositories.Messages.{delete_message_by_id, add_message, mark_delivered, mark_read}
use chat_system.Repositories.ChatStore.{is_set}
use chat_system.Repositories.ChatValidity.Insertions.{
  insert_chat-IsValid, insert_participant-IsValid, insert_participants-IsValid,
}
use chat_system.Repositories.ChatValidity.Deletions.{
  delete_chat_by_id-IsValid, delete_message_by_id-IsValid,
}
use chat_system.Repositories.ChatValidity.Additions.{
  remove_chat_participant-IsValid, in_transaction-IsValid, insert_message-IsValid,
  insert_keys-IsValid, upsert_receipt-IsValid,
}
use chat_system.Repositories.Messages.{coalesce}
use chat_system.Repositories.Messages.Storing.{mentions}

update_rows-Fulfils :
    (test : ChatRow → Bool) (x : Text) (change : ChatRow → ChatRow) (rows : List ChatRow)
    → ((c : ChatRow) → test (change c) ≡ true)
    → Fulfils test rows
    → Fulfils test (update_rows chat_key x change rows)
unfolding any update_rows
update_rows-Fulfils test x change [] h k = refl
update_rows-Fulfils test x change (c ∷ rows) h k =
    ground (arith, update_rows-Fulfils test x change rows h, h c)

-- A call of a repository that writes, with its time.
pub data ChatCall : Type 0 where
  adds_chat : Chat → ChatCall
  adds_participant removes_participant : (now : ℕ) (chat_id user : Text) → ChatCall
  updates_last_message : Text → Message → ChatCall
  deletes_chat deletes_message : Text → ChatCall
  adds_message : Message → List (Text × Text) → ChatCall
  marks_delivered marks_read : (now : ℕ) (message_id user : Text) → ChatCall

abbrev pub after_chat_call : ChatPostgres → ChatCall → ChatDb → ChatDb
after_chat_call postgres (adds_chat chat) db = (add_chat postgres chat db).1
after_chat_call postgres (adds_participant now chat_id user) db =
    (add_chat_participant postgres chat_id user db).1
after_chat_call postgres (removes_participant now chat_id user) db =
    remove_chat_participant now chat_id user db
after_chat_call postgres (updates_last_message chat_id message) db =
    (update_last_message postgres chat_id message db).1
after_chat_call postgres (deletes_chat id) db = delete_chat_by_id id db
after_chat_call postgres (deletes_message id) db = delete_message_by_id id db
after_chat_call postgres (adds_message message keys) db = (add_message postgres message keys db).1
after_chat_call postgres (marks_delivered now id user) db =
    (mark_delivered postgres now id user db).1
after_chat_call postgres (marks_read now id user) db = (mark_read postgres now id user db).1

module _ (postgres : ChatPostgres) where
  updated_last :
      (chat_id : Text) (message : Message) (db new : ChatDb)
      → (if taken chat_key chat_id db.chats
          then (if taken message_key message.id db.messages
              then returns (record db {
                chats = update_rows chat_key chat_id (mentions postgres message) db.chats;
              })
              else throws postgres.violation)
          else returns db)
        ≡ returns new
      → (db ≡ new)
        ⊎ ((taken message_key message.id db.messages ≡ true)
            × (new ≡ record db {
              chats = update_rows chat_key chat_id (mentions postgres message) db.chats;
            }))
  updated_last chat_id message db new h = ground arith

  mentions-IsValid :
      (chat_id : Text) (message : Message) (db : ChatDb)
      → IsValid db
      → taken message_key message.id db.messages ≡ true
      → IsValid
          (record db { chats = update_rows chat_key chat_id (mentions postgres message) db.chats })
  mentions-IsValid chat_id message db v exists =
      let change = mentions postgres message in
      let there : (x : Text)
          → taken chat_key x (update_rows chat_key chat_id change db.chats)
            ≡ taken chat_key x db.chats =
        λ x. taken-update_rows chat_key chat_key chat_id x change db.chats (λ c. refl) in
      record {
        chat_ids =
            Distinct-update_rows chat_key chat_key chat_id change db.chats (λ c. refl) v.chat_ids;
        message_ids = v.message_ids;
        memberships = v.memberships;
        key_pairs = v.key_pairs;
        receipt_pairs = v.receipt_pairs;
        members =
            Fulfils-imp _ _ db.participants (λ p k. ground (arith, there p.chat_id)) v.members;
        last_messages =
            update_rows-Fulfils (λ (c : ChatRow). last_exists db c.last_message_id) chat_id change
              db.chats (λ c. exists) v.last_messages;
        messages = Fulfils-imp _ _ db.messages (λ m k. ground (arith, there m.chat_id)) v.messages;
        keys = v.keys;
        receipts = v.receipts;
      }

  update_last_message-IsValid :
      (chat_id : Text) (message : Message) (db : ChatDb)
      → IsValid db
      → IsValid (update_last_message postgres chat_id message db).1
  unfolding update_last_message
  update_last_message-IsValid chat_id message db v = in_transaction-IsValid db _ v λ new h.
      elim (updated_last chat_id message db new h) [
        | inl same ↦ rw (sym same) v
        | inr (exists, same) ↦ rw same (mentions-IsValid chat_id message db v exists)
      ]

-- Every writing operation of the chat and the message repository keeps the primary keys of the five
-- tables, every reference from one to another and to the users, whether it throws or not.
pub after_chat_call-IsValid :
    (postgres : ChatPostgres) (call : ChatCall) (db : ChatDb)
    → IsValid db
    → IsValid (after_chat_call postgres call db)
unfolding add_chat add_chat_participant add_message mark_delivered mark_read
after_chat_call-IsValid postgres (adds_chat chat) db v = in_transaction-IsValid db _ v λ new h.
    let (next, inserted, rest) =
      bind-returns (insert_chat postgres chat db)
        (insert_participants postgres chat.id chat.participant_ids) new h in
    insert_participants-IsValid postgres chat.id chat.participant_ids next new
      (insert_chat-IsValid postgres chat db next v inserted) rest
after_chat_call-IsValid postgres (adds_participant now chat_id user) db v =
    in_transaction-IsValid db _ v
      λ new h. insert_participant-IsValid postgres chat_id user db new v h
after_chat_call-IsValid postgres (removes_participant now chat_id user) db v =
    remove_chat_participant-IsValid now chat_id user db v
after_chat_call-IsValid postgres (updates_last_message chat_id message) db v =
    update_last_message-IsValid postgres chat_id message db v
after_chat_call-IsValid postgres (deletes_chat id) db v = delete_chat_by_id-IsValid id db v
after_chat_call-IsValid postgres (deletes_message id) db v = delete_message_by_id-IsValid id db v
after_chat_call-IsValid postgres (adds_message message keys) db v =
    in_transaction-IsValid db _ v λ new h.
      let (next, inserted, rest) =
        bind-returns (insert_message postgres message keys db)
          (insert_keys postgres message.id keys) new h in
      insert_keys-IsValid postgres message.id keys next new
        (insert_message-IsValid postgres message keys db next v inserted) rest
after_chat_call-IsValid postgres (marks_delivered now id user) db v =
    let delivered : ReceiptRow = record {
      message_id = id;
      user_id = user;
      delivered_at = some now;
      read_at = none;
    } in
    in_transaction-IsValid db _ v λ new h.
      upsert_receipt-IsValid postgres id user delivered
        (λ r. if is_set r.delivered_at then r else record r { delivered_at = some now }) db new refl
        refl (λ r. ground arith) (λ r. ground arith) v h
after_chat_call-IsValid postgres (marks_read now id user) db v =
    let both : ReceiptRow = record {
      message_id = id;
      user_id = user;
      delivered_at = some now;
      read_at = some now;
    } in
    in_transaction-IsValid db _ v λ new h.
      upsert_receipt-IsValid postgres id user both
        (λ r. record r { delivered_at = coalesce r.delivered_at now; read_at = some now }) db new
        refl refl (λ r. refl) (λ r. refl) v h
