-- ===== src/Repositories/ChatValidity/Additions.antt =====
-- Messages, keys, receipts and updates keep the constraints, and so does every writing call.
use chat_system.Prelude.{
  ◌≡◌, refl, sym, ◌∙◌, inl, inr, false, not, ◌&&◌, ◌||◌, List, [], ◌∷◌, ◌++◌, Text, text_eq_iff,
  arith, ℕ,
}
use chat_system.Exceptions.{Result, returns, throws, unless-returns, returns-injective}
use chat_system.Domain.Message.{Message}
use chat_system.Repositories.Rows.{taken}
use chat_system.Repositories.Rows.Laws.{Distinct-append}
use chat_system.Repositories.Where.{any}
use chat_system.Repositories.Where.Laws.{
  any-change_where, Fulfils-imp, Fulfils-append, Unique-append, Unique-change_where,
}
use chat_system.Repositories.Store.{user_id}
use chat_system.Repositories.ChatStore.{
  MessageRow, KeyRow, ReceiptRow, ChatDb, ChatPostgres, chat_key, message_key, is_key_of,
  is_receipt_of,
}
use chat_system.Repositories.Messages.{insert_message, insert_keys, upsert_receipt}
use chat_system.Repositories.Messages.Storing.{message_row, insert_message-returns}
use chat_system.Repositories.Messages.Receipts.{upsert_receipt-returns}
use chat_system.Repositories.ChatValidity.{
  same_membership, same_key, same_receipt, user_exists, message_exists, sender_exists, IsValid,
}
use chat_system.Repositories.Chats.{in_transaction, remove_chat_participant}
use chat_system.Repositories.ChatValidity.Insertions.{taken-more, last_exists-more}

pub remove_chat_participant-IsValid :
    (now : ℕ) (chat_id user : Text) (db : ChatDb)
    → IsValid db
    → IsValid (remove_chat_participant now chat_id user db)
unfolding remove_chat_participant
remove_chat_participant-IsValid now chat_id user db v = record {
  chat_ids = v.chat_ids;
  message_ids = v.message_ids;
  memberships =
      Unique-change_where same_membership _ _ db.participants (λ p q. refl) (λ p q. refl)
        v.memberships;
  key_pairs = v.key_pairs;
  receipt_pairs = v.receipt_pairs;
  members = any-change_where _ _ _ db.participants (λ p. refl) ∙ v.members;
  last_messages = v.last_messages;
  messages = v.messages;
  keys = v.keys;
  receipts = v.receipts;
}

pub in_transaction-IsValid :
    (db : ChatDb) (r : Result ChatDb)
    → IsValid db
    → ((new : ChatDb) → r ≡ returns new → IsValid new)
    → IsValid (in_transaction db r).1
unfolding in_transaction
in_transaction-IsValid db (returns new) v h = h new refl
in_transaction-IsValid db (throws e) v h = v

module _ (postgres : ChatPostgres) where
  pub insert_message-IsValid :
      (message : Message) (encrypted_keys : List (Text × Text)) (db new : ChatDb)
      → IsValid db
      → insert_message postgres message encrypted_keys db ≡ returns new
      → IsValid new
  insert_message-IsValid message encrypted_keys db new v h =
      let (free, chat, user, same) =
        insert_message-returns postgres message encrypted_keys db new h in
      let row = message_row postgres message in
      rw same (record {
        chat_ids = v.chat_ids;
        message_ids = Distinct-append message_key db.messages row v.message_ids free;
        memberships = v.memberships;
        key_pairs = v.key_pairs;
        receipt_pairs = v.receipt_pairs;
        members = v.members;
        last_messages =
            Fulfils-imp _ _ db.chats (λ c k. last_exists-more db (row ∷ []) c.last_message_id k)
              v.last_messages;
        messages =
            Fulfils-append
              (λ (m : MessageRow).
                taken chat_key m.chat_id db.chats && sender_exists db m.sender_id)
              db.messages row v.messages (ground arith);
        keys =
            Fulfils-imp _ _ db.keys
              (λ k e. ground (arith, taken-more message_key k.message_id db.messages (row ∷ [])))
              v.keys;
        receipts =
            Fulfils-imp _ _ db.receipts
              (λ r e. ground (arith, taken-more message_key r.message_id db.messages (row ∷ [])))
              v.receipts;
      })

  add_key-IsValid :
      (message_id user key : Text) (db : ChatDb)
      → IsValid db
      → (any (is_key_of message_id user) db.keys
          || (not (taken message_key message_id db.messages)
              || not (taken user_id user db.accounts.users)))
        ≡ false
      → IsValid (record db {
        keys =
            db.keys
            ++ (record { message_id = message_id; user_id = user; encrypted_key = key } ∷ []);
      })
  add_key-IsValid message_id user key db v free = record {
    chat_ids = v.chat_ids;
    message_ids = v.message_ids;
    memberships = v.memberships;
    key_pairs =
        Unique-append same_key (is_key_of message_id user) db.keys _
          (λ k e. ground (
            arith,
            text_eq_iff k.message_id message_id,
            text_eq_iff message_id k.message_id,
            text_eq_iff k.user_id user,
            text_eq_iff user k.user_id,
          ))
          v.key_pairs (ground arith);
    receipt_pairs = v.receipt_pairs;
    members = v.members;
    last_messages = v.last_messages;
    messages = v.messages;
    keys =
        Fulfils-append (λ (k : KeyRow). message_exists db k.message_id && user_exists db k.user_id)
          db.keys _ v.keys (ground arith);
    receipts = v.receipts;
  }

  pub insert_keys-IsValid :
      (message_id : Text) (encrypted_keys : List (Text × Text)) (db new : ChatDb)
      → IsValid db
      → insert_keys postgres message_id encrypted_keys db ≡ returns new
      → IsValid new
  unfolding insert_keys
  insert_keys-IsValid message_id [] db new v h =
      let same = returns-injective db new h in rw (sym same) v
  insert_keys-IsValid message_id ((user, key) ∷ encrypted_keys) db new v h =
      let (free, rest) = unless-returns _ postgres.violation _ new h in
      insert_keys-IsValid message_id encrypted_keys _ new
        (add_key-IsValid message_id user key db v free) rest

  pub upsert_receipt-IsValid :
      (message_id user : Text) (row : ReceiptRow) (change : ReceiptRow → ReceiptRow)
      (db new : ChatDb)
      → (row.message_id ≡ message_id)
      → (row.user_id ≡ user)
      → ((r : ReceiptRow) → (change r).message_id ≡ r.message_id)
      → ((r : ReceiptRow) → (change r).user_id ≡ r.user_id)
      → IsValid db
      → upsert_receipt postgres message_id user row change db ≡ returns new
      → IsValid new
  upsert_receipt-IsValid message_id user row change db new m u cm cu v h =
      elim (upsert_receipt-returns postgres message_id user row change db new h) [
        | inl (found, same) ↦ rw same (record {
          chat_ids = v.chat_ids;
          message_ids = v.message_ids;
          memberships = v.memberships;
          key_pairs = v.key_pairs;
          receipt_pairs =
              Unique-change_where same_receipt (is_receipt_of message_id user) change db.receipts
                (λ r q. rw (cm q, cu q) refl) (λ r q. rw (cm r, cu r) refl) v.receipt_pairs;
          members = v.members;
          last_messages = v.last_messages;
          messages = v.messages;
          keys = v.keys;
          receipts =
              any-change_where _ (is_receipt_of message_id user) change db.receipts
                (λ r. rw (cm r, cu r) refl)
              ∙ v.receipts;
        })
        | inr (free, message, account, same) ↦ rw same (record {
          chat_ids = v.chat_ids;
          message_ids = v.message_ids;
          memberships = v.memberships;
          key_pairs = v.key_pairs;
          receipt_pairs =
              Unique-append same_receipt (is_receipt_of message_id user) db.receipts row
                (λ r e. ground (
                  arith,
                  m,
                  u,
                  text_eq_iff r.message_id row.message_id,
                  text_eq_iff row.message_id r.message_id,
                  text_eq_iff r.user_id row.user_id,
                  text_eq_iff row.user_id r.user_id,
                ))
                v.receipt_pairs free;
          members = v.members;
          last_messages = v.last_messages;
          messages = v.messages;
          keys = v.keys;
          receipts =
              Fulfils-append
                (λ (r : ReceiptRow). message_exists db r.message_id && user_exists db r.user_id)
                db.receipts row v.receipts (rw (m, u) (ground arith));
        })
      ]
