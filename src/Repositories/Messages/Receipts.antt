-- ===== src/Repositories/Messages/Receipts.antt =====
-- The receipts: what MarkDelivered and MarkRead record, and what FindUndelivered leaves out.
use chat_system.Prelude.{
  ℕ, ◌≡◌, ◌⊎◌, refl, sym, ap, ◌∙◌, inl, inr, Bool, true, false, ◌&&◌, ◌||◌, Option, none, some,
  List, [], ◌∷◌, ◌++◌, Text, text_eq, text_eq_refl, arith,
}
use chat_system.Exceptions.{returns, bind-returns, returns-injective}
use chat_system.Domain.Message
use chat_system.Domain.Message.{Message}
use chat_system.Domain.Types.{create_message_type}
use chat_system.Repositories.Rows.{taken}
use chat_system.Repositories.Store.{user_id}
use chat_system.Repositories.Where.{any, change_where}
use chat_system.Repositories.Where.Laws.{any-append, any-change_where-true, any-change_where_mono}
use chat_system.Repositories.ChatStore.{
  MessageRow, ReceiptRow, ChatDb, ChatPostgres, message_key, is_receipt_of, is_set, get_string,
  map_message, map_messages,
}
use chat_system.Repositories.Messages.{
  read_column, delivered_column, get_readers, get_delivered_to, is_delivered, receipt_users,
  coalesce, upsert_receipt, mark_delivered, mark_read,
}
use chat_system.Repositories.Chats.Writing.{in_transaction-returns}

-- Whether a receipt of the message and the user has the column.
abbrev pub has : (ReceiptRow → Option ℕ) → Text → Text → ReceiptRow → Bool
has column message_id user r = is_receipt_of message_id user r && is_set (column r)

pub any-receipt_users :
    (column : ReceiptRow → Option ℕ) (message_id user : Text) (rows : List ReceiptRow)
    → any (λ u. text_eq u user) (receipt_users column message_id rows)
      ≡ any (has column message_id user) rows
unfolding any receipt_users
any-receipt_users column message_id user [] = refl
any-receipt_users column message_id user (r ∷ rows) =
    ground (arith, any-receipt_users column message_id user rows)

module _ (postgres : ChatPostgres) where
  -- The two branches of ON CONFLICT.
  pub upsert_receipt-returns :
      (message_id user : Text) (new : ReceiptRow) (change : ReceiptRow → ReceiptRow)
      (db after : ChatDb)
      → upsert_receipt postgres message_id user new change db ≡ returns after
      → ((any (is_receipt_of message_id user) db.receipts ≡ true)
          × (after ≡ record db {
            receipts = change_where (is_receipt_of message_id user) change db.receipts;
          }))
        ⊎ ((any (is_receipt_of message_id user) db.receipts ≡ false)
            × (taken message_key message_id db.messages ≡ true)
            × (taken user_id user db.accounts.users ≡ true)
            × (after ≡ record db { receipts = db.receipts ++ (new ∷ []) }))
  unfolding upsert_receipt
  upsert_receipt-returns message_id user new change db after h = ground arith

  -- A receipt that is inserted or changed has a column that the new row and the change set.
  pub upsert_receipt-has :
      (column : ReceiptRow → Option ℕ) (message_id user : Text) (new : ReceiptRow)
      (change : ReceiptRow → ReceiptRow) (db after : ChatDb)
      → has column message_id user new ≡ true
      → ((r : ReceiptRow)
          → is_receipt_of message_id user r ≡ true
          → has column message_id user (change r) ≡ true)
      → upsert_receipt postgres message_id user new change db ≡ returns after
      → any (has column message_id user) after.receipts ≡ true
  unfolding any
  upsert_receipt-has column message_id user new change db after fresh changed h =
      elim (upsert_receipt-returns message_id user new change db after h) [
        | inl (e, same) ↦ rw same (
            any-change_where-true (has column message_id user) (is_receipt_of message_id user)
              change db.receipts changed e)
        | inr (e, m, u, same) ↦
            rw same (any-append (has column message_id user) db.receipts (new ∷ []) ∙ ground arith)
      ]

  -- What another receipt or another column records stays, where the change keeps it.
  pub upsert_receipt-keeps :
      (column : ReceiptRow → Option ℕ) (message_id user other someone : Text) (new : ReceiptRow)
      (change : ReceiptRow → ReceiptRow) (db after : ChatDb)
      → ((r : ReceiptRow)
          → has column other someone r ≡ true
          → has column other someone (change r) ≡ true)
      → upsert_receipt postgres message_id user new change db ≡ returns after
      → any (has column other someone) db.receipts ≡ true
      → any (has column other someone) after.receipts ≡ true
  unfolding any
  upsert_receipt-keeps column message_id user other someone new change db after kept h e =
      elim (upsert_receipt-returns message_id user new change db after h) [
        | inl (found, same) ↦ rw same (
            any-change_where_mono (has column other someone) (is_receipt_of message_id user) change
              db.receipts kept e)
        | inr (free, m, u, same) ↦
            rw same (any-append (has column other someone) db.receipts (new ∷ []) ∙ ground arith)
      ]

  pub mark_delivered-has :
      (now : ℕ) (message_id user : Text) (db new : ChatDb) (done : Unit {0})
      → mark_delivered postgres now message_id user db ≡ (returns done, new)
      → is_delivered new message_id user ≡ true
  unfolding mark_delivered is_delivered
  mark_delivered-has now message_id user db new done h =
      upsert_receipt-has (λ r. r.delivered_at) message_id user _ _ db new
        (ground (arith, text_eq_refl message_id, text_eq_refl user)) (λ r e. ground arith)
        (in_transaction-returns db new _ done h)

  pub mark_delivered-keeps :
      (now : ℕ) (message_id user other someone : Text) (db new : ChatDb) (done : Unit {0})
      → mark_delivered postgres now message_id user db ≡ (returns done, new)
      → is_delivered db other someone ≡ true
      → is_delivered new other someone ≡ true
  unfolding mark_delivered is_delivered
  mark_delivered-keeps now message_id user other someone db new done h e =
      upsert_receipt-keeps (λ r. r.delivered_at) message_id user other someone _ _ db new
        (λ r k. ground arith) (in_transaction-returns db new _ done h) e

  pub mark_read-has :
      (now : ℕ) (message_id user : Text) (db new : ChatDb) (done : Unit {0})
      → mark_read postgres now message_id user db ≡ (returns done, new)
      → (any (λ u. text_eq u user) (get_readers new message_id) ≡ true)
        × (any (λ u. text_eq u user) (get_delivered_to new message_id) ≡ true)
  unfolding mark_read get_readers get_delivered_to coalesce
  mark_read-has now message_id user db new done h =
      let step = in_transaction-returns db new _ done h in
      (
        any-receipt_users read_column message_id user new.receipts
            ∙ upsert_receipt-has read_column message_id user _ _ db new
                (ground (arith, text_eq_refl message_id, text_eq_refl user)) (λ r e. ground arith)
                step,
        any-receipt_users delivered_column message_id user new.receipts
            ∙ upsert_receipt-has delivered_column message_id user _ _ db new
                (ground (arith, text_eq_refl message_id, text_eq_refl user)) (λ r e. ground arith)
                step,
      )

  get_string-returns : (o : Option Text) (t : Text) → get_string postgres o ≡ returns t → o ≡ some t
  unfolding get_string
  get_string-returns none t h = cc
  get_string-returns (some s) t h = ap some (returns-injective s t h)

  pub map_message-returns :
      (row : MessageRow) (m : Message)
      → map_message postgres row ≡ returns m
      → (m.id ≡ row.id) × (row.sender_id ≡ some m.sender_id)
  unfolding map_message Message.reconstitute
  map_message-returns row m h =
      let (sender, got, rest) = bind-returns (get_string postgres row.sender_id) _ m h in
      let (type, typed, made) = bind-returns (create_message_type row.type) _ m rest in
      let same = returns-injective _ m made in
      (
        sym (ap (λ (x : Message). x.id) same),
        get_string-returns row.sender_id sender got ∙ ap (λ (x : Message). some x.sender_id) same,
      )

  -- The messages have the ids of the rows.
  pub any-map_messages :
      (id : Text) (rows : List MessageRow) (ms : List Message)
      → map_messages postgres rows ≡ returns ms
      → any (λ m. text_eq m.id id) ms ≡ any (λ r. text_eq r.id id) rows
  unfolding map_messages any
  any-map_messages id [] ms h = let same = returns-injective [] ms h in rw (sym same) refl
  any-map_messages id (row ∷ rows) ms h =
      let (m, mapped, rest) = bind-returns (map_message postgres row) _ ms h in
      let (others, all, made) = bind-returns (map_messages postgres rows) _ ms rest in
      let same = returns-injective _ ms made in
      let ids = (map_message-returns row m mapped).0 in
      rw (sym same, ids) (ap (◌||◌ (text_eq row.id id)) (any-map_messages id rows others all))
