-- ===== src/Repositories/ChatValidity/Deletions.antt =====
-- The deletions keep the constraints: the cascades leave no row that refers to a deleted one.
use chat_system.Prelude.{
  ◌≡◌, refl, ap, ◌∙◌, inl, inr, Bool, true, false, not, List, [], ◌∷◌, Text, text_eq, text_eq_iff,
  arith, Option-cases,
}
use chat_system.Repositories.Rows.{keep, taken, delete, Distinct}
use chat_system.Repositories.Rows.Laws.{Distinct-keep}
use chat_system.Repositories.Where.{any}
use chat_system.Repositories.Where.Laws.{Fulfils, Fulfils-imp, Fulfils-keep, Unique-keep}
use chat_system.Repositories.ChatStore.{ChatRow, MessageRow, ChatDb, chat_key, message_key}
use chat_system.Repositories.Chats.{
  outlives, clear_last_message, clear_last_messages, delete_chat_by_id,
}
use chat_system.Repositories.Messages.{delete_message_by_id}
use chat_system.Repositories.ChatValidity.{
  same_membership, same_key, same_receipt, message_exists, last_exists, IsValid,
}

clear_last_message-id :
    (stays : Text → Bool) (row : ChatRow) → (clear_last_message stays row).id ≡ row.id
unfolding clear_last_message
clear_last_message-id stays row = ground arith

-- ON DELETE SET NULL keeps the chats.
pub taken-clear_last_messages :
    (stays : Text → Bool) (x : Text) (rows : List ChatRow)
    → taken chat_key x (clear_last_messages stays rows) ≡ taken chat_key x rows
unfolding taken clear_last_messages
taken-clear_last_messages stays x [] = refl
taken-clear_last_messages stays x (row ∷ rows) =
    ground (arith, taken-clear_last_messages stays x rows, clear_last_message-id stays row)

Distinct-clear_last_messages :
    (stays : Text → Bool) (rows : List ChatRow)
    → Distinct chat_key rows
    → Distinct chat_key (clear_last_messages stays rows)
unfolding clear_last_messages
Distinct-clear_last_messages stays [] h = tt
Distinct-clear_last_messages stays (row ∷ rows) (h, hs) = (
  ap (λ x. taken chat_key x (clear_last_messages stays rows)) (clear_last_message-id stays row)
      ∙ taken-clear_last_messages stays row.id rows
      ∙ h,
  Distinct-clear_last_messages stays rows hs,
)

-- A row that does not have the value goes on not having it.
pub taken-delete-other :
    {R : Type 0} (column : R → Text) (x y : Text) (rows : List R)
    → text_eq y x ≡ false
    → taken column y (delete column x rows) ≡ taken column y rows
unfolding taken delete keep
taken-delete-other column x y [] h = refl
taken-delete-other column x y (row ∷ rows) h = ground (
  arith,
  taken-delete-other column x y rows h,
  text_eq_iff (column row) x,
  text_eq_iff (column row) y,
  text_eq_iff y x,
)

-- The last messages that are left, where the messages that stay exist afterwards.
last_exists-clear :
    (db new : ChatDb) (stays : Text → Bool) (rows : List ChatRow)
    → ((id : Text) → stays id ≡ true → message_exists db id ≡ true → message_exists new id ≡ true)
    → Fulfils (λ c. last_exists db c.last_message_id) rows
    → Fulfils (λ c. last_exists new c.last_message_id) (clear_last_messages stays rows)
unfolding any clear_last_messages clear_last_message
last_exists-clear db new stays [] h k = refl
last_exists-clear db new stays (row ∷ rows) h k = elim (Option-cases row.last_message_id) [
  | inl e ↦ ground (arith, last_exists-clear db new stays rows h, e)
  | inr (id, e) ↦ ground (arith, last_exists-clear db new stays rows h, e, h id)
]

-- A message that outlives its chat is left.
taken-outlives :
    (chat_id x : Text) (rows : List MessageRow)
    → outlives rows chat_id x ≡ true
    → taken message_key x rows ≡ true
    → taken message_key x (keep (λ m. not (text_eq m.chat_id chat_id)) rows) ≡ true
unfolding outlives any taken keep
taken-outlives chat_id x [] h k = cc
taken-outlives chat_id x (row ∷ rows) h k = ground (arith, taken-outlives chat_id x rows)

taken-keep_chat :
    (id : Text) (rows : List ChatRow) (stays : Text → Bool) (x : Text)
    → text_eq x id ≡ false
    → taken chat_key x (clear_last_messages stays (delete chat_key id rows)) ≡ taken chat_key x rows
taken-keep_chat id rows stays x h =
    taken-clear_last_messages stays x (delete chat_key id rows)
    ∙ taken-delete-other chat_key id x rows h

pub delete_chat_by_id-IsValid :
    (id : Text) (db : ChatDb) → IsValid db → IsValid (delete_chat_by_id id db)
unfolding delete_chat_by_id delete
delete_chat_by_id-IsValid id db v = record {
  chat_ids =
      Distinct-clear_last_messages _ (delete chat_key id db.chats)
        (Distinct-keep chat_key _ db.chats v.chat_ids);
  message_ids = Distinct-keep message_key _ db.messages v.message_ids;
  memberships = Unique-keep same_membership _ db.participants v.memberships;
  key_pairs = Unique-keep same_key _ db.keys v.key_pairs;
  receipt_pairs = Unique-keep same_receipt _ db.receipts v.receipt_pairs;
  members =
      Fulfils-keep _ _ _ db.participants
        (λ p e k. ground (arith, taken-keep_chat id db.chats (outlives db.messages id) p.chat_id))
        v.members;
  last_messages =
      last_exists-clear db (delete_chat_by_id id db) (outlives db.messages id)
        (delete chat_key id db.chats) (λ x e k. taken-outlives id x db.messages e k)
        (Fulfils-keep _ _ _ db.chats (λ c e k. k) v.last_messages);
  messages =
      Fulfils-keep _ _ _ db.messages
        (λ m e k. ground (arith, taken-keep_chat id db.chats (outlives db.messages id) m.chat_id))
        v.messages;
  keys =
      Fulfils-keep _ _ _ db.keys
        (λ k e h. ground (arith, taken-outlives id k.message_id db.messages)) v.keys;
  receipts =
      Fulfils-keep _ _ _ db.receipts
        (λ r e h. ground (arith, taken-outlives id r.message_id db.messages)) v.receipts;
}

pub delete_message_by_id-IsValid :
    (id : Text) (db : ChatDb) → IsValid db → IsValid (delete_message_by_id id db)
unfolding delete_message_by_id delete
delete_message_by_id-IsValid id db v = record {
  chat_ids = Distinct-clear_last_messages _ db.chats v.chat_ids;
  message_ids = Distinct-keep message_key _ db.messages v.message_ids;
  memberships = v.memberships;
  key_pairs = Unique-keep same_key _ db.keys v.key_pairs;
  receipt_pairs = Unique-keep same_receipt _ db.receipts v.receipt_pairs;
  members =
      Fulfils-imp _ _ db.participants
        (λ p k.
          ground
            (arith, taken-clear_last_messages (λ last. not (text_eq last id)) p.chat_id db.chats))
        v.members;
  last_messages =
      last_exists-clear db (delete_message_by_id id db) (λ last. not (text_eq last id)) db.chats
        (λ x e k. taken-delete-other message_key id x db.messages (ground arith) ∙ k)
        v.last_messages;
  messages =
      Fulfils-keep _ _ _ db.messages
        (λ m e k.
          ground
            (arith, taken-clear_last_messages (λ last. not (text_eq last id)) m.chat_id db.chats))
        v.messages;
  keys =
      Fulfils-keep _ _ _ db.keys
        (λ k e h. ground (arith, taken-delete-other message_key id k.message_id db.messages))
        v.keys;
  receipts =
      Fulfils-keep _ _ _ db.receipts
        (λ r e h. ground (arith, taken-delete-other message_key id r.message_id db.messages))
        v.receipts;
}
