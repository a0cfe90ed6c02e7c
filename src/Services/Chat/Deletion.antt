-- ===== src/Services/Chat/Deletion.antt =====
-- DeleteChat: who may delete a chat, what goes with it and what stays.
use chat_system.Prelude.{
  select, map, not, Bool, Option, some, if◌then◌else◌, ◌≡◌, refl, sym, ap, ◌∙◌, true, false, ◌&&◌,
  none, List, [], ◌∷◌, Text, text_eq, text_eq_iff, arith,
}
use chat_system.Exceptions.{returns, continue_pure-returns, guard-returns}
use chat_system.Repositories.Rows.{keep, find, taken, delete}
use chat_system.Repositories.Rows.Laws.{find-taken}
use chat_system.Repositories.Where.{any}
use chat_system.Repositories.Where.Laws.{select-keep_none, select-keep_same, keep-select}
use chat_system.Repositories.ChatStore.{ChatRow, ChatDb, chat_key, KeyRow, ReceiptRow}
use chat_system.Repositories.Chats.{
  outlives, clear_last_message, clear_last_messages, delete_chat_by_id, is_participant,
}
use chat_system.Repositories.ChatValidity.Deletions.{taken-clear_last_messages}
use chat_system.Services.Chat.{enforce_participant, delete_chat}

taken-delete_self :
    (x : Text) (rows : List ChatRow) → taken chat_key x (delete chat_key x rows) ≡ false
unfolding taken delete keep
taken-delete_self x [] = refl
taken-delete_self x (row ∷ rows) = ground (arith, taken-delete_self x rows)

pub delete_chat-returns :
    (db new : ChatDb) (id requesting : Text)
    → delete_chat db id requesting ≡ (returns tt, new)
    → (is_participant db id requesting ≡ true) × (delete_chat_by_id id db ≡ new)
unfolding delete_chat enforce_participant
delete_chat-returns db new id requesting h =
    let (u, allowed, done) = continue_pure-returns _ db _ tt new h in
    (guard-returns _ _ u allowed, ap (λ p. p.1) done)

-- A message of the chat has the id.
abbrev pub is_message_of : ChatDb → (chat_id message_id : Text) → Bool
is_message_of db chat_id message_id =
    any (λ m. text_eq m.id message_id && text_eq m.chat_id chat_id) db.messages

-- When DeleteChat returns, the caller was a participant of the chat, and no row of the chat, of its
-- participants or of its messages is left, nor a key or a receipt of a message that the chat had.
pub delete_chat_removes :
    (db new : ChatDb) (id requesting : Text)
    → delete_chat db id requesting ≡ (returns tt, new)
    → (is_participant db id requesting ≡ true)
      × (find chat_key id new.chats ≡ none)
      × (select (λ p. text_eq p.chat_id id) new.participants ≡ [])
      × (select (λ m. text_eq m.chat_id id) new.messages ≡ [])
      × (select (λ k. is_message_of db id k.message_id) new.keys ≡ [])
      × (select (λ r. is_message_of db id r.message_id) new.receipts ≡ [])
unfolding delete_chat_by_id outlives
delete_chat_removes db new id requesting h =
    let (allowed, done) = delete_chat-returns db new id requesting h in
    rw (sym done) (
      allowed,
      find-taken chat_key id _ (
          taken-clear_last_messages _ id (delete chat_key id db.chats)
          ∙ taken-delete_self id db.chats),
      select-keep_none (λ p. text_eq p.chat_id id) _ db.participants (λ p e. ground arith),
      select-keep_none (λ m. text_eq m.chat_id id) _ db.messages (λ m e. ground arith),
      select-keep_none (λ (k : KeyRow). is_message_of db id k.message_id) _ db.keys
          (λ k e. ap not e),
      select-keep_none (λ (r : ReceiptRow). is_message_of db id r.message_id) _ db.receipts
          (λ r e. ap not e),
    )

abbrev without : (Text → Bool) → Option Text → Option Text
without gone none = none
without gone (some x) = if gone x then none else some x

-- The row of a chat when the other chat and its messages are gone.
abbrev pub unmentioned : ChatDb → Text → ChatRow → ChatRow
unmentioned db id row = record row {
  last_message_id = without (is_message_of db id) row.last_message_id;
}

clear_last_message-unmentioned :
    (db : ChatDb) (id : Text) (row : ChatRow)
    → clear_last_message (outlives db.messages id) row ≡ unmentioned db id row
unfolding clear_last_message outlives
clear_last_message-unmentioned db id row = ground arith

select-clear_last_messages :
    (db : ChatDb) (id other : Text) (rows : List ChatRow)
    → select (λ c. text_eq c.id other) (clear_last_messages (outlives db.messages id) rows)
      ≡ map (unmentioned db id) (select (λ c. text_eq c.id other) rows)
unfolding clear_last_messages
select-clear_last_messages db id other [] = refl
select-clear_last_messages db id other (row ∷ rows) =
    ground
      (arith, clear_last_message-unmentioned db id row, select-clear_last_messages db id other rows)

-- DeleteChat leaves every other chat's row but for a last message that was one of the deleted chat,
-- which is cleared; and it leaves the participants and the messages of every other chat, and the
-- keys and the receipts of the messages that the deleted chat did not have, all in their order.
pub delete_chat_keeps :
    (db new : ChatDb) (id requesting other : Text)
    → delete_chat db id requesting ≡ (returns tt, new)
    → text_eq other id ≡ false
    → (select (λ c. text_eq c.id other) new.chats
        ≡ map (unmentioned db id) (select (λ c. text_eq c.id other) db.chats))
      × (select (λ p. text_eq p.chat_id other) new.participants
          ≡ select (λ p. text_eq p.chat_id other) db.participants)
      × (select (λ m. text_eq m.chat_id other) new.messages
          ≡ select (λ m. text_eq m.chat_id other) db.messages)
      × (new.keys ≡ select (λ k. not (is_message_of db id k.message_id)) db.keys)
      × (new.receipts ≡ select (λ r. not (is_message_of db id r.message_id)) db.receipts)
unfolding delete_chat_by_id outlives delete
delete_chat_keeps db new id requesting other h distinct =
    let (allowed, done) = delete_chat-returns db new id requesting h in
    let apart : (x : Text) → text_eq x other ≡ true → not (text_eq x id) ≡ true =
      λ x e. ground (arith, text_eq_iff x other, text_eq_iff x id, text_eq_iff other id) in
    rw (sym done) (
      select-clear_last_messages db id other (delete chat_key id db.chats)
          ∙ ap (map (unmentioned db id)) (
              select-keep_same (λ (c : ChatRow). text_eq c.id other) _ db.chats
                (λ c e. apart c.id e)),
      select-keep_same (λ p. text_eq p.chat_id other) _ db.participants (λ p e. apart p.chat_id e),
      select-keep_same (λ m. text_eq m.chat_id other) _ db.messages (λ m e. apart m.chat_id e),
      keep-select _ db.keys,
      keep-select _ db.receipts,
    )
