-- ===== src/Services/Message/History.antt =====
-- GetHistory and DeleteMessage: who may read and who may delete.
use chat_system.Prelude.{
  select, ltb, ℕ, ◌≡◌, sym, ap, ◌∙◌, true, false, none, some, List, Text, text_eq, text_eq_iff,
  text_eq_refl, arith, take, drop, if◌then◌else◌,
}
use mathlib.Core.List.{Perm}
use chat_system.Exceptions.{returns, bind-returns, continue_pure-returns, guard-returns, ◌>>=◌}
use chat_system.Domain.Message.{Message}
use chat_system.Repositories.Rows.{find}
use chat_system.Repositories.Rows.Updates.{find-delete}
use chat_system.Repositories.Where.{any, limit_offset}
use chat_system.Repositories.Where.Order.{Ordered}
use chat_system.Repositories.Where.Laws.{any-keep_disjoint, keep-select}
use chat_system.Repositories.ChatStore.{
  ChatDb, ChatPostgres, IsQueryOrder, MessageRow, KeyRow, ReceiptRow, message_key, map_messages,
}
use chat_system.Repositories.Chats.{is_participant}
use chat_system.Repositories.Messages.{
  newer, delete_message_by_id, read_found_message, find_message_by_id, message_rows_of,
  find_by_chat_id,
}
use chat_system.Repositories.Messages.Pages.{message_rows_of-newest_first, limit_offset-returns}
use chat_system.Services.Message.{
  enforce_participant, message_or_throw, enforce_sender, enforce_chat_existence, get_history,
  delete_message,
}
use chat_system.Services.Message.Checks.{enforce_participant-allows}
use chat_system.Services.Message.Delivery.{message_or_throw-returns}

enforce_sender-returns :
    (requester : Text) (m : Message) (u : Unit {0})
    → enforce_sender requester m ≡ returns u
    → m.sender_id ≡ requester
unfolding enforce_sender
enforce_sender-returns requester m u h =
    (text_eq_iff m.sender_id requester).0 (guard-returns _ _ u h)

module _ (postgres : ChatPostgres) where
  -- When GetHistory returns messages, and the query returns each row that it finds once, the caller
  -- is a participant of the chat, and the messages are those of the given page of some permutation
  -- of the chat's rows in which no message is older than a later one. The permutation may differ
  -- from page to page, where messages have the same time.
  pub get_history-returns :
      (db : ChatDb) (chat_id requesting : Text) (limit offset : ℕ) (ms : List Message)
      → IsQueryOrder postgres
      → get_history postgres db chat_id requesting limit offset ≡ returns ms
      → (is_participant db chat_id requesting ≡ true)
        × ((rows : List MessageRow) × Perm rows
              (select (λ m. text_eq m.chat_id chat_id) db.messages)
            × Ordered (λ m n. ltb n.created_at m.created_at) rows
            × (map_messages postgres (take limit (drop offset rows)) ≡ returns ms))
  unfolding get_history find_by_chat_id newer
  get_history-returns db chat_id requesting limit offset ms order h =
      let (u, exists, h1) = bind-returns (enforce_chat_existence postgres db chat_id) _ ms h in
      let (v, allowed, h2) = bind-returns (enforce_participant db chat_id requesting) _ ms h1 in
      let (page, cut, mapped) =
        bind-returns
          (limit_offset postgres.negative_count limit offset
            (message_rows_of postgres db chat_id limit offset))
          _ ms h2 in
      let (same_rows, ordered) =
        message_rows_of-newest_first postgres db chat_id limit offset order in
      (
        enforce_participant-allows db chat_id requesting v allowed,
        (
          message_rows_of postgres db chat_id limit offset,
          rw (sym (keep-select (λ m. text_eq m.chat_id chat_id) db.messages)) same_rows,
          ordered,
          ap (map_messages postgres)
                (sym (limit_offset-returns postgres.negative_count limit offset _ page cut))
              ∙ mapped,
        ),
      )

  -- When DeleteMessage returns, the message was found and the caller had sent it; afterwards it is
  -- not found, no key and no receipt of it are left, and every other message is as before.
  pub delete_message-returns :
      (db new : ChatDb) (id requester other : Text)
      → delete_message postgres db id requester ≡ (returns tt, new)
      → text_eq other id ≡ false
      → ((m : Message) × (find_message_by_id postgres db id ≡ returns (some m))
          × (m.sender_id ≡ requester))
        × (find_message_by_id postgres new id ≡ returns none)
        × (any (λ k. text_eq k.message_id id) new.keys ≡ false)
        × (any (λ r. text_eq r.message_id id) new.receipts ≡ false)
        × (find message_key other new.messages ≡ find message_key other db.messages)
  unfolding delete_message delete_message_by_id find_message_by_id read_found_message
  delete_message-returns db new id requester other h distinct =
      let (u, checked, done) =
        continue_pure-returns
          (find_message_by_id postgres db id >>= message_or_throw >>= enforce_sender requester) db _
          tt new h in
      let (m, fetched, own) =
        bind-returns (find_message_by_id postgres db id >>= message_or_throw)
          (enforce_sender requester) u checked in
      let (o, found, is_some) =
        bind-returns (find_message_by_id postgres db id) message_or_throw m fetched in
      let tables : delete_message_by_id id db ≡ new = ap (λ p. p.1) done in
      rw (sym tables) (
        (
          m,
          found ∙ ap returns (message_or_throw-returns o m is_some),
          enforce_sender-returns requester m u own,
        ),
        ap (read_found_message postgres) (
            find-delete message_key id id db.messages
            ∙ ap (λ b. if b then none else find message_key id db.messages) (text_eq_refl id)),
        any-keep_disjoint (λ (k : KeyRow). text_eq k.message_id id) _ db.keys (λ k e. ground arith),
        any-keep_disjoint (λ (r : ReceiptRow). text_eq r.message_id id) _ db.receipts
            (λ r e. ground arith),
        find-delete message_key id other db.messages
            ∙ ap (λ b. if b then none else find message_key other db.messages) distinct,
      )
