-- ===== src/Services/Chat/Existing.antt =====
-- FindExistingChat: the chat that CreateChat returns instead of a new one.
use chat_system.Prelude.{
  ℕ, ◌≡◌, refl, sym, ap, ◌∙◌, ◌⊎◌, inl, inr, true, false, not, ◌&&◌, Bool, none, some, List, [],
  ◌∷◌, map, Text, text_eq, arith, select,
}
use chat_system.Exceptions.{returns, bind-returns, returns-injective, unless-returns}
use chat_system.Domain.Chat.{Chat}
use chat_system.Domain.Types.{ChatTypeVariant, direct_chat_type}
use chat_system.Repositories.Where.{any, limit_offset}
use chat_system.Repositories.Where.Laws.{any-keep_disjoint, any-take-false}
use chat_system.Repositories.Where.Order.{any-Perm, order_by-Perm}
use chat_system.Repositories.ChatStore.{
  ChatRow, ParticipantRow, ChatDb, ChatPostgres, IsQueryOrder, is_membership, is_set,
}
use chat_system.Repositories.Chats.{read_chat, read_chats, chat_rows_of, find_chats_by_user_id}
use chat_system.Repositories.Chats.Reading.{members, read_chat-id}
use chat_system.Repositories.Messages.Pages.{limit_offset-returns}
use chat_system.Services.Chat.{
  contains_user, holds_direct, first_chat_with, handle_self_chat, find_existing_chat, find_for,
}

pub contains_user-any :
    (user : Text) (users : List Text) → contains_user user users ≡ any (λ u. text_eq u user) users
unfolding contains_user any
contains_user-any user [] = refl
contains_user-any user (u ∷ users) = ground (arith, contains_user-any user users)

-- The user takes part in the chat and did not leave it.
abbrev stays_in : ChatDb → Text → Text → Bool
stays_in db user chat_id =
    any (λ p. is_membership chat_id user p && not (is_set p.left_at)) db.participants

any-members :
    (user chat_id : Text) (rows : List ParticipantRow)
    → any
        (λ u. text_eq u user)
        (map
          (λ (p : ParticipantRow). p.user_id)
          (select (λ p. text_eq p.chat_id chat_id && not (is_set p.left_at)) rows))
      ≡ any (λ p. is_membership chat_id user p && not (is_set p.left_at)) rows
unfolding any
any-members user chat_id [] = refl
any-members user chat_id (p ∷ rows) = ground (arith, any-members user chat_id rows)

is_direct_type : (t : ChatTypeVariant) → holds_direct t ≡ true
unfolding holds_direct
is_direct_type direct_chat_type = refl

first_chat_with-cons :
    (user : Text) (c chat : Chat) (chats : List Chat)
    → first_chat_with user (c ∷ chats) ≡ some chat
    → ((c ≡ chat) × (contains_user user c.participant_ids ≡ true))
      ⊎ (first_chat_with user chats ≡ some chat)
unfolding first_chat_with
first_chat_with-cons user c chat chats h = ground (arith, is_direct_type c.type)

module _ (postgres : ChatPostgres) where
  first_chat_with-read_chats :
      (db : ChatDb) (user other : Text) (rows : List ChatRow) (chats : List Chat) (chat : Chat)
      → any (λ (c : ChatRow). not (stays_in db user c.id)) rows ≡ false
      → read_chats postgres db rows ≡ returns chats
      → first_chat_with other chats ≡ some chat
      → (stays_in db user chat.id ≡ true) × (contains_user other chat.participant_ids ≡ true)
  unfolding read_chats any first_chat_with
  first_chat_with-read_chats db user other [] chats chat h read e =
      let same = returns-injective [] chats read in cc (rw (sym same) at e)
  first_chat_with-read_chats db user other (row ∷ rows) chats chat h read e =
      let (c, one, rest) = bind-returns (read_chat postgres db row) _ chats read in
      let (cs, others, made) = bind-returns (read_chats postgres db rows) _ chats rest in
      let same = returns-injective _ chats made in
      elim (first_chat_with-cons other c chat cs (ap (first_chat_with other) same ∙ e)) [
        | inl (is_chat, with_other) ↦
            let here : stays_in db user row.id ≡ true = ground arith in
            let id : c.id ≡ row.id = read_chat-id postgres db row c one in
            rw (sym is_chat) (ap (stays_in db user) id ∙ here, with_other)
        | inr later ↦
            first_chat_with-read_chats db user other rows cs chat (ground arith) others later
      ]

  chat_rows_of-stays :
      (db : ChatDb) (user : Text) (limit offset : ℕ)
      → IsQueryOrder postgres
      → any
          (λ (c : ChatRow). not (stays_in db user c.id))
          (chat_rows_of postgres db user limit offset)
        ≡ false
  unfolding chat_rows_of
  chat_rows_of-stays db user limit offset order =
      any-Perm (λ (c : ChatRow). not (stays_in db user c.id)) (order_by-Perm _ _)
      ∙ any-Perm (λ (c : ChatRow). not (stays_in db user c.id)) (order.chats limit offset _)
      ∙ any-keep_disjoint (λ (c : ChatRow). not (stays_in db user c.id))
          (λ (c : ChatRow). stays_in db user c.id) db.chats (λ c e. ground arith)

  find_existing_chat-found :
      (db : ChatDb) (user other : Text) (chat : Chat)
      → IsQueryOrder postgres
      → find_existing_chat postgres db user other ≡ returns (some chat)
      → (any (λ u. text_eq u user) (members db chat.id) ≡ true)
        × (any (λ u. text_eq u other) chat.participant_ids ≡ true)
  unfolding find_existing_chat find_chats_by_user_id
  find_existing_chat-found db user other chat order h =
      let (chats, found, first_one) =
        bind-returns (find_chats_by_user_id postgres db user 100 0) _ (some chat) h in
      let rows = chat_rows_of postgres db user 100 0 in
      let (page, cut, read) =
        bind-returns (limit_offset postgres.negative_count 100 0 rows) (read_chats postgres db)
          chats found in
      let is_page = limit_offset-returns postgres.negative_count 100 0 rows page cut in
      let stays =
        any-take-false (λ (c : ChatRow). not (stays_in db user c.id)) 100 rows
          (chat_rows_of-stays db user 100 0 order) in
      let (here, there) =
        first_chat_with-read_chats db user other page chats chat
          (ap (any (λ (c : ChatRow). not (stays_in db user c.id))) is_page ∙ stays) read
          (returns-injective _ (some chat) first_one) in
      (
        any-members user chat.id db.participants ∙ here,
        sym (contains_user-any other chat.participant_ids) ∙ there,
      )

  pub find_for-found :
      (db : ChatDb) (creator : Text) (users : List Text) (chat : Chat)
      → IsQueryOrder postgres
      → find_for postgres db creator users ≡ returns (some chat)
      → (other : Text) × (users ≡ other ∷ [])
        × (text_eq creator other ≡ false)
        × (any (λ u. text_eq u creator) (members db chat.id) ≡ true)
        × (any (λ u. text_eq u other) chat.participant_ids ≡ true)
  unfolding find_for handle_self_chat
  find_for-found db creator [] chat order h = cc (returns-injective none (some chat) h)
  find_for-found db creator (other ∷ []) chat order h =
      let (u, distinct, found) = bind-returns (handle_self_chat creator other) _ (some chat) h in
      let (mine, theirs) = find_existing_chat-found db creator other chat order found in
      let (differ, done) = unless-returns _ _ _ u distinct in (other, refl, differ, mine, theirs)
  find_for-found db creator (other ∷ another ∷ others) chat order h =
      cc (returns-injective none (some chat) h)
