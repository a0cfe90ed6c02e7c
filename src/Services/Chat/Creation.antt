-- ===== src/Services/Chat/Creation.antt =====
-- CreateChat: who takes part in the chat that it returns.
use chat_system.Prelude.{
  true, ℕ, ◌≡◌, refl, sym, ap, ◌∙◌, ◌⊎◌, inl, inr, false, ◌||◌, Option, none, some, List, [], ◌∷◌,
  ◌++◌, Text, text_eq, text_eq_refl, arith, Option-cases,
}
use chat_system.Exceptions.{
  returns, continue-returns, continue_pure-returns, bind-returns, unless-returns, returns-injective,
}
use chat_system.Domain.Chat
use chat_system.Domain.Chat.{Chat, ChatParams}
use chat_system.Domain.Chat.Laws.{create_chat_iff}
use chat_system.Domain.Types.{direct_chat_type, chat_type_string, create_chat_type}
use chat_system.Repositories.Where.{any}
use chat_system.Repositories.Where.Laws.{any-append}
use chat_system.Repositories.ChatStore.{
  ParticipantRow, ChatDb, ChatPostgres, IsQueryOrder, is_membership,
}
use chat_system.Repositories.Chats.Writing.{in_transaction-returns}
use chat_system.Repositories.Chats.{
  is_participant, insert_chat, insert_participant, insert_participants, add_chat,
}
use chat_system.Services.Chat.{
  contains_user, new_chat, create_new_chat_type, existing_or_new, find_for, some_participant,
  enforce_user_existence, enforce_users_existence, choose_chat, create_chat,
}
use chat_system.Services.Chat.Existing.{contains_user-any, find_for-found}
use chat_system.Repositories.Chats.Reading.{members}
use chat_system.Services.Chat.Members.{
  Ascending, contains_user-unique-order_by, unique-order_by-Ascending,
}

any-joined :
    (chat_id added user : Text) (rows : List ParticipantRow)
    → any
        (is_membership chat_id user)
        (rows ++ (record { chat_id = chat_id; user_id = added; left_at = none } ∷ []))
      ≡ (any (is_membership chat_id user) rows || text_eq added user)
unfolding any
any-joined chat_id added user rows =
    any-append (is_membership chat_id user) rows _ ∙ ground (arith, text_eq_refl chat_id)

module _ (postgres : ChatPostgres) where
  insert_participant-returns :
      (chat_id added user : Text) (db new : ChatDb)
      → insert_participant postgres chat_id added db ≡ returns new
      → is_participant new chat_id user ≡ (is_participant db chat_id user || text_eq added user)
  unfolding insert_participant is_participant any
  insert_participant-returns chat_id added user db new h =
      let (free, done) = unless-returns _ _ _ new h in
      let same = returns-injective _ new done in
      rw (sym same) (any-joined chat_id added user db.participants)

  -- The loop adds its users to those that the chat had.
  insert_participants-returns :
      (chat_id user : Text) (users : List Text) (db new : ChatDb)
      → insert_participants postgres chat_id users db ≡ returns new
      → is_participant new chat_id user
        ≡ (is_participant db chat_id user || contains_user user users)
  unfolding insert_participants contains_user
  insert_participants-returns chat_id user [] db new h =
      rw (sym (returns-injective db new h)) (ground arith)
  insert_participants-returns chat_id user (added ∷ users) db new h =
      let (next, first_one, rest) = bind-returns _ _ new h in
      let one = insert_participant-returns chat_id added user db next first_one in
      let others = insert_participants-returns chat_id user users next new rest in
      ground (arith, one, others)

  insert_chat-participants :
      (chat : Chat) (user : Text) (db new : ChatDb)
      → insert_chat postgres chat db ≡ returns new
      → is_participant new chat.id user ≡ is_participant db chat.id user
  unfolding insert_chat is_participant
  insert_chat-participants chat user db new h = elim (Option-cases (postgres.refuses_chat chat)) [
    | inl e ↦
        let (free, done) = unless-returns _ _ _ new (rw (insert_chat, e) at h) in
        let same = returns-injective _ new done in rw (sym same) refl
    | inr (x, e) ↦ let wrong = rw (insert_chat, e) at h in cc
  ]

  add_chat-returns :
      (chat : Chat) (user : Text) (db new : ChatDb) (u : Unit {0})
      → add_chat postgres chat db ≡ (returns u, new)
      → is_participant new chat.id user
        ≡ (is_participant db chat.id user || contains_user user chat.participant_ids)
  unfolding add_chat
  add_chat-returns chat user db new u h =
      let (with_chat, inserted, rest) =
        bind-returns _ _ new (in_transaction-returns db new _ u h) in
      insert_participants-returns chat.id user chat.participant_ids with_chat new rest
      ∙ ap (λ b. b || contains_user user chat.participant_ids)
          (insert_chat-participants chat user db with_chat inserted)

  new_chat-returns :
      (id : Text) (now : ℕ) (users : List Text) (chat : Chat)
      → new_chat id now users ≡ returns chat
      → (chat.id ≡ id) × (chat.participant_ids ≡ users)
  unfolding new_chat Chat.reconstitute
  new_chat-returns id now users chat h =
      let (type, typed, made) =
        bind-returns (create_chat_type (chat_type_string direct_chat_type)) _ chat h in
      let same = ((create_chat_iff _ chat).0 made).1 in
      (ap (λ (c : Chat). c.id) same, ap (λ (c : Chat). c.participant_ids) same)

  pub create_new_chat_type-returns :
      (id : Text) (now : ℕ) (creator : Text) (users : List Text) (user : Text) (db new : ChatDb)
      (chat : Chat)
      → create_new_chat_type postgres id now creator users db ≡ (returns chat, new)
      → is_participant db id user ≡ false
      → (chat.id ≡ id)
        × Ascending chat.participant_ids
        × (contains_user user chat.participant_ids ≡ contains_user user (creator ∷ users))
        × (is_participant new id user ≡ contains_user user (creator ∷ users))
  unfolding create_new_chat_type
  create_new_chat_type-returns id now creator users user db new chat h fresh =
      let (made, created, rest) = continue_pure-returns _ db _ chat new h in
      let (u, stored, added, final) = continue-returns _ _ chat new rest in
      let same : made ≡ chat = returns-injective _ _ (ap (λ p. p.0) final) in
      let tables : stored ≡ new = ap (λ p. p.1) final in
      let (same_id, members) = new_chat-returns id now _ made created in
      let who = contains_user-unique-order_by user (creator ∷ users) in
      let joined = add_chat-returns made user db stored u added in
      rw (sym same, sym tables)
        (
          same_id,
          rw members (unique-order_by-Ascending (creator ∷ users)),
          rw members who,
          rw (same_id, members, fresh) at joined ∙ who,
        )

  existing_or_new-returns :
      (id : Text) (now : ℕ) (creator : Text) (users : List Text) (existing : Option Chat)
      (db new : ChatDb) (chat : Chat)
      → existing_or_new postgres id now creator users existing db ≡ (returns chat, new)
      → ((existing ≡ some chat) × (db ≡ new))
        ⊎ (create_new_chat_type postgres id now creator users db ≡ (returns chat, new))
  unfolding existing_or_new
  existing_or_new-returns id now creator users (some old) db new chat h =
      inl (ap some (returns-injective old chat (ap (λ p. p.0) h)), ap (λ p. p.1) h)
  existing_or_new-returns id now creator users none db new chat h = inr h

  choose_chat-returns :
      (creator : Text) (users : List Text) (db : ChatDb) (existing : Option Chat)
      → choose_chat postgres db creator users ≡ returns existing
      → find_for postgres db creator users ≡ returns existing
  unfolding choose_chat
  choose_chat-returns creator users db existing h =
      let (a, e, h1) = bind-returns (some_participant users) _ existing h in
      let (b, f, h2) = bind-returns (enforce_user_existence db creator) _ existing h1 in
      let (c, g, h3) = bind-returns (enforce_users_existence db users) _ existing h2 in h3

  -- CreateChat for an id that no row of chat_participants has, where the query returns each row that
  -- it finds once. When it returns a chat, either the tables are as they were, one other user than the
  -- creator was given, the creator has joined the chat and not left it, and the other user is among
  -- its participants; or the chat has the new id, its participants are in ascending order without
  -- repetition, and they are exactly the creator and the given users, and so are those who may read
  -- the chat.
  pub create_chat-participants :
      (id : Text) (now : ℕ) (creator : Text) (users : List Text) (user : Text) (db new : ChatDb)
      (chat : Chat)
      → IsQueryOrder postgres
      → create_chat postgres id now creator users db ≡ (returns chat, new)
      → is_participant db id user ≡ false
      → ((db ≡ new)
          × ((other : Text) × (users ≡ other ∷ [])
              × (text_eq creator other ≡ false)
              × (any (λ u. text_eq u creator) (members db chat.id) ≡ true)
              × (any (λ u. text_eq u other) chat.participant_ids ≡ true)))
        ⊎ ((chat.id ≡ id)
            × Ascending chat.participant_ids
            × (any (λ u. text_eq u user) chat.participant_ids
                ≡ any (λ u. text_eq u user) (creator ∷ users))
            × (is_participant new id user ≡ any (λ u. text_eq u user) (creator ∷ users)))
  unfolding create_chat
  create_chat-participants id now creator users user db new chat order h fresh =
      let (existing, found, rest) =
        continue_pure-returns (choose_chat postgres db creator users) db _ chat new h in
      let in_users = contains_user-any user (creator ∷ users) in
      elim (existing_or_new-returns id now creator users existing db new chat rest) [
        | inl (e, same) ↦ inl (
          same,
          find_for-found postgres db creator users chat order
              (choose_chat-returns creator users db existing found ∙ ap returns e),
        )
        | inr created ↦
            let (is_id, ascending, who, readers) =
              create_new_chat_type-returns id now creator users user db new chat created fresh in
            inr (
              is_id,
              ascending,
              sym (contains_user-any user chat.participant_ids) ∙ who ∙ in_users,
              readers ∙ in_users,
            )
      ]
