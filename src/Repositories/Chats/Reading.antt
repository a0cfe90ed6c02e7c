-- ===== src/Repositories/Chats/Reading.antt =====
-- What FindById reads of a chat: the participants that STRING_AGG joins and std::getline splits.
use mathlib.Core.List.{Perm}
use chat_system.Prelude.{
  select, map, text_eq, ◌≡◌, refl, sym, ap, ◌∙◌, Bool, false, not, ◌&&◌, ◌||◌, Option, none, some,
  List, [], ◌∷◌, ◌++◌, append-nil, append_assoc, Text, length, ◌==◌, arith, if◌then◌else◌,
}
use chat_system.Exceptions.{returns, bind-returns, returns-injective}
use chat_system.Domain.Chat
use chat_system.Domain.Chat.{Chat}
use chat_system.Domain.Types.{create_chat_type}
use chat_system.Repositories.Rows.{find}
use chat_system.Repositories.Rows.Laws.{find-column}
use chat_system.Repositories.Where.{any}
use chat_system.Repositories.Where.Order.{any-Perm}
use chat_system.Repositories.ChatStore.{
  ChatRow, ParticipantRow, is_set, ChatDb, ChatPostgres, IsQueryOrder, chat_key, join_texts,
  string_agg, split_csv, get_string, joined_message, map_last_message, map_chat,
}
use chat_system.Repositories.Chats.{current_users, read_chat, read_found_chat, find_chat_by_id}

-- A text that STRING_AGG and std::getline carry: not empty and without a comma, as every UUID.
unfoldable pub plain : Text → Bool
plain t = not (length t == 0) && not (any (λ c. c == 44) t)

split_csv-append :
    (token t stream : Text)
    → any (λ c. c == 44) t ≡ false
    → split_csv token (t ++ stream) ≡ split_csv (token ++ t) stream
unfolding split_csv any
split_csv-append token [] stream h = ap (λ x. split_csv x stream) (sym (append-nil token))
split_csv-append token (c ∷ t) stream h =
    ground (arith, split_csv-append (token ++ (c ∷ [])) t stream, append_assoc token (c ∷ []) t)

plain-parts :
    (t : Text) (rest : Bool)
    → (not (plain t) || rest) ≡ false
    → (length t == 0 ≡ false) × (any (λ c. c == 44) t ≡ false) × (rest ≡ false)
unfolding plain
plain-parts t rest h = ground arith

split_csv-join_texts :
    (t : Text) (ts : List Text)
    → any (λ u. not (plain u)) (t ∷ ts) ≡ false
    → split_csv [] (join_texts t ts) ≡ t ∷ ts
unfolding any join_texts split_csv
split_csv-join_texts t [] h =
    let (filled, clean, rest) = plain-parts t _ h in
    ap (split_csv []) (sym (append-nil t))
    ∙ split_csv-append [] t [] clean
    ∙ ap (λ b. if b then [] else t ∷ []) filled
split_csv-join_texts t (u ∷ us) h =
    let (filled, clean, rest) = plain-parts t _ h in
    split_csv-append [] t (44 ∷ join_texts u us) clean ∙ ap (◌∷◌ t) (split_csv-join_texts u us rest)

-- What is read of the texts that were joined.
pub split_csv-string_agg :
    (postgres : ChatPostgres) (ts : List Text) (csv : Text)
    → any (λ u. not (plain u)) ts ≡ false
    → get_string postgres (string_agg ts) ≡ returns csv
    → split_csv [] csv ≡ ts
unfolding get_string string_agg
split_csv-string_agg postgres [] csv h k = cc
split_csv-string_agg postgres (t ∷ ts) csv h k =
    let same = returns-injective _ csv k in rw (sym same) (split_csv-join_texts t ts h)

-- The users who joined the chat and did not leave.
abbrev pub members : ChatDb → Text → List Text
members db id =
    map (λ (p : ParticipantRow). p.user_id)
      (select (λ p. text_eq p.chat_id id && not (is_set p.left_at)) db.participants)

current_users-select :
    (rows : List ParticipantRow) (id : Text)
    → current_users rows id
      ≡ map
          (λ (p : ParticipantRow). p.user_id)
          (select (λ p. text_eq p.chat_id id && not (is_set p.left_at)) rows)
unfolding current_users
current_users-select [] id = refl
current_users-select (p ∷ rows) id = ground (arith, current_users-select rows id)

module _ (postgres : ChatPostgres) where
  map_chat-returns :
      (db : ChatDb) (row : ChatRow) (users : List Text) (chat : Chat)
      → map_chat postgres db row users ≡ returns chat
      → (chat.id ≡ row.id) × (chat.participant_ids ≡ users)
  unfolding map_chat Chat.reconstitute
  map_chat-returns db row users chat h =
      let (last, a, rest) =
        bind-returns (map_last_message postgres row.id (joined_message db row.last_message_id)) _
          chat h in
      let (type, b, made) = bind-returns (create_chat_type row.type) _ chat rest in
      let same = returns-injective _ chat made in
      (sym (ap (λ (c : Chat). c.id) same), sym (ap (λ (c : Chat). c.participant_ids) same))

  pub read_chat-id :
      (db : ChatDb) (row : ChatRow) (chat : Chat)
      → read_chat postgres db row ≡ returns chat
      → chat.id ≡ row.id
  unfolding read_chat
  read_chat-id db row chat h =
      let (csv, joined, mapped) =
        bind-returns
          (get_string postgres
            (string_agg (postgres.users_order (current_users db.participants row.id))))
          _ chat h in
      (map_chat-returns db row (split_csv [] csv) chat mapped).0

  pub read_found_chat-returns :
      (db : ChatDb) (o : Option ChatRow) (chat : Chat)
      → read_found_chat postgres db o ≡ returns (some chat)
      → (row : ChatRow) × (o ≡ some row) × (read_chat postgres db row ≡ returns chat)
  unfolding read_found_chat
  read_found_chat-returns db none chat h = cc
  read_found_chat-returns db (some row) chat h =
      let (c, read, made) = bind-returns (read_chat postgres db row) _ (some chat) h in
      let same : c ≡ chat = cc in (row, refl, read ∙ ap returns same)

  read_some_chat-returns :
      (db : ChatDb) (row : ChatRow) (o : Option Chat)
      → read_found_chat postgres db (some row) ≡ returns o
      → (chat : Chat) × (o ≡ some chat)
  unfolding read_found_chat
  read_some_chat-returns db row o h =
      let (chat, read, made) = bind-returns (read_chat postgres db row) _ o h in
      (chat, sym (returns-injective _ o made))

  -- The row is there, and so is the chat.
  pub find_chat_by_id-found :
      (db : ChatDb) (id : Text) (row : ChatRow) (o : Option Chat)
      → find chat_key id db.chats ≡ some row
      → find_chat_by_id postgres db id ≡ returns o
      → (chat : Chat) × (o ≡ some chat)
  unfolding find_chat_by_id
  find_chat_by_id-found db id row o found h =
      read_some_chat-returns db row o (sym (ap (read_found_chat postgres db) found) ∙ h)

  -- When FindById returns a chat, no user id is empty or has a comma, and the query returns each row
  -- that it finds once, the chat has the given id and its participants are a permutation of the users
  -- of those rows of chat_participants that have the id and no left_at.
  pub find_chat_by_id-members :
      (db : ChatDb) (id : Text) (chat : Chat)
      → IsQueryOrder postgres
      → any (λ u. not (plain u)) (members db id) ≡ false
      → find_chat_by_id postgres db id ≡ returns (some chat)
      → (chat.id ≡ id) × Perm chat.participant_ids (members db id)
  unfolding find_chat_by_id read_chat
  find_chat_by_id-members db id chat order clean h =
      let (row, found, read) = read_found_chat-returns db _ chat h in
      let of_rows = current_users-select db.participants id in
      let clean_users : any (λ u. not (plain u)) (current_users db.participants id) ≡ false =
        ap (any (λ u. not (plain u))) of_rows ∙ clean in
      let same = find-column chat_key id db.chats row found in
      let (csv, joined, mapped) =
        bind-returns
          (get_string postgres
            (string_agg (postgres.users_order (current_users db.participants row.id))))
          _ chat read in
      let (ids, same_members) = map_chat-returns db row (split_csv [] csv) chat mapped in
      let joined_users : chat.participant_ids
          ≡ postgres.users_order (current_users db.participants id) =
        same_members
        ∙ split_csv-string_agg postgres _ csv
            (rw same (any-Perm (λ u. not (plain u)) (order.users _) ∙ clean_users)) joined
        ∙ ap (λ x. postgres.users_order (current_users db.participants x)) same in
      (ids ∙ same, rw (joined_users, sym of_rows) (order.users (current_users db.participants id)))
