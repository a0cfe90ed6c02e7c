-- ===== src/Tests/Chats.antt =====
-- The chat service and the reading of a chat, on the tables of Tests/Messages.
use mathlib.Core.List.{Perm}
use chat_system.Prelude.{
  select, map, not, Text, ◌≡◌, ◌⊎◌, refl, true, false, none, some, [], ◌∷◌, ◌++◌, not, codes,
  text_eq,
}
use chat_system.Exceptions.{returns}
use chat_system.Domain.Chat
use chat_system.Domain.Chat.{Chat}
use chat_system.Domain.Types
use chat_system.Domain.Types.{
  text_message_type, direct_chat_type, create_message_type, create_chat_type, message_type_string,
  chat_type_string,
}
use chat_system.Validation.Outcome.{empty_result, ok, add_error}
use chat_system.Validation.Rules.{error_if, bound_rule}
use chat_system.Repositories.Rows.{keep, find, taken, delete}
use chat_system.Repositories.Where.{any, insert_row, order_by, limit_offset}
use chat_system.Repositories.Store.{find_by_id}
use chat_system.Repositories.ChatStore.{
  ChatDb, chat_key, join_texts, string_agg, split_csv, get_string, joined_message, map_last_message,
  map_chat,
}
use chat_system.Repositories.Chats.{
  current_users, in_transaction, clear_last_messages, delete_chat_by_id, is_participant,
  insert_chat, insert_participant, insert_participants, add_chat, read_chat, read_found_chat,
  find_chat_by_id, read_chats, chat_rows_of, find_chats_by_user_id,
}
use chat_system.Repositories.Chats.Reading.{plain, find_chat_by_id-members, members}
use chat_system.Services.Chat.{
  text_less, unique_behind, unique, user_or_throw, enforce_user_existence, enforce_users_existence,
  handle_self_chat, contains_user, holds_direct, first_chat_with, fetch_users, delete_chat,
  chat_or_throw, try_fetch_chat, find_existing_chat, new_chat, create_new_chat_type,
  existing_or_new, find_for, some_participant, choose_chat, create_chat, get_participants,
}
use chat_system.Services.Chat as ChatService
use chat_system.Services.Chat.Members.{Ascending}
use chat_system.Services.Chat.Deletion.{
  delete_chat_removes, delete_chat_keeps, unmentioned, is_message_of,
}
use chat_system.Services.Chat.Creation.{create_chat-participants}
use chat_system.Tests.Messages.{chat_postgres, chat_postgres-IsQueryOrder, two_in_chat}

-- The users 2 and 3 in the new chat 9.
abbrev chat_9 : Chat
chat_9 = record {
  id = 9 ∷ [];
  created_at = 40;
  type = direct_chat_type;
  last_message = none;
  participant_ids = (2 ∷ []) ∷ (3 ∷ []) ∷ [];
}

abbrev with_chat_9 : ChatDb
with_chat_9 = record two_in_chat {
  chats =
      two_in_chat.chats
      ++ (record {
        id = 9 ∷ [];
        created_at = 40;
        type = codes "DIRECT";
        last_message_id = none;
        last_message_timestamp = none;
      }
          ∷ []);
  participants =
      two_in_chat.participants
      ++ (record { chat_id = 9 ∷ []; user_id = 2 ∷ []; left_at = none }
          ∷ record { chat_id = 9 ∷ []; user_id = 3 ∷ []; left_at = none }
          ∷ []);
}

creates :
    create_chat chat_postgres (9 ∷ []) 40 (3 ∷ []) ((2 ∷ []) ∷ []) two_in_chat
    ≡ (returns chat_9, with_chat_9)
unfolding create_chat choose_chat some_participant enforce_user_existence enforce_users_existence
    user_or_throw find_for handle_self_chat find_existing_chat find_chats_by_user_id limit_offset
    chat_rows_of order_by insert_row keep any read_chats first_chat_with existing_or_new
    create_new_chat_type new_chat unique unique_behind text_less add_chat in_transaction insert_chat
    insert_participants insert_participant find_by_id find taken text_eq codes create_chat_type
    chat_type_string Types.create Chat.create Chat.validate ok add_error empty_result error_if
    bound_rule
creates = refl

not_yet_in_9 : is_participant two_in_chat (9 ∷ []) (2 ∷ []) ≡ false
unfolding is_participant any text_eq
not_yet_in_9 = refl

create_chat-participants_example :
    ((two_in_chat ≡ with_chat_9)
      × ((other : Text) × ((2 ∷ []) ∷ [] ≡ other ∷ [])
          × (text_eq (3 ∷ []) other ≡ false)
          × (any (λ u. text_eq u (3 ∷ [])) (members two_in_chat (9 ∷ [])) ≡ true)
          × (any (λ u. text_eq u other) chat_9.participant_ids ≡ true)))
    ⊎ ((chat_9.id ≡ 9 ∷ [])
        × Ascending chat_9.participant_ids
        × (any (λ u. text_eq u (2 ∷ [])) chat_9.participant_ids
            ≡ any (λ u. text_eq u (2 ∷ [])) ((3 ∷ []) ∷ (2 ∷ []) ∷ []))
        × (is_participant with_chat_9 (9 ∷ []) (2 ∷ [])
            ≡ any (λ u. text_eq u (2 ∷ [])) ((3 ∷ []) ∷ (2 ∷ []) ∷ [])))
create_chat-participants_example =
    create_chat-participants chat_postgres (9 ∷ []) 40 (3 ∷ []) ((2 ∷ []) ∷ []) (2 ∷ []) two_in_chat
      with_chat_9 chat_9 chat_postgres-IsQueryOrder creates not_yet_in_9

abbrev without_chat_5 : ChatDb
without_chat_5 = record two_in_chat { chats = []; participants = []; messages = [] }

deletes_5 : delete_chat two_in_chat (5 ∷ []) (1 ∷ []) ≡ (returns tt, without_chat_5)
unfolding delete_chat ChatService.enforce_participant delete_chat_by_id is_participant any text_eq
    delete keep clear_last_messages
deletes_5 = refl

delete_chat_removes_example :
    (is_participant two_in_chat (5 ∷ []) (1 ∷ []) ≡ true)
    × (find chat_key (5 ∷ []) without_chat_5.chats ≡ none)
    × (select (λ p. text_eq p.chat_id (5 ∷ [])) without_chat_5.participants ≡ [])
    × (select (λ m. text_eq m.chat_id (5 ∷ [])) without_chat_5.messages ≡ [])
    × (select (λ k. is_message_of two_in_chat (5 ∷ []) k.message_id) without_chat_5.keys ≡ [])
    × (select (λ r. is_message_of two_in_chat (5 ∷ []) r.message_id) without_chat_5.receipts ≡ [])
delete_chat_removes_example =
    delete_chat_removes two_in_chat without_chat_5 (5 ∷ []) (1 ∷ []) deletes_5

nine_is_not_five : text_eq (9 ∷ []) (5 ∷ []) ≡ false
unfolding text_eq
nine_is_not_five = refl

delete_chat_keeps_example :
    (select (λ c. text_eq c.id (9 ∷ [])) without_chat_5.chats
      ≡ map
          (unmentioned two_in_chat (5 ∷ []))
          (select (λ c. text_eq c.id (9 ∷ [])) two_in_chat.chats))
    × (select (λ p. text_eq p.chat_id (9 ∷ [])) without_chat_5.participants
        ≡ select (λ p. text_eq p.chat_id (9 ∷ [])) two_in_chat.participants)
    × (select (λ m. text_eq m.chat_id (9 ∷ [])) without_chat_5.messages
        ≡ select (λ m. text_eq m.chat_id (9 ∷ [])) two_in_chat.messages)
    × (without_chat_5.keys
        ≡ select (λ k. not (is_message_of two_in_chat (5 ∷ []) k.message_id)) two_in_chat.keys)
    × (without_chat_5.receipts
        ≡ select (λ r. not (is_message_of two_in_chat (5 ∷ []) r.message_id)) two_in_chat.receipts)
delete_chat_keeps_example =
    delete_chat_keeps two_in_chat without_chat_5 (5 ∷ []) (1 ∷ []) (9 ∷ []) deletes_5
      nine_is_not_five

finds_9 : find_chat_by_id chat_postgres with_chat_9 (9 ∷ []) ≡ returns (some chat_9)
unfolding find_chat_by_id read_found_chat find text_eq read_chat current_users string_agg join_texts
    split_csv get_string map_chat joined_message map_last_message create_chat_type Types.create
    codes Chat.reconstitute
finds_9 = refl

plain_ids : any (λ u. not (plain u)) (members with_chat_9 (9 ∷ [])) ≡ false
unfolding any plain text_eq
plain_ids = refl

find_chat_by_id-members_example :
    (chat_9.id ≡ 9 ∷ []) × Perm chat_9.participant_ids (members with_chat_9 (9 ∷ []))
find_chat_by_id-members_example =
    find_chat_by_id-members chat_postgres with_chat_9 (9 ∷ []) chat_9 chat_postgres-IsQueryOrder
      plain_ids finds_9
