-- ===== src/Services/Chat.antt =====
-- Server/Source/Services/chat_service.cpp and chat_service.h over Repositories/Chats. The new id
-- and the clock are arguments.
pub mod Deletion
pub mod Access
pub mod Members
pub mod Existing
pub mod Creation
use chat_system.Prelude.{
  ℕ, Bool, true, false, not, Option, none, some, List, [], ◌∷◌, Text, codes, text_eq, ltb,
  if◌then◌else◌, ◌==◌,
}
use chat_system.Exceptions.{
  Result, returns, throws, invalid_argument, logic_error, ◌>>=◌, ◌>>◌, continue,
}
use chat_system.Domain.User.{User}
use chat_system.Domain.Chat
use chat_system.Domain.Chat.{Chat}
use chat_system.Domain.Types.{ChatTypeVariant, direct_chat_type, chat_type_string, create_chat_type}
use chat_system.Repositories.Where.{order_by}
use chat_system.Repositories.Store.{find_by_id}
use chat_system.Repositories.ChatStore.{ChatDb, ChatPostgres}
use chat_system.Repositories.Chats.{
  is_participant, delete_chat_by_id, add_chat, find_chat_by_id, find_chats_by_user_id,
}

-- operator< of BaseId: std::string compares bytes, and a prefix is less.
unfoldable pub text_less : Text → Text → Bool
text_less s [] = false
text_less [] (d ∷ t) = true
text_less (c ∷ s) (d ∷ t) = let rest = text_less s t in if c == d then rest else ltb c d

-- std::ranges::unique and the erase behind it: of equal neighbours the first stays.
unfoldable pub unique_behind : Text → List Text → List Text
unique_behind x [] = []
unique_behind x (y ∷ ys) =
    let rest = unique_behind y ys in
    let same = unique_behind x ys in if text_eq x y then same else y ∷ rest

unfoldable pub unique : List Text → List Text
unfolding unique_behind
unique [] = []
unique (x ∷ xs) = x ∷ unique_behind x xs

unfoldable pub enforce_participant : ChatDb → Text → Text → Result (Unit {0})
enforce_participant db chat_id user =
    if not (is_participant db chat_id user)
    then throws (logic_error (codes "Access Denied: User is not a participant of this chat."))
    else returns tt

unfoldable pub user_or_throw : Text → Option User → Result (Unit {0})
user_or_throw message none = throws (invalid_argument message)
user_or_throw message (some user) = returns tt

unfoldable pub enforce_user_existence : ChatDb → Text → Result (Unit {0})
unfolding user_or_throw
enforce_user_existence db user =
    user_or_throw (codes "User does not exist.") (find_by_id db.accounts user)

unfoldable pub enforce_users_existence : ChatDb → List Text → Result (Unit {0})
unfolding user_or_throw
enforce_users_existence db [] = returns tt
enforce_users_existence db (user ∷ users) =
    user_or_throw (codes "One or more participants do not exist.") (find_by_id db.accounts user)
    >> enforce_users_existence db users

unfoldable pub handle_self_chat : Text → Text → Result (Unit {0})
handle_self_chat self other =
    if text_eq self other
    then throws (invalid_argument (codes "Cannot create a chat with yourself."))
    else returns tt

-- std::ranges::find over the participants.
unfoldable pub contains_user : Text → List Text → Bool
contains_user user [] = false
contains_user user (p ∷ ps) =
    let rest = contains_user user ps in if text_eq p user then true else rest

-- std::holds_alternative<DirectChatType>.
unfoldable pub holds_direct : ChatTypeVariant → Bool
holds_direct direct_chat_type = true

-- The loop of FindExistingChat<DirectChatType>.
unfoldable pub first_chat_with : Text → List Chat → Option Chat
unfolding holds_direct contains_user
first_chat_with user [] = none
first_chat_with user (chat ∷ chats) =
    let rest = first_chat_with user chats in
    if holds_direct chat.type
    then (if contains_user user chat.participant_ids then some chat else rest)
    else rest

-- The loop of FetchChatParticipants.
unfoldable pub fetch_users : ChatDb → List Text → List User
fetch_users db [] = []
fetch_users db (user ∷ users) = elim (find_by_id db.accounts user) [
  | none ↦ fetch_users db users
  | some u ↦ u ∷ fetch_users db users
]

unfoldable pub add_participant_unsupported : ChatDb → Text → Text → Text → Result (Unit {0})
add_participant_unsupported db id requesting new_user =
    throws (logic_error (codes "AddParticipant is not yet supported."))

unfoldable pub remove_participant_unsupported : ChatDb → Text → Text → Text → Result (Unit {0})
remove_participant_unsupported db id requesting user =
    throws (logic_error (codes "RemoveParticipant is not yet supported."))

unfoldable pub delete_chat : ChatDb → Text → Text → Result (Unit {0}) × ChatDb
unfolding enforce_participant
delete_chat db id requesting =
    continue (enforce_participant db id requesting, db)
      λ done db. (returns tt, delete_chat_by_id id db)

unfoldable pub chat_or_throw : Option Chat → Result Chat
chat_or_throw none = throws (invalid_argument (codes "Chat not found."))
chat_or_throw (some chat) = returns chat

-- ChatParams{...} and Chat::Create.
unfoldable pub new_chat : Text → ℕ → List Text → Result Chat
new_chat id now participant_ids = create_chat_type (chat_type_string direct_chat_type) >>= λ type.
    Chat.create (record {
      id = id;
      created_at = now;
      type = type;
      last_message = none;
      participant_ids = participant_ids;
    })

unfoldable pub some_participant : List Text → Result (Unit {0})
some_participant [] = throws (invalid_argument (codes "Cannot create a chat without participants."))
some_participant (user ∷ users) = returns tt

module _ (postgres : ChatPostgres) where
  unfoldable pub try_fetch_chat : ChatDb → Text → Result Chat
  unfolding chat_or_throw
  try_fetch_chat db id = find_chat_by_id postgres db id >>= chat_or_throw

  unfoldable pub find_existing_chat : ChatDb → Text → Text → Result (Option Chat)
  unfolding first_chat_with
  find_existing_chat db user_a user_b = find_chats_by_user_id postgres db user_a 100 0 >>= λ chats.
      returns (first_chat_with user_b chats)

  unfoldable pub create_new_chat_type : Text → ℕ → Text → List Text → ChatDb → Result Chat × ChatDb
  unfolding text_less unique new_chat
  create_new_chat_type id now creator participant_ids db =
      continue (new_chat id now (unique (order_by text_less (creator ∷ participant_ids))), db)
        λ chat db. continue (add_chat postgres chat db) λ done db. (returns chat, db)

  unfoldable pub existing_or_new :
      Text → ℕ → Text → List Text → Option Chat → ChatDb → Result Chat × ChatDb
  unfolding create_new_chat_type
  existing_or_new id now creator participant_ids (some chat) db = (returns chat, db)
  existing_or_new id now creator participant_ids none db =
      create_new_chat_type id now creator participant_ids db

  -- The part of CreateChat for one participant, and for more.
  unfoldable pub find_for : ChatDb → Text → List Text → Result (Option Chat)
  unfolding handle_self_chat find_existing_chat
  find_for db creator [] = returns none
  find_for db creator (other ∷ []) =
      handle_self_chat creator other >> find_existing_chat db creator other
  find_for db creator (other ∷ another ∷ others) = returns none

  -- CreateChat up to the chat that it finds.
  unfoldable pub choose_chat : ChatDb → Text → List Text → Result (Option Chat)
  unfolding some_participant enforce_user_existence enforce_users_existence find_for
  choose_chat db creator participant_ids =
      some_participant participant_ids
      >> (enforce_user_existence db creator
          >> (enforce_users_existence db participant_ids >> find_for db creator participant_ids))

  unfoldable pub create_chat : Text → ℕ → Text → List Text → ChatDb → Result Chat × ChatDb
  unfolding choose_chat existing_or_new
  create_chat id now creator participant_ids db =
      continue (choose_chat db creator participant_ids, db)
        λ existing db. existing_or_new id now creator participant_ids existing db

  unfoldable pub get_chats_for_user : ChatDb → Text → ℕ → ℕ → Result (List Chat)
  get_chats_for_user db user limit offset = find_chats_by_user_id postgres db user limit offset

  unfoldable pub get_chat_by_id : ChatDb → Text → Text → Result (Option Chat)
  unfolding enforce_participant
  get_chat_by_id db id requesting =
      enforce_participant db id requesting >> find_chat_by_id postgres db id

  unfoldable pub get_participants : ChatDb → Text → Text → Result (List User)
  unfolding try_fetch_chat enforce_participant fetch_users
  get_participants db id requesting = try_fetch_chat db id >>= λ chat.
      enforce_participant db id requesting >> returns (fetch_users db chat.participant_ids)
