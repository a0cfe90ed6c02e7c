-- ===== src/Services/Chat/Access.antt =====
-- Who may read a chat, and which chat FindExistingChat takes.
use chat_system.Prelude.{
  ◌≡◌, sym, ap, ◌∙◌, true, none, some, Option, List, Text, codes, arith, if◌then◌else◌,
}
use chat_system.Exceptions.{
  returns, throws, logic_error, bind-returns, guard-returns, ◌>>=◌, returns-injective,
}
use chat_system.Domain.User.{User}
use chat_system.Domain.Chat.{Chat}
use chat_system.Repositories.ChatStore.{ChatDb, ChatPostgres}
use chat_system.Repositories.Chats.{is_participant, find_chat_by_id}
use chat_system.Services.Chat.{
  enforce_participant, chat_or_throw, fetch_users, try_fetch_chat, get_chat_by_id, get_participants,
}

pub enforce_participant-returns :
    (db : ChatDb) (chat_id user : Text) (u : Unit {0})
    → enforce_participant db chat_id user ≡ returns u
    → is_participant db chat_id user ≡ true
unfolding enforce_participant
enforce_participant-returns db chat_id user u h = guard-returns _ _ u h

module _ (postgres : ChatPostgres) where
  -- GetById returns what FindById returns to a participant, and throws for every other caller.
  pub get_chat_by_id-access :
      (db : ChatDb) (id requesting : Text)
      → get_chat_by_id postgres db id requesting ≡ (
          if is_participant db id requesting
          then find_chat_by_id postgres db id
          else throws
              (logic_error (codes "Access Denied: User is not a participant of this chat.")))
  unfolding get_chat_by_id enforce_participant
  get_chat_by_id-access db id requesting = ground arith

  found_chat : (o : Option Chat) (chat : Chat) → chat_or_throw o ≡ returns chat → o ≡ some chat
  unfolding chat_or_throw
  found_chat none chat h = cc
  found_chat (some c) chat h = ap some (returns-injective c chat h)

  -- When GetParticipants returns users, the caller is a participant, the chat was found, and the
  -- users are the stored accounts of its participants, in their order.
  pub get_participants-returns :
      (db : ChatDb) (id requesting : Text) (users : List User)
      → get_participants postgres db id requesting ≡ returns users
      → (chat : Chat) × (is_participant db id requesting ≡ true)
        × (find_chat_by_id postgres db id ≡ returns (some chat))
        × (users ≡ fetch_users db chat.participant_ids)
  unfolding get_participants try_fetch_chat
  get_participants-returns db id requesting users h =
      let (chat, fetched, rest) =
        bind-returns (find_chat_by_id postgres db id >>= chat_or_throw) _ users h in
      let (o, found, is_some) = bind-returns (find_chat_by_id postgres db id) _ chat fetched in
      let (u, allowed, made) = bind-returns (enforce_participant db id requesting) _ users rest in
      (
        chat,
        enforce_participant-returns db id requesting u allowed,
        found ∙ ap returns (found_chat o chat is_some),
        sym (returns-injective _ users made),
      )
