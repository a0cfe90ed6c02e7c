-- ===== src/Networking/Controllers/ChatController.antt =====
-- Server/Source/Networking/Controllers/chat_controller.cpp. A handler takes the state and returns how
-- it ends with the state that it leaves.
use chat_system.Prelude.{ℕ, ◌/◌, ◌^◌, Option, none, some, List, [], ◌∷◌, map, Text, codes}
use chat_system.Exceptions.{Result, returns, ◌>>=◌, continue}
use chat_system.Domain.User.{User}
use chat_system.Domain.Chat.{Chat}
use chat_system.Domain.Message.{Message}
use chat_system.Domain.Roles.{role_to_str_view}
use chat_system.Networking.Http.{Request, Response}
use chat_system.Networking.Json.{Json}
use chat_system.Networking.Router.{PathParams}
use chat_system.Networking.Credentials.{extract_path_param}
use chat_system.Networking.Controllers.{
  HandlerOutcome, extract_pagination_limit_and_offset, not_found, ok_response, no_content_response,
  catch_all, catch_json, with_caller, chat_caller,
}
use chat_system.Repositories.ChatStore.{ChatDb, ChatPostgres}
use chat_system.Services.Chat.{
  create_chat, get_chats_for_user, get_chat_by_id, get_participants, delete_chat,
  add_participant_unsupported, remove_participant_unsupported,
}

-- Nanoseconds, the ticks of system_clock, in a second.
abbrev pub ticks_per_second : ℕ
ticks_per_second = 10 ^ 9

module _ {J : Type 0} (json : Json J) where
  get_strings : List J → Result (List Text)
  get_strings [] = returns []
  get_strings (v ∷ vs) = json.as_string v >>= λ t. get_strings vs >>= λ ts. returns (t ∷ ts)

  -- ChatController::ExtractParticipantIds.
  unfoldable pub extract_participant_ids : J → Result (List Text)
  unfolding get_strings
  extract_participant_ids body =
      json.at (codes "participant_ids") body >>= λ ids. get_strings (json.elements ids)

  unfoldable pub last_message_json : Option Message → J
  last_message_json none = json.null
  last_message_json (some message) = json.text message.id

  -- The four overloads of ChatController::FormatJsonOutput.
  unfoldable pub format_chat : Chat → J
  unfolding last_message_json
  format_chat chat = json.object (
      (codes "id", json.text chat.id)
      ∷ (codes "created_at", json.number (chat.created_at / ticks_per_second))
      ∷ (codes "last_activity_at", json.number (chat.created_at / ticks_per_second))
      ∷ (codes "name", json.null)
      ∷ (codes "last_message_id", last_message_json chat.last_message)
      ∷ [])

  unfoldable pub format_chats : List Chat → J
  unfolding format_chat
  format_chats chats = json.array (map format_chat chats)

  unfoldable pub format_user : User → J
  format_user user = json.object (
      (codes "id", json.text user.id)
      ∷ (codes "tag", json.text user.tag.value)
      ∷ (codes "login", json.text user.login)
      ∷ (codes "public_key", json.text user.public_key)
      ∷ (codes "role", json.text (role_to_str_view user.role))
      ∷ [])

  unfoldable pub format_users : List User → J
  unfolding format_user
  format_users users = json.array (map format_user users)

  -- A part of a handler that reads, and one that writes and returns nothing.
  abbrev pub reads :
      {A : Type 0} → Result A → (A → Result Response) → ChatDb → Result Response × ChatDb
  reads r answer db = (r >>= answer, db)

  abbrev pub writes : {A : Type 0} → Result A × ChatDb → Result Response × ChatDb
  writes step = continue step λ done db. (no_content_response, db)

  module _ (postgres : ChatPostgres) (now : ℕ)
      (params_of : Text → Option (List (Text × Text))) where
    unfoldable pub handle_create_chat : Text → Request → ChatDb → HandlerOutcome × ChatDb
    unfolding chat_caller with_caller catch_json extract_participant_ids ok_response format_chat
    handle_create_chat new_id req db =
        with_caller json (chat_caller now db.accounts req) (catch_json json) db λ id.
          continue (json.parse req.body >>= extract_participant_ids, db)
            λ participant_ids db.
              continue (create_chat postgres new_id now id participant_ids db)
                λ chat db. (ok_response json (format_chat chat), db)

    unfoldable pub handle_get_chats : Request → ChatDb → HandlerOutcome × ChatDb
    unfolding chat_caller with_caller catch_all extract_pagination_limit_and_offset ok_response
        format_chats
    handle_get_chats req db =
        with_caller json (chat_caller now db.accounts req) (catch_all json) db λ id.
          reads
            (extract_pagination_limit_and_offset (params_of req.target) 50 0 >>= λ (limit, offset).
              get_chats_for_user postgres db id limit offset)
            (λ chats. ok_response json (format_chats chats)) db

    unfoldable pub chat_response : Option Chat → Result Response
    unfolding not_found ok_response format_chat
    chat_response none = not_found json (codes "Chat not found.")
    chat_response (some chat) = ok_response json (format_chat chat)

    unfoldable pub handle_get_chat_by_id : Request → PathParams → ChatDb → HandlerOutcome × ChatDb
    unfolding chat_caller with_caller catch_all chat_response
    handle_get_chat_by_id req params db =
        with_caller json (chat_caller now db.accounts req) (catch_all json) db λ id.
          reads
            (extract_path_param params (codes "id") >>= λ chat_id.
              get_chat_by_id postgres db chat_id id)
            chat_response db

    unfoldable pub handle_get_participants : Request → PathParams → ChatDb → HandlerOutcome × ChatDb
    unfolding chat_caller with_caller catch_all ok_response format_users
    handle_get_participants req params db =
        with_caller json (chat_caller now db.accounts req) (catch_all json) db λ id.
          reads
            (extract_path_param params (codes "id") >>= λ chat_id.
              get_participants postgres db chat_id id)
            (λ users. ok_response json (format_users users)) db

    unfoldable pub handle_add_participant : Request → PathParams → ChatDb → HandlerOutcome × ChatDb
    unfolding chat_caller with_caller catch_all no_content_response
    handle_add_participant req params db =
        with_caller json (chat_caller now db.accounts req) (catch_all json) db λ id.
          reads
            (extract_path_param params (codes "id") >>= λ chat_id. json.parse req.body >>= λ body.
              json.at (codes "user_id") body >>= json.as_string >>= λ new_user.
              add_participant_unsupported db chat_id id new_user)
            (λ done. no_content_response) db

    unfoldable pub handle_remove_participant :
        Request → PathParams → ChatDb → HandlerOutcome × ChatDb
    unfolding chat_caller with_caller catch_all no_content_response
    handle_remove_participant req params db =
        with_caller json (chat_caller now db.accounts req) (catch_all json) db λ id.
          reads
            (extract_path_param params (codes "id") >>= λ chat_id.
              extract_path_param params (codes "user_id") >>= λ user.
              remove_participant_unsupported db chat_id id user)
            (λ done. no_content_response) db

    unfoldable pub handle_delete_chat : Request → PathParams → ChatDb → HandlerOutcome × ChatDb
    unfolding chat_caller with_caller catch_all no_content_response
    handle_delete_chat req params db =
        with_caller json (chat_caller now db.accounts req) (catch_all json) db λ id.
          continue (extract_path_param params (codes "id"), db)
            λ chat_id db. writes (delete_chat db chat_id id)
