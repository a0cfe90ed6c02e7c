-- ===== src/Networking/Controllers/MessageController.antt =====
-- Server/Source/Networking/Controllers/message_controller.cpp. A handler takes the tables and returns
-- how it ends with the tables that it leaves; those that notify return the callback calls too.
use chat_system.Prelude.{ℕ, ◌/◌, Option, none, some, List, [], ◌∷◌, ◌++◌, map, Text, codes}
use chat_system.Exceptions.{Result, returns, ◌>>=◌, continue}
use chat_system.Domain.Message.{Message}
use chat_system.Domain.Types.{create_message_type, message_type_string}
use chat_system.Networking.Http.{Request, Response}
use chat_system.Networking.Json.{Json}
use chat_system.Networking.Router.{PathParams}
use chat_system.Networking.Credentials.{extract_token, extract_path_param}
use chat_system.Networking.Controllers.{
  HandlerOutcome, find_param, number_or, extract_pagination_limit_and_offset, anonymous, Caller,
  dereferenced, not_found, ok_response, no_content_response, catch_all, catch_json, with_caller,
}
use chat_system.Repositories.Store.{Db}
use chat_system.Repositories.ChatStore.{ChatDb, ChatPostgres}
use chat_system.Services.Auth.{validate_token}
use chat_system.Services.Notification.{NotificationService}
use chat_system.Services.Message.{
  Calls, get_encrypted_key, send_chat_message, get_history, mark_as_read, get_undelivered,
  delete_message,
}
use chat_system.Networking.Controllers.ChatController.{ticks_per_second}

-- MessageController::GetAuthenticatedUserId.
unfoldable pub token_caller : ℕ → Db → Option Text → Caller
unfolding dereferenced
token_caller now db none = anonymous
token_caller now db (some token) = dereferenced (validate_token token now db)

unfoldable pub message_caller : ℕ → Db → Request → Caller
unfolding token_caller
message_caller now db req = token_caller now db (extract_token req)

-- MessageController::ExtractCursorPagination.
unfoldable pub extract_cursor_pagination :
    Option (List (Text × Text)) → ℕ → Result (ℕ × Option Text)
unfolding find_param number_or
extract_cursor_pagination none limit = returns (limit, none)
extract_cursor_pagination (some params) limit =
    number_or limit (find_param (codes "limit") params) >>= λ new_limit.
    returns (new_limit, find_param (codes "afterId") params)

-- SendChatMessage never leaves the calls open: see Services/Message/Sending.
unfoldable pub made_calls : {C : Type 0} → Option (Calls C) → Calls C
made_calls none = []
made_calls (some calls) = calls

module _ {J : Type 0} (json : Json J) where
  -- The loop of ExtractEncryptedKeys; a JSON object has each key once.
  unfoldable pub get_keys : List (Text × J) → Result (List (Text × Text))
  get_keys [] = returns []
  get_keys ((user, v) ∷ vs) =
      json.as_string v >>= λ key. get_keys vs >>= λ keys. returns ((user, key) ∷ keys)

  unfoldable pub extract_encrypted_keys : J → Result (List (Text × Text))
  unfolding get_keys
  extract_encrypted_keys body =
      json.at (codes "encrypted_keys") body >>= λ keys. get_keys (json.items keys)

  -- The two overloads of MessageController::FormatJsonOutput.
  unfoldable pub format_message : Message → J
  format_message message = json.object (
      (codes "id", json.text message.id)
      ∷ (codes "sender_id", json.text message.sender_id)
      ∷ (codes "chat_id", json.text message.chat_id)
      ∷ (codes "ciphertext", json.text message.ciphertext)
      ∷ (codes "type", json.text (message_type_string message.type))
      ∷ (codes "created_at", json.number (message.created_at / ticks_per_second))
      ∷ [])

  unfoldable pub format_messages : List Message → J
  unfolding format_message
  format_messages messages = json.array (map format_message messages)

  module _ {C : Type 0} (postgres : ChatPostgres) (service : NotificationService C) (now : ℕ)
      (params_of : Text → Option (List (Text × Text))) where
    -- HandleSendMessage behind the caller and the path; the calls stay made if the response fails.
    unfoldable pub send_body :
        Text → Request → Text → Text → ChatDb × Calls C → Result Response × (ChatDb × Calls C)
    unfolding extract_encrypted_keys ok_response format_message made_calls
    send_body new_id req id chat_id (db, calls) =
        continue (json.parse req.body, (db, calls))
          λ body s.
            continue (json.at (codes "ciphertext") body >>= json.as_string, s)
              λ ciphertext s.
                continue (json.at (codes "type") body >>= json.as_string >>= create_message_type, s)
                  λ type s.
                    continue (extract_encrypted_keys body, s)
                      λ keys s.
                        let sent =
                          send_chat_message postgres service new_id now id chat_id ciphertext keys
                            type db in
                        continue (sent.0, (sent.1, calls))
                          λ (message, made) (new, calls). (
                            ok_response json (format_message message),
                            (new, calls ++ made_calls made),
                          )

    unfoldable pub handle_send_message :
        Text → Request → PathParams → ChatDb → HandlerOutcome × (ChatDb × Calls C)
    unfolding message_caller with_caller catch_json send_body
    handle_send_message new_id req params db =
        with_caller json (message_caller now db.accounts req) (catch_json json) (db, [])
          λ id.
            continue (extract_path_param params (codes "id"), (db, []))
              λ chat_id s. send_body new_id req id chat_id s

    unfoldable pub handle_get_message_history :
        Request → PathParams → ChatDb → HandlerOutcome × ChatDb
    unfolding message_caller with_caller catch_all extract_pagination_limit_and_offset ok_response
        format_messages
    handle_get_message_history req params db =
        with_caller json (message_caller now db.accounts req) (catch_all json) db λ id. (
          extract_path_param params (codes "id") >>= λ chat_id.
              extract_pagination_limit_and_offset (params_of req.target) 50 0 >>= λ (limit, offset).
              get_history postgres db chat_id id limit offset >>= λ messages.
              ok_response json (format_messages messages),
          db,
        )

    unfoldable pub key_response : Option Text → Result Response
    unfolding not_found ok_response
    key_response none =
        not_found json (codes "Encrypted key not found or you lack permission to access it.")
    key_response (some key) =
        ok_response json (json.object ((codes "encrypted_key", json.text key) ∷ []))

    unfoldable pub handle_get_message_public_key :
        Request → PathParams → ChatDb → HandlerOutcome × ChatDb
    unfolding message_caller with_caller catch_all key_response
    handle_get_message_public_key req params db =
        with_caller json (message_caller now db.accounts req) (catch_all json) db λ id. (
          extract_path_param params (codes "id") >>= λ message_id.
              key_response (get_encrypted_key db message_id id),
          db,
        )

    unfoldable pub handle_read_message :
        Request → PathParams → ChatDb → HandlerOutcome × (ChatDb × Calls C)
    unfolding message_caller with_caller catch_all no_content_response
    handle_read_message req params db =
        with_caller json (message_caller now db.accounts req) (catch_all json) (db, [])
          λ id.
            continue (extract_path_param params (codes "id"), (db, []))
              λ message_id s.
                let read = mark_as_read postgres service now message_id id db in
                continue (read.0, (read.1, []))
                  λ calls (new, earlier). (no_content_response, (new, calls))

    unfoldable pub handle_get_undelivered : (ℕ → ℕ) → Request → ChatDb → HandlerOutcome × ChatDb
    unfolding message_caller with_caller catch_all extract_cursor_pagination ok_response
        format_messages
    handle_get_undelivered clock req db =
        with_caller json (message_caller now db.accounts req) (catch_all json) db λ id.
          continue (extract_cursor_pagination (params_of req.target) 50, db)
            λ (limit, after) db.
              continue (get_undelivered postgres clock id limit after db)
                λ messages db. (ok_response json (format_messages messages), db)

    unfoldable pub handle_delete_message : Request → PathParams → ChatDb → HandlerOutcome × ChatDb
    unfolding message_caller with_caller catch_all no_content_response
    handle_delete_message req params db =
        with_caller json (message_caller now db.accounts req) (catch_all json) db λ id.
          continue (extract_path_param params (codes "id"), db)
            λ message_id db.
              continue (delete_message postgres db message_id id)
                λ done db. (no_content_response, db)
