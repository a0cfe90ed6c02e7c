-- ===== src/Networking/Controllers/AuthController.antt =====
-- Server/Source/Networking/Controllers/auth_controller.cpp.
use chat_system.Prelude.{
  Bool, true, false, not, Option, none, some, [], ◌∷◌, ◌++◌, Text, codes, length, ◌==◌,
  if◌then◌else◌,
}
use chat_system.Exceptions.{
  Exception, invalid_argument, runtime_error, connection_exception, transaction_exception,
  constraint_exception, query_exception, Result, returns, throws, ◌>>=◌, continue,
}
use chat_system.Domain.User.{User}
use chat_system.Domain.Session.{Session}
use chat_system.Networking.Http.{Request, Response}
use chat_system.Networking.Json.{Json}
use chat_system.Networking.Credentials.{extract_token}
use chat_system.Networking.Controllers.{
  HandlerOutcome, responds, escapes, undefined_behaviour, what, is_json_exception, bad_request,
  unauthorized, unauthorized_message, conflict, internal_server_error, ok_response,
  no_content_response, answered, catch_json,
}
use chat_system.Repositories.Store.{Postgres, Db}
use chat_system.Services.Auth.{
  Encryption, Draws, validate_token, logout, register_user, login, change_password,
}
use chat_system.Services.User.{UserProfile, get_by_id}

-- catch (const std::runtime_error&): the exceptions of the database derive from it.
unfoldable pub is_runtime_error : Exception → Bool
is_runtime_error (runtime_error m) = true
is_runtime_error (connection_exception m) = true
is_runtime_error (transaction_exception m) = true
is_runtime_error (constraint_exception m) = true
is_runtime_error (query_exception m) = true
is_runtime_error _ = false

unfoldable pub is_invalid_argument : Exception → Bool
is_invalid_argument (invalid_argument m) = true
is_invalid_argument _ = false

module _ {J : Type 0} (json : Json J) where
  -- AuthController::ExtractRequiredString.
  unfoldable pub extract_required_string : J → Text → Result Text
  extract_required_string body field_name =
      if not (json.contains field_name body)
      then throws (invalid_argument (codes "Missing required field: " ++ field_name))
      else (json.at field_name body >>= json.as_string >>= λ value.
          if length value == 0
          then throws (invalid_argument (codes "Field cannot be empty: " ++ field_name))
          else returns value)

  -- AuthController::FormatAuthResponse.
  unfoldable pub format_auth_response : Text → UserProfile → J
  format_auth_response token profile = json.object (
      (codes "token", json.text token)
      ∷ (codes "id", json.text profile.id)
      ∷ (codes "login", json.text profile.login)
      ∷ (codes "tag", json.text profile.tag)
      ∷ [])

  -- The clauses of HandleRegister: the last one answers 409.
  unfoldable pub catch_register : {S : Type 0} → Result Response × S → HandlerOutcome × S
  unfolding answered bad_request conflict is_invalid_argument
  catch_register (returns response, s) = (responds response, s)
  catch_register (throws e, s) = (
    answered (
        if is_json_exception e
        then bad_request json (codes "Invalid JSON format.")
        else (if is_invalid_argument e then bad_request json (what e) else conflict json (what e))),
    s,
  )

  -- The clauses of HandleLogin: another exception escapes.
  unfoldable pub catch_login : {S : Type 0} → Result Response × S → HandlerOutcome × S
  unfolding answered bad_request unauthorized is_runtime_error is_invalid_argument
  catch_login (returns response, s) = (responds response, s)
  catch_login (throws e, s) = (
    if is_json_exception e
        then answered (bad_request json (codes "Invalid JSON format"))
        else (if is_invalid_argument e
            then answered (bad_request json (what e))
            else (if is_runtime_error e
                then answered (unauthorized json (codes "Invalid credentials."))
                else escapes e)),
    s,
  )

  -- The clause of HandleLogout.
  unfoldable pub catch_logout : {S : Type 0} → Result Response × S → HandlerOutcome × S
  unfolding answered internal_server_error
  catch_logout (returns response, s) = (responds response, s)
  catch_logout (throws e, s) = (answered (internal_server_error json), s)

  -- The response for a new session: *GetById(...), which is dereferenced without a test.
  unfoldable pub session_response :
      {S : Type 0}
      → (Result Response × S → HandlerOutcome × S)
      → Text
      → Option UserProfile
      → S
      → HandlerOutcome × S
  unfolding ok_response format_auth_response
  session_response handle token none s = (undefined_behaviour, s)
  session_response handle token (some profile) s =
      handle (ok_response json (format_auth_response token profile), s)

  -- The catch clauses around a session that was opened or an exception.
  unfoldable pub answer_session :
      (Result Response × Db → HandlerOutcome × Db) → Result Session × Db → HandlerOutcome × Db
  unfolding session_response
  answer_session handle (throws e, db) = handle (throws e, db)
  answer_session handle (returns session, db) =
      session_response handle session.token (get_by_id db session.user_id) db

  module _ (postgres : Postgres) (encryption : Encryption) (draws : Draws) where
    unfoldable pub handle_register : Request → Db → HandlerOutcome × Db
    unfolding catch_register answer_session extract_required_string
    handle_register req db = answer_session (catch_register) (
        continue (json.parse req.body, db)
          λ body db.
            continue (extract_required_string body (codes "login"), db)
              λ name db.
                continue (extract_required_string body (codes "password"), db)
                  λ password db.
                    continue (extract_required_string body (codes "public_key"), db)
                      λ public_key db.
                        register_user postgres encryption draws name password public_key db)

    unfoldable pub handle_login : Request → Db → HandlerOutcome × Db
    unfolding catch_login answer_session extract_required_string
    handle_login req db = answer_session (catch_login) (
        continue (json.parse req.body, db)
          λ body db.
            continue (extract_required_string body (codes "login"), db)
              λ name db.
                continue (extract_required_string body (codes "password"), db)
                  λ password db. login postgres encryption draws name password db)

    unfoldable pub logout_body : Option Text → Db → Result Response × Db
    unfolding unauthorized no_content_response
    logout_body none db = (unauthorized json (codes "Missing or invalid token."), db)
    logout_body (some token) db = (no_content_response, logout token db)

    unfoldable pub handle_logout : Request → Db → HandlerOutcome × Db
    unfolding catch_logout logout_body
    handle_logout req db = catch_logout (logout_body (extract_token req) db)

    -- ExtractAndChangePassword for the user whom ValidateToken returned.
    unfoldable pub change_body : Request → Option User → Db → Result Response × Db
    unfolding unauthorized extract_required_string no_content_response
    change_body req none db = (unauthorized json (codes "Session expired."), db)
    change_body req (some user) db =
        continue (json.parse req.body, db)
          λ body db.
            continue (extract_required_string body (codes "old_password"), db)
              λ old_pass db.
                continue (extract_required_string body (codes "new_password"), db)
                  λ new_pass db.
                    continue
                      (change_password postgres encryption draws user.id old_pass new_pass db)
                      λ done db. (no_content_response, db)

    unfoldable pub change_password_body : Request → Option Text → Db → Result Response × Db
    unfolding unauthorized change_body
    change_password_body req none db = (unauthorized json unauthorized_message, db)
    change_password_body req (some token) db =
        change_body req (validate_token token draws.now db) db

    unfoldable pub handle_change_password : Request → Db → HandlerOutcome × Db
    unfolding catch_json change_password_body
    handle_change_password req db =
        catch_json json (change_password_body req (extract_token req) db)
