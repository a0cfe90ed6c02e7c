-- ===== src/Networking/Controllers/Access.antt =====
-- What the handlers of the chat and the message controller answer to a caller without a token and
-- to one whose token is refused, and what a response of HandleSendMessage tells.
use chat_system.Prelude.{ℕ, ◌≡◌, ap, ◌∙◌, ◌++◌, Option, none, some, List, [], Text, codes}
use chat_system.Exceptions.{Result}
use chat_system.Domain.User.{User}
use chat_system.Networking.Http.{Request, Response}
use chat_system.Networking.Json.{Json}
use chat_system.Networking.Router.{PathParams}
use chat_system.Networking.Credentials.{
  auth_scheme, extract_token_iff, starts_with_text-append, drop-append,
}
use chat_system.Networking.Controllers.{
  HandlerOutcome, undefined_behaviour, Caller, undefined_caller, dereferenced, get_auth_header,
  is_valid_token, get_token, with_caller, chat_caller,
}
use chat_system.Networking.Controllers.ChatController.{
  handle_create_chat, handle_get_chats, handle_get_chat_by_id, handle_get_participants,
  handle_add_participant, handle_remove_participant, handle_delete_chat,
}
use chat_system.Networking.Controllers.MessageController.{
  token_caller, message_caller, handle_send_message, handle_get_message_history,
  handle_get_message_public_key, handle_read_message, handle_get_undelivered, handle_delete_message,
}
use chat_system.Repositories.Store.{Db}
use chat_system.Repositories.ChatStore.{ChatDb, ChatPostgres}
use chat_system.Services.Auth.{validate_token}
use chat_system.Services.Notification.{NotificationService}

chat_caller-token :
    (now : ℕ) (db : Db) (req : Request) (token : Text)
    → req.authorization ≡ some (auth_scheme ++ token)
    → chat_caller now db req ≡ dereferenced (validate_token token now db)
unfolding chat_caller get_auth_header is_valid_token get_token codes
chat_caller-token now db req token h =
    rw (h, starts_with_text-append auth_scheme token)
      (ap (λ t. dereferenced (validate_token t now db)) (drop-append auth_scheme token))

message_caller-token :
    (now : ℕ) (db : Db) (req : Request) (token : Text)
    → req.authorization ≡ some (auth_scheme ++ token)
    → message_caller now db req ≡ dereferenced (validate_token token now db)
unfolding message_caller token_caller
message_caller-token now db req token h =
    ap (token_caller now db) ((extract_token_iff req token).1 h)

refused-undefined : (o : Option User) → o ≡ none → dereferenced o ≡ undefined_caller
unfolding dereferenced
refused-undefined o h = ap dereferenced h

module _ {J : Type 0} (json : Json J) where
  with_caller-undefined :
      {S : Type 0} (c : Caller) (handle : Result Response × S → HandlerOutcome × S) (s : S)
      (body : Text → Result Response × S)
      → c ≡ undefined_caller
      → with_caller json c handle s body ≡ (undefined_behaviour, s)
  unfolding with_caller
  with_caller-undefined c handle s body h = ap (λ x. with_caller json x handle s body) h

  -- With a token that ValidateToken refuses, every handler of the chat controller dereferences an
  -- empty optional, before it changes anything.
  pub chat_handlers-refused_token :
      (postgres : ChatPostgres) (now : ℕ) (params_of : Text → Option (List (Text × Text)))
      (new_id token : Text) (req : Request) (params : PathParams) (db : ChatDb)
      → req.authorization ≡ some (auth_scheme ++ token)
      → validate_token token now db.accounts ≡ none
      → (handle_create_chat json postgres now params_of new_id req db ≡ (undefined_behaviour, db))
        × (handle_get_chats json postgres now params_of req db ≡ (undefined_behaviour, db))
        × (handle_get_chat_by_id json postgres now params_of req params db
            ≡ (undefined_behaviour, db))
        × (handle_get_participants json postgres now params_of req params db
            ≡ (undefined_behaviour, db))
        × (handle_add_participant json postgres now params_of req params db
            ≡ (undefined_behaviour, db))
        × (handle_remove_participant json postgres now params_of req params db
            ≡ (undefined_behaviour, db))
        × (handle_delete_chat json postgres now params_of req params db ≡ (undefined_behaviour, db))
  unfolding handle_create_chat handle_get_chats handle_get_chat_by_id handle_get_participants
      handle_add_participant handle_remove_participant handle_delete_chat
  chat_handlers-refused_token postgres now params_of new_id token req params db bearer refused =
      let c = chat_caller-token now db.accounts req token bearer ∙ refused-undefined _ refused in
      (
        with_caller-undefined _ _ db _ c,
        with_caller-undefined _ _ db _ c,
        with_caller-undefined _ _ db _ c,
        with_caller-undefined _ _ db _ c,
        with_caller-undefined _ _ db _ c,
        with_caller-undefined _ _ db _ c,
        with_caller-undefined _ _ db _ c,
      )

  -- With a token that ValidateToken refuses, every handler of the message controller dereferences an
  -- empty optional, before it changes anything or calls anybody.
  pub message_handlers-refused_token :
      {C : Type 0} (postgres : ChatPostgres) (service : NotificationService C) (now : ℕ)
      (params_of : Text → Option (List (Text × Text))) (clock : ℕ → ℕ) (new_id token : Text)
      (req : Request) (params : PathParams) (db : ChatDb)
      → req.authorization ≡ some (auth_scheme ++ token)
      → validate_token token now db.accounts ≡ none
      → (handle_send_message json postgres service now params_of new_id req params db
          ≡ (undefined_behaviour, (db, [])))
        × (handle_get_message_history json postgres service now params_of req params db
            ≡ (undefined_behaviour, db))
        × (handle_get_message_public_key json postgres service now params_of req params db
            ≡ (undefined_behaviour, db))
        × (handle_read_message json postgres service now params_of req params db
            ≡ (undefined_behaviour, (db, [])))
        × (handle_get_undelivered json postgres service now params_of clock req db
            ≡ (undefined_behaviour, db))
        × (handle_delete_message json postgres service now params_of req params db
            ≡ (undefined_behaviour, db))
  unfolding handle_send_message handle_get_message_history handle_get_message_public_key
      handle_read_message handle_get_undelivered handle_delete_message
  message_handlers-refused_token postgres service now params_of clock new_id token req params db
        bearer refused =
      let c = message_caller-token now db.accounts req token bearer ∙ refused-undefined _ refused in
      (
        with_caller-undefined _ _ (db, []) _ c,
        with_caller-undefined _ _ db _ c,
        with_caller-undefined _ _ db _ c,
        with_caller-undefined _ _ (db, []) _ c,
        with_caller-undefined _ _ db _ c,
        with_caller-undefined _ _ db _ c,
      )
