-- ===== src/Tests/Controllers.antt =====
-- Handlers of the controllers, with a JSON library whose values are texts.
use chat_system.Prelude.{
  ◌+◌, ◌≡◌, refl, true, none, some, Option, List, [], ◌∷◌, ◌++◌, Text, codes, text_eq,
  if◌then◌else◌,
}
use chat_system.Exceptions.{returns}
use chat_system.Domain.User.{User}
use chat_system.Domain.Session.{is_expired}
use chat_system.Domain.Chat
use chat_system.Domain.Chat.{Chat}
use chat_system.Domain.Message
use chat_system.Domain.Message.{Message}
use chat_system.Domain.Types
use chat_system.Domain.Types.{
  text_message_type, direct_chat_type, create_message_type, create_chat_type, message_type_string,
  chat_type_string,
}
use chat_system.Validation.Outcome.{empty_result, ok, add_error}
use chat_system.Validation.Rules.{error_if, and_rule, bound_rule}
use chat_system.Repositories.Rows.{find, taken, update_rows}
use chat_system.Repositories.Where.{any, first}
use chat_system.Repositories.Store.{find_by_id, find_by_token}
use chat_system.Repositories.ChatStore.{
  join_texts, string_agg, split_csv, get_string, map_message, joined_message, map_last_message,
  map_chat,
}
use chat_system.Repositories.Chats.{
  current_users, in_transaction, is_participant, read_chat, read_found_chat, find_chat_by_id,
  update_last_message,
}
use chat_system.Repositories.Messages.{insert_message, insert_keys, add_message, find_message_by_id}
use chat_system.Services.Notification.{notify_new_message, new_message_event}
use chat_system.Services.Message.{
  Calls, chat_exists_or_throw, notify_others, notify_chat, message_or_throw, enforce_sender,
  enforce_chat_existence, store_message, new_message, send_chat_message, get_history, read_message,
  mark_as_read, mark_all, get_undelivered, delete_message,
}
use chat_system.Services.Message as MessageService
use chat_system.Tests.Messages.{chat_postgres, two_in_chat, after_send, service_1}
use chat_system.Networking.Http.{Request, Response}
use chat_system.Networking.Json.{Json}
use chat_system.Networking.Router.{PathParams}
use chat_system.Networking.Credentials.{
  auth_scheme, starts_with_text, token_of_header, extract_token, extract_path_param,
}
use chat_system.Networking.Controllers.{
  responds, undefined_behaviour, dereferenced, ok_response, catch_json, with_caller,
}
use chat_system.Networking.Controllers.ChatController.{
  handle_create_chat, handle_get_chats, handle_get_chat_by_id, handle_get_participants,
  handle_add_participant, handle_remove_participant, handle_delete_chat,
}
use chat_system.Networking.Controllers.MessageController.{
  token_caller, message_caller, handle_send_message, handle_get_message_history,
  handle_get_message_public_key, handle_read_message, handle_get_undelivered, handle_delete_message,
  send_body, extract_encrypted_keys, get_keys, format_message, made_calls,
}
use chat_system.Networking.Controllers.Access.{
  chat_handlers-refused_token, message_handlers-refused_token,
}
use chat_system.Networking.Controllers.Statuses.{handle_send_message-stores}
use chat_system.Services.Auth.{validate_token, check_session}

abbrev pub text_json : Json Text
text_json = record {
  parse = λ t. returns t;
  contains = λ key j. true;
  at = λ key j. if text_eq key (codes "type") then returns (codes "TEXT") else returns j;
  as_string = λ j. returns j;
  elements = λ j. j ∷ [];
  items = λ j. [];
  text = λ t. t;
  number = λ n. n ∷ [];
  null = [];
  object = λ fields. [];
  array = λ js. [];
  dump = λ j. returns j;
}

abbrev pub no_params : Text → Option (List (Text × Text))
no_params target = none

-- The token 8 is that of the user 2.
abbrev request_of : Text → Request
request_of token = record {
  method = 1;
  target = [];
  authorization = some (auth_scheme ++ token);
  body = 7 ∷ [];
}

abbrev in_chat_5 : PathParams
in_chat_5 = (codes "id", 5 ∷ []) ∷ []

refuses_9 : validate_token (9 ∷ []) 30 two_in_chat.accounts ≡ none
unfolding validate_token check_session find_by_token find text_eq
refuses_9 = refl

chat_handlers-refused_token_example :
    (handle_create_chat text_json chat_postgres 30 no_params
        (20 ∷ [])
        (request_of (9 ∷ []))
        two_in_chat
      ≡ (undefined_behaviour, two_in_chat))
    × (handle_get_chats text_json chat_postgres 30 no_params (request_of (9 ∷ [])) two_in_chat
        ≡ (undefined_behaviour, two_in_chat))
    × (handle_get_chat_by_id text_json chat_postgres 30 no_params
          (request_of (9 ∷ []))
          in_chat_5
          two_in_chat
        ≡ (undefined_behaviour, two_in_chat))
    × (handle_get_participants text_json chat_postgres 30 no_params
          (request_of (9 ∷ []))
          in_chat_5
          two_in_chat
        ≡ (undefined_behaviour, two_in_chat))
    × (handle_add_participant text_json chat_postgres 30 no_params
          (request_of (9 ∷ []))
          in_chat_5
          two_in_chat
        ≡ (undefined_behaviour, two_in_chat))
    × (handle_remove_participant text_json chat_postgres 30 no_params
          (request_of (9 ∷ []))
          in_chat_5
          two_in_chat
        ≡ (undefined_behaviour, two_in_chat))
    × (handle_delete_chat text_json chat_postgres 30 no_params
          (request_of (9 ∷ []))
          in_chat_5
          two_in_chat
        ≡ (undefined_behaviour, two_in_chat))
chat_handlers-refused_token_example =
    chat_handlers-refused_token text_json chat_postgres 30 no_params (20 ∷ []) (9 ∷ [])
      (request_of (9 ∷ [])) in_chat_5 two_in_chat refl refuses_9

message_handlers-refused_token_example :
    (handle_send_message text_json chat_postgres service_1 30 no_params
        (20 ∷ [])
        (request_of (9 ∷ []))
        in_chat_5
        two_in_chat
      ≡ (undefined_behaviour, (two_in_chat, [])))
    × (handle_get_message_history text_json chat_postgres service_1 30 no_params
          (request_of (9 ∷ []))
          in_chat_5
          two_in_chat
        ≡ (undefined_behaviour, two_in_chat))
    × (handle_get_message_public_key text_json chat_postgres service_1 30 no_params
          (request_of (9 ∷ []))
          in_chat_5
          two_in_chat
        ≡ (undefined_behaviour, two_in_chat))
    × (handle_read_message text_json chat_postgres service_1 30 no_params
          (request_of (9 ∷ []))
          in_chat_5
          two_in_chat
        ≡ (undefined_behaviour, (two_in_chat, [])))
    × (handle_get_undelivered text_json chat_postgres service_1 30 no_params
          (λ i. 50 + i)
          (request_of (9 ∷ []))
          two_in_chat
        ≡ (undefined_behaviour, two_in_chat))
    × (handle_delete_message text_json chat_postgres service_1 30 no_params
          (request_of (9 ∷ []))
          in_chat_5
          two_in_chat
        ≡ (undefined_behaviour, two_in_chat))
message_handlers-refused_token_example =
    message_handlers-refused_token text_json chat_postgres service_1 30 no_params (λ i. 50 + i)
      (20 ∷ []) (9 ∷ []) (request_of (9 ∷ [])) in_chat_5 two_in_chat refl refuses_9

abbrev ok_empty : Response
ok_empty = record { status = 200; body = [] }

answers_ok :
    handle_send_message text_json chat_postgres service_1 30 no_params
      (20 ∷ [])
      (request_of (8 ∷ []))
      in_chat_5
      two_in_chat
    ≡ (responds ok_empty, (after_send, (11, new_message_event (20 ∷ []) (2 ∷ [])) ∷ []))
unfolding handle_send_message message_caller token_caller extract_token token_of_header
    starts_with_text dereferenced with_caller catch_json extract_path_param send_body
    extract_encrypted_keys get_keys format_message made_calls ok_response validate_token
    check_session find_by_token find_by_id is_expired send_chat_message new_message
    enforce_chat_existence MessageService.enforce_participant chat_exists_or_throw store_message
    add_message insert_message insert_keys in_transaction update_last_message update_rows
    find_chat_by_id read_found_chat read_chat string_agg join_texts split_csv current_users
    get_string map_chat map_last_message map_message joined_message first is_participant any taken
    find text_eq codes create_chat_type create_message_type Types.create message_type_string
    notify_chat notify_others notify_new_message Message.create Message.validate ok add_error
    empty_result error_if and_rule bound_rule Message.reconstitute Chat.reconstitute
answers_ok = refl

handle_send_message-stores_example :
    (token : Text) × (user : User) × (chat_id : Text) × (message : Message) × ((request_of
        (8 ∷ [])).authorization
      ≡ some (auth_scheme ++ token))
    × (validate_token token 30 two_in_chat.accounts ≡ some user)
    × (extract_path_param in_chat_5 (codes "id") ≡ returns chat_id)
    × (is_participant two_in_chat chat_id user.id ≡ true)
    × (find_message_by_id chat_postgres after_send (20 ∷ []) ≡ returns (some message))
    × (message.sender_id ≡ user.id)
    × (message.chat_id ≡ chat_id)
handle_send_message-stores_example =
    handle_send_message-stores text_json chat_postgres service_1 30 no_params (20 ∷ [])
      (request_of (8 ∷ [])) in_chat_5 two_in_chat after_send _ ok_empty answers_ok refl
