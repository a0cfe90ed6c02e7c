-- ===== src/Tests/Messages.antt =====
-- The chat and the message service, with a database that stores every row.
use chat_system.Services.Message.Announced.{announced}
use chat_system.Prelude.{
  select, ltb, List, ℕ, ◌+◌, ◌≤◌, ◌≡◌, refl, true, false, none, some, [], ◌∷◌, ◌++◌, Text, codes,
  text_eq, length, take, drop,
}
use mathlib.Core.List.{Perm}
use mathlib.Core.List.Perm
use chat_system.Exceptions.{returns, runtime_error}
use chat_system.Domain.User.{User}
use chat_system.Domain.Roles.{regular_user_role}
use chat_system.Domain.Session.{Session}
use chat_system.Domain.Chat
use chat_system.Domain.Chat.{Chat}
use chat_system.Domain.Message
use chat_system.Domain.Message.{Message}
use chat_system.Domain.Types
use chat_system.Domain.Types.{
  text_message_type, direct_chat_type, create_message_type, create_chat_type, message_type_string,
  chat_type_string,
}
use chat_system.Validation.Outcome.{empty_result, ok, add_error}
use chat_system.Validation.Rules.{error_if, and_rule, bound_rule}
use chat_system.Repositories.Rows.{keep, find, taken, delete, update_rows}
use chat_system.Repositories.Where.{any, first, insert_row, order_by, limit_offset}
use chat_system.Repositories.Where.Order.{Ordered}
use chat_system.Repositories.ChatStore.{
  ChatRow, MessageRow, KeyRow, ReceiptRow, ChatDb, ChatPostgres, IsQueryOrder, chat_key,
  message_key, join_texts, string_agg, split_csv, get_string, map_message, map_messages,
  joined_message, map_last_message, map_chat,
}
use chat_system.Repositories.Chats.{
  current_users, in_transaction, clear_last_message, clear_last_messages, is_participant, read_chat,
  read_found_chat, find_chat_by_id, update_last_message,
}
use chat_system.Repositories.Messages.{
  delete_message_by_id, newer, sent_by_other, is_behind, is_delivered, is_undelivered,
  insert_message, insert_keys, add_message, read_found_message, find_message_by_id, message_rows_of,
  find_by_chat_id, undelivered_rows, find_undelivered, upsert_receipt, mark_delivered,
}
use chat_system.Services.Notification.{NotificationService, notify_new_message, new_message_event}
use chat_system.Services.Message.{
  chat_exists_or_throw, notify_others, notify_chat, message_or_throw, enforce_sender,
  enforce_chat_existence, store_message, new_message, send_chat_message, get_history, mark_all,
  get_undelivered, delete_message,
}
use chat_system.Services.Message as MessageService
use chat_system.Services.Message.Delivery.{get_undelivered-once}
use chat_system.Services.Message.Sending.{send_chat_message-returns}
use chat_system.Services.Message.History.{get_history-returns, delete_message-returns}

abbrev pub chat_postgres : ChatPostgres
chat_postgres = record {
  violation = runtime_error [];
  null_value = runtime_error [];
  negative_count = runtime_error [];
  refuses_chat = λ c. none;
  refuses_message = λ m keys. none;
  stored_time = λ t. t;
  users_order = λ us. us;
  chats_order = λ limit offset cs. cs;
  messages_order = λ limit offset ms. ms;
}

pub chat_postgres-IsQueryOrder : IsQueryOrder chat_postgres
chat_postgres-IsQueryOrder = record {
  users = λ us. Perm.rfl;
  chats = λ limit offset cs. Perm.rfl;
  messages = λ limit offset ms. Perm.rfl;
}

abbrev pub account : Text → User
account id = record {
  id = id;
  tag = record { value = id };
  login = id;
  password_hash = [];
  public_key = [];
  role = regular_user_role;
  created_at = 1;
}

abbrev session_b : Session
session_b = record {
  id = 9 ∷ [];
  user_id = 2 ∷ [];
  token = 8 ∷ [];
  expires_at = 100;
  created_at = 1;
}

-- The users 1, 2 and 3; 1 and 2 are in the chat 5, to which 2 sent the message 6.
abbrev pub two_in_chat : ChatDb
two_in_chat = record {
  accounts = record {
    users = account (1 ∷ []) ∷ account (2 ∷ []) ∷ account (3 ∷ []) ∷ [];
    sessions = session_b ∷ [];
  };
  chats =
      record {
        id = 5 ∷ [];
        created_at = 3;
        type = codes "DIRECT";
        last_message_id = some (6 ∷ []);
        last_message_timestamp = some 4;
      }
      ∷ [];
  participants =
      record { chat_id = 5 ∷ []; user_id = 1 ∷ []; left_at = none }
      ∷ record { chat_id = 5 ∷ []; user_id = 2 ∷ []; left_at = none }
      ∷ [];
  messages =
      record {
        id = 6 ∷ [];
        chat_id = 5 ∷ [];
        sender_id = some (2 ∷ []);
        ciphertext = 7 ∷ [];
        type = codes "TEXT";
        created_at = 4;
      }
      ∷ [];
  keys = [];
  receipts = [];
}

abbrev message_6 : Message
message_6 = record {
  id = 6 ∷ [];
  chat_id = 5 ∷ [];
  sender_id = 2 ∷ [];
  ciphertext = 7 ∷ [];
  type = text_message_type;
  created_at = 4;
}

abbrev pub service_1 : NotificationService ℕ
service_1 = record {
  next_subscriber_id = 2;
  subscriptions = (1 ∷ [], record { id = 1; callback = 11 } ∷ []) ∷ [];
}

abbrev row_20 : MessageRow
row_20 = record {
  id = 20 ∷ [];
  chat_id = 5 ∷ [];
  sender_id = some (2 ∷ []);
  ciphertext = 7 ∷ [];
  type = codes "TEXT";
  created_at = 30;
}

abbrev pub after_send : ChatDb
after_send = record two_in_chat {
  chats =
      record {
        id = 5 ∷ [];
        created_at = 3;
        type = codes "DIRECT";
        last_message_id = some (20 ∷ []);
        last_message_timestamp = some 30;
      }
      ∷ [];
  messages = two_in_chat.messages ++ (row_20 ∷ []);
}

abbrev message_20 : Message
message_20 = record message_6 { id = 20 ∷ []; created_at = 30 }

sends :
    send_chat_message chat_postgres service_1
      (20 ∷ [])
      30
      (2 ∷ [])
      (5 ∷ [])
      (7 ∷ [])
      []
      text_message_type
      two_in_chat
    ≡ (returns (message_20, some ((11, new_message_event (20 ∷ []) (2 ∷ [])) ∷ [])), after_send)
unfolding send_chat_message new_message enforce_chat_existence MessageService.enforce_participant
    chat_exists_or_throw store_message add_message insert_message insert_keys in_transaction
    update_last_message update_rows find_chat_by_id read_found_chat read_chat string_agg join_texts
    split_csv current_users get_string map_chat map_last_message map_message joined_message first
    is_participant any taken find text_eq codes create_chat_type create_message_type Types.create
    message_type_string notify_chat notify_others notify_new_message Message.create Message.validate
    ok add_error empty_result error_if and_rule bound_rule Message.reconstitute Chat.reconstitute
sends = refl

send_chat_message-returns_example :
    (is_participant two_in_chat (5 ∷ []) (2 ∷ []) ≡ true)
    × (message_20 ≡ record {
      id = 20 ∷ [];
      chat_id = 5 ∷ [];
      sender_id = 2 ∷ [];
      ciphertext = 7 ∷ [];
      type = text_message_type;
      created_at = 30;
    })
    × (find_message_by_id chat_postgres after_send (20 ∷ [])
        ≡ returns (some (record message_20 { created_at = 30 })))
    × ((row : ChatRow) × (find chat_key (5 ∷ []) after_send.chats ≡ some row)
        × (row.last_message_id ≡ some (20 ∷ [])))
    × (after_send.participants ≡ two_in_chat.participants)
    × ((chat : Chat) × (find_chat_by_id chat_postgres after_send (5 ∷ []) ≡ returns (some chat))
        × (some ((11, new_message_event (20 ∷ []) (2 ∷ [])) ∷ [])
            ≡ some (announced service_1 (20 ∷ []) (2 ∷ []) chat.participant_ids)))
send_chat_message-returns_example =
    send_chat_message-returns chat_postgres service_1 (20 ∷ []) 30 (2 ∷ []) (5 ∷ []) (7 ∷ []) []
      text_message_type two_in_chat after_send message_20 _ sends

-- The user 1 has read or got the message 6.
abbrev delivered_to_1 : ChatDb
delivered_to_1 = record two_in_chat {
  receipts =
      record { message_id = 6 ∷ []; user_id = 1 ∷ []; delivered_at = some 50; read_at = none } ∷ [];
}

delivers :
    get_undelivered chat_postgres (λ i. 50 + i) (1 ∷ []) 10 none two_in_chat
    ≡ (returns (message_6 ∷ []), delivered_to_1)
unfolding get_undelivered find_undelivered limit_offset undelivered_rows order_by insert_row keep
    is_undelivered any sent_by_other is_delivered is_behind text_eq map_messages map_message
    get_string create_message_type Types.create codes Message.reconstitute mark_all mark_delivered
    upsert_receipt in_transaction taken
delivers = refl

finds_nothing : find_undelivered chat_postgres delivered_to_1 (1 ∷ []) 10 none ≡ returns []
unfolding find_undelivered limit_offset undelivered_rows order_by insert_row keep is_undelivered any
    sent_by_other is_delivered is_behind text_eq map_messages
finds_nothing = refl

has_message_6 : any (λ m. text_eq m.id (6 ∷ [])) (message_6 ∷ []) ≡ true
unfolding any text_eq
has_message_6 = refl

get_undelivered-once_example :
    (length (message_6 ∷ []) ≤ 100)
    × (length (message_6 ∷ []) ≤ 10)
    × (is_delivered delivered_to_1 (6 ∷ []) (1 ∷ []) ≡ true)
    × (any (λ (m : Message). text_eq m.id (6 ∷ [])) [] ≡ false)
get_undelivered-once_example =
    get_undelivered-once chat_postgres (λ i. 50 + i) (1 ∷ []) (6 ∷ []) 10 none two_in_chat
      delivered_to_1 (message_6 ∷ []) 10 none [] chat_postgres-IsQueryOrder delivers finds_nothing
      has_message_6

abbrev read_by_1 : ChatDb
read_by_1 = record two_in_chat {
  receipts =
      record { message_id = 6 ∷ []; user_id = 1 ∷ []; delivered_at = some 50; read_at = some 50 }
      ∷ [];
}

shows_history :
    get_history chat_postgres after_send (5 ∷ []) (1 ∷ []) 1 1 ≡ returns (message_6 ∷ [])
unfolding get_history enforce_chat_existence MessageService.enforce_participant chat_exists_or_throw
    find_by_chat_id limit_offset message_rows_of order_by insert_row newer keep map_messages
    find_chat_by_id read_found_chat read_chat string_agg join_texts split_csv current_users
    get_string map_chat map_last_message map_message joined_message first is_participant any find
    text_eq codes create_chat_type create_message_type Types.create Message.reconstitute
    Chat.reconstitute
shows_history = refl

get_history-returns_example :
    (is_participant after_send (5 ∷ []) (1 ∷ []) ≡ true)
    × ((rows : List MessageRow) × Perm rows
          (select (λ m. text_eq m.chat_id (5 ∷ [])) after_send.messages)
        × Ordered (λ m n. ltb n.created_at m.created_at) rows
        × (map_messages chat_postgres (take 1 (drop 1 rows)) ≡ returns (message_6 ∷ [])))
get_history-returns_example =
    get_history-returns chat_postgres after_send (5 ∷ []) (1 ∷ []) 1 1 (message_6 ∷ [])
      chat_postgres-IsQueryOrder shows_history

deletes_6 :
    delete_message chat_postgres after_send (6 ∷ []) (2 ∷ [])
    ≡ (returns tt, record after_send { messages = row_20 ∷ [] })
unfolding delete_message find_message_by_id read_found_message find text_eq map_message get_string
    create_message_type Types.create codes Message.reconstitute message_or_throw enforce_sender
    delete_message_by_id clear_last_messages clear_last_message delete keep
deletes_6 = refl

twenty_is_not_six : text_eq (20 ∷ []) (6 ∷ []) ≡ false
unfolding text_eq
twenty_is_not_six = refl

delete_message-returns_example :
    ((m : Message) × (find_message_by_id chat_postgres after_send (6 ∷ []) ≡ returns (some m))
      × (m.sender_id ≡ 2 ∷ []))
    × (find_message_by_id chat_postgres (record after_send { messages = row_20 ∷ [] }) (6 ∷ [])
        ≡ returns none)
    × (any (λ (k : KeyRow). text_eq k.message_id (6 ∷ [])) [] ≡ false)
    × (any (λ (r : ReceiptRow). text_eq r.message_id (6 ∷ [])) [] ≡ false)
    × (find message_key (20 ∷ []) (row_20 ∷ []) ≡ find message_key (20 ∷ []) after_send.messages)
delete_message-returns_example =
    delete_message-returns chat_postgres after_send (record after_send { messages = row_20 ∷ [] })
      (6 ∷ []) (2 ∷ []) (20 ∷ []) deletes_6 twenty_is_not_six
