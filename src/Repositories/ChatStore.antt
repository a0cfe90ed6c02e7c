-- ===== src/Repositories/ChatStore.antt =====
-- The tables chats, chat_participants, messages, message_keys and message_receipts of
-- db/migrations, and the mappers that read a row of them:
-- Server/Source/Database/Mappers/chat_mapper.cpp and message_mapper.cpp. An identifier is a UUID in
-- its canonical spelling; other texts, which PostgreSQL refuses, are left out, and so are the
-- failures of a connection.
use chat_system.Prelude.{
  ℕ, Bool, true, false, ◌&&◌, Option, none, some, List, [], ◌∷◌, ◌++◌, Text, text_eq, length, ◌==◌,
  if◌then◌else◌,
}
use mathlib.Core.List.{Perm}
use chat_system.Exceptions.{Exception, Result, returns, throws, ◌>>=◌}
use chat_system.Domain.Message
use chat_system.Domain.Message.{Message}
use chat_system.Domain.Chat
use chat_system.Domain.Chat.{Chat}
use chat_system.Domain.Types.{create_message_type, create_chat_type}
use chat_system.Repositories.Store.{Db}
use chat_system.Repositories.Where.{first}

pub record ChatRow : Type 0 where
  pub id : Text
  pub created_at : ℕ
  pub type : Text
  pub last_message_id : Option Text
  pub last_message_timestamp : Option ℕ

pub record ParticipantRow : Type 0 where
  pub chat_id : Text
  pub user_id : Text
  pub left_at : Option ℕ

-- The sender is NULL when the user was deleted.
pub record MessageRow : Type 0 where
  pub id : Text
  pub chat_id : Text
  pub sender_id : Option Text
  pub ciphertext : Text
  pub type : Text
  pub created_at : ℕ

pub record KeyRow : Type 0 where
  pub message_id : Text
  pub user_id : Text
  pub encrypted_key : Text

pub record ReceiptRow : Type 0 where
  pub message_id : Text
  pub user_id : Text
  pub delivered_at : Option ℕ
  pub read_at : Option ℕ

pub record ChatDb : Type 0 where
  pub accounts : Db
  pub chats : List ChatRow
  pub participants : List ParticipantRow
  pub messages : List MessageRow
  pub keys : List KeyRow
  pub receipts : List ReceiptRow

-- What PostgreSQL and its driver decide: the exceptions for a violated constraint, for a NULL that
-- is read as a text and for a negative count, whether a row is refused for the size or the encoding
-- of a column, what a time column keeps, and the order in which rows come that no ORDER BY tells
-- apart, which may be another one for each LIMIT and OFFSET.
pub record ChatPostgres : Type 0 where
  pub violation : Exception
  pub null_value : Exception
  pub negative_count : Exception
  pub refuses_chat : Chat → Option Exception
  pub refuses_message : Message → List (Text × Text) → Option Exception
  pub stored_time : ℕ → ℕ
  pub users_order : List Text → List Text
  pub chats_order : (limit offset : ℕ) → List ChatRow → List ChatRow
  pub messages_order : (limit offset : ℕ) → List MessageRow → List MessageRow

-- PostgreSQL returns the rows that it finds, each once.
pub record IsQueryOrder (postgres : ChatPostgres) : Type 0 where
  pub users : (rows : List Text) → Perm (postgres.users_order rows) rows
  pub chats :
      (limit offset : ℕ) (rows : List ChatRow) → Perm (postgres.chats_order limit offset rows) rows
  pub messages :
      (limit offset : ℕ) (rows : List MessageRow)
      → Perm (postgres.messages_order limit offset rows) rows

abbrev pub chat_key : ChatRow → Text
chat_key c = c.id

abbrev pub message_key : MessageRow → Text
message_key m = m.id

-- WHERE chat_id = $1 AND user_id = $2.
abbrev pub is_membership : Text → Text → ParticipantRow → Bool
is_membership chat_id user_id p = text_eq p.chat_id chat_id && text_eq p.user_id user_id

-- WHERE message_id = $1 AND user_id = $2, of a key and of a receipt.
abbrev pub is_key_of : Text → Text → KeyRow → Bool
is_key_of message_id user_id k = text_eq k.message_id message_id && text_eq k.user_id user_id

abbrev pub is_receipt_of : Text → Text → ReceiptRow → Bool
is_receipt_of message_id user_id r = text_eq r.message_id message_id && text_eq r.user_id user_id

abbrev pub is_set : Option ℕ → Bool
is_set none = false
is_set (some t) = true

-- STRING_AGG(column, ','): NULL of no rows.
unfoldable pub join_texts : Text → List Text → Text
join_texts t [] = t
join_texts t (u ∷ us) = t ++ (44 ∷ join_texts u us)

unfoldable pub string_agg : List Text → Option Text
unfolding join_texts
string_agg [] = none
string_agg (t ∷ ts) = some (join_texts t ts)

-- The loop of std::getline with the comma over the stream, behind the part of a token read so far.
-- At the end of the stream std::getline fails if it read nothing.
unfoldable pub split_csv : Text → Text → List Text
split_csv token [] = if length token == 0 then [] else token ∷ []
split_csv token (c ∷ stream) =
    let rest = split_csv (token ++ (c ∷ [])) stream in
    let next = split_csv [] stream in if c == 44 then token ∷ next else rest

-- LEFT JOIN messages m ON c.last_message_id = m.id.
unfoldable pub joined_message : ChatDb → Option Text → Option MessageRow
joined_message db none = none
joined_message db (some id) = first (λ m. text_eq (message_key m) id) db.messages

module _ (postgres : ChatPostgres) where
  -- IRow::GetString.
  unfoldable pub get_string : Option Text → Result Text
  get_string none = throws postgres.null_value
  get_string (some t) = returns t

  -- MessageMapper::Map.
  unfoldable pub map_message : MessageRow → Result Message
  unfolding get_string
  map_message row = get_string row.sender_id >>= λ sender_id.
      create_message_type row.type >>= λ type. returns (
        Message.reconstitute (record {
          id = row.id;
          chat_id = row.chat_id;
          sender_id = sender_id;
          ciphertext = row.ciphertext;
          type = type;
          created_at = row.created_at;
        }))

  -- ForEach with MessageMapper::Map and push_back.
  unfoldable pub map_messages : List MessageRow → Result (List Message)
  unfolding map_message
  map_messages [] = returns []
  map_messages (row ∷ rows) = map_message row >>= λ m. map_messages rows >>= λ ms. returns (m ∷ ms)

  -- The message part of ChatMapper::Map; it takes the chat's id from the row of the chat.
  unfoldable pub map_last_message : Text → Option MessageRow → Result (Option Message)
  unfolding map_message
  map_last_message chat_id none = returns none
  map_last_message chat_id (some row) =
      map_message (record row { chat_id = chat_id }) >>= λ m. returns (some m)

  -- ChatMapper::Map.
  unfoldable pub map_chat : ChatDb → ChatRow → List Text → Result Chat
  unfolding joined_message map_last_message
  map_chat db row participants =
      map_last_message row.id (joined_message db row.last_message_id) >>= λ last_message.
      create_chat_type row.type >>= λ type. returns (
        Chat.reconstitute (record {
          id = row.id;
          created_at = row.created_at;
          type = type;
          last_message = last_message;
          participant_ids = participants;
        }))
