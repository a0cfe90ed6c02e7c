-- ===== src/Repositories/ChatValidity/Insertions.antt =====
-- The operations that insert and update rows keep the constraints.
use chat_system.Prelude.{
  ◌≡◌, refl, sym, ◌∙◌, true, false, ◌&&◌, Option, none, some, List, [], ◌∷◌, ◌++◌, Text,
  text_eq_iff, arith,
}
use chat_system.Exceptions.{returns, bind-returns, returns-injective}
use chat_system.Domain.Chat.{Chat}
use chat_system.Domain.Types.{chat_type_string}
use chat_system.Repositories.Rows.{taken}
use chat_system.Repositories.Rows.Laws.{taken-append, Distinct-append}
use chat_system.Repositories.Where.{any}
use chat_system.Repositories.Where.Laws.{Fulfils-imp, Fulfils-append, Unique-append}
use chat_system.Repositories.ChatStore.{
  ChatRow, ParticipantRow, MessageRow, ChatDb, ChatPostgres, chat_key, message_key, is_membership,
}
use chat_system.Repositories.Chats.{insert_chat, insert_participant, insert_participants}
use chat_system.Repositories.ChatValidity.{same_membership, user_exists, last_exists, IsValid}

-- What exists stays when a table grows.
pub taken-more :
    {R : Type 0} (column : R → Text) (x : Text) (rows new : List R)
    → taken column x rows ≡ true
    → taken column x (rows ++ new) ≡ true
taken-more column x rows new h = taken-append column x rows new ∙ ground arith

pub last_exists-more :
    (db : ChatDb) (new : List MessageRow) (o : Option Text)
    → last_exists db o ≡ true
    → last_exists (record db { messages = db.messages ++ new }) o ≡ true
last_exists-more db new none h = refl
last_exists-more db new (some id) h = taken-more message_key id db.messages new h

module _ (postgres : ChatPostgres) where
  abbrev chat_row : Chat → ChatRow
  chat_row chat = record {
    id = chat.id;
    created_at = postgres.stored_time chat.created_at;
    type = chat_type_string chat.type;
    last_message_id = none;
    last_message_timestamp = none;
  }

  insert_chat-returns :
      (chat : Chat) (db new : ChatDb)
      → insert_chat postgres chat db ≡ returns new
      → (taken chat_key chat.id db.chats ≡ false)
        × (new ≡ record db { chats = db.chats ++ (chat_row chat ∷ []) })
  unfolding insert_chat
  insert_chat-returns chat db new h = ground arith

  pub insert_chat-IsValid :
      (chat : Chat) (db new : ChatDb)
      → IsValid db
      → insert_chat postgres chat db ≡ returns new
      → IsValid new
  insert_chat-IsValid chat db new v h =
      let (free, same) = insert_chat-returns chat db new h in
      rw same (record {
        chat_ids = Distinct-append chat_key db.chats (chat_row chat) v.chat_ids free;
        message_ids = v.message_ids;
        memberships = v.memberships;
        key_pairs = v.key_pairs;
        receipt_pairs = v.receipt_pairs;
        members =
            Fulfils-imp _ _ db.participants
              (λ p k. ground (arith, taken-more chat_key p.chat_id db.chats (chat_row chat ∷ [])))
              v.members;
        last_messages =
            Fulfils-append (λ (c : ChatRow). last_exists db c.last_message_id) db.chats
              (chat_row chat) v.last_messages refl;
        messages =
            Fulfils-imp _ _ db.messages
              (λ m k. ground (arith, taken-more chat_key m.chat_id db.chats (chat_row chat ∷ [])))
              v.messages;
        keys = v.keys;
        receipts = v.receipts;
      })

  insert_participant-shape :
      (chat_id added : Text) (db new : ChatDb)
      → insert_participant postgres chat_id added db ≡ returns new
      → (any (is_membership chat_id added) db.participants ≡ false)
        × (taken chat_key chat_id db.chats ≡ true)
        × (user_exists db added ≡ true)
        × (new ≡ record db {
          participants =
              db.participants
              ++ (record { chat_id = chat_id; user_id = added; left_at = none } ∷ []);
        })
  unfolding insert_participant
  insert_participant-shape chat_id added db new h = ground arith

  pub insert_participant-IsValid :
      (chat_id added : Text) (db new : ChatDb)
      → IsValid db
      → insert_participant postgres chat_id added db ≡ returns new
      → IsValid new
  insert_participant-IsValid chat_id added db new v h =
      let (free, chat, user, same) = insert_participant-shape chat_id added db new h in
      rw same (record {
        chat_ids = v.chat_ids;
        message_ids = v.message_ids;
        memberships =
            Unique-append same_membership (is_membership chat_id added) db.participants _
              (λ p e. ground (
                arith,
                text_eq_iff p.chat_id chat_id,
                text_eq_iff chat_id p.chat_id,
                text_eq_iff p.user_id added,
                text_eq_iff added p.user_id,
              ))
              v.memberships free;
        key_pairs = v.key_pairs;
        receipt_pairs = v.receipt_pairs;
        members =
            Fulfils-append
              (λ (p : ParticipantRow).
                taken chat_key p.chat_id db.chats && user_exists db p.user_id)
              db.participants _ v.members (ground arith);
        last_messages = v.last_messages;
        messages = v.messages;
        keys = v.keys;
        receipts = v.receipts;
      })

  pub insert_participants-IsValid :
      (chat_id : Text) (users : List Text) (db new : ChatDb)
      → IsValid db
      → insert_participants postgres chat_id users db ≡ returns new
      → IsValid new
  unfolding insert_participants
  insert_participants-IsValid chat_id [] db new v h =
      let same = returns-injective db new h in rw (sym same) v
  insert_participants-IsValid chat_id (added ∷ users) db new v h =
      let (next, one, rest) =
        bind-returns (insert_participant postgres chat_id added db)
          (insert_participants postgres chat_id users) new h in
      insert_participants-IsValid chat_id users next new
        (insert_participant-IsValid chat_id added db next v one) rest
