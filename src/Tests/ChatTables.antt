-- ===== src/Tests/ChatTables.antt =====
-- The constraints of the chat tables on concrete rows.
use chat_system.Prelude.{refl, [], ◌∷◌, text_eq}
use chat_system.Repositories.Rows.{taken, find}
use chat_system.Repositories.Where.{any}
use chat_system.Repositories.ChatValidity.{IsValid}
use chat_system.Repositories.ChatValidity.Calls.{
  adds_participant, after_chat_call, after_chat_call-IsValid,
}
use chat_system.Tests.Messages.{chat_postgres, two_in_chat}

two_in_chat-IsValid : IsValid two_in_chat
unfolding taken find any text_eq
two_in_chat-IsValid = record {
  chat_ids = (refl, tt);
  message_ids = (refl, tt);
  memberships = (refl, (refl, tt));
  key_pairs = tt;
  receipt_pairs = tt;
  members = refl;
  last_messages = refl;
  messages = refl;
  keys = refl;
  receipts = refl;
}

after_chat_call-IsValid_example :
    IsValid (after_chat_call chat_postgres (adds_participant 50 (5 ∷ []) (3 ∷ [])) two_in_chat)
after_chat_call-IsValid_example =
    after_chat_call-IsValid chat_postgres (adds_participant 50 (5 ∷ []) (3 ∷ [])) two_in_chat
      two_in_chat-IsValid
