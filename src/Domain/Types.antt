-- ===== src/Domain/Types.antt =====
-- Core/Include/TypeLibHelpers/domain_class_type_variant_factory.h, and the chat and message types.
use chat_system.Prelude.{
  ◌≡◌, ◌↔◌, List, [], ◌∷◌, ◌++◌, Text, codes, text_eq, text_eq_iff, arith, if◌then◌else◌,
}
use chat_system.Exceptions.{Result, returns, throws, invalid_argument}

module _ {A : Type 0} where
  -- The fold over the alternatives of the variant, each with its TypeString().
  unfoldable pub create : List (Text × A) → Text → Result A
  create [] type_str = throws (
      invalid_argument
        (codes "Unable to recognize domain class type: '" ++ (type_str ++ codes "'")))
  create ((name, a) ∷ alternatives) type_str =
      if text_eq name type_str then returns a else create alternatives type_str

pub data MessageTypeVariant : Type 0 where
  text_message_type system_message_type : MessageTypeVariant

unfoldable pub message_type_string : MessageTypeVariant → Text
message_type_string text_message_type = codes "TEXT"
message_type_string system_message_type = codes "SYSTEM"

unfoldable pub create_message_type : Text → Result MessageTypeVariant
unfolding create
create_message_type type_str =
    create ((codes "TEXT", text_message_type) ∷ (codes "SYSTEM", system_message_type) ∷ []) type_str

pub data ChatTypeVariant : Type 0 where
  direct_chat_type : ChatTypeVariant

unfoldable pub chat_type_string : ChatTypeVariant → Text
chat_type_string direct_chat_type = codes "DIRECT"

unfoldable pub create_chat_type : Text → Result ChatTypeVariant
unfolding create
create_chat_type type_str = create ((codes "DIRECT", direct_chat_type) ∷ []) type_str

-- The type that is written to the database is read back, and nothing else is read.
pub create_message_type-message_type_string :
    (type_str : Text) (t : MessageTypeVariant)
    → (create_message_type type_str ≡ returns t) ↔ (type_str ≡ message_type_string t)
unfolding create_message_type message_type_string codes
create_message_type-message_type_string type_str text_message_type =
    ground (arith, text_eq_iff (codes "TEXT") type_str, text_eq_iff (codes "SYSTEM") type_str)
create_message_type-message_type_string type_str system_message_type =
    ground (arith, text_eq_iff (codes "TEXT") type_str, text_eq_iff (codes "SYSTEM") type_str)
