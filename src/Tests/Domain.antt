-- ===== src/Tests/Domain.antt =====
-- The domain types and the validation rules.
use chat_system.Prelude.{◌≤◌, ◌≡◌, ◌↔◌, [], ◌∷◌, Text, codes, length, arith}
use chat_system.Exceptions.{returns}
use chat_system.Domain.Types.{text_message_type}
use chat_system.Domain.Roles.{regular_user_role}
use chat_system.Domain.Tag.{validate_and_create, generate_from_login}
use chat_system.Domain.Tag.Shape.{
  IsTagOf, HasNoSeparator, validate_and_create_iff, validate_and_create-generate_from_login_iff,
}
use chat_system.Domain.User
use chat_system.Domain.User.{UserParams}
use chat_system.Domain.User.Laws as UserLaws
use chat_system.Domain.Session.{SessionParams}
use chat_system.Domain.Message.{MessageParams}

abbrev ann_params : UserParams
ann_params = record {
  id = codes "u";
  tag = record { value = codes "an#1000" };
  login = codes "an";
  password_hash = codes "h";
  public_key = [];
  role = regular_user_role;
  created_at = 1;
}

abbrev good_params : UserParams
good_params = record ann_params { login = codes "ann"; public_key = codes "k" }

abbrev early_session : SessionParams
early_session = record {
  id = codes "s";
  user_id = codes "u";
  token = codes "t";
  expires_at = 3;
  created_at = 9;
}

abbrev good_session : SessionParams
good_session = record early_session {
  token = codes "0b6f1c2e-0000-4000-8000-00000000000a";
  expires_at = 10;
}

abbrev note : MessageParams
note = record {
  id = codes "m";
  chat_id = codes "c";
  sender_id = codes "u";
  ciphertext = codes "x";
  type = text_message_type;
  created_at = 1;
}

abbrev tag_text : Text
tag_text = codes "ann#1234"

validate_and_create_iff_example :
    (validate_and_create tag_text ≡ returns (record { value = tag_text }))
    ↔ ((tag_text ≡ tag_text) × ((login : Text) × (suffix : Text) × IsTagOf login suffix tag_text))
validate_and_create_iff_example = validate_and_create_iff tag_text (record { value = tag_text })

validate_and_create-generate_from_login_iff_example :
    (validate_and_create (generate_from_login (codes "ann") 1234).value
      ≡ returns (generate_from_login (codes "ann") 1234))
    ↔ ((1 ≤ length (codes "ann")) × HasNoSeparator (codes "ann"))
validate_and_create-generate_from_login_iff_example =
    validate_and_create-generate_from_login_iff (codes "ann") 1234 (omega arith) (omega arith)

abbrev two_bytes : Text
two_bytes = 1 ∷ 2 ∷ []
