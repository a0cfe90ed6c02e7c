-- ===== src/Tests/Auth.antt =====
-- The two repositories and the authentication service, with a database that stores every row.
use chat_system.Prelude.{
  ℕ, ◌+◌, ◌<◌, ◌≡◌, refl, sym, ap, ◌∙◌, ◌≢◌, true, false, none, some, [], ◌∷◌, Text, codes, text_eq,
  text_eq_refl, arith, if◌then◌else◌,
}
use chat_system.Exceptions.{returns, returns-injective, runtime_error}
use chat_system.Domain.Tag
use chat_system.Domain.User
use chat_system.Domain.User.{User}
use chat_system.Domain.Roles.{regular_user_role}
use chat_system.Domain.Session
use chat_system.Domain.Session.{Session, is_expired}
use chat_system.Validation.Outcome.{empty_result, ok, add_error}
use chat_system.Validation.Rules.{error_if, and_rule, bound_rule}
use chat_system.Repositories.Rows.{keep, find, taken, delete, update_rows}
use chat_system.Repositories.Store.{
  Postgres, Db, stored_user, stored_session, write, find_by_id, find_by_login, find_by_tag,
  add_user, update_user, add_session, delete_expired,
}
use chat_system.Repositories.Validity.{IsValid, updates_user, after_call, after_call-IsValid}
use chat_system.Services.Auth.{
  Encryption, Draws, try_tag, try_tags, generate_unique_tag, validate_token, logout, open_session,
  handle_password_rehash, register_unless, register_user, login_as, login, change_password_of,
  change_password,
}
use chat_system.Services.Auth.Tokens.{validate_token-logout, validate_token-delete_expired}
use chat_system.Services.Auth.Tags.{drawn_tag, generate_unique_tag_first}
use chat_system.Services.Auth.Accounts.{validate_token-login, validate_token-register_user}
use chat_system.Services.Auth.Passwords.{verify_password-change_password}

abbrev pub plain_postgres : Postgres
plain_postgres = record {
  violation = runtime_error [];
  refuses_user = λ u. none;
  refuses_session = λ s. none;
  stored_time = λ t. t;
}

-- A hash is the password behind a salt of one byte; it is always made anew.
abbrev pub plain_encryption : Encryption
plain_encryption = record {
  hash_password = λ password salt. returns (7 ∷ password);
  verify_password = λ password hash. text_eq (7 ∷ password) hash;
  needs_rehash = λ hash. true;
}

plain_encryption-verifies :
    (password salt hash : Text)
    → plain_encryption.hash_password password salt ≡ returns hash
    → plain_encryption.verify_password password hash ≡ true
plain_encryption-verifies password salt hash h =
    ap (λ x. text_eq (7 ∷ password) x) (sym (returns-injective _ _ h)) ∙ text_eq_refl (7 ∷ password)

abbrev token_a : Text
token_a = codes "0b6f1c2e-0000-4000-8000-00000000000a"

abbrev pub draws_a : Draws
draws_a = record {
  tag_number = λ i. 1000 + i;
  salt = [];
  new_user_id = codes "u";
  new_session_id = codes "s";
  new_token = token_a;
  now = 5;
}

abbrev ann : User
ann = record {
  id = codes "u";
  tag = record { value = codes "ann#1000" };
  login = codes "ann";
  password_hash = 7 ∷ codes "pw";
  public_key = codes "k";
  role = regular_user_role;
  created_at = 5;
}

abbrev session_a : Session
session_a = record {
  id = codes "s";
  user_id = codes "u";
  token = token_a;
  expires_at = 86400000000005;
  created_at = 5;
}

abbrev empty_db : Db
empty_db = record { users = []; sessions = [] }

abbrev with_ann : Db
with_ann = record { users = ann ∷ []; sessions = [] }

abbrev with_session : Db
with_session = record { users = ann ∷ []; sessions = session_a ∷ [] }

registers_ann :
    register_user plain_postgres plain_encryption draws_a
      (codes "ann")
      (codes "pw")
      (codes "k")
      empty_db
    ≡ (returns session_a, with_session)
unfolding register_user register_unless generate_unique_tag try_tags try_tag open_session add_user
    add_session write stored_user stored_session find_by_login find_by_tag find taken codes text_eq
    Tag.generate_from_login User.create User.validate Session.create Session.validate ok add_error
    empty_result error_if and_rule bound_rule
registers_ann = refl

with_ann-IsValid : IsValid with_ann
unfolding taken
with_ann-IsValid = record {
  ids = (refl, tt);
  logins = (refl, tt);
  tags = (refl, tt);
  session_ids = tt;
  tokens = tt;
  owners = tt;
}

with_session-IsValid : IsValid with_session
unfolding taken codes text_eq
with_session-IsValid = record {
  ids = (refl, tt);
  logins = (refl, tt);
  tags = (refl, tt);
  session_ids = (refl, tt);
  tokens = (refl, tt);
  owners = (refl, tt);
}

logs_ann_in :
    login plain_postgres plain_encryption draws_a (codes "ann") (codes "pw") with_ann
    ≡ (returns session_a, with_session)
unfolding login login_as handle_password_rehash User.set_password_hash update_user update_rows
    delete keep open_session add_session write stored_session find_by_login find taken codes text_eq
    Session.create Session.validate ok add_error empty_result error_if and_rule bound_rule
logs_ann_in = refl

session_a-fresh : is_expired (stored_session plain_postgres session_a) 6 ≡ false
unfolding is_expired stored_session
session_a-fresh = refl

validate_token-register_user_example :
    (find_by_login empty_db (codes "ann") ≡ none)
    × ((u : User) × (validate_token token_a 6 with_session ≡ some u)
        × (u.login ≡ codes "ann")
        × (u.public_key ≡ codes "k"))
validate_token-register_user_example =
    validate_token-register_user plain_postgres plain_encryption draws_a (codes "ann") (codes "pw")
      (codes "k") 6 empty_db with_session session_a registers_ann session_a-fresh

validate_token-login_example :
    ((user : User) × (find_by_login with_ann (codes "ann") ≡ some user)
      × (text_eq (7 ∷ codes "pw") user.password_hash ≡ true))
    × ((u : User) × (validate_token token_a 6 with_session ≡ some u) × (u.login ≡ codes "ann"))
validate_token-login_example =
    validate_token-login plain_postgres plain_encryption draws_a (codes "ann") (codes "pw") 6
      with_ann with_session session_a with_ann-IsValid logs_ann_in session_a-fresh

validate_token-logout_example :
    validate_token token_a 6 (logout token_a with_session)
    ≡ (if text_eq token_a token_a then none else validate_token token_a 6 with_session)
validate_token-logout_example = validate_token-logout token_a token_a 6 with_session

validate_token-delete_expired_example :
    validate_token token_a 7 (delete_expired plain_postgres 6 with_session)
    ≡ validate_token token_a 7 with_session
validate_token-delete_expired_example =
    validate_token-delete_expired plain_postgres token_a 6 7 with_session with_session-IsValid refl
      (omega arith)

abbrev ann_again : User
ann_again = record ann { password_hash = 7 ∷ codes "new" }

abbrev with_ann_again : Db
with_ann_again = record { users = ann_again ∷ []; sessions = [] }

changes_password :
    change_password plain_postgres plain_encryption draws_a
      (codes "u")
      (codes "pw")
      (codes "new")
      with_ann
    ≡ (returns tt, with_ann_again)
unfolding change_password change_password_of User.set_password_hash update_user update_rows delete
    keep write find_by_id find taken codes text_eq
changes_password = refl

verify_password-change_password_example :
    (before after : User) × (find_by_id with_ann (codes "u") ≡ some before)
    × (find_by_id with_ann_again (codes "u") ≡ some after)
    × (text_eq (7 ∷ codes "pw") before.password_hash ≡ true)
    × (text_eq (7 ∷ codes "new") after.password_hash ≡ true)
    × (after.login ≡ before.login)
verify_password-change_password_example =
    verify_password-change_password plain_postgres plain_encryption draws_a (codes "u") (codes "pw")
      (codes "new") with_ann with_ann_again plain_encryption-verifies changes_password

after_call-IsValid_example : IsValid (after_call plain_postgres (updates_user ann_again) with_ann)
after_call-IsValid_example =
    after_call-IsValid plain_postgres (updates_user ann_again) with_ann with_ann-IsValid

-- The tag of the first pass is taken, that of the second is free.
drawn_tag_0-taken :
    (j : ℕ) → j < 1 → find_by_tag with_ann (drawn_tag draws_a (codes "ann") j) ≢ none
unfolding find_by_tag find codes text_eq Tag.generate_from_login
drawn_tag_0-taken j h e =
    let first : 0 ≡ j = omega arith in
    let wrong : some ann ≡ none =
      ap (λ n. find_by_tag with_ann (drawn_tag draws_a (codes "ann") n)) first ∙ e in
    cc

generate_unique_tag_first_example :
    generate_unique_tag draws_a (codes "ann") with_ann ≡ returns (drawn_tag draws_a (codes "ann") 1)
unfolding find_by_tag find codes text_eq Tag.generate_from_login
generate_unique_tag_first_example =
    generate_unique_tag_first draws_a (codes "ann") 1 with_ann (omega arith) drawn_tag_0-taken refl

-- Every draw is the same.
abbrev draws_b : Draws
draws_b = record draws_a { tag_number = λ i. 1000 }

drawn_tag-taken :
    (j : ℕ) → j < 100 → find_by_tag with_ann (drawn_tag draws_b (codes "ann") j) ≢ none
unfolding find_by_tag find codes text_eq Tag.generate_from_login
drawn_tag-taken j h e = cc
