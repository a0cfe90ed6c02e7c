-- ===== src/Services/Auth.antt =====
-- Server/Source/Services/auth_service.h, over the two repositories. The clock, the random numbers
-- and the UUIDs that a call draws are arguments; the encryption service is a parameter.
pub mod Tokens
pub mod Tags
pub mod Accounts
pub mod Passwords
use chat_system.Prelude.{
  ℕ, zero, suc, ◌+◌, ◌-◌, ◌*◌, ◌/◌, ◌%◌, ◌^◌, ◌≤◌, ◌<◌, min, ◌≡◌, refl, sym, ap, ◌∙◌, ◌≢◌, ◌↔◌, ◌⊎◌,
  inl, inr, Bool, true, false, not, ◌&&◌, ◌||◌, Option, none, some, List, [], ◌∷◌, ◌++◌, map,
  append-nil, append_assoc, String, Text, codes, text_eq, text_eq_iff, text_eq_refl, length, set,
  take, drop, replicate, All, length-append, length-set, length-take, length-replicate, arith, ltb,
  leb, ◌==◌, if◌then◌else◌, Bool-cases, Option-cases, ltb→lt, lt→ltb, leb→le, ==_iff, tests,
}
use chat_system.Exceptions.{
  Exception, Result, returns, throws, invalid_argument, runtime_error, continue,
}
use chat_system.Domain.Tag
use chat_system.Domain.Tag.{UserTag}
use chat_system.Domain.Roles.{regular_user_role}
use chat_system.Domain.User
use chat_system.Domain.User.{User, UserParams, set_password_hash}
use chat_system.Domain.Session
use chat_system.Domain.Session.{Session, SessionParams, is_expired}
use chat_system.Repositories.Store.{
  Postgres, Db, find_by_id, find_by_login, find_by_tag, find_by_token, add_user, update_user,
  add_session, delete_by_token,
}

-- IServerEncryptionService. HashPassword draws a salt, which is an argument, and may throw.
pub record Encryption : Type 0 where
  pub hash_password : Text → Text → Result Text
  pub verify_password : Text → Text → Bool
  pub needs_rehash : Text → Bool

-- What one call draws: the numbers of the tags that it tries, a salt, the UUIDs, and the clock.
pub record Draws : Type 0 where
  pub tag_number : ℕ → ℕ
  pub salt : Text
  pub new_user_id : Text
  pub new_session_id : Text
  pub new_token : Text
  pub now : ℕ

-- 24 hours of the clock's nanoseconds.
abbrev pub session_duration : ℕ
session_duration = 24 * 3600 * 1000000000

abbrev pub max_retries : ℕ
max_retries = 100

-- The test of the loop: the tag is returned, or the loop goes on.
unfoldable pub try_tag : Option User → UserTag → Result UserTag → Result UserTag
try_tag none tag rest = returns tag
try_tag (some u) tag rest = rest

-- The loop of GenerateUniqueTag from its pass number i on.
unfoldable pub try_tags : Draws → Text → ℕ → ℕ → Db → Result UserTag
try_tags draws login i zero db =
    throws (runtime_error (codes "Failed to generate unique tag after 100 attempts"))
try_tags draws login i (suc left) db =
    let rest = try_tags draws login (suc i) left db in
    let tag = Tag.generate_from_login login (draws.tag_number i) in
    try_tag (find_by_tag db tag) tag rest

unfoldable pub generate_unique_tag : Draws → Text → Db → Result UserTag
generate_unique_tag draws login db = try_tags draws login 0 max_retries db

-- ValidateToken, for what FindByToken returned.
unfoldable pub check_session : Option Session → ℕ → Db → Option User
check_session none now db = none
check_session (some session) now db =
    if is_expired session now then none else find_by_id db session.user_id

-- ValidateToken, at the time now.
unfoldable pub validate_token : Text → ℕ → Db → Option User
validate_token token now db = check_session (find_by_token db token) now db

unfoldable pub logout : Text → Db → Db
logout token db = delete_by_token token db

abbrev pub session_params : Draws → Text → SessionParams
session_params draws user_id = record {
  id = draws.new_session_id;
  user_id = user_id;
  token = draws.new_token;
  expires_at = draws.now + session_duration;
  created_at = draws.now;
}

abbrev pub user_params : Draws → UserTag → Text → Text → Text → UserParams
user_params draws tag login password_hash public_key = record {
  id = draws.new_user_id;
  tag = tag;
  login = login;
  password_hash = password_hash;
  public_key = public_key;
  role = regular_user_role;
  created_at = draws.now;
}

module _ (postgres : Postgres) (encryption : Encryption) where
  -- The end of RegisterUser and of Login: the new session, stored.
  unfoldable pub open_session : Draws → Text → Db → Result Session × Db
  open_session draws user_id db =
      continue (Session.create (session_params draws user_id), db)
        λ session db. continue (add_session postgres session db) λ _ db. (returns session, db)

  unfoldable pub handle_password_rehash : Draws → User → Text → Db → Result User × Db
  handle_password_rehash draws user password db =
      if encryption.needs_rehash user.password_hash
      then (continue (encryption.hash_password password draws.salt, db)
          λ hash db.
            continue (update_user postgres (set_password_hash user hash) db)
              λ _ db. (returns (set_password_hash user hash), db))
      else (returns user, db)

  -- RegisterUser, for what FindByLogin returned.
  unfoldable pub register_unless :
      Draws → Option User → Text → Text → Text → Db → Result Session × Db
  register_unless draws (some u) login password public_key db =
      (throws (invalid_argument (codes "Login already taken")), db)
  register_unless draws none login password public_key db =
      continue (generate_unique_tag draws login db, db)
        λ tag db.
          continue (encryption.hash_password password draws.salt, db)
            λ password_hash db.
              continue (User.create (user_params draws tag login password_hash public_key), db)
                λ new_user db.
                  continue (add_user postgres new_user db) λ _ db. open_session draws new_user.id db

  unfoldable pub register_user : Draws → Text → Text → Text → Db → Result Session × Db
  register_user draws login password public_key db =
      register_unless draws (find_by_login db login) login password public_key db

  -- Login, for what FindByLogin returned.
  unfoldable pub login_as : Draws → Option User → Text → Db → Result Session × Db
  login_as draws none password db = (throws (invalid_argument (codes "Invalid credentials")), db)
  login_as draws (some user) password db =
      if not (encryption.verify_password password user.password_hash)
      then (throws (runtime_error (codes "Invalid credentials")), db)
      else continue (handle_password_rehash draws user password db)
          λ user db. open_session draws user.id db

  unfoldable pub login : Draws → Text → Text → Db → Result Session × Db
  login draws name password db = login_as draws (find_by_login db name) password db

  -- ChangePassword, for what FindById returned.
  unfoldable pub change_password_of :
      Draws → Option User → Text → Text → Db → Result (Unit {0}) × Db
  change_password_of draws none old_password new_password db =
      (throws (invalid_argument (codes "User not found")), db)
  change_password_of draws (some user) old_password new_password db =
      if not (encryption.verify_password old_password user.password_hash)
      then (throws (invalid_argument (codes "Invalid current password")), db)
      else continue (encryption.hash_password new_password draws.salt, db)
          λ hash db. update_user postgres (set_password_hash user hash) db

  unfoldable pub change_password : Draws → Text → Text → Text → Db → Result (Unit {0}) × Db
  change_password draws user_id old_password new_password db =
      change_password_of draws (find_by_id db user_id) old_password new_password db
