-- ===== src/Repositories/Store.antt =====
-- Server/Source/Database/Postgres/Repositories/pqxx_user_repository.cpp and
-- pqxx_session_repository.cpp, on the tables users and sessions of db/migrations/V1__Init.sql.
-- Each operation runs in one Transaction, so it takes effect as a whole or not at all. Not shown:
-- the mappers, which read back what was written, and the failures of a connection.
use chat_system.Prelude.{
  ℕ, Bool, true, false, not, ◌||◌, Option, none, some, List, [], ◌∷◌, ◌++◌, Text, text_eq, leb,
  if◌then◌else◌,
}
use chat_system.Exceptions.{Exception, Result, returns, throws}
use chat_system.Domain.User.{User}
use chat_system.Domain.Session.{Session}
use chat_system.Domain.Tag.{UserTag}
use chat_system.Repositories.Rows.{keep, find, taken, delete, update_rows}

-- What PostgreSQL and its driver decide: the exception for a violated constraint, whether a row is
-- refused for the size or the encoding of a column, and what a time column keeps of a time point.
pub record Postgres : Type 0 where
  pub violation : Exception
  pub refuses_user : User → Option Exception
  pub refuses_session : Session → Option Exception
  pub stored_time : ℕ → ℕ

pub record Db : Type 0 where
  pub users : List User
  pub sessions : List Session

abbrev pub user_id : User → Text
user_id u = u.id

abbrev pub user_login : User → Text
user_login u = u.login

abbrev pub user_tag : User → Text
user_tag u = u.tag.value

abbrev pub session_id : Session → Text
session_id s = s.id

abbrev pub session_user : Session → Text
session_user s = s.user_id

abbrev pub session_token : Session → Text
session_token s = s.token

unfoldable pub find_by_id : Db → Text → Option User
find_by_id db id = find user_id id db.users

unfoldable pub find_by_login : Db → Text → Option User
find_by_login db login = find user_login login db.users

unfoldable pub find_by_tag : Db → UserTag → Option User
find_by_tag db tag = find user_tag tag.value db.users

unfoldable pub find_by_token : Db → Text → Option Session
find_by_token db token = find session_token token db.sessions

unfoldable pub find_by_user_id : Db → Text → List Session
find_by_user_id db id = keep (λ s. text_eq (session_user s) id) db.sessions

-- The fields that the UPDATE statement sets.
abbrev pub updated : User → User → User
updated new old = record old {
  login = new.login;
  tag = new.tag;
  password_hash = new.password_hash;
  public_key = new.public_key;
  role = new.role;
}

-- The user's sessions go with it: ON DELETE CASCADE.
unfoldable pub delete_by_id : Text → Db → Db
delete_by_id id db = record db {
  users = delete user_id id db.users;
  sessions = delete session_user id db.sessions;
}

unfoldable pub delete_by_token : Text → Db → Db
delete_by_token token db = record db { sessions = delete session_token token db.sessions }

unfoldable pub delete_all_for_user : Text → Db → Db
delete_all_for_user id db = record db { sessions = delete session_user id db.sessions }

module _ (postgres : Postgres) where
  unfoldable pub stored_user : User → User
  stored_user u = record u { created_at = postgres.stored_time u.created_at }

  unfoldable pub stored_session : Session → Session
  stored_session s = record s {
    created_at = postgres.stored_time s.created_at;
    expires_at = postgres.stored_time s.expires_at;
  }

  -- A statement that writes, unless its row is refused or it violates a constraint.
  unfoldable pub write : Option Exception → Bool → Db → Db → Result (Unit {0}) × Db
  write (some e) violates new db = (throws e, db)
  write none true new db = (throws postgres.violation, db)
  write none false new db = (returns tt, new)

  unfoldable pub add_user : User → Db → Result (Unit {0}) × Db
  unfolding stored_user
  add_user user db =
      write (postgres.refuses_user user)
        (taken user_id user.id db.users
          || (taken user_login user.login db.users || taken user_tag user.tag.value db.users))
        (record db { users = db.users ++ (stored_user user ∷ []) }) db

  -- The constraints see the other rows; no row with the id, nothing to write.
  unfoldable pub update_user : User → Db → Result (Unit {0}) × Db
  update_user user db =
      if taken user_id user.id db.users
      then write (postgres.refuses_user user)
          (taken user_login user.login (delete user_id user.id db.users)
            || taken user_tag user.tag.value (delete user_id user.id db.users))
          (record db { users = update_rows user_id user.id (updated user) db.users }) db
      else (returns tt, db)

  unfoldable pub add_session : Session → Db → Result (Unit {0}) × Db
  unfolding stored_session
  add_session session db =
      write (postgres.refuses_session session)
        (not (taken user_id session.user_id db.users)
          || (taken session_id session.id db.sessions
              || taken session_token session.token db.sessions))
        (record db { sessions = db.sessions ++ (stored_session session ∷ []) }) db

  unfoldable pub delete_expired : ℕ → Db → Db
  delete_expired now db = record db {
    sessions = keep (λ s. not (leb s.expires_at (postgres.stored_time now))) db.sessions;
  }
