-- ===== src/Services/Auth/Accounts.antt =====
-- RegisterUser and Login, seen through the sessions and the users that they leave.
use chat_system.Prelude.{
  ℕ, ◌≡◌, refl, sym, ap, ◌∙◌, inl, inr, true, false, not, Option, none, some, Text, arith,
  Bool-cases,
}
use chat_system.Exceptions.{
  returns, returns-injective, continue, continue-returns, continue_pure-returns, then_branch,
  else_branch,
}
use chat_system.Domain.User
use chat_system.Domain.User.{User, set_password_hash}
use chat_system.Domain.User.Laws.{create_user_iff}
use chat_system.Domain.Session.{Session, is_expired}
use chat_system.Repositories.Rows.{find, taken}
use chat_system.Repositories.Rows.Laws.{
  find-append, find-singleton, find-taken_column, find-key, find-column,
}
use chat_system.Repositories.Rows.Updates.{find-update_rows}
use chat_system.Repositories.Validity.{IsValid}
use chat_system.Repositories.Store.{
  Postgres, Db, user_id, user_login, updated, stored_user, stored_session, find_by_id,
  find_by_login, add_user, update_user,
}
use chat_system.Services.Auth.{
  Encryption, Draws, user_params, generate_unique_tag, validate_token, open_session,
  handle_password_rehash, register_unless, register_user, login_as, login,
}
use chat_system.Services.Auth.Tokens.{write-returns, open_session-validate_token}

-- The row after an UPDATE that returned.
pub update_user-returns :
    (postgres : Postgres) (user old : User) (db new : Db)
    → find_by_id db user.id ≡ some old
    → update_user postgres user db ≡ (returns tt, new)
    → find_by_id new user.id ≡ some (updated user old)
unfolding update_user find_by_id
update_user-returns postgres user old db new found h =
    let there : taken user_id user.id db.users ≡ true =
      ap (λ x. taken user_id x db.users) (sym (find-column user_id user.id db.users old found))
      ∙ find-taken_column user_id user_id user.id db.users old found in
    let (_, same) = write-returns postgres _ _ _ db new (then_branch _ _ _ _ there h) in
    ap (λ d. find user_id user.id d.users) (sym same)
    ∙ find-update_rows user_id user.id (updated user) db.users old (λ q. refl) found

add_user-returns :
    (postgres : Postgres) (user : User) (db new : Db)
    → add_user postgres user db ≡ (returns tt, new)
    → find_by_id new user.id ≡ some (stored_user postgres user)
unfolding add_user find_by_id stored_user
add_user-returns postgres user db new h =
    let (free, same) = write-returns postgres _ _ _ db new h in
    ap (λ d. find user_id user.id d.users) (sym same)
    ∙ find-append user_id user.id db.users _ (ground arith)
    ∙ find-singleton user_id (stored_user postgres user)

module _ (postgres : Postgres) (encryption : Encryption) where
  -- A rehash leaves the user in place, with its id and its login.
  handle_password_rehash-returns :
      (draws : Draws) (user made : User) (password : Text) (db new : Db)
      → find_by_id db user.id ≡ some user
      → handle_password_rehash postgres encryption draws user password db ≡ (returns made, new)
      → (made.id ≡ user.id)
        × ((u : User) × (find_by_id new user.id ≡ some u) × (u.login ≡ user.login))
  unfolding handle_password_rehash set_password_hash
  handle_password_rehash-returns draws user made password db new found h =
      elim (Bool-cases (encryption.needs_rehash user.password_hash)) [
        | inl e ↦
            let (hash, _, rest) =
              continue_pure-returns (encryption.hash_password password draws.salt) db _ made new
                (then_branch _ _ _ _ e h) in
            let (_, db', done, last) =
              continue-returns (update_user postgres (set_password_hash user hash) db)
                (λ _ db. (returns (set_password_hash user hash), db)) made new rest in
            let same = returns-injective _ _ (ap (λ r. r.0) last) in
            (
              ap (λ u. u.id) (sym same),
              (
                updated (set_password_hash user hash) user,
                ap (λ d. find_by_id d user.id) (sym (ap (λ r. r.1) last))
                    ∙ update_user-returns postgres (set_password_hash user hash) user db db' found
                        done,
                refl,
              ),
            )
        | inr e ↦
            let last : (returns user, db) ≡ (returns made, new) = else_branch _ _ _ _ e h in
            let same = returns-injective _ _ (ap (λ r. r.0) last) in
            (
              ap (λ u. u.id) (sym same),
              (user, ap (λ d. find_by_id d user.id) (sym (ap (λ r. r.1) last)) ∙ found, refl),
            )
      ]

  login_as-returns :
      (draws : Draws) (o : Option User) (password : Text) (db new : Db) (session : Session)
      → login_as postgres encryption draws o password db ≡ (returns session, new)
      → (user : User) × (o ≡ some user)
        × (encryption.verify_password password user.password_hash ≡ true)
        × (continue
              (handle_password_rehash postgres encryption draws user password db)
              (λ user db. open_session postgres encryption draws user.id db)
            ≡ (returns session, new))
  unfolding login_as
  login_as-returns draws none password db new session h = cc
  login_as-returns draws (some user) password db new session h =
      elim (Bool-cases (encryption.verify_password password user.password_hash)) [
        | inl e ↦ (user, refl, e, else_branch _ _ _ _ (ap not e) h)
        | inr e ↦ let wrong = then_branch _ _ _ _ (ap not e) h in cc
      ]

  -- Login that returns a session, in tables that keep their constraints: the password was right
  -- for the user with the login, and until the stored session expires, ValidateToken turns its
  -- token into a user with that login.
  pub validate_token-login :
      (draws : Draws) (name password : Text) (now : ℕ) (db new : Db) (session : Session)
      → IsValid db
      → login postgres encryption draws name password db ≡ (returns session, new)
      → is_expired (stored_session postgres session) now ≡ false
      → ((user : User) × (find_by_login db name ≡ some user)
          × (encryption.verify_password password user.password_hash ≡ true))
        × ((u : User) × (validate_token session.token now new ≡ some u) × (u.login ≡ name))
  unfolding login find_by_login find_by_id
  validate_token-login draws name password now db new session valid h fresh =
      let (user, found, right, rest) =
        login_as-returns draws (find_by_login db name) password db new session h in
      let (made, db', rehash, opened) =
        continue-returns (handle_password_rehash postgres encryption draws user password db)
          (λ user db. open_session postgres encryption draws user.id db) session new rest in
      let by_id = find-key user_id user_login name db.users user valid.ids found in
      let (id, (u, there, login)) =
        handle_password_rehash-returns draws user made password db db' by_id rehash in
      (
        (user, found, right),
        (
          u,
          open_session-validate_token postgres encryption draws made.id now db' new session opened
                fresh
              ∙ ap (λ x. find_by_id db' x) id
              ∙ there,
          login ∙ find-column user_login name db.users user found,
        ),
      )

  register_unless-validate_token :
      (draws : Draws) (o : Option User) (name password public_key : Text) (now : ℕ) (db new : Db)
      (session : Session)
      → register_unless postgres encryption draws o name password public_key db
        ≡ (returns session, new)
      → is_expired (stored_session postgres session) now ≡ false
      → (o ≡ none)
        × ((u : User) × (validate_token session.token now new ≡ some u)
            × (u.login ≡ name)
            × (u.public_key ≡ public_key))
  unfolding register_unless User.reconstitute stored_user
  register_unless-validate_token draws (some u) name password public_key now db new session h
        fresh =
      cc
  register_unless-validate_token draws none name password public_key now db new session h fresh =
      let (tag, _, tagged) =
        continue_pure-returns (generate_unique_tag draws name db) db _ session new h in
      let (hash, _, hashed) =
        continue_pure-returns (encryption.hash_password password draws.salt) db _ session new
          tagged in
      let (user, made, rest) =
        continue_pure-returns (User.create (user_params draws tag name hash public_key)) db
          (λ new_user db.
            continue (add_user postgres new_user db)
              λ _ db. open_session postgres encryption draws new_user.id db)
          session new hashed in
      let (_, db', added, opened) =
        continue-returns (add_user postgres user db)
          (λ _ db. open_session postgres encryption draws user.id db) session new rest in
      let (_, built) = (create_user_iff (user_params draws tag name hash public_key) user).0 made in
      (
        refl,
        (
          stored_user postgres user,
          open_session-validate_token postgres encryption draws user.id now db' new session opened
                fresh
              ∙ add_user-returns postgres user db db' added,
          ap (λ x. x.login) built,
          ap (λ x. x.public_key) built,
        ),
      )

  -- RegisterUser that returns a session: the login was free, and until the stored session expires,
  -- ValidateToken turns its token into a user with the given login and public key.
  pub validate_token-register_user :
      (draws : Draws) (name password public_key : Text) (now : ℕ) (db new : Db) (session : Session)
      → register_user postgres encryption draws name password public_key db ≡ (returns session, new)
      → is_expired (stored_session postgres session) now ≡ false
      → (find_by_login db name ≡ none)
        × ((u : User) × (validate_token session.token now new ≡ some u)
            × (u.login ≡ name)
            × (u.public_key ≡ public_key))
  unfolding register_user
  validate_token-register_user draws name password public_key now db new session h fresh =
      register_unless-validate_token draws (find_by_login db name) name password public_key now db
        new session h fresh
