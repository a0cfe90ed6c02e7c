-- ===== src/Services/Auth/Passwords.antt =====
-- ChangePassword: which password is right before and after it.
use chat_system.Prelude.{
  ◌≡◌, refl, sym, ap, ◌∙◌, inl, inr, true, not, Option, none, some, Text, Bool-cases,
}
use chat_system.Exceptions.{returns, continue_pure-returns, then_branch, else_branch}
use chat_system.Domain.User.{User, set_password_hash}
use chat_system.Repositories.Rows.{find}
use chat_system.Repositories.Rows.Laws.{find-column}
use chat_system.Repositories.Store.{Postgres, Db, user_id, updated, find_by_id, update_user}
use chat_system.Services.Auth.{Encryption, Draws, change_password_of, change_password}
use chat_system.Services.Auth.Accounts.{update_user-returns}

module _ (postgres : Postgres) (encryption : Encryption) where
  change_password_of-returns :
      (draws : Draws) (o : Option User) (old_password new_password : Text) (db new : Db)
      → change_password_of postgres encryption draws o old_password new_password db
        ≡ (returns tt, new)
      → (user : User) × (o ≡ some user)
        × (encryption.verify_password old_password user.password_hash ≡ true)
        × ((hash : Text) × (encryption.hash_password new_password draws.salt ≡ returns hash)
            × (update_user postgres (set_password_hash user hash) db ≡ (returns tt, new)))
  unfolding change_password_of
  change_password_of-returns draws none old_password new_password db new h = cc
  change_password_of-returns draws (some user) old_password new_password db new h =
      elim (Bool-cases (encryption.verify_password old_password user.password_hash)) [
        | inl e ↦ (
          user,
          refl,
          e,
          continue_pure-returns (encryption.hash_password new_password draws.salt) db
              (λ hash db. update_user postgres (set_password_hash user hash) db) tt new
              (else_branch _ _ _ _ (ap not e) h),
        )
        | inr e ↦ let wrong = then_branch _ _ _ _ (ap not e) h in cc
      ]

  -- ChangePassword that returns, where a hash verifies the password that it was made of: the old
  -- password was right for the user, and now the new one is. The login stays.
  pub verify_password-change_password :
      (draws : Draws) (id old_password new_password : Text) (db new : Db)
      → ((password salt hash : Text)
          → encryption.hash_password password salt ≡ returns hash
          → encryption.verify_password password hash ≡ true)
      → change_password postgres encryption draws id old_password new_password db
        ≡ (returns tt, new)
      → (before after : User) × (find_by_id db id ≡ some before)
        × (find_by_id new id ≡ some after)
        × (encryption.verify_password old_password before.password_hash ≡ true)
        × (encryption.verify_password new_password after.password_hash ≡ true)
        × (after.login ≡ before.login)
  unfolding change_password set_password_hash find_by_id
  verify_password-change_password draws id old_password new_password db new verifies h =
      let (user, found, right, (hash, hashed, done)) =
        change_password_of-returns draws (find_by_id db id) old_password new_password db new h in
      let same = find-column user_id id db.users user found in
      (
        user,
        updated (set_password_hash user hash) user,
        found,
        ap (λ x. find user_id x new.users) (sym same)
            ∙ update_user-returns postgres (set_password_hash user hash) user db new
                (ap (λ x. find user_id x db.users) same ∙ found) done,
        right,
        verifies new_password draws.salt hash hashed,
        refl,
      )
