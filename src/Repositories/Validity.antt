-- ===== src/Repositories/Validity.antt =====
-- The constraints of the tables, and the writing operations of the two repositories.
use chat_system.Prelude.{
  ℕ, ◌≡◌, refl, ◌∙◌, Bool, true, false, Option, none, some, List, [], ◌∷◌, ◌++◌, Text, text_eq,
  text_eq_iff, All, arith, if◌then◌else◌,
}
use chat_system.Exceptions.{Exception, Result, returns}
use chat_system.Domain.User.{User}
use chat_system.Domain.Session.{Session}
use chat_system.Repositories.Rows.{keep, taken, delete, Distinct}
use chat_system.Repositories.Rows.Laws.{taken-append, Distinct-keep, Distinct-append}
use chat_system.Repositories.Rows.Updates.{
  taken-update_rows, Distinct-update_rows, Distinct-update_rows_new,
}
use chat_system.Repositories.Store.{
  Postgres, Db, user_id, user_login, user_tag, session_id, session_token, updated, stored_user,
  stored_session, write, add_user, update_user, delete_by_id, add_session, delete_by_token,
  delete_all_for_user, delete_expired,
}

abbrev pub IsOwned : List User → Session → Type 0
IsOwned users s = taken user_id s.user_id users ≡ true

-- The primary keys, the unique columns and the foreign key.
pub record IsValid (db : Db) : Type 0 where
  pub ids : Distinct user_id db.users
  pub logins : Distinct user_login db.users
  pub tags : Distinct user_tag db.users
  pub session_ids : Distinct session_id db.sessions
  pub tokens : Distinct session_token db.sessions
  pub owners : All (IsOwned db.users) db.sessions

All-imp :
    {A : Type 0} (P Q : A → Type 0) (xs : List A) → ((x : A) → P x → Q x) → All P xs → All Q xs
All-imp P Q [] f h = tt
All-imp P Q (x ∷ xs) f (h, hs) = (f x h, All-imp P Q xs f hs)

All-append_one :
    {A : Type 0} (P : A → Type 0) (xs : List A) (x : A) → All P xs → P x → All P (xs ++ (x ∷ []))
All-append_one P [] x hs h = (h, tt)
All-append_one P (y ∷ xs) x (k, hs) h = (k, All-append_one P xs x hs h)

cons_if :
    {A : Type 0} (P : A → Type 0) (b : Bool) (x : A) (xs : List A)
    → (b ≡ true → P x)
    → All P xs
    → All P (if b then x ∷ xs else xs)
cons_if P true x xs h hs = (h refl, hs)
cons_if P false x xs h hs = hs

-- What stays has the property, where a row that stays has it.
All-keep :
    {A : Type 0} (P Q : A → Type 0) (test : A → Bool) (xs : List A)
    → ((x : A) → test x ≡ true → P x → Q x)
    → All P xs
    → All Q (keep test xs)
unfolding keep
All-keep P Q test [] f h = tt
All-keep P Q test (x ∷ xs) f (h, hs) =
    cons_if Q (test x) x (keep test xs) (λ e. f x e h) (All-keep P Q test xs f hs)

-- A user that is not deleted is still there.
taken-delete_other :
    (x y : Text) (users : List User)
    → text_eq y x ≡ false
    → taken user_id y users ≡ true
    → taken user_id y (delete user_id x users) ≡ true
unfolding taken delete keep
taken-delete_other x y [] other h = cc
taken-delete_other x y (u ∷ users) other h =
    ground
      (arith, taken-delete_other x y users, text_eq_iff u.id x, text_eq_iff u.id y, text_eq_iff y x)

module _ (postgres : Postgres) where
  write-IsValid :
      (refused : Option Exception) (violates : Bool) (new db : Db)
      → IsValid db
      → (violates ≡ false → IsValid new)
      → IsValid (write postgres refused violates new db).1
  unfolding write
  write-IsValid (some e) violates new db h k = h
  write-IsValid none true new db h k = h
  write-IsValid none false new db h k = k refl

  pub add_user-IsValid :
      (user : User) (db : Db) → IsValid db → IsValid (add_user postgres user db).1
  unfolding add_user stored_user
  add_user-IsValid user db h = write-IsValid _ _ _ db h λ free. record {
    ids = Distinct-append user_id db.users _ h.ids (ground arith);
    logins = Distinct-append user_login db.users _ h.logins (ground arith);
    tags = Distinct-append user_tag db.users _ h.tags (ground arith);
    session_ids = h.session_ids;
    tokens = h.tokens;
    owners =
        All-imp _ _ db.sessions
          (λ s k.
            ground
              (arith, taken-append user_id s.user_id db.users (stored_user postgres user ∷ [])))
          h.owners;
  }

  pub add_session-IsValid :
      (session : Session) (db : Db) → IsValid db → IsValid (add_session postgres session db).1
  unfolding add_session stored_session
  add_session-IsValid session db h = write-IsValid _ _ _ db h λ free. record {
    ids = h.ids;
    logins = h.logins;
    tags = h.tags;
    session_ids = Distinct-append session_id db.sessions _ h.session_ids (ground arith);
    tokens = Distinct-append session_token db.sessions _ h.tokens (ground arith);
    owners = All-append_one (IsOwned db.users) db.sessions _ h.owners (ground arith);
  }

  write_if :
      (found : Bool) (done : Result (Unit {0}) × Db) (db : Db)
      → IsValid db
      → IsValid done.1
      → IsValid (if found then done else (returns tt, db)).1
  write_if true done db h k = k
  write_if false done db h k = h

  pub update_user-IsValid :
      (user : User) (db : Db) → IsValid db → IsValid (update_user postgres user db).1
  unfolding update_user
  update_user-IsValid user db h = write_if _ _ db h (
      write-IsValid _ _ _ db h λ free. record {
        ids =
            Distinct-update_rows user_id user_id user.id (updated user) db.users (λ r. refl) h.ids;
        logins =
            Distinct-update_rows_new user_login user_id user.id user.login (updated user) db.users
              (λ r. refl) h.ids h.logins (ground arith);
        tags =
            Distinct-update_rows_new user_tag user_id user.id user.tag.value (updated user) db.users
              (λ r. refl) h.ids h.tags (ground arith);
        session_ids = h.session_ids;
        tokens = h.tokens;
        owners =
            All-imp _ _ db.sessions
              (λ s k.
                taken-update_rows user_id user_id user.id s.user_id (updated user) db.users
                  (λ r. refl)
                ∙ k)
              h.owners;
      })

pub delete_by_id-IsValid : (id : Text) (db : Db) → IsValid db → IsValid (delete_by_id id db)
unfolding delete_by_id delete
delete_by_id-IsValid id db h = record {
  ids = Distinct-keep user_id _ db.users h.ids;
  logins = Distinct-keep user_login _ db.users h.logins;
  tags = Distinct-keep user_tag _ db.users h.tags;
  session_ids = Distinct-keep session_id _ db.sessions h.session_ids;
  tokens = Distinct-keep session_token _ db.sessions h.tokens;
  owners =
      All-keep _ _ _ db.sessions
        (λ s other k. taken-delete_other id s.user_id db.users (ground arith) k) h.owners;
}

-- Deleting sessions.
pub keep-IsValid :
    (test : Session → Bool) (db : Db)
    → IsValid db
    → IsValid (record db { sessions = keep test db.sessions })
keep-IsValid test db h = record {
  ids = h.ids;
  logins = h.logins;
  tags = h.tags;
  session_ids = Distinct-keep session_id _ db.sessions h.session_ids;
  tokens = Distinct-keep session_token _ db.sessions h.tokens;
  owners = All-keep _ _ _ db.sessions (λ s other k. k) h.owners;
}

-- A call of a repository that writes.
pub data Call : Type 0 where
  adds_user updates_user : User → Call
  deletes_user : Text → Call
  adds_session : Session → Call
  deletes_token deletes_all_for : Text → Call
  deletes_expired : ℕ → Call

abbrev pub after_call : Postgres → Call → Db → Db
after_call postgres (adds_user user) db = (add_user postgres user db).1
after_call postgres (updates_user user) db = (update_user postgres user db).1
after_call postgres (deletes_user id) db = delete_by_id id db
after_call postgres (adds_session session) db = (add_session postgres session db).1
after_call postgres (deletes_token token) db = delete_by_token token db
after_call postgres (deletes_all_for id) db = delete_all_for_user id db
after_call postgres (deletes_expired now) db = delete_expired postgres now db

-- Every writing operation of the user and the session repository keeps the primary keys, the logins,
-- the tags and the tokens distinct, and every session with its user, whether it throws or not.
pub after_call-IsValid :
    (postgres : Postgres) (call : Call) (db : Db)
    → IsValid db
    → IsValid (after_call postgres call db)
unfolding delete_by_token delete_all_for_user delete_expired delete
after_call-IsValid postgres (adds_user user) db h = add_user-IsValid postgres user db h
after_call-IsValid postgres (updates_user user) db h = update_user-IsValid postgres user db h
after_call-IsValid postgres (deletes_user id) db h = delete_by_id-IsValid id db h
after_call-IsValid postgres (adds_session session) db h = add_session-IsValid postgres session db h
after_call-IsValid postgres (deletes_token token) db h = keep-IsValid _ db h
after_call-IsValid postgres (deletes_all_for id) db h = keep-IsValid _ db h
after_call-IsValid postgres (deletes_expired now) db h = keep-IsValid _ db h
