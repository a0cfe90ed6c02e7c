-- ===== src/Services/Auth/Tokens.antt =====
-- What a session is good for: ValidateToken after Login, RegisterUser, Logout and DeleteExpired.
use chat_system.Prelude.{
  ℕ, ◌≤◌, ◌≡◌, refl, sym, ap, ◌∙◌, Bool, true, false, not, Option, none, some, Text, text_eq, arith,
  leb, if◌then◌else◌,
}
use chat_system.Exceptions.{Exception, returns, continue, continue-returns, continue_pure-returns}
use chat_system.Domain.Session
use chat_system.Domain.Session.Laws.{create_session_iff}
use chat_system.Domain.Session.{Session, is_expired}
use chat_system.Repositories.Rows.{find}
use chat_system.Repositories.Rows.Laws.{find-append, find-singleton}
use chat_system.Repositories.Rows.Updates.{find-delete, find-keep, if_kept}
use chat_system.Repositories.Validity.{IsValid}
use chat_system.Repositories.Store.{
  Postgres, Db, user_id, session_token, stored_session, write, find_by_id, find_by_token,
  add_session, delete_by_token, delete_expired,
}
use chat_system.Services.Auth.{
  Encryption, Draws, session_params, check_session, validate_token, logout, open_session,
}

validate_token-found :
    (token : Text) (now : ℕ) (db : Db) (session : Session)
    → find_by_token db token ≡ some session
    → is_expired session now ≡ false
    → validate_token token now db ≡ find_by_id db session.user_id
unfolding validate_token check_session
validate_token-found token now db session found fresh = simp (found, fresh) refl

check_session-users :
    (o : Option Session) (now : ℕ) (db new : Db)
    → db.users ≡ new.users
    → check_session o now new ≡ check_session o now db
unfolding check_session find_by_id
check_session-users none now db new h = refl
check_session-users (some session) now db new h = simp h refl

check_session-if :
    (b : Bool) (o : Option Session) (now : ℕ) (db new : Db)
    → db.users ≡ new.users
    → check_session (if b then none else o) now new ≡ (if b then none else check_session o now db)
unfolding check_session
check_session-if true o now db new h = refl
check_session-if false o now db new h = check_session-users o now db new h

-- After Logout, ValidateToken refuses the token at every time, and answers for every other token
-- as it did before.
pub validate_token-logout :
    (token other : Text) (now : ℕ) (db : Db)
    → validate_token other now (logout token db)
      ≡ (if text_eq other token then none else validate_token other now db)
unfolding validate_token logout delete_by_token find_by_token
validate_token-logout token other now db =
    ap (λ o. check_session o now (logout token db))
      (find-delete session_token token other db.sessions)
    ∙ check_session-if (text_eq other token) (find_by_token db other) now db (logout token db) refl

check_session-unexpired :
    (o : Option Session) (now later : ℕ) (db new : Db)
    → db.users ≡ new.users
    → now ≤ later
    → check_session (if_kept (λ s. not (leb s.expires_at now)) o) later new
      ≡ check_session o later db
unfolding check_session is_expired find_by_id
check_session-unexpired none now later db new h order = refl
check_session-unexpired (some session) now later db new h order = ground (arith, h)

-- In tables that keep their constraints, DeleteExpired at a time that is stored exactly takes away
-- no session that counts: from that time on, ValidateToken answers as it would have done.
pub validate_token-delete_expired :
    (postgres : Postgres) (token : Text) (now later : ℕ) (db : Db)
    → IsValid db
    → postgres.stored_time now ≡ now
    → now ≤ later
    → validate_token token later (delete_expired postgres now db) ≡ validate_token token later db
unfolding validate_token delete_expired find_by_token
validate_token-delete_expired postgres token now later db h exact order =
    ap (λ o. check_session o later (delete_expired postgres now db))
      (find-keep session_token _ token db.sessions h.tokens)
    ∙ check_session-unexpired (find_by_token db token) (postgres.stored_time now) later db
        (delete_expired postgres now db) refl (rw exact order)

-- A write that returns violates nothing, and leaves the new tables.
pub write-returns :
    (postgres : Postgres) (refused : Option Exception) (violates : Bool) (made db new : Db)
    → write postgres refused violates made db ≡ (returns tt, new)
    → (violates ≡ false) × (made ≡ new)
unfolding write
write-returns postgres (some e) violates made db new h = cc
write-returns postgres none true made db new h = cc
write-returns postgres none false made db new h = (refl, ap (λ r. r.1) h)

add_session-token :
    (postgres : Postgres) (session : Session) (db new : Db)
    → add_session postgres session db ≡ (returns tt, new)
    → (db.users ≡ new.users)
      × (find_by_token new session.token ≡ some (stored_session postgres session))
unfolding add_session find_by_token stored_session
add_session-token postgres session db new h =
    let (free, same) = write-returns postgres _ _ _ db new h in
    (
      ap (λ d. d.users) same,
      ap (λ d. find session_token session.token d.sessions) (sym same)
          ∙ find-append session_token session.token db.sessions _ (ground arith)
          ∙ find-singleton session_token (stored_session postgres session),
    )

store_session-returns :
    (postgres : Postgres) (made session : Session) (db new : Db)
    → continue (add_session postgres made db) (λ _ db. (returns made, db)) ≡ (returns session, new)
    → (made ≡ session) × (add_session postgres session db ≡ (returns tt, new))
store_session-returns postgres made session db new h =
    let (done, db', add_eq, last) =
      continue-returns (add_session postgres made db) (λ _ db. (returns made, db)) session new h in
    let typed : add_session postgres made db ≡ (returns tt, db') = add_eq in (cc, cc)

module _ (postgres : Postgres) (encryption : Encryption) where
  pub open_session-returns :
      (draws : Draws) (id : Text) (db new : Db) (session : Session)
      → open_session postgres encryption draws id db ≡ (returns session, new)
      → (session.user_id ≡ id) × (add_session postgres session db ≡ (returns tt, new))
  unfolding open_session Session.reconstitute
  open_session-returns draws id db new session h =
      let (made, create_eq, rest) =
        continue_pure-returns (Session.create (session_params draws id)) db
          (λ session db. continue (add_session postgres session db) λ _ db. (returns session, db))
          session new h in
      let (same, add_eq) = store_session-returns postgres made session db new rest in
      let (_, built) = (create_session_iff (session_params draws id) made).0 create_eq in
      (ap (λ s. s.user_id) (sym same ∙ built), add_eq)

  -- A new session, until it expires, stands for the user that it was opened for.
  pub open_session-validate_token :
      (draws : Draws) (id : Text) (now : ℕ) (db new : Db) (session : Session)
      → open_session postgres encryption draws id db ≡ (returns session, new)
      → is_expired (stored_session postgres session) now ≡ false
      → validate_token session.token now new ≡ find_by_id db id
  unfolding find_by_id stored_session
  open_session-validate_token draws id now db new session h fresh =
      let (owner, add_eq) = open_session-returns draws id db new session h in
      let (users, found) = add_session-token postgres session db new add_eq in
      validate_token-found session.token now new (stored_session postgres session) found fresh
      ∙ ap (λ us. find user_id session.user_id us) (sym users)
      ∙ ap (λ x. find user_id x db.users) owner
