-- ===== src/Services/Message/Delivery.antt =====
-- GetUndelivered and MarkAsRead: what the receipts say afterwards.
use chat_system.Prelude.{
  ℕ, ◌+◌, ◌≤◌, ◌≡◌, sym, ap, ◌∙◌, inl, inr, true, false, min, Option, none, some, List, [], ◌∷◌,
  Text, text_eq, text_eq_iff, arith, length, Bool-cases,
}
use chat_system.Exceptions.{returns, continue-returns, continue_pure-returns, returns-injective}
use chat_system.Domain.Message.{Message}
use chat_system.Repositories.Where.{any}
use chat_system.Repositories.ChatStore.{ChatDb, ChatPostgres, IsQueryOrder}
use chat_system.Repositories.Messages.{is_delivered, find_undelivered, mark_delivered}
use chat_system.Repositories.Messages.Receipts.{mark_delivered-has, mark_delivered-keeps}
use chat_system.Repositories.Messages.Pages.{length-find_undelivered, find_undelivered-delivered}
use chat_system.Services.Message.{max_limit, message_or_throw, mark_all, get_undelivered}

pub message_or_throw-returns :
    (o : Option Message) (m : Message) → message_or_throw o ≡ returns m → o ≡ some m
unfolding message_or_throw
message_or_throw-returns none m h = cc
message_or_throw-returns (some n) m h = ap some (returns-injective n m h)

module _ (postgres : ChatPostgres) where
  mark_all-keeps :
      (clock : ℕ → ℕ) (i : ℕ) (user id : Text) (ms : List Message) (db new : ChatDb)
      (done : Unit {0})
      → mark_all postgres clock i user ms db ≡ (returns done, new)
      → is_delivered db id user ≡ true
      → is_delivered new id user ≡ true
  unfolding mark_all
  mark_all-keeps clock i user id [] db new done h e = rw (sym (ap (λ p. p.1) h)) e
  mark_all-keeps clock i user id (m ∷ ms) db new done h e =
      let (u, next, marked, rest) =
        continue-returns (mark_delivered postgres (clock i) m.id user db) _ done new h in
      mark_all-keeps clock (i + 1) user id ms next new done rest
        (mark_delivered-keeps postgres (clock i) m.id user id user db next u marked e)

  mark_all-delivers :
      (clock : ℕ → ℕ) (i : ℕ) (user id : Text) (ms : List Message) (db new : ChatDb)
      (done : Unit {0})
      → mark_all postgres clock i user ms db ≡ (returns done, new)
      → any (λ m. text_eq m.id id) ms ≡ true
      → is_delivered new id user ≡ true
  unfolding mark_all any
  mark_all-delivers clock i user id [] db new done h e = cc
  mark_all-delivers clock i user id (m ∷ ms) db new done h e =
      let (u, next, marked, rest) =
        continue-returns (mark_delivered postgres (clock i) m.id user db) _ done new h in
      elim (Bool-cases (text_eq m.id id)) [
        | inl same ↦ mark_all-keeps clock (i + 1) user id ms next new done rest (
            ap (λ x. is_delivered next x user) (sym ((text_eq_iff m.id id).0 same))
            ∙ mark_delivered-has postgres (clock i) m.id user db next u marked)
        | inr other ↦ mark_all-delivers clock (i + 1) user id ms next new done rest (ground arith)
      ]

  -- When GetUndelivered returns messages, they are at most a hundred and at most the limit; each of
  -- them is recorded as delivered to the user, and when another call finds messages on the tables
  -- that it leaves, with any limit and cursor, none of them is among those. The query returns each
  -- row that it finds once.
  pub get_undelivered-once :
      (clock : ℕ → ℕ) (user id : Text) (limit : ℕ) (after : Option Text) (db new : ChatDb)
      (ms : List Message) (next_limit : ℕ) (next_after : Option Text) (more : List Message)
      → IsQueryOrder postgres
      → get_undelivered postgres clock user limit after db ≡ (returns ms, new)
      → find_undelivered postgres new user next_limit next_after ≡ returns more
      → any (λ m. text_eq m.id id) ms ≡ true
      → (length ms ≤ 100)
        × (length ms ≤ limit)
        × (is_delivered new id user ≡ true)
        × (any (λ m. text_eq m.id id) more ≡ false)
  unfolding get_undelivered
  get_undelivered-once clock user id limit after db new ms next_limit next_after more order h found
        e =
      let (page, listed, rest) =
        continue_pure-returns (find_undelivered postgres db user (min max_limit limit) after) db _
          ms new h in
      let (u, last, marked, made) =
        continue-returns (mark_all postgres clock 0 user page db) _ ms new rest in
      let same : page ≡ ms = returns-injective page ms (ap (λ p. p.0) made) in
      let tables : last ≡ new = ap (λ p. p.1) made in
      let short =
        length-find_undelivered postgres db user (min max_limit limit) after page listed in
      let delivered =
        rw (same, tables) at (mark_all-delivers clock 0 user id page db last u marked) in
      (
        omega (arith, short, ap length same),
        omega (arith, short, ap length same),
        delivered e,
        find_undelivered-delivered postgres new user next_limit next_after more id order found
            (delivered e),
      )
