-- ===== src/Database/Transaction.antt =====
-- Server/Include/Database/transaction.h and pooled_connection.h: the transaction that a repository
-- opens on a pooled connection, and what its destructor does. The pool is the list of its free
-- connections, front first; see Database/Pool.antt for how a connection is acquired.
pub mod Laws
pub mod Atomicity
pub mod Stranded
use chat_system.Prelude.{
  ℕ, zero, suc, ◌+◌, ◌-◌, ◌*◌, ◌/◌, ◌%◌, ◌^◌, ◌≤◌, ◌<◌, min, ◌≡◌, refl, sym, ap, ◌∙◌, ◌≢◌, ◌↔◌, ◌⊎◌,
  inl, inr, Bool, true, false, not, ◌&&◌, ◌||◌, Option, none, some, List, [], ◌∷◌, ◌++◌, map,
  append-nil, append_assoc, String, Text, codes, text_eq, text_eq_iff, text_eq_refl, length, set,
  take, drop, replicate, All, length-append, length-set, length-take, length-replicate, arith, ltb,
  leb, ◌==◌, if◌then◌else◌, Bool-cases, Option-cases, ltb→lt, lt→ltb, leb→le, ==_iff, tests,
}
use chat_system.Exceptions.{Result, returns, throws, transaction_exception}
use chat_system.Database.Connection.{
  Driver, Connection, Done, begin_transaction, commit_transaction, rollback_transaction, is_alive,
  execute,
}

module _ {D Q R : Type 0} (driver : Driver D Q R) where
  -- The wrapped connection and `is_commited_`, with the database behind the connection.
  pub record Transaction : Type 0 where
    pub connection : Connection driver
    pub is_commited : Bool
    pub db : D

  pub data Statement : Type 0 where
    execute_query : Q → Statement
    commit : Statement

  after_commit : Transaction → Done driver (Unit {0}) → Result (List R) × Transaction
  after_commit tx done = elim done.result [
    | throws e ↦ (throws e, record tx { connection = done.connection; db = done.db })
    | returns _ ↦
        (returns [], record { connection = done.connection; is_commited = true; db = done.db })
  ]

  -- Commit() does nothing the second time.
  run_commit : Transaction → Result (List R) × Transaction
  unfolding after_commit
  run_commit tx =
      if tx.is_commited
      then (returns [], tx)
      else after_commit tx (commit_transaction driver tx.connection tx.db)

  after_execute : Transaction → Done driver R → Result (List R) × Transaction
  after_execute tx done = elim done.result [
    | throws e ↦ (throws e, record tx { connection = done.connection; db = done.db })
    | returns r ↦ (returns (r ∷ []), record tx { connection = done.connection; db = done.db })
  ]

  run_statement : Transaction → Statement → Result (List R) × Transaction
  unfolding run_commit after_execute
  run_statement tx (execute_query q) = after_execute tx (execute driver tx.connection tx.db q)
  run_statement tx commit = run_commit tx

  prepend : List R → Result (List R) × Transaction → Result (List R) × Transaction
  prepend rs (throws e, tx) = (throws e, tx)
  prepend rs (returns rs', tx) = (returns (rs ++ rs'), tx)

  continue_with :
      Result (List R) × Transaction
      → (Transaction → Result (List R) × Transaction)
      → Result (List R) × Transaction
  continue_with (throws e, tx) rest = (throws e, tx)
  continue_with (returns rs, tx) rest = prepend rs (rest tx)

  -- A body that runs statements in turn; an exception ends it.
  pub run_body : Transaction → List Statement → Result (List R) × Transaction
  unfolding continue_with
  run_body tx [] = (returns [], tx)
  run_body tx (s ∷ body) = continue_with (run_statement tx s) (λ tx'. run_body tx' body)

  -- CleanupExistingTransaction, run by the destructor, where an exception ends the program.
  cleanup : Transaction → Done driver (Unit {0})
  cleanup tx =
      if not tx.is_commited && is_alive driver tx.connection
      then rollback_transaction driver tx.connection tx.db
      else record { result = returns tt; connection = tx.connection; db = tx.db }

  pub record Outcome : Type 0 where
    pub result : Result (List R)
    pub destructor : Result (Unit {0})
    pub connection : Connection driver
    pub db : D

  close : Result (List R) × Transaction → Outcome
  unfolding cleanup
  close (result, tx) = record {
    result = result;
    destructor = (cleanup tx).result;
    connection = (cleanup tx).connection;
    db = (cleanup tx).db;
  }

  -- The constructor begins the transaction; if that throws, the wrapped connection is let go.
  open_and_run : Done driver (Unit {0}) → List Statement → Outcome
  unfolding run_body close run_statement prepend
  open_and_run done body = elim done.result [
    | throws e ↦ record {
      result = throws e;
      destructor = returns tt;
      connection = done.connection;
      db = done.db;
    }
    | returns _ ↦
        close (
          run_body (record { connection = done.connection; is_commited = false; db = done.db })
            body)
  ]

  -- `Transaction tx{connection}; body`, to the end of the scope.
  unfoldable pub transaction_scope : Connection driver → D → List Statement → Outcome
  unfolding open_and_run
  transaction_scope connection db body = open_and_run (begin_transaction driver connection db) body
