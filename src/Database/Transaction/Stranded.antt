-- ===== src/Database/Transaction/Stranded.antt =====
-- A connection that dies in a scope which did not commit: the destructor skips the rollback, and
-- the pool gets the connection back with its transaction still active.
use chat_system.Prelude.{◌≡◌, refl, ap, ◌∙◌, true, false, List, codes, arith}
use chat_system.Exceptions.{returns, throws, transaction_exception}
use chat_system.Database.Connection.{
  Driver, Connection, start, begin_transaction, rollback_transaction, is_alive,
}
use chat_system.Database.Transaction.{
  Transaction, Statement, run_body, cleanup, close, open_and_run, transaction_scope,
}
use chat_system.Database.Transaction.Laws.{has_work, begin-start}
use chat_system.Database.Transaction.Atomicity.{executes, running, run_executes_keep}

module _ {D Q R : Type 0} (driver : Driver D Q R) where
  cleanup_dead :
      (tx : Transaction driver)
      → has_work driver tx.connection ≡ true
      → tx.is_commited ≡ false
      → (cleanup driver tx).connection.is_open ≡ false
      → has_work driver (cleanup driver tx).connection ≡ true
  unfolding cleanup rollback_transaction is_alive
  cleanup_dead tx h c dead = ground arith

  begin_busy :
      (c : Connection driver) (db : D)
      → has_work driver c ≡ true
      → begin_transaction driver c db ≡ record {
        result =
            throws
              (transaction_exception (codes "A transaction is already active on this connection."));
        connection = c;
        db = db;
      }
  unfolding begin_transaction
  begin_busy c db h = ground arith

  scope_busy :
      (c : Connection driver) (db : D) (body : List (Statement driver))
      → has_work driver c ≡ true
      → ((transaction_scope driver c db body).result
          ≡ throws
              (transaction_exception (codes "A transaction is already active on this connection.")))
        × ((transaction_scope driver c db body).connection ≡ c)
  unfolding transaction_scope
  scope_busy c db body h = rw (begin_busy c db h) (unfold open_and_run in (refl, refl))

  -- Where a scope without Commit() begins on a free connection and leaves it closed, the connection
  -- keeps its transaction, and every later scope on it throws and hands it back as it is.
  pub transaction_scope_strands :
      (c : Connection driver) (db : D) (qs : List Q) (work : driver.Work)
      → has_work driver c ≡ false
      → driver.begin db ≡ returns work
      → (transaction_scope driver c db (executes driver qs)).connection.is_open ≡ false
      → (db' : D) (body : List (Statement driver))
      → (let stranded = (transaction_scope driver c db (executes driver qs)).connection in
          ((transaction_scope driver stranded db' body).result
            ≡ throws (
                transaction_exception
                  (codes "A transaction is already active on this connection.")))
          × ((transaction_scope driver stranded db' body).connection ≡ stranded))
  transaction_scope_strands c db qs work free began dead db' body =
      scope_busy (transaction_scope driver c db (executes driver qs)).connection db' body
        (busy (dead))
    where
      same :
          transaction_scope driver c db (executes driver qs)
          ≡ close driver
              (run_body driver (running driver c.id c.is_open work db) (executes driver qs))
      same =
          unfold transaction_scope open_and_run start in
          (ap (λ d. open_and_run driver d (executes driver qs))
            (begin-start driver c db free ∙ ap (start driver c db) began))

      busy :
          (transaction_scope driver c db (executes driver qs)).connection.is_open ≡ false
          → has_work driver (transaction_scope driver c db (executes driver qs)).connection ≡ true
      busy closed =
          let (has, _, open_) =
            run_executes_keep driver (running driver c.id c.is_open work db) qs refl in
          rw same (unfold close in (cleanup_dead _ has open_ (unfold close in (rw same at closed))))
