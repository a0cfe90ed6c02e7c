-- ===== src/Database/Transaction/Laws.antt =====
-- What a transaction scope leaves behind, for every driver and every body.
use chat_system.Prelude.{
  ◌≡◌, refl, ◌⊎◌, inl, inr, ◌&&◌, Bool, true, false, none, some, List, [], ◌∷◌, arith,
}
use chat_system.Exceptions.{Exception, Result, returns, throws}
use chat_system.Database.Connection.{
  Driver, Connection, start, begin_transaction, commit_transaction, rollback_transaction, is_alive,
  execute,
}
use chat_system.Database.Transaction.{
  Transaction, Statement, execute_query, commit, run_commit, after_execute, run_statement, prepend,
  run_body, cleanup, Outcome, open_and_run, transaction_scope,
}

module _ {D Q R : Type 0} (driver : Driver D Q R) where
  abbrev pub has_work : Connection driver → Bool
  has_work c = elim c.transaction [ none ↦ false | some work ↦ true ]

  -- Before the commit a work is open and the database is as it was; afterwards none is open.
  abbrev pub IsSound : D → Transaction driver → Type 0
  IsSound db tx =
      ((tx.is_commited ≡ false) × (has_work tx.connection ≡ true) × (tx.db ≡ db))
      ⊎ ((tx.is_commited ≡ true) × (has_work tx.connection ≡ false))

  after_execute-IsSound :
      (db : D) (tx : Transaction driver) (q : Q)
      → IsSound db tx
      → IsSound db (after_execute driver tx (execute driver tx.connection tx.db q)).1
  unfolding after_execute execute
  after_execute-IsSound db tx q h = ground arith

  run_commit-IsSound :
      (db : D) (tx : Transaction driver) → IsSound db tx → IsSound db (run_commit driver tx).1
  unfolding run_commit commit_transaction
  run_commit-IsSound db tx h = ground arith

  run_statement-IsSound :
      (db : D) (tx : Transaction driver) (s : Statement driver)
      → IsSound db tx
      → IsSound db (run_statement driver tx s).1
  unfolding run_statement
  run_statement-IsSound db tx (execute_query q) h = after_execute-IsSound db tx q h
  run_statement-IsSound db tx commit h = run_commit-IsSound db tx h

  run_body-IsSound :
      (db : D) (tx : Transaction driver) (body : List (Statement driver))
      → IsSound db tx
      → IsSound db (run_body driver tx body).1
  unfolding run_body prepend
  run_body-IsSound db tx [] h = h
  run_body-IsSound db tx (s ∷ body) h = ground (
    arith,
    run_statement-IsSound db tx s h,
    run_body-IsSound db (run_statement driver tx s).1 body (run_statement-IsSound db tx s h),
  )

  cleanup_sound :
      (db : D) (tx : Transaction driver)
      → IsSound db tx
      → ((cleanup driver tx).result ≡ returns tt)
        × (((cleanup driver tx).connection.is_open && has_work (cleanup driver tx).connection)
            ≡ false)
  unfolding cleanup rollback_transaction is_alive
  cleanup_sound db tx h = ground arith

  pub begin-start :
      (c : Connection driver) (db : D)
      → has_work c ≡ false
      → begin_transaction driver c db ≡ start driver c db (driver.begin db)
  unfolding begin_transaction start
  begin-start c db h = ground arith

  -- A start that throws leaves the connection and the database; one that returns opens a work.
  begin_cases :
      (c : Connection driver) (db : D)
      → has_work c ≡ false
      → (let b = begin_transaction driver c db in
          ((e : Exception) × (b.result ≡ throws e) × (b.connection ≡ c) × (b.db ≡ db))
          ⊎ ((b.result ≡ returns tt) × (has_work b.connection ≡ true) × (b.db ≡ db)))
  unfolding start
  begin_cases c db h = rw (begin-start c db h) (started (driver.begin db))
    where
      started :
          (r : Result driver.Work)
          → (let b = start driver c db r in
              ((e : Exception) × (b.result ≡ throws e) × (b.connection ≡ c) × (b.db ≡ db))
              ⊎ ((b.result ≡ returns tt) × (has_work b.connection ≡ true) × (b.db ≡ db)))
      started (throws e) = inl (e, refl, refl, refl)
      started (returns work) = inr (refl, refl, refl)

  -- The transaction that the constructor leaves for the body.
  abbrev begun : Connection driver → D → Transaction driver
  begun c db = record {
    connection = (begin_transaction driver c db).connection;
    is_commited = false;
    db = (begin_transaction driver c db).db;
  }

  abbrev Closes : Outcome driver → Type 0
  Closes o = (o.destructor ≡ returns tt) × ((o.connection.is_open && has_work o.connection) ≡ false)

  -- A scope that starts on a connection without a transaction: its destructor never throws, and a
  -- connection that is still open goes back without a transaction.
  pub transaction_scope_closes :
      (c : Connection driver) (db : D) (body : List (Statement driver))
      → has_work c ≡ false
      → (let o = transaction_scope driver c db body in
          (o.destructor ≡ returns tt) × ((o.connection.is_open && has_work o.connection) ≡ false))
  unfolding transaction_scope
  transaction_scope_closes c db body h = elim (begin_cases c db h) [
    | inl (e, refused, same, _) ↦ rw (refused, open_and_run) (refl, ground (arith, same, h))
    | inr (started, busy, same) ↦
        rw (started, open_and_run)
          (cleanup_sound db (run_body driver (begun c db) body).1
            (run_body-IsSound db (begun c db) body (inl (refl, busy, same))))
  ]
