-- ===== src/Database/Transaction/Atomicity.antt =====
-- A scope that ends in Commit() is one atomic step on the database; one without it changes nothing.
use chat_system.Prelude.{
  ℕ, ◌≡◌, refl, ap, ◌∙◌, Bool, true, false, some, List, [], ◌∷◌, ◌++◌, map, arith,
}
use chat_system.Exceptions.{Exception, Result, returns, throws, ◌>>=◌}
use chat_system.Database.Connection.{
  Driver, Connection, start, commit_transaction, rollback_transaction, is_alive, execute,
}
use chat_system.Database.Transaction.{
  Transaction, Statement, execute_query, commit, after_execute, run_statement, prepend,
  continue_with, run_body, cleanup, open_and_run, transaction_scope,
}
use chat_system.Database.Transaction.Laws.{has_work, begin-start}

module _ {D Q R : Type 0} (driver : Driver D Q R) where
  abbrev pub executes : List Q → List (Statement driver)
  executes = map execute_query

  then_run :
      Result R × driver.Work × Bool
      → (driver.Work → Result (List R × driver.Work))
      → Result (List R × driver.Work)
  then_run (throws e, work, alive) rest = throws e
  then_run (returns r, work, alive) rest = rest work >>= λ (rs, last). returns (r ∷ rs, last)

  -- The statements in turn on a work, up to the first that fails.
  pub run_all : driver.Work → List Q → Result (List R × driver.Work)
  unfolding then_run
  run_all work [] = returns ([], work)
  run_all work (q ∷ qs) = then_run (driver.exec q work) (λ work'. run_all work' qs)

  -- The results and the database that the driver's commit makes of the work.
  pub commit_all : D → Result (List R × driver.Work) → Result (List R × D)
  commit_all db done = done >>= λ (rs, work). driver.commit work db >>= λ db'. returns (rs, db')

  -- Begin, run all and commit, as one step.
  pub atomically : D → List Q → Result (List R × D)
  atomically db qs = driver.begin db >>= λ work. commit_all db (run_all work qs)

  abbrev pub results : Result (List R × D) → Result (List R)
  results (throws e) = throws e
  results (returns (rs, db)) = returns rs

  -- The new database, or the old one after a failure.
  abbrev pub db_after : D → Result (List R × D) → D
  db_after db (throws e) = db
  db_after db (returns (rs, db')) = db'

  abbrev pub running : ℕ → Bool → driver.Work → D → Transaction driver
  running i alive work db = record {
    connection = record { id = i; is_open = alive; transaction = some work };
    is_commited = false;
    db = db;
  }

  abbrev Agrees : D → Result (List R × D) → Result (List R) × Transaction driver → Type 0
  Agrees db expected (result, tx) = (result ≡ results expected) × (tx.db ≡ db_after db expected)

  run_commit-Agrees :
      (i : ℕ) (alive : Bool) (work : driver.Work) (db : D)
      → Agrees db
          (commit_all db (returns ([], work)))
          (run_body driver (running i alive work db) (commit ∷ []))
  unfolding run_body run_statement prepend commit_transaction commit_all
  run_commit-Agrees i alive work db = ground arith

  abbrev with_first : R → Result (List R × driver.Work) → Result (List R × driver.Work)
  with_first r m = m >>= λ (rs, last). returns (r ∷ rs, last)

  prepend_committed :
      (db : D) (r : R) (rs : List R) (c : Result D) (result : Result (List R))
      (tx : Transaction driver)
      → Agrees db (c >>= λ db'. returns (rs, db')) (result, tx)
      → Agrees db (c >>= λ db'. returns (r ∷ rs, db')) (prepend driver (r ∷ []) (result, tx))
  unfolding prepend
  prepend_committed db r rs (throws e) (throws e') tx h = ground arith
  prepend_committed db r rs (throws e) (returns rs') tx h = ground arith
  prepend_committed db r rs (returns db') (throws e) tx h = ground arith
  prepend_committed db r rs (returns db') (returns rs') tx h = ground arith

  prepend-Agrees :
      (db : D) (r : R) (m : Result (List R × driver.Work)) (result : Result (List R))
      (tx : Transaction driver)
      → Agrees db (commit_all db m) (result, tx)
      → Agrees db (commit_all db (with_first r m)) (prepend driver (r ∷ []) (result, tx))
  unfolding commit_all prepend
  prepend-Agrees db r (throws e) (throws e') tx h = ground arith
  prepend-Agrees db r (throws e) (returns rs) tx h = ground arith
  prepend-Agrees db r (returns (rs, work)) result tx h =
      prepend_committed db r rs (driver.commit work db) result tx h

  -- A statement on a running transaction, by its outcome.
  run_execute-throws :
      (i : ℕ) (alive : Bool) (work : driver.Work) (db : D) (q : Q) (e : Exception)
      (work' : driver.Work) (alive' : Bool)
      → driver.exec q work ≡ (throws e, work', alive')
      → run_statement driver (running i alive work db) (execute_query q)
        ≡ (throws e, running i alive' work' db)
  unfolding run_statement execute
  run_execute-throws i alive work db q e work' alive' h = simp h

  run_execute-returns :
      (i : ℕ) (alive : Bool) (work : driver.Work) (db : D) (q : Q) (r : R) (work' : driver.Work)
      (alive' : Bool)
      → driver.exec q work ≡ (returns r, work', alive')
      → run_statement driver (running i alive work db) (execute_query q)
        ≡ (returns (r ∷ []), running i alive' work' db)
  unfolding run_statement execute
  run_execute-returns i alive work db q r work' alive' h = simp h

  run_body-throws :
      (tx tx' : Transaction driver) (s : Statement driver) (body : List (Statement driver))
      (e : Exception)
      → run_statement driver tx s ≡ (throws e, tx')
      → run_body driver tx (s ∷ body) ≡ (throws e, tx')
  unfolding run_body
  run_body-throws tx tx' s body e h =
      ap (λ p. continue_with driver p (λ t. run_body driver t body)) h

  run_body-returns :
      (tx tx' : Transaction driver) (s : Statement driver) (body : List (Statement driver))
      (rs : List R)
      → run_statement driver tx s ≡ (returns rs, tx')
      → run_body driver tx (s ∷ body) ≡ prepend driver rs (run_body driver tx' body)
  unfolding run_body
  run_body-returns tx tx' s body rs h =
      ap (λ p. continue_with driver p (λ t. run_body driver t body)) h

  run_all-throws :
      (work : driver.Work) (q : Q) (qs : List Q) (e : Exception) (work' : driver.Work)
      (alive' : Bool)
      → driver.exec q work ≡ (throws e, work', alive')
      → run_all work (q ∷ qs) ≡ throws e
  unfolding run_all
  run_all-throws work q qs e work' alive' h = ap (λ p. then_run p (λ w. run_all w qs)) h

  run_all-returns :
      (work : driver.Work) (q : Q) (qs : List Q) (r : R) (work' : driver.Work) (alive' : Bool)
      → driver.exec q work ≡ (returns r, work', alive')
      → run_all work (q ∷ qs) ≡ with_first r (run_all work' qs)
  unfolding run_all
  run_all-returns work q qs r work' alive' h = ap (λ p. then_run p (λ w. run_all w qs)) h

  run_body-Agrees :
      (i : ℕ) (alive : Bool) (work : driver.Work) (db : D) (qs : List Q)
      → Agrees db
          (commit_all db (run_all work qs))
          (run_body driver (running i alive work db) (executes qs ++ (commit ∷ [])))
  run_body-Agrees i alive work db [] = unfold run_all in run_commit-Agrees i alive work db
  run_body-Agrees i alive work db (q ∷ qs) =
      split (driver.exec q work) refl (λ alive' work'. run_body-Agrees i alive' work' db qs)
    where
      body : List (Statement driver)
      body = executes qs ++ (commit ∷ [])

      split :
          (out : Result R × driver.Work × Bool)
          → driver.exec q work ≡ out
          → ((alive' : Bool) (work' : driver.Work)
              → Agrees db
                  (commit_all db (run_all work' qs))
                  (run_body driver (running i alive' work' db) body))
          → Agrees db
              (commit_all db (run_all work (q ∷ qs)))
              (run_body driver (running i alive work db) (execute_query q ∷ body))
      split (throws e, work', alive') h ih =
          rw
            (
              run_body-throws (running i alive work db) (running i alive' work' db)
                  (execute_query q) body e (run_execute-throws i alive work db q e work' alive' h),
              run_all-throws work q qs e work' alive' h,
            )
            (unfold commit_all in (refl, refl))
      split (returns r, work', alive') h ih =
          rw
            (
              run_body-returns (running i alive work db) (running i alive' work' db)
                  (execute_query q) body (r ∷ [])
                  (run_execute-returns i alive work db q r work' alive' h),
              run_all-returns work q qs r work' alive' h,
            )
            (prepend-Agrees db r (run_all work' qs) _ _ (ih alive' work'))

  cleanup-db : (tx : Transaction driver) → (cleanup driver tx).db ≡ tx.db
  unfolding cleanup rollback_transaction is_alive
  cleanup-db tx = ground arith

  -- A scope of statements and a final Commit(), on a connection without a transaction, returns and
  -- stores what the atomic step does: all its statements take effect, or none does.
  pub transaction_scope-atomically :
      (c : Connection driver) (db : D) (qs : List Q)
      → has_work driver c ≡ false
      → (let o = transaction_scope driver c db (executes qs ++ (commit ∷ [])) in
          (o.result ≡ results (atomically db qs)) × (o.db ≡ db_after db (atomically db qs)))
  unfolding transaction_scope atomically
  transaction_scope-atomically c db qs h = rw (begin-start driver c db h) (scope (driver.begin db))
    where
      scope :
          (r : Result driver.Work)
          → (let o = open_and_run driver (start driver c db r) (executes qs ++ (commit ∷ [])) in
              let expected = r >>= λ work. commit_all db (run_all work qs) in
              (o.result ≡ results expected) × (o.db ≡ db_after db expected))
      scope (throws e) = unfold open_and_run start in (refl, refl)
      scope (returns work) =
          let (same, kept) = run_body-Agrees c.id c.is_open work db qs in
          unfold open_and_run start in (same, cleanup-db _ ∙ kept)

  after_execute_keeps :
      (tx : Transaction driver) (q : Q)
      → has_work driver tx.connection ≡ true
      → (let tx' = (after_execute driver tx (execute driver tx.connection tx.db q)).1 in
          (has_work driver tx'.connection ≡ true)
          × (tx'.db ≡ tx.db)
          × (tx'.is_commited ≡ tx.is_commited))
  unfolding after_execute execute
  after_execute_keeps tx q h = ground arith

  pub run_executes_keep :
      (tx : Transaction driver) (qs : List Q)
      → has_work driver tx.connection ≡ true
      → (let tx' = (run_body driver tx (executes qs)).1 in
          (has_work driver tx'.connection ≡ true)
          × (tx'.db ≡ tx.db)
          × (tx'.is_commited ≡ tx.is_commited))
  unfolding run_body run_statement prepend
  run_executes_keep tx [] h = (h, refl, refl)
  run_executes_keep tx (q ∷ qs) h = ground (
    arith,
    after_execute_keeps tx q h,
    run_executes_keep (run_statement driver tx (execute_query q)).1 qs
        (after_execute_keeps tx q h).0,
  )

  -- On a connection without a transaction, a scope that does not commit leaves the database as it
  -- was, whatever its statements do.
  pub transaction_scope_reads :
      (c : Connection driver) (db : D) (qs : List Q)
      → has_work driver c ≡ false
      → (transaction_scope driver c db (executes qs)).db ≡ db
  unfolding transaction_scope
  transaction_scope_reads c db qs h = rw (begin-start driver c db h) (scope (driver.begin db))
    where
      scope :
          (r : Result driver.Work)
          → (open_and_run driver (start driver c db r) (executes qs)).db ≡ db
      scope (throws e) = unfold open_and_run start in refl
      scope (returns work) =
          unfold open_and_run start in
          (cleanup-db _ ∙ (run_executes_keep (running c.id c.is_open work db) qs refl).1)
