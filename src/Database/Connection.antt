-- ===== src/Database/Connection.antt =====
-- Server/Source/Database/Postgres/pqxx_connection.cpp. The database D, the statements Q and their
-- results R are parameters, as are the operations of the libpqxx transaction, pqxx::work.
use chat_system.Prelude.{ℕ, Bool, Option, none, some, codes}
use chat_system.Exceptions.{Result, returns, throws, transaction_exception}

-- pqxx::work on a database: its state, its start, one statement, and its commit, which may fail.
-- A statement tells whether the connection is still open afterwards. An abort drops the state.
pub record Driver (D Q R : Type 0) : Type 1 where
  pub Work : Type 0
  pub begin : D → Result Work
  pub exec : Q → Work → Result R × Work × Bool
  pub commit : Work → D → Result D

module _ {D Q R : Type 0} (driver : Driver D Q R) where
  open driver use {Work}

  pub record Connection : Type 0 where
    pub id : ℕ
    pub is_open : Bool
    pub transaction : Option Work

  -- What an operation on a connection returns, with the connection and the database behind it.
  pub record Done (A : Type 0) : Type 0 where
    pub result : Result A
    pub connection : Connection
    pub db : D

  unfoldable pub start : Connection → D → Result Work → Done (Unit {0})
  start c db (throws e) = record { result = throws e; connection = c; db = db }
  start c db (returns work) = record {
    result = returns tt;
    connection = record c { transaction = some work };
    db = db;
  }

  unfoldable pub begin_transaction : Connection → D → Done (Unit {0})
  unfolding start
  begin_transaction c db = elim c.transaction [
    | some work ↦ record {
      result =
          throws
            (transaction_exception (codes "A transaction is already active on this connection."));
      connection = c;
      db = db;
    }
    | none ↦ start c db (driver.begin db)
  ]

  -- transaction_->commit(), then transaction_.reset(), which is not reached if the commit throws.
  finish : Connection → D → Result D → Done (Unit {0})
  finish c db (throws e) = record { result = throws e; connection = c; db = db }
  finish c db (returns db') = record {
    result = returns tt;
    connection = record c { transaction = none };
    db = db';
  }

  unfoldable pub commit_transaction : Connection → D → Done (Unit {0})
  unfolding finish
  commit_transaction c db = elim c.transaction [
    | none ↦ record {
      result = throws (transaction_exception (codes "No active transaction to commit."));
      connection = c;
      db = db;
    }
    | some work ↦ finish c db (driver.commit work db)
  ]

  unfoldable pub rollback_transaction : Connection → D → Done (Unit {0})
  rollback_transaction c db = elim c.transaction [
    | none ↦ record {
      result = throws (transaction_exception (codes "No active transaction to rollback."));
      connection = c;
      db = db;
    }
    | some work ↦ record {
      result = returns tt;
      connection = record c { transaction = none };
      db = db;
    }
  ]

  unfoldable pub is_alive : Connection → Bool
  is_alive c = c.is_open

  -- The result of a statement in a transaction of its own: it is committed if it did not throw.
  commit_temporary : Connection → D → Result R × Work × Bool → Done R
  commit_temporary c db (throws e, work, alive) = record {
    result = throws e;
    connection = record c { is_open = alive };
    db = db;
  }
  commit_temporary c db (returns r, work, alive) = elim (driver.commit work db) [
    | throws e ↦ record { result = throws e; connection = record c { is_open = alive }; db = db }
    | returns db' ↦ record {
      result = returns r;
      connection = record c { is_open = alive };
      db = db';
    }
  ]

  execute_temporary : Connection → D → Q → Result Work → Done R
  unfolding commit_temporary
  execute_temporary c db query (throws e) = record { result = throws e; connection = c; db = db }
  execute_temporary c db query (returns work) = commit_temporary c db (driver.exec query work)

  -- Both overloads of Execute: the bound parameters belong to the statement.
  unfoldable pub execute : Connection → D → Q → Done R
  unfolding execute_temporary
  execute c db query = elim c.transaction [
    | some work ↦
        let (result, work', alive) = driver.exec query work in
        record {
          result = result;
          connection = record c { transaction = some work'; is_open = alive };
          db = db;
        }
    | none ↦ execute_temporary c db query (driver.begin db)
  ]
