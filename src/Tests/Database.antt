-- ===== src/Tests/Database.antt =====
-- A driver on a counter as the database, and a pool whose connections are numbers.
use chat_system.Prelude.{
  ℕ, zero, suc, ◌+◌, ◌≡◌, refl, Bool, true, false, ◌&&◌, none, List, [], ◌∷◌, ◌++◌, codes, length,
  replicate, ◌==◌, if◌then◌else◌,
}
use mathlib.Core.List.{Perm}
use chat_system.Exceptions.{
  Result, returns, throws, query_exception, connection_exception, transaction_exception,
}
use chat_system.Database.Connection.{Driver, Connection, begin_transaction, execute, is_alive}
use chat_system.Database.Transaction.{execute_query, commit, transaction_scope}
use chat_system.Database.Transaction.Laws.{has_work, transaction_scope_closes}
use chat_system.Database.Transaction.Atomicity.{
  executes, results, db_after, atomically, transaction_scope-atomically, transaction_scope_reads,
}
use chat_system.Database.Transaction.Stranded.{transaction_scope_strands}
use chat_system.Database.Pool.{
  notified, timed_out, lent, refused, acquire, connection_count, init, init_loop, pooled,
}
use chat_system.Database.Pool.Ownership.{
  System, Reach, start, next, acquires, connections, init-Reach-connections, acquire_ends,
}

-- A statement adds its number; 99 fails and breaks the connection. The commit stores the sum.
add_number : ℕ → ℕ → Result ℕ × ℕ × Bool
add_number q work =
    if q == 99 then (throws (query_exception []), work, false) else (returns q, work + q, true)

abbrev counter : Driver ℕ ℕ ℕ
counter = record {
  Work = ℕ;
  begin = λ db. returns db;
  exec = add_number;
  commit = λ work db. returns work;
}

abbrev idle : Connection counter
idle = record { id = 3; is_open = true; transaction = none }

transaction_scope-atomically_example :
    let o = transaction_scope counter idle 10 (executes counter (4 ∷ 5 ∷ []) ++ (commit ∷ [])) in
    (o.result ≡ results counter (atomically counter 10 (4 ∷ 5 ∷ [])))
    × (o.db ≡ db_after counter 10 (atomically counter 10 (4 ∷ 5 ∷ [])))
transaction_scope-atomically_example =
    transaction_scope-atomically counter idle 10 (4 ∷ 5 ∷ []) refl

transaction_scope_reads_example :
    (transaction_scope counter idle 10 (executes counter (4 ∷ 99 ∷ []))).db ≡ 10
transaction_scope_reads_example = transaction_scope_reads counter idle 10 (4 ∷ 99 ∷ []) refl

transaction_scope_closes_example :
    let o = transaction_scope counter idle 10 (execute_query 4 ∷ commit ∷ execute_query 5 ∷ []) in
    (o.destructor ≡ returns tt) × ((o.connection.is_open && has_work counter o.connection) ≡ false)
transaction_scope_closes_example =
    transaction_scope_closes counter idle 10 (execute_query 4 ∷ commit ∷ execute_query 5 ∷ []) refl

breaks : (transaction_scope counter idle 10 (executes counter (99 ∷ []))).connection.is_open ≡ false
unfolding transaction_scope begin_transaction execute is_alive add_number
breaks = refl

transaction_scope_strands_example :
    let stranded = (transaction_scope counter idle 10 (executes counter (99 ∷ []))).connection in
    ((transaction_scope counter stranded 10 (commit ∷ [])).result
      ≡ throws
          (transaction_exception (codes "A transaction is already active on this connection.")))
    × ((transaction_scope counter stranded 10 (commit ∷ [])).connection ≡ stranded)
transaction_scope_strands_example =
    transaction_scope_strands counter idle 10 (99 ∷ []) 10 refl refl breaks 10 (commit ∷ [])

-- The numbers from n on, that many.
count_from : ℕ → ℕ → List ℕ
count_from n zero = []
count_from n (suc left) = n ∷ count_from (suc n) left

abbrev fifty : List ℕ
fifty = 0 ∷ count_from 1 49

makes_fifty : init (λ conn_i. returns conn_i) ≡ returns fifty
unfolding init init_loop count_from
makes_fifty = refl

abbrev one_lent : System ℕ
one_lent = record { free = count_from 1 49; held = pooled 0 ∷ [] }

lends_one : Reach (record { free = fifty; held = [] }) one_lent
unfolding acquire
lends_one = next (acquires fifty (count_from 1 49) [] 0 refl) (start one_lent)

init-Reach-connections_example :
    (length fifty ≡ connection_count) × Perm fifty (connections one_lent)
init-Reach-connections_example =
    init-Reach-connections (λ conn_i. returns conn_i) fifty one_lent makes_fifty lends_one

acquire_ends_example :
    (acquire {X = ℕ} [] (replicate 2 (notified []) ++ (notified (7 ∷ []) ∷ [])) ≡ lent 7 [])
    × (acquire {X = ℕ} [] (replicate 2 (notified []) ++ (timed_out [] ∷ []))
        ≡ refused
            (connection_exception
              (codes "Failed to acquire a free database connection within a given time."))
            [])
acquire_ends_example = acquire_ends 2 7 [] []
