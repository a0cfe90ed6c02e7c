-- ===== src/Database/Pool.antt =====
-- Server/Source/Database/Postgres/pqxx_connection_pool.cpp and the PooledConnection that gives its
-- connection back. A connection is any value X; the free ones are a list, front first. What a
-- waiting thread sees each time it wakes is an argument; the other threads' calls come in between.
pub mod Ownership
use chat_system.Prelude.{
  ℕ, zero, suc, ◌+◌, ◌-◌, ◌*◌, ◌/◌, ◌%◌, ◌^◌, ◌≤◌, ◌<◌, min, ◌≡◌, refl, sym, ap, ◌∙◌, ◌≢◌, ◌↔◌, ◌⊎◌,
  inl, inr, Bool, true, false, not, ◌&&◌, ◌||◌, Option, none, some, List, [], ◌∷◌, ◌++◌, map,
  append-nil, append_assoc, String, Text, codes, text_eq, text_eq_iff, text_eq_refl, length, set,
  take, drop, replicate, All, length-append, length-set, length-take, length-replicate, arith, ltb,
  leb, ◌==◌, if◌then◌else◌, Bool-cases, Option-cases, ltb→lt, lt→ltb, leb→le, ==_iff, tests,
}
use chat_system.Exceptions.{Exception, Result, returns, throws, connection_exception, ◌>>=◌}

abbrev pub connection_count : ℕ
connection_count = 50

-- One return of wait_until, with the free connections at that moment.
pub data Wake (X : Type 0) : Type 0 where
  notified timed_out : List X → Wake X

-- Where a call of Acquire stands: it has a connection, or threw, or still waits.
pub data Acquired (X : Type 0) : Type 0 where
  lent : X → List X → Acquired X
  refused : Exception → List X → Acquired X
  waiting : Acquired X

-- A PooledConnection: the connection, if it was not moved away, and whether it has a pool.
pub record PooledConnection (X : Type 0) : Type 0 where
  pub connection : Option X
  pub has_pool : Bool

module _ {X : Type 0} where
  unfoldable pub acquire : List X → List (Wake X) → Acquired X
  acquire (c ∷ free) wakes = lent c free
  acquire [] [] = waiting
  acquire [] (timed_out free ∷ wakes) =
      refused
        (connection_exception
          (codes "Failed to acquire a free database connection within a given time."))
        free
  acquire [] (notified free ∷ wakes) = acquire free wakes

  unfoldable pub return_connection : List X → X → List X
  return_connection free c = free ++ (c ∷ [])

  -- The factory's call number conn_i is create conn_i; the first exception ends the loop.
  unfoldable pub init_loop : (ℕ → Result X) → ℕ → ℕ → List X → Result (List X)
  init_loop create conn_i zero free = returns free
  init_loop create conn_i (suc left) free =
      create conn_i >>= λ c. init_loop create (suc conn_i) left (free ++ (c ∷ []))

  unfoldable pub init : (ℕ → Result X) → Result (List X)
  init create = init_loop create 0 connection_count []

  unfoldable pub pooled : X → PooledConnection X
  pooled c = record { connection = some c; has_pool = true }

  -- The destructor, and the first step of the move assignment: the pool behind it.
  unfoldable pub return_existing : PooledConnection X → List X → List X
  return_existing p free = elim p.connection [
    | none ↦ free
    | some c ↦ if p.has_pool then return_connection free c else free
  ]

  -- The move constructor: the new wrapper and what is left of the old one.
  unfoldable pub move : PooledConnection X → PooledConnection X × PooledConnection X
  move other = (other, record { connection = none; has_pool = false })

  -- `target = std::move(other)` for two different wrappers: both of them and the pool.
  unfoldable pub move_assign :
      PooledConnection X
      → PooledConnection X
      → List X
      → PooledConnection X × PooledConnection X × List X
  unfolding return_existing move
  move_assign target other free =
      let (target', other') = move other in (target', other', return_existing target free)
