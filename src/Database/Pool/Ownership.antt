-- ===== src/Database/Pool/Ownership.antt =====
-- Who has the connections: threads acquire and return them in any interleaving.
use chat_system.Prelude.{
  ℕ, zero, suc, ◌+◌, ◌≡◌, refl, sym, ◌∙◌, Bool, true, false, Option, none, some, List, [], ◌∷◌,
  ◌++◌, append-nil, append_assoc, codes, length, replicate, length-append, arith,
}
use mathlib.Core.List.{Perm, perm_middle, perm_append_comm}
use mathlib.Core.List.Perm
use chat_system.Exceptions.{connection_exception, Result, returns, throws, ◌>>=◌}
use chat_system.Database.Pool.{
  Wake, notified, timed_out, lent, refused, PooledConnection, connection_count, acquire,
  return_connection, init_loop, init, pooled, return_existing, move, move_assign,
}

-- The free connections, and the wrappers that the threads hold.
pub record System (X : Type 0) : Type 0 where
  pub free : List X
  pub held : List (PooledConnection X)

module _ {X : Type 0} where
  -- The connections that a wrapper will give back.
  abbrev pub owned : List (PooledConnection X) → List X
  owned [] = []
  owned (p ∷ ps) = return_existing p [] ++ owned ps

  -- Some thread's call takes effect: its last look at the pool, when it takes a connection; the
  -- destructor of a wrapper; a move from one wrapper to a new one; a move assignment between two.
  pub data Step : System X → System X → Type 0 where
    acquires :
        (free rest : List X) (held : List (PooledConnection X)) (c : X)
        → acquire free [] ≡ lent c rest
        → Step
            (record { free = free; held = held })
            (record { free = rest; held = pooled c ∷ held })
    destroys :
        (free : List X) (held : List (PooledConnection X)) (p : PooledConnection X)
        → Step
            (record { free = free; held = p ∷ held })
            (record { free = return_existing p free; held = held })
    moves :
        (free : List X) (held : List (PooledConnection X)) (p : PooledConnection X)
        → Step
            (record { free = free; held = p ∷ held })
            (record { free = free; held = (move p).0 ∷ (move p).1 ∷ held })
    assigns :
        (free : List X) (held : List (PooledConnection X)) (target other : PooledConnection X)
        → Step
            (record { free = free; held = target ∷ other ∷ held })
            (record {
              free = (move_assign target other free).2;
              held = (move_assign target other free).0 ∷ (move_assign target other free).1 ∷ held;
            })
    swaps :
        (free : List X) (before after : List (PooledConnection X)) (p q : PooledConnection X)
        → Step
            (record { free = free; held = before ++ (p ∷ q ∷ after) })
            (record { free = free; held = before ++ (q ∷ p ∷ after) })

  pub data Reach : System X → System X → Type 0 where
    start : (s : System X) → Reach s s
    next : {s t u : System X} → Step s t → Reach t u → Reach s u

  -- Every connection of the system, free or lent.
  abbrev pub connections : System X → List X
  connections s = s.free ++ owned s.held

  acquire-lent : (free rest : List X) (c : X) → acquire free [] ≡ lent c rest → free ≡ c ∷ rest
  unfolding acquire
  acquire-lent [] rest c h = cc
  acquire-lent (x ∷ free) rest c h = cc

  return_existing-append_fields :
      (connection : Option X) (has_pool : Bool) (free : List X)
      → return_existing (record { connection = connection; has_pool = has_pool }) free
        ≡ free ++ return_existing (record { connection = connection; has_pool = has_pool }) []
  unfolding return_existing return_connection
  return_existing-append_fields none has_pool free = sym (append-nil free)
  return_existing-append_fields (some c) true free = refl
  return_existing-append_fields (some c) false free = sym (append-nil free)

  return_existing-append :
      (p : PooledConnection X) (free : List X)
      → return_existing p free ≡ free ++ return_existing p []
  return_existing-append p = return_existing-append_fields p.connection p.has_pool

  owned-append :
      (before after : List (PooledConnection X))
      → owned (before ++ after) ≡ owned before ++ owned after
  owned-append [] after = refl
  owned-append (p ∷ before) after =
      simp (owned-append before after)
        (sym (append_assoc (return_existing p []) (owned before) (owned after)))

  Perm-≡ : {l m : List X} → l ≡ m → Perm l m
  Perm-≡ {l = l} h = rw (sym h) (Perm.refl l)

  owned-swap :
      (p q : PooledConnection X) (after : List (PooledConnection X))
      → Perm (owned (p ∷ q ∷ after)) (owned (q ∷ p ∷ after))
  owned-swap p q after =
      Perm.trans
        (Perm-≡ (sym (append_assoc (return_existing p []) (return_existing q []) (owned after))))
        (Perm.trans
          (Perm.append_right (owned after)
            (perm_append_comm (return_existing p []) (return_existing q [])))
          (Perm-≡ (append_assoc (return_existing q []) (return_existing p []) (owned after))))

  Step-connections : {s t : System X} → Step s t → Perm (connections s) (connections t)
  unfolding return_existing return_connection pooled move move_assign
  Step-connections (acquires free rest held c h) =
      rw (acquire-lent free rest c h) (Perm.symm (perm_middle rest (owned held)))
  Step-connections (destroys free held p) = Perm-≡ (
      simp (return_existing-append p free)
        (sym (append_assoc free (return_existing p []) (owned held))))
  Step-connections (moves free held p) = Perm-≡ refl
  Step-connections (assigns free held target other) = Perm-≡ (
      simp (return_existing-append target free) (
        sym
          (append_assoc free (return_existing target []) (return_existing other [] ++ owned held))))
  Step-connections (swaps free before after p q) = Perm.append_left free (
      Perm.trans (Perm-≡ (owned-append before (p ∷ q ∷ after))) (
        Perm.trans (Perm.append_left (owned before) (owned-swap p q after))
          (Perm-≡ (sym (owned-append before (q ∷ p ∷ after))))))

  Reach-connections : {s t : System X} → Reach s t → Perm (connections s) (connections t)
  Reach-connections (start s) = Perm.refl (connections s)
  Reach-connections (next step steps) = Perm.trans (Step-connections step) (Reach-connections steps)

  >>=-length :
      (made : Result X) (k : X → Result (List X)) (n : ℕ)
      → ((c : X) (created : List X) → k c ≡ returns created → length created ≡ n)
      → (created : List X) → (made >>= k) ≡ returns created
      → length created ≡ n
  >>=-length (returns c) k n k-length created h = k-length c created h
  >>=-length (throws e) k n k-length created h = cc

  init_loop-length :
      (create : ℕ → Result X) (conn_i left : ℕ) (free created : List X)
      → init_loop create conn_i left free ≡ returns created
      → length created ≡ left + length free
  unfolding init_loop
  init_loop-length create conn_i zero free created h = grind arith
  init_loop-length create conn_i (suc left) free created h =
      >>=-length (create conn_i) (λ c. init_loop create (suc conn_i) left (free ++ (c ∷ [])))
        (suc left + length free)
        (λ c made k.
          init_loop-length create (suc conn_i) left (free ++ (c ∷ [])) made k
          ∙ omega (arith, length-append free (c ∷ [])))
        created h

  -- When Init returns, it made fifty connections. Whatever the threads then acquire, give back and
  -- move, the free ones and the lent ones together are those fifty, each as often as at the start.
  pub init-Reach-connections :
      (create : ℕ → Result X) (free : List X) (s : System X)
      → init create ≡ returns free
      → Reach (record { free = free; held = [] }) s
      → (length free ≡ connection_count) × Perm free (connections s)
  unfolding init
  init-Reach-connections create free s h steps = (
    init_loop-length create 0 connection_count [] free h,
    rw (sym (append-nil free)) (Reach-connections steps),
  )

  -- A call that finds nothing wakes any number of times for nothing. It then ends at the first wake
  -- that shows a free connection, with that one, or at the time limit, with the exception.
  pub acquire_ends :
      (n : ℕ) (c : X) (free : List X) (later : List (Wake X))
      → (acquire [] (replicate n (notified []) ++ (notified (c ∷ free) ∷ later)) ≡ lent c free)
        × (acquire [] (replicate n (notified []) ++ (timed_out free ∷ later))
            ≡ refused
                (connection_exception
                  (codes "Failed to acquire a free database connection within a given time."))
                free)
  unfolding acquire
  acquire_ends zero c free later = (refl, refl)
  acquire_ends (suc n) c free later = acquire_ends n c free later
