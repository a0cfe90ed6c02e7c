-- ===== src/Repositories/Where.antt =====
-- The conditions on several columns that the statements of the chat and the message repository
-- state, ORDER BY, LIMIT and OFFSET.
pub mod Laws
pub mod Order
use chat_system.Prelude.{
  ℕ, ◌^◌, ◌≡◌, Bool, true, false, ◌&&◌, ◌||◌, Option, none, some, List, [], ◌∷◌, take, drop, ltb,
  if◌then◌else◌,
}
use chat_system.Exceptions.{Exception, Result, returns, throws}

module _ {R : Type 0} where
  -- SELECT 1 FROM rows WHERE test.
  unfoldable pub any : (R → Bool) → List R → Bool
  any test [] = false
  any test (r ∷ rows) = test r || any test rows

  -- The first of SELECT * FROM rows WHERE test.
  unfoldable pub first : (R → Bool) → List R → Option R
  first test [] = none
  first test (r ∷ rows) = let rest = first test rows in if test r then some r else rest

  -- UPDATE rows SET ... WHERE test.
  unfoldable pub change_where : (R → Bool) → (R → R) → List R → List R
  change_where test change [] = []
  change_where test change (r ∷ rows) =
      (if test r then change r else r) ∷ change_where test change rows

  -- A primary key of several columns: no row has the key of a later one.
  abbrev pub Unique : (R → R → Bool) → List R → Type 0
  Unique same_key [] = Unit
  Unique same_key (r ∷ rows) = (any (same_key r) rows ≡ false) × Unique same_key rows

  -- A row goes in front of the first row that it does not follow.
  unfoldable pub insert_row : (R → R → Bool) → R → List R → List R
  insert_row precedes x [] = x ∷ []
  insert_row precedes x (y ∷ ys) =
      let rest = insert_row precedes x ys in if precedes y x then y ∷ rest else x ∷ y ∷ ys

  -- ORDER BY. The sort is stable, so that what it does with ties is up to the order of its input.
  unfoldable pub order_by : (R → R → Bool) → List R → List R
  unfolding insert_row
  order_by precedes [] = []
  order_by precedes (x ∷ xs) = insert_row precedes x (order_by precedes xs)

  -- A count is bound as an int64_t, and PostgreSQL refuses a negative one.
  unfoldable pub limit_offset : Exception → ℕ → ℕ → List R → Result (List R)
  limit_offset refused limit offset rows =
      if ltb limit (2 ^ 63) && ltb offset (2 ^ 63)
      then returns (take limit (drop offset rows))
      else throws refused
