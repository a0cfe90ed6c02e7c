-- ===== src/Repositories/Rows.antt =====
-- Rows of a table, and the conditions `column = $1` of the repositories' statements.
pub mod Laws
pub mod Updates
use chat_system.Prelude.{
  ℕ, zero, suc, ◌+◌, ◌-◌, ◌*◌, ◌/◌, ◌%◌, ◌^◌, ◌≤◌, ◌<◌, min, ◌≡◌, refl, sym, ap, ◌∙◌, ◌≢◌, ◌↔◌, ◌⊎◌,
  inl, inr, Bool, true, false, not, ◌&&◌, ◌||◌, Option, none, some, List, [], ◌∷◌, ◌++◌, map,
  append-nil, append_assoc, String, Text, codes, text_eq, text_eq_iff, text_eq_refl, length, set,
  take, drop, replicate, All, length-append, length-set, length-take, length-replicate, arith, ltb,
  leb, ◌==◌, if◌then◌else◌, Bool-cases, Option-cases, ltb→lt, lt→ltb, leb→le, ==_iff, tests,
}

module _ {R : Type 0} where
  -- DELETE FROM rows WHERE NOT test.
  unfoldable pub keep : (R → Bool) → List R → List R
  keep test [] = []
  keep test (r ∷ rows) = let rest = keep test rows in if test r then r ∷ rest else rest

  -- The first of SELECT * FROM rows WHERE column = $1.
  unfoldable pub find : (R → Text) → Text → List R → Option R
  find column x [] = none
  find column x (r ∷ rows) =
      let rest = find column x rows in if text_eq (column r) x then some r else rest

  -- What a UNIQUE constraint or a foreign key on the column looks up.
  unfoldable pub taken : (R → Text) → Text → List R → Bool
  taken column x [] = false
  taken column x (r ∷ rows) = text_eq (column r) x || taken column x rows

  -- DELETE FROM rows WHERE column = $1.
  unfoldable pub delete : (R → Text) → Text → List R → List R
  unfolding keep
  delete column x rows = keep (λ r. not (text_eq (column r) x)) rows

  -- UPDATE rows SET ... WHERE column = $1.
  unfoldable pub update_rows : (R → Text) → Text → (R → R) → List R → List R
  update_rows column x change [] = []
  update_rows column x change (r ∷ rows) =
      (if text_eq (column r) x then change r else r) ∷ update_rows column x change rows

  -- No two rows share the value of the column.
  abbrev pub Distinct : (R → Text) → List R → Type 0
  Distinct column [] = Unit
  Distinct column (r ∷ rows) = (taken column (column r) rows ≡ false) × Distinct column rows
