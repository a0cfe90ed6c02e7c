-- ===== src/Repositories/Rows/Laws.antt =====
-- Lookups after an insertion, a deletion and an update.
use chat_system.Prelude.{
  ◌≡◌, refl, ap, inl, inr, Bool, true, false, ◌||◌, none, some, List, [], ◌∷◌, ◌++◌, Text, text_eq,
  text_eq_iff, text_eq_refl, arith, if◌then◌else◌, Bool-cases,
}
use chat_system.Repositories.Rows.{keep, find, taken, Distinct}

module _ {R : Type 0} where
  if_intro : (P : List R → Type 0) (b : Bool) (x y : List R) → P x → P y → P (if b then x else y)
  if_intro P true x y px py = px
  if_intro P false x y px py = py

  pub find-taken :
      (column : R → Text) (x : Text) (rows : List R)
      → taken column x rows ≡ false
      → find column x rows ≡ none
  unfolding find taken
  find-taken column x [] h = refl
  find-taken column x (r ∷ rows) h = ground (arith, find-taken column x rows)

  pub find-some-taken :
      (column : R → Text) (x : Text) (rows : List R) (r : R)
      → find column x rows ≡ some r
      → taken column x rows ≡ true
  unfolding find taken
  find-some-taken column x [] r h = cc
  find-some-taken column x (q ∷ rows) r h = ground (arith, find-some-taken column x rows r)

  pub find-append :
      (column : R → Text) (x : Text) (rows new : List R)
      → taken column x rows ≡ false
      → find column x (rows ++ new) ≡ find column x new
  unfolding find taken
  find-append column x [] new h = refl
  find-append column x (r ∷ rows) new h = ground (arith, find-append column x rows new)

  pub taken-append :
      (column : R → Text) (x : Text) (rows new : List R)
      → taken column x (rows ++ new) ≡ (taken column x rows || taken column x new)
  unfolding taken
  taken-append column x [] new = refl
  taken-append column x (r ∷ rows) new = ground (arith, taken-append column x rows new)

  pub taken-keep :
      (column : R → Text) (x : Text) (test : R → Bool) (rows : List R)
      → taken column x rows ≡ false
      → taken column x (keep test rows) ≡ false
  unfolding taken keep
  taken-keep column x test [] h = refl
  taken-keep column x test (r ∷ rows) h = ground (arith, taken-keep column x test rows)

  pub Distinct-keep :
      (column : R → Text) (test : R → Bool) (rows : List R)
      → Distinct column rows
      → Distinct column (keep test rows)
  unfolding keep
  Distinct-keep column test [] h = tt
  Distinct-keep column test (r ∷ rows) (h, hs) =
      if_intro (Distinct column) (test r) (r ∷ keep test rows) (keep test rows)
        (taken-keep column (column r) test rows h, Distinct-keep column test rows hs)
        (Distinct-keep column test rows hs)

  pub Distinct-append :
      (column : R → Text) (rows : List R) (new : R)
      → Distinct column rows
      → taken column (column new) rows ≡ false
      → Distinct column (rows ++ (new ∷ []))
  unfolding taken
  Distinct-append column [] new h free = (refl, tt)
  Distinct-append column (r ∷ rows) new (h, hs) free = (
    ground (
      arith,
      taken-append column (column r) rows (new ∷ []),
      text_eq_iff (column r) (column new),
      text_eq_iff (column new) (column r),
    ),
    Distinct-append column rows new hs (ground arith),
  )

  -- A row that is found has its value in every column.
  pub find-taken_column :
      (key column : R → Text) (x : Text) (rows : List R) (r : R)
      → find column x rows ≡ some r
      → taken key (key r) rows ≡ true
  unfolding find taken
  find-taken_column key column x [] r h = cc
  find-taken_column key column x (q ∷ rows) r h =
      ground (arith, find-taken_column key column x rows r, text_eq_refl (key r))

  pub find-singleton : (column : R → Text) (r : R) → find column (column r) (r ∷ []) ≡ some r
  unfolding find
  find-singleton column r = ap (λ b. if b then some r else none) (text_eq_refl (column r))

  pub find-column :
      (column : R → Text) (x : Text) (rows : List R) (r : R)
      → find column x rows ≡ some r
      → column r ≡ x
  unfolding find
  find-column column x [] r h = cc
  find-column column x (q ∷ rows) r h =
      ground (arith, find-column column x rows r, text_eq_iff (column q) x)

  pub find-some :
      (column : R → Text) (x : Text) (rows : List R)
      → taken column x rows ≡ true
      → (r : R) × (find column x rows ≡ some r) × (column r ≡ x)
  unfolding find taken
  find-some column x [] h = cc
  find-some column x (r ∷ rows) h = elim (Bool-cases (text_eq (column r) x)) [
    | inl e ↦ (r, simp e refl, (text_eq_iff (column r) x).0 e)
    | inr e ↦
        let (q, found, same) = find-some column x rows (ground arith) in (q, ground arith, same)
  ]

  -- Under distinct keys, a row that some column finds is the row that its key finds.
  pub find-key :
      (key column : R → Text) (x : Text) (rows : List R) (r : R)
      → Distinct key rows
      → find column x rows ≡ some r
      → find key (key r) rows ≡ some r
  unfolding find taken
  find-key key column x [] r hs h = cc
  find-key key column x (q ∷ rows) r (h, hs) found = ground (
    arith,
    find-key key column x rows r hs,
    find-taken_column key column x rows r,
    text_eq_iff (key q) (key r),
    text_eq_refl (key r),
  )
