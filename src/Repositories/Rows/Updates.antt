-- ===== src/Repositories/Rows/Updates.antt =====
-- What an UPDATE and a DELETE leave of the lookups and of the distinct columns.
use chat_system.Prelude.{
  ◌≡◌, refl, Bool, false, Option, none, some, List, [], ◌∷◌, Text, text_eq, text_eq_iff,
  text_eq_refl, arith, if◌then◌else◌,
}
use chat_system.Repositories.Rows.{keep, find, taken, delete, update_rows, Distinct}
use chat_system.Repositories.Rows.Laws.{find-taken, taken-keep}

module _ {R : Type 0} where
  pub update_rows-absent :
      (column : R → Text) (x : Text) (change : R → R) (rows : List R)
      → taken column x rows ≡ false
      → update_rows column x change rows ≡ rows
  unfolding taken update_rows
  update_rows-absent column x change [] h = refl
  update_rows-absent column x change (r ∷ rows) h =
      ground (arith, update_rows-absent column x change rows)

  -- A change that leaves a column alone.
  pub taken-update_rows :
      (column key : R → Text) (x y : Text) (change : R → R) (rows : List R)
      → ((r : R) → column (change r) ≡ column r)
      → taken column y (update_rows key x change rows) ≡ taken column y rows
  unfolding taken update_rows
  taken-update_rows column key x y change [] same = refl
  taken-update_rows column key x y change (r ∷ rows) same =
      ground (arith, taken-update_rows column key x y change rows same, same r)

  pub Distinct-update_rows :
      (column key : R → Text) (x : Text) (change : R → R) (rows : List R)
      → ((r : R) → column (change r) ≡ column r)
      → Distinct column rows
      → Distinct column (update_rows key x change rows)
  unfolding taken update_rows
  Distinct-update_rows column key x change [] same hs = tt
  Distinct-update_rows column key x change (r ∷ rows) same (h, hs) = (
    ground (
      arith,
      taken-update_rows column key x (column r) change rows same,
      same r,
      taken-update_rows column key x (column (change r)) change rows same,
    ),
    Distinct-update_rows column key x change rows same hs,
  )

  taken-update_rows_new :
      (column key : R → Text) (x v y : Text) (change : R → R) (rows : List R)
      → ((r : R) → column (change r) ≡ v)
      → text_eq v y ≡ false
      → taken column y rows ≡ false
      → taken column y (update_rows key x change rows) ≡ false
  unfolding taken update_rows
  taken-update_rows_new column key x v y change [] new other h = refl
  taken-update_rows_new column key x v y change (r ∷ rows) new other h =
      ground (arith, taken-update_rows_new column key x v y change rows new other, new r)

  pub delete-absent :
      (column : R → Text) (x : Text) (rows : List R)
      → taken column x rows ≡ false
      → delete column x rows ≡ rows
  unfolding taken delete keep
  delete-absent column x [] h = refl
  delete-absent column x (r ∷ rows) h = ground (arith, delete-absent column x rows)

  -- A change that sets a column to a value which no other row has.
  pub Distinct-update_rows_new :
      (column key : R → Text) (x v : Text) (change : R → R) (rows : List R)
      → ((r : R) → column (change r) ≡ v)
      → Distinct key rows
      → Distinct column rows
      → taken column v (delete key x rows) ≡ false
      → Distinct column (update_rows key x change rows)
  unfolding taken update_rows delete keep
  Distinct-update_rows_new column key x v change [] new ks hs free = tt
  Distinct-update_rows_new column key x v change (r ∷ rows) new (k, ks) (h, hs) free = (
    ground (
      arith,
      text_eq_iff (key r) x,
      delete-absent key x rows,
      update_rows-absent key x change rows,
      new r,
      text_eq_iff (column r) v,
      text_eq_iff v (column r),
      taken-update_rows_new column key x v (column r) change rows new,
    ),
    Distinct-update_rows_new column key x v change rows new ks hs (ground arith),
  )

  pub find-update_rows :
      (key : R → Text) (x : Text) (change : R → R) (rows : List R) (r : R)
      → ((q : R) → key (change q) ≡ key q)
      → find key x rows ≡ some r
      → find key x (update_rows key x change rows) ≡ some (change r)
  unfolding find update_rows
  find-update_rows key x change [] r same h = cc
  find-update_rows key x change (q ∷ rows) r same h =
      ground (arith, find-update_rows key x change rows r same, same q)

  -- Deleting rows by one column.
  pub find-delete :
      (column : R → Text) (x y : Text) (rows : List R)
      → find column y (delete column x rows) ≡ (if text_eq y x then none else find column y rows)
  unfolding find delete keep
  find-delete column x y [] = ground arith
  find-delete column x y (r ∷ rows) = ground (
    arith,
    find-delete column x y rows,
    text_eq_iff (column r) x,
    text_eq_iff (column r) y,
    text_eq_iff y x,
    text_eq_refl y,
  )

  abbrev pub if_kept : (R → Bool) → Option R → Option R
  if_kept test none = none
  if_kept test (some r) = if test r then some r else none

  -- Deleting rows that fail a test, when the column tells the rows apart.
  pub find-keep :
      (column : R → Text) (test : R → Bool) (x : Text) (rows : List R)
      → Distinct column rows
      → find column x (keep test rows) ≡ if_kept test (find column x rows)
  unfolding find keep
  find-keep column test x [] hs = refl
  find-keep column test x (r ∷ rows) (h, hs) = ground (
    arith,
    find-keep column test x rows hs,
    find-taken column x rows,
    find-taken column x (keep test rows),
    taken-keep column x test rows,
    text_eq_iff (column r) x,
  )
