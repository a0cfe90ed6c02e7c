-- ===== src/Repositories/Where/Laws.antt =====
-- Conditions on rows after an insertion, a deletion and an update.
use chat_system.Prelude.{
  select, ℕ, zero, suc, ◌≡◌, refl, ◌∙◌, Bool, true, false, not, ◌||◌, List, [], ◌∷◌, ◌++◌, take,
  arith, Bool-cases, inl, inr,
}
use chat_system.Repositories.Rows.{keep}
use chat_system.Repositories.Where.{any, change_where, Unique}

module _ {R : Type 0} where
  pub any-append :
      (test : R → Bool) (rows new : List R)
      → any test (rows ++ new) ≡ (any test rows || any test new)
  unfolding any
  any-append test [] new = refl
  any-append test (r ∷ rows) new = ground (arith, any-append test rows new)

  -- A deletion adds no row.
  pub any-keep-false :
      (test kept : R → Bool) (rows : List R)
      → any test rows ≡ false
      → any test (keep kept rows) ≡ false
  unfolding any keep
  any-keep-false test kept [] h = refl
  any-keep-false test kept (r ∷ rows) h = ground (arith, any-keep-false test kept rows)

  pub any-take-false :
      (test : R → Bool) (n : ℕ) (rows : List R)
      → any test rows ≡ false
      → any test (take n rows) ≡ false
  unfolding any
  any-take-false test zero rows h = refl
  any-take-false test (suc n) [] h = refl
  any-take-false test (suc n) (r ∷ rows) h = ground (arith, any-take-false test n rows)

  -- Rows that pass one test and fail another are not kept by the other.
  pub any-keep_disjoint :
      (test kept : R → Bool) (rows : List R)
      → ((r : R) → test r ≡ true → kept r ≡ false)
      → any test (keep kept rows) ≡ false
  unfolding any keep
  any-keep_disjoint test kept [] h = refl
  any-keep_disjoint test kept (r ∷ rows) h = ground (arith, any-keep_disjoint test kept rows h, h r)

  pub keep-select : (test : R → Bool) (rows : List R) → keep test rows ≡ select test rows
  unfolding keep
  keep-select test [] = refl
  keep-select test (r ∷ rows) = ground (arith, keep-select test rows)

  pub select-keep_none :
      (test kept : R → Bool) (rows : List R)
      → ((r : R) → test r ≡ true → kept r ≡ false)
      → select test (keep kept rows) ≡ []
  unfolding keep
  select-keep_none test kept [] h = refl
  select-keep_none test kept (r ∷ rows) h = ground (arith, select-keep_none test kept rows h, h r)

  pub select-keep_same :
      (test kept : R → Bool) (rows : List R)
      → ((r : R) → test r ≡ true → kept r ≡ true)
      → select test (keep kept rows) ≡ select test rows
  unfolding keep
  select-keep_same test kept [] h = refl
  select-keep_same test kept (r ∷ rows) h = ground (arith, select-keep_same test kept rows h, h r)

  -- A change that leaves the test as it is.
  pub any-change_where :
      (test chosen : R → Bool) (change : R → R) (rows : List R)
      → ((r : R) → test (change r) ≡ test r)
      → any test (change_where chosen change rows) ≡ any test rows
  unfolding any change_where
  any-change_where test chosen change [] h = refl
  any-change_where test chosen change (r ∷ rows) h =
      ground (arith, any-change_where test chosen change rows h, h r)

  -- A change that makes the chosen rows pass.
  pub any-change_where-true :
      (test chosen : R → Bool) (change : R → R) (rows : List R)
      → ((r : R) → chosen r ≡ true → test (change r) ≡ true)
      → any chosen rows ≡ true
      → any test (change_where chosen change rows) ≡ true
  unfolding any change_where
  any-change_where-true test chosen change [] h e = cc
  any-change_where-true test chosen change (r ∷ rows) h e =
      ground (arith, any-change_where-true test chosen change rows h, h r)

  -- A change of other rows.
  pub any-change_where_mono :
      (test chosen : R → Bool) (change : R → R) (rows : List R)
      → ((r : R) → test r ≡ true → test (change r) ≡ true)
      → any test rows ≡ true
      → any test (change_where chosen change rows) ≡ true
  unfolding any change_where
  any-change_where_mono test chosen change [] h e = cc
  any-change_where_mono test chosen change (r ∷ rows) h e =
      ground (arith, any-change_where_mono test chosen change rows h, h r)

  -- No row fails the test.
  abbrev pub Fulfils : (R → Bool) → List R → Type 0
  Fulfils test rows = any (λ r. not (test r)) rows ≡ false

  pub Fulfils-imp :
      (test new : R → Bool) (rows : List R)
      → ((r : R) → test r ≡ true → new r ≡ true)
      → Fulfils test rows
      → Fulfils new rows
  unfolding any
  Fulfils-imp test new [] h k = refl
  Fulfils-imp test new (r ∷ rows) h k = ground (arith, Fulfils-imp test new rows h, h r)

  pub Fulfils-keep :
      (test new kept : R → Bool) (rows : List R)
      → ((r : R) → kept r ≡ true → test r ≡ true → new r ≡ true)
      → Fulfils test rows
      → Fulfils new (keep kept rows)
  unfolding any keep
  Fulfils-keep test new kept [] h k = refl
  Fulfils-keep test new kept (r ∷ rows) h k = ground (arith, Fulfils-keep test new kept rows h, h r)

  pub Fulfils-append :
      (test : R → Bool) (rows : List R) (new : R)
      → Fulfils test rows
      → test new ≡ true
      → Fulfils test (rows ++ (new ∷ []))
  unfolding any
  Fulfils-append test rows new h k = any-append (λ r. not (test r)) rows (new ∷ []) ∙ ground arith

  pub Unique-keep :
      (same_key : R → R → Bool) (kept : R → Bool) (rows : List R)
      → Unique same_key rows
      → Unique same_key (keep kept rows)
  unfolding keep
  Unique-keep same_key kept [] h = tt
  Unique-keep same_key kept (r ∷ rows) (h, hs) = elim (Bool-cases (kept r)) [
    | inl e ↦ rw e (any-keep-false (same_key r) kept rows h, Unique-keep same_key kept rows hs)
    | inr e ↦ rw e (Unique-keep same_key kept rows hs)
  ]

  -- A new row, when a test that finds the rows with its key finds none.
  pub Unique-append :
      (same_key : R → R → Bool) (test : R → Bool) (rows : List R) (new : R)
      → ((r : R) → test r ≡ false → same_key r new ≡ false)
      → Unique same_key rows
      → any test rows ≡ false
      → Unique same_key (rows ++ (new ∷ []))
  unfolding any
  Unique-append same_key test [] new same h free = (refl, tt)
  Unique-append same_key test (r ∷ rows) new same (h, hs) free = (
    any-append (same_key r) rows (new ∷ []) ∙ ground (arith, same r),
    Unique-append same_key test rows new same hs (ground arith),
  )

  any-left :
      (same_key : R → R → Bool) (r s : R) (rows : List R)
      → ((q : R) → same_key s q ≡ same_key r q)
      → any (same_key s) rows ≡ any (same_key r) rows
  unfolding any
  any-left same_key r s [] h = refl
  any-left same_key r s (q ∷ rows) h = ground (arith, any-left same_key r s rows h, h q)

  -- A change that leaves the keys alone.
  pub Unique-change_where :
      (same_key : R → R → Bool) (chosen : R → Bool) (change : R → R) (rows : List R)
      → ((r q : R) → same_key r (change q) ≡ same_key r q)
      → ((r q : R) → same_key (change r) q ≡ same_key r q)
      → Unique same_key rows
      → Unique same_key (change_where chosen change rows)
  unfolding change_where
  Unique-change_where same_key chosen change [] right left h = tt
  Unique-change_where same_key chosen change (r ∷ rows) right left (h, hs) =
      let rest = Unique-change_where same_key chosen change rows right left hs in
      let old = any-change_where (same_key r) chosen change rows (right r) ∙ h in
      elim (Bool-cases (chosen r)) [
        | inl e ↦ rw e (any-left same_key r (change r) _ (left r) ∙ old, rest)
        | inr e ↦ rw e (old, rest)
      ]
