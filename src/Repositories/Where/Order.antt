-- ===== src/Repositories/Where/Order.antt =====
-- ORDER BY returns the rows it is given, in order.
use chat_system.Prelude.{
  ◌≡◌, refl, sym, ap, ◌∙◌, Bool, true, false, ◌||◌, List, [], ◌∷◌, All, arith, Bool-cases, inl, inr,
}
use mathlib.Core.Bool.{Bool-set}
use mathlib.Core.List.{Perm, foldr}
use mathlib.Core.List.Perm
use chat_system.Repositories.Where.{any, insert_row, order_by}

-- What a strict order of the rows by a column satisfies.
pub record IsStrict {R : Type 0} (precedes : R → R → Bool) : Type 0 where
  pub asymmetric : (x y : R) → precedes x y ≡ true → precedes y x ≡ false
  pub negative : (x y z : R) → precedes x y ≡ false → precedes y z ≡ false → precedes x z ≡ false

module _ {R : Type 0} where
  -- No row precedes an earlier one.
  abbrev pub Ordered : (R → R → Bool) → List R → Type 0
  Ordered precedes [] = Unit
  Ordered precedes (x ∷ xs) = All (λ y. precedes y x ≡ false) xs × Ordered precedes xs

  insert_row-Perm :
      (precedes : R → R → Bool) (x : R) (rows : List R)
      → Perm (insert_row precedes x rows) (x ∷ rows)
  unfolding insert_row
  insert_row-Perm precedes x [] = Perm.rfl
  insert_row-Perm precedes x (y ∷ ys) = elim (Bool-cases (precedes y x)) [
    | inl e ↦ rw e (Perm.trans (Perm.cons y (insert_row-Perm precedes x ys)) (Perm.swap x y ys))
    | inr e ↦ rw e Perm.rfl
  ]

  pub order_by-Perm : (precedes : R → R → Bool) (rows : List R) → Perm (order_by precedes rows) rows
  unfolding order_by
  order_by-Perm precedes [] = Perm.rfl
  order_by-Perm precedes (x ∷ xs) =
      Perm.trans (insert_row-Perm precedes x (order_by precedes xs))
        (Perm.cons x (order_by-Perm precedes xs))

  All-insert_row :
      (precedes : R → R → Bool) (P : R → Type 0) (x : R) (rows : List R)
      → P x
      → All P rows
      → All P (insert_row precedes x rows)
  unfolding insert_row
  All-insert_row precedes P x [] h hs = (h, tt)
  All-insert_row precedes P x (y ∷ ys) h (k, ks) = elim (Bool-cases (precedes y x)) [
    | inl e ↦ rw e (k, All-insert_row precedes P x ys h ks)
    | inr e ↦ rw e (h, (k, ks))
  ]

  All-negative :
      (precedes : R → R → Bool) (x y : R) (rows : List R)
      → IsStrict precedes
      → precedes y x ≡ false
      → All (λ z. precedes z y ≡ false) rows
      → All (λ z. precedes z x ≡ false) rows
  All-negative precedes x y [] strict e hs = tt
  All-negative precedes x y (z ∷ rows) strict e (h, hs) =
      (strict.negative z y x h e, All-negative precedes x y rows strict e hs)

  insert_row-Ordered :
      (precedes : R → R → Bool) (x : R) (rows : List R)
      → IsStrict precedes
      → Ordered precedes rows
      → Ordered precedes (insert_row precedes x rows)
  unfolding insert_row
  insert_row-Ordered precedes x [] strict h = (tt, tt)
  insert_row-Ordered precedes x (y ∷ ys) strict (h, hs) = elim (Bool-cases (precedes y x)) [
    | inl e ↦ rw e (
      All-insert_row precedes (λ z. precedes z y ≡ false) x ys (strict.asymmetric y x e) h,
      insert_row-Ordered precedes x ys strict hs,
    )
    | inr e ↦ rw e ((e, All-negative precedes x y ys strict e h), (h, hs))
  ]

  pub order_by-Ordered :
      (precedes : R → R → Bool) (rows : List R)
      → IsStrict precedes
      → Ordered precedes (order_by precedes rows)
  unfolding order_by
  order_by-Ordered precedes [] strict = tt
  order_by-Ordered precedes (x ∷ xs) strict =
      insert_row-Ordered precedes x (order_by precedes xs) strict
        (order_by-Ordered precedes xs strict)

  any-foldr :
      (test : R → Bool) (rows : List R) → any test rows ≡ foldr (λ r b. test r || b) false rows
  unfolding any
  any-foldr test [] = refl
  any-foldr test (r ∷ rows) = ap (◌||◌ (test r)) (any-foldr test rows)

  -- Whether a row passes a test does not depend on the order of the rows.
  pub any-Perm : (test : R → Bool) {xs ys : List R} → Perm xs ys → any test xs ≡ any test ys
  any-Perm test {xs} {ys} p =
      any-foldr test xs
      ∙ Perm.foldr-eq Bool-set (λ r b. test r || b) (λ a b c. ground arith) p false
      ∙ sym (any-foldr test ys)
