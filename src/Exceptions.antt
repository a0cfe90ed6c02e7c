-- ===== src/Exceptions.antt =====
-- The exceptions that the program throws, and a computation that returns or throws.
use chat_system.Prelude.{Text, ◌≡◌, refl, Bool, true, false, not, if◌then◌else◌}

pub data Exception : Type 0 where
  invalid_argument logic_error runtime_error connection_exception transaction_exception
        constraint_exception query_exception json_exception :
      Text → Exception

pub data Result {ℓ} (A : Type ℓ) : Type ℓ where
  returns : A → Result A
  throws : Exception → Result A

infixl 5 ◌>>=◌ ◌>>◌
abbrev pub ◌>>=◌ {ℓ κ} : {A : Type ℓ} {B : Type κ} → Result A → (A → Result B) → Result B
returns a >>= f = f a
throws e >>= f = throws e

abbrev pub ◌>>◌ {ℓ} : {B : Type ℓ} → Result (Unit {0}) → Result B → Result B
m >> k = m >>= λ _. k

pub returns-injective {ℓ} : {A : Type ℓ} (a b : A) → returns a ≡ returns b → a ≡ b
returns-injective a b h = cc

-- The rest of a call that reads and writes a state, which an exception leaves as it is.
abbrev pub continue {ℓ κ ι} :
    {S : Type ℓ} {A : Type κ} {B : Type ι} → Result A × S → (A → S → Result B × S) → Result B × S
continue (returns a, s) f = f a s
continue (throws e, s) f = (throws e, s)

module _ {ℓ} {A B : Type ℓ} {S : Type 0} where
  -- A call that returns: its first part returned, and so did the rest.
  pub continue-returns :
      (m : Result A × S) (k : A → S → Result B × S) (b : B) (db : S)
      → continue m k ≡ (returns b, db)
      → (a : A) × (db' : S) × (m ≡ (returns a, db')) × (k a db' ≡ (returns b, db))
  continue-returns (returns a, db') k b db h = (a, db', refl, h)
  continue-returns (throws e, db') k b db h = cc

  -- The same for a first part that leaves the tables alone.
  pub continue_pure-returns :
      (r : Result A) (db : S) (k : A → S → Result B × S) (b : B) (new : S)
      → continue (r, db) k ≡ (returns b, new)
      → (a : A) × (r ≡ returns a) × (k a db ≡ (returns b, new))
  continue_pure-returns (returns a) db k b new h = (a, refl, h)
  continue_pure-returns (throws e) db k b new h = cc

module _ {ℓ κ} {A : Type ℓ} {B : Type κ} where
  -- The same without a state.
  pub bind-returns :
      (r : Result A) (k : A → Result B) (b : B)
      → (r >>= k) ≡ returns b
      → (a : A) × (r ≡ returns a) × (k a ≡ returns b)
  bind-returns (returns a) k b h = (a, refl, h)
  bind-returns (throws e) k b h = cc

pub then_branch : {A : Type 0} (b : Bool) (r s t : A) → b ≡ true → (if b then r else s) ≡ t → r ≡ t
then_branch true r s t e h = h
then_branch false r s t e h = cc

pub else_branch : {A : Type 0} (b : Bool) (r s t : A) → b ≡ false → (if b then r else s) ≡ t → s ≡ t
else_branch true r s t e h = cc
else_branch false r s t e h = h

-- A guard that throws unless its test holds.
pub guard-returns :
    (b : Bool) (e : Exception) (u : Unit {0})
    → (if not b then throws e else returns tt) ≡ returns u
    → b ≡ true
guard-returns true e u h = refl
guard-returns false e u h = cc

-- A result behind a test for an exception.
pub unless-returns {ℓ} :
    {A : Type ℓ} (b : Bool) (e : Exception) (r : Result A) (a : A)
    → (if b then throws e else r) ≡ returns a
    → (b ≡ false) × (r ≡ returns a)
unless-returns true e r a h = cc
unless-returns false e r a h = (refl, h)
