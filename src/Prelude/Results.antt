-- ===== src/Prelude/Results.antt =====
-- Go's pair of a value and an `error`, as a sum, with `do` blocks.
use mathlib.Core.Bool.{Bool, true, false}
use mathlib.Core.Path.{◌≡◌, refl}

pub data Result {ℓ} (E A : Type ℓ) : Type ℓ where
  ok : A → Result E A
  err : E → Result E A

infixl 5 ◌>>=◌ ◌>>◌
abbrev pub ◌>>=◌ {ℓ} : {E A B : Type ℓ} → Result E A → (A → Result E B) → Result E B
ok a >>= f = f a
err e >>= f = err e

abbrev pub ◌>>◌ {ℓ} : {E B : Type ℓ} → Result E (Unit {ℓ}) → Result E B → Result E B
m >> k = m >>= λ _. k

-- `if cond { return nil, e }`
abbrev pub reject_if {ℓ} : {E : Type ℓ} → Bool → E → Result E (Unit {ℓ})
reject_if true e = err e
reject_if false e = ok tt

-- What a chain that succeeded went through: its first value, and the way on from it.
pub record Passed {ℓ} {E A B : Type ℓ} (first : Result E A) (next : A → Result E B) (b : B)
    : Type ℓ where
  pub value : A
  pub reached : first ≡ ok value
  pub onward : next value ≡ ok b

pub ok-Passed {ℓ} :
    {E A B : Type ℓ} (first : Result E A) (next : A → Result E B) (b : B)
    → (first >>= next) ≡ ok b
    → Passed first next b
ok-Passed (ok v) next b e = record { value = v; reached = refl; onward = e }
ok-Passed (err x) next b e = cc

-- The same where the way on does not fail.
pub ok_mapped {ℓ} :
    {E A B : Type ℓ} (first : Result E A) (next : A → B) (b : B)
    → (first >>= λ a. ok (next a)) ≡ ok b
    → (a : A) × ((first ≡ ok a) × (next a ≡ b))
ok_mapped (ok a) next b e = (a, (refl, cc))
ok_mapped (err x) next b e = cc

abbrev pub value_or {ℓ} : {E A : Type ℓ} → A → Result E A → A
value_or a (ok b) = b
value_or a (err e) = a

-- A panic of the Go runtime, or a fatal error of it.
pub data Fault : Type 0 where
  nil_dereference unlock_of_unlocked process_exit nil_map_write : Fault
