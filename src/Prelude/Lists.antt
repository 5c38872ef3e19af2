-- ===== src/Prelude/Lists.antt =====
-- Lists measured by native numbers, and membership as the source tests it.
use Prim.Native.Nat.{ℕ, suc, ◌+◌}
use mathlib.Core.Path.{◌≡◌, refl, sym}
use mathlib.Core.Bool.{Bool, true, false, ◌||◌}
use mathlib.Core.List.{List, [], ◌∷◌, ◌++◌}
use native.Mathlib.Omega.{arith}
use focot_services.Prelude.Tests.{if◌then◌else◌, is_yes}

module _ {ℓ} {A : Type ℓ} where
  abbrev pub length : List A → ℕ
  length [] = 0
  length (x ∷ xs) = suc (length xs)

  pub length-append : (xs ys : List A) → length (xs ++ ys) ≡ length xs + length ys
  length-append [] ys = omega arith
  length-append (x ∷ xs) ys = omega (arith, length-append xs ys)

  pub length-concat : (xs : List A) (x : A) → length (xs ++ x ∷ []) ≡ suc (length xs)
  length-concat xs x = omega (arith, length-append xs (x ∷ []))

module _ {ℓ κ} {A : Type ℓ} (P : A → Type κ) where
  abbrev pub All : List A → Type κ
  All [] = Unit
  All (x ∷ xs) = P x × All xs

  pub All-append : (xs ys : List A) → All xs → All ys → All (xs ++ ys)
  All-append [] ys hx hy = hy
  All-append (x ∷ xs) ys hx hy = (hx.0, All-append xs ys hx.1 hy)

-- `slices.Contains`.
module _ {ℓ} {A : Type ℓ} (dec : Discrete A) where
  abbrev pub contains : List A → A → Bool
  contains [] a = false
  contains (x ∷ xs) a = is_yes (dec x a) || contains xs a

  pub contains-append :
      (xs ys : List A) (a : A) → contains (xs ++ ys) a ≡ (contains xs a || contains ys a)
  contains-append [] ys a = refl
  contains-append (x ∷ xs) ys a = ground (arith, contains-append xs ys a)

  -- To add an element that is there already changes no membership.
  pub contains_again :
      (xs : List A) (a k : A)
      → contains xs a ≡ true
      → (is_yes (dec a k) || contains xs k) ≡ contains xs k
  contains_again xs a k h = elim (dec a k) as (λ d. (is_yes d || contains xs k) ≡ contains xs k) [
    | yes e ↦ rw (← e) (sym h)
    | no n ↦ refl
  ]

-- The elements that pass a test, in order.
module _ {ℓ} {A : Type ℓ} where
  abbrev pub keep : (A → Bool) → List A → List A
  keep p [] = []
  keep p (x ∷ xs) = if p x then x ∷ keep p xs else keep p xs

-- No element twice.
module _ {ℓ} {A : Type ℓ} (dec : Discrete A) where
  abbrev pub Distinct : List A → Type 0
  Distinct [] = Unit
  Distinct (x ∷ xs) = (contains dec xs x ≡ false) × Distinct xs

  pub Distinct-concat :
      (xs : List A) (a : A) → contains dec xs a ≡ false → Distinct xs → Distinct (xs ++ a ∷ [])
  Distinct-concat [] a h d = (refl, tt)
  Distinct-concat (x ∷ xs) a h d =
      (ground (arith, contains-append dec xs (a ∷ []) x), Distinct-concat xs a (ground arith) d.1)

module _ {ℓ κ μ} {A : Type ℓ} {P : A → Type κ} {Q : A → Type μ} where
  pub All-map : ((x : A) → P x → Q x) → (xs : List A) → All P xs → All Q xs
  All-map f [] h = tt
  All-map f (x ∷ xs) h = (f x h.0, All-map f xs h.1)
