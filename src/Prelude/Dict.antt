-- ===== src/Prelude/Dict.antt =====
-- Go maps as association lists with one entry for each key. The order of the entries stands for
-- the order in which `range` visits them, which Go leaves open.
use mathlib.Core.Path.{◌≡◌, refl}
use mathlib.Core.Logic.{ite}
use mathlib.Core.Option.{Option, none, some}
use mathlib.Core.Bool.{true, false, ◌||◌}
use mathlib.Core.List.{List, [], ◌∷◌}
use native.Mathlib.Omega.{arith}
use focot_services.Prelude.Tests.{is_yes}
use focot_services.Prelude.Lists.{contains, Distinct}

module _ {ℓ} {K V : Type ℓ} where
  abbrev pub keys : List (K × V) → List K
  keys [] = []
  keys ((k, _) ∷ m) = k ∷ keys m

module _ {ℓ} {K V : Type ℓ} (dec : Discrete K) where
  -- `v, ok := m[k]`
  abbrev pub lookup : K → List (K × V) → Option V
  lookup k [] = none
  lookup k ((j, v) ∷ m) = ite (dec j k) (some v) (lookup k m)

  -- `m[k] = v`
  abbrev pub insert : K → V → List (K × V) → List (K × V)
  insert k v [] = (k, v) ∷ []
  insert k v ((j, w) ∷ m) = ite (dec j k) ((j, v) ∷ m) ((j, w) ∷ insert k v m)

  -- `delete(m, k)`
  abbrev pub delete : K → List (K × V) → List (K × V)
  delete k [] = []
  delete k ((j, w) ∷ m) = ite (dec j k) (delete k m) ((j, w) ∷ delete k m)

  pub lookup-insert :
      (k j : K) (v : V) (m : List (K × V))
      → lookup j (insert k v m) ≡ ite (dec k j) (some v) (lookup j m)
  lookup-insert k j v [] = refl
  lookup-insert k j v ((i, w) ∷ m) = ground (arith, lookup-insert k j v m)

  pub lookup-delete :
      (k j : K) (m : List (K × V)) → lookup j (delete k m) ≡ ite (dec k j) none (lookup j m)
  lookup-delete k j [] = ground arith
  lookup-delete k j ((i, w) ∷ m) = ground (arith, lookup-delete k j m)

  -- A lookup succeeds exactly at the keys.
  pub contains-keys :
      (k : K) (m : List (K × V))
      → contains dec (keys m) k ≡ elim (lookup k m) [ none ↦ false | some _ ↦ true ]
  contains-keys k [] = refl
  contains-keys k ((j, v) ∷ m) = ground (arith, contains-keys k m)

  pub contains-insert :
      (k j : K) (v : V) (m : List (K × V))
      → contains dec (keys (insert k v m)) j ≡ (is_yes (dec k j) || contains dec (keys m) j)
  contains-insert k j v [] = refl
  contains-insert k j v ((i, w) ∷ m) = ground (arith, contains-insert k j v m)

  pub Distinct-insert :
      (k : K) (v : V) (m : List (K × V))
      → Distinct dec (keys m)
      → Distinct dec (keys (insert k v m))
  Distinct-insert k v [] d = (refl, tt)
  Distinct-insert k v ((j, w) ∷ m) d =
      ground (arith, contains-insert k j v m, Distinct-insert k v m)

-- What is true of every value of a map.
module _ {ℓ κ} {K V : Type ℓ} (P : V → Type κ) where
  abbrev pub AllValues : List (K × V) → Type κ
  AllValues [] = Unit
  AllValues ((_, v) ∷ m) = P v × AllValues m

module _ {ℓ κ} {K V : Type ℓ} (dec : Discrete K) (P : V → Type κ) where
  pub AllValues-insert :
      (k : K) (v : V) (m : List (K × V)) → P v → AllValues P m → AllValues P (insert dec k v m)
  AllValues-insert k v [] h hm = (h, tt)
  AllValues-insert k v ((j, w) ∷ m) h hm =
      elim (dec j k) as (λ d. AllValues P (ite d ((j, v) ∷ m) ((j, w) ∷ insert dec k v m))) [
        | yes e ↦ (h, hm.1)
        | no n ↦ (hm.0, AllValues-insert k v m h hm.1)
      ]

  pub lookup-AllValues :
      (k : K) (v : V) (m : List (K × V)) → AllValues P m → lookup dec k m ≡ some v → P v
  lookup-AllValues k v [] hm e = absurd (cc)
  lookup-AllValues k v ((j, w) ∷ m) hm e =
      (elim (dec j k) as (λ d. ite d (some w) (lookup dec k m) ≡ some v → P v) [
        | yes _ ↦ λ found. (let same : w ≡ v = cc in rw (← same) (hm.0))
        | no _ ↦ λ found. lookup-AllValues k v m hm.1 found
      ])
        e
