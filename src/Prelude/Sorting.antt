-- ===== src/Prelude/Sorting.antt =====
-- `sort.Strings`: texts in the order of their bytes, which is that of their code points.
use focot_services.Prelude.Tests.{ltb, ◌==◌, if◌then◌else◌, Bool-cases, is_yes}
use focot_services.Prelude.Lists.{contains, Distinct}
use focot_services.Prelude.Strings.{Text, text_dec}
use mathlib.Core.Path.{◌≡◌, refl}
use mathlib.Core.Bool.{Bool, true, false, ◌||◌, ◌&&◌}
use mathlib.Core.Logic.{inl, inr}
use mathlib.Core.List.{List, [], ◌∷◌}
use native.Mathlib.Omega.{arith}

unfoldable pub text_leb : Text → Text → Bool
text_leb [] t = true
text_leb (c ∷ s) [] = false
text_leb (c ∷ s) (d ∷ t) = ltb c d || (c == d && text_leb s t)

place : Text → List Text → List Text
place t [] = t ∷ []
place t (u ∷ us) = if text_leb t u then t ∷ u ∷ us else u ∷ place t us

unfoldable pub sort_texts : List Text → List Text
unfolding place text_leb
sort_texts [] = []
sort_texts (t ∷ ts) = place t (sort_texts ts)

abbrev pub IsSorted : List Text → Type 0
IsSorted [] = Unit
IsSorted (t ∷ []) = Unit
IsSorted (t ∷ u ∷ us) = (text_leb t u ≡ true) × IsSorted (u ∷ us)

text_leb_total : (s t : Text) → text_leb s t ≡ false → text_leb t s ≡ true
unfolding text_leb
text_leb_total [] t h = cc
text_leb_total (c ∷ s) [] h = refl
text_leb_total (c ∷ s) (d ∷ t) h = ground (arith, text_leb_total s t)

place_above :
    (u t : Text) (us : List Text)
    → IsSorted (u ∷ us)
    → text_leb u t ≡ true
    → IsSorted (u ∷ place t us)
unfolding place
place_above u t [] h le = (le, tt)
place_above u t (v ∷ us) h le = elim (Bool-cases (text_leb t v)) [
  | inl first ↦ rw first (le, (first, h.1))
  | inr later ↦ rw later (h.0, place_above v t us h.1 (text_leb_total t v later))
]

place-IsSorted : (t : Text) (us : List Text) → IsSorted us → IsSorted (place t us)
unfolding place
place-IsSorted t [] h = tt
place-IsSorted t (u ∷ us) h = elim (Bool-cases (text_leb t u)) [
  | inl le ↦ rw le (le, h)
  | inr gt ↦ rw gt (place_above u t us h (text_leb_total t u gt))
]

pub sort_texts-IsSorted : (ts : List Text) → IsSorted (sort_texts ts)
unfolding sort_texts
sort_texts-IsSorted [] = tt
sort_texts-IsSorted (t ∷ ts) = place-IsSorted t (sort_texts ts) (sort_texts-IsSorted ts)

place-contains :
    (t a : Text) (us : List Text)
    → contains text_dec (place t us) a ≡ (is_yes (text_dec t a) || contains text_dec us a)
unfolding place
place-contains t a [] = refl
place-contains t a (u ∷ us) = ground (arith, place-contains t a us)

pub sort_texts-contains :
    (ts : List Text) (a : Text) → contains text_dec (sort_texts ts) a ≡ contains text_dec ts a
unfolding sort_texts
sort_texts-contains [] a = refl
sort_texts-contains (t ∷ ts) a =
    ground (arith, place-contains t a (sort_texts ts), sort_texts-contains ts a)

place-Distinct :
    (t : Text) (us : List Text)
    → contains text_dec us t ≡ false
    → Distinct text_dec us
    → Distinct text_dec (place t us)
unfolding place
place-Distinct t [] h d = (refl, tt)
place-Distinct t (u ∷ us) h d = elim (Bool-cases (text_leb t u)) [
  | inl le ↦ rw le (h, d)
  | inr gt ↦ rw gt (ground (arith, place-contains t u us), place-Distinct t us (ground arith) d.1)
]

pub sort_texts-Distinct :
    (ts : List Text) → Distinct text_dec ts → Distinct text_dec (sort_texts ts)
unfolding sort_texts
sort_texts-Distinct [] d = tt
sort_texts-Distinct (t ∷ ts) d =
    place-Distinct t (sort_texts ts) (ground (arith, sort_texts-contains ts t))
      (sort_texts-Distinct ts d.1)
