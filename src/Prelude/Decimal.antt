-- ===== src/Prelude/Decimal.antt =====
-- `strconv.FormatUint(n, 10)` and `strconv.ParseUint(s, 10, bits)`, and that they agree.
use Prim.Native.Nat.{ℕ, zero, suc, ◌+◌, ◌-◌, ◌*◌, ◌/◌, ◌%◌, ◌^◌, ◌≤◌, ◌<◌}
use mathlib.Core.Path.{◌≡◌, refl, sym, ap, ◌∙◌}
use mathlib.Core.Logic.{◌≢◌, inl, inr}
use mathlib.Core.Bool.{true, ◌&&◌}
use mathlib.Core.Option.{Option, none, some}
use mathlib.Core.List.{[], ◌∷◌, ◌++◌}
use native.Mathlib.Omega.{arith}
use focot_services.Prelude.Tests.{ltb, leb, if◌then◌else◌, Bool-cases}
use focot_services.Prelude.Lists.{All}
use focot_services.Prelude.Strings.{Text, codes}

-- The digits of `n` before `rest`. A number below `fuel` has fewer digits than `fuel`.
digits : ℕ → ℕ → Text → Text
digits zero n rest = rest
digits (suc fuel) n rest =
    let more = digits fuel (n / 10) ((b'0' + n % 10) ∷ rest) in
    if ltb n 10 then (b'0' + n) ∷ rest else more

unfoldable pub format_uint : ℕ → Text
unfolding digits
format_uint n = digits (suc n) n []

-- The value of the digits of a text behind a value already read, unbounded.
scan : ℕ → Text → Option ℕ
scan acc [] = some acc
scan acc (c ∷ s) =
    let rest = scan (acc * 10 + (c - b'0')) s in if leb b'0' c && leb c b'9' then rest else none

within : ℕ → Option ℕ → Option ℕ
within bits none = none
within bits (some n) = if ltb n (2 ^ bits) then some n else none

-- The source stops at the first digit that passes the range: the same texts are refused.
unfoldable pub parse_uint : ℕ → Text → Option ℕ
unfolding scan within
parse_uint bits [] = none
parse_uint bits (c ∷ s) = within bits (scan 0 (c ∷ s))

-- A digit in front is read back.
scan-digit :
    (acc d : ℕ) (rest : Text) → d < 10 → scan acc ((b'0' + d) ∷ rest) ≡ scan (acc * 10 + d) rest
unfolding scan
scan-digit acc d rest h =
    let e : b'0' + d - b'0' ≡ d = omega arith in
    let inside : (leb b'0' (b'0' + d) && leb (b'0' + d) b'9') ≡ true = ground arith in
    rw (inside, e)

scan-digits : (fuel n : ℕ) (rest : Text) → n < fuel → scan 0 (digits fuel n rest) ≡ scan n rest
unfolding digits
scan-digits zero n rest h = elim h [ ]
scan-digits (suc fuel) n rest h = elim (Bool-cases (ltb n 10)) [
  | inl small ↦ rw small (scan-digit 0 n rest (ground arith) ∙ ap (λ k. scan k rest) (omega arith))
  | inr big ↦ rw big (
      scan-digits fuel (n / 10) ((b'0' + n % 10) ∷ rest) (ground arith)
      ∙ scan-digit (n / 10) (n % 10) rest (omega arith)
      ∙ ap (λ k. scan k rest) (omega arith))
]

digits-cons-ne-nil : (fuel n c : ℕ) (rest : Text) → digits fuel n (c ∷ rest) ≢ []
unfolding digits
digits-cons-ne-nil zero n c rest = ground arith
digits-cons-ne-nil (suc fuel) n c rest =
    ground (arith, digits-cons-ne-nil fuel (n / 10) (b'0' + n % 10) (c ∷ rest))

format_uint-ne-nil : (n : ℕ) → format_uint n ≢ []
unfolding format_uint
format_uint-ne-nil n = ground (arith, digits-cons-ne-nil n (n / 10) (b'0' + n % 10) [])

parse_uint_of_ne-nil : (bits : ℕ) (s : Text) → s ≢ [] → parse_uint bits s ≡ within bits (scan 0 s)
unfolding parse_uint
parse_uint_of_ne-nil bits [] h = absurd (h refl)
parse_uint_of_ne-nil bits (c ∷ s) h = refl

-- Reading what was printed gives the number back, whatever number fits the width.
pub parse_uint-format_uint : (bits n : ℕ) → n < 2 ^ bits → parse_uint bits (format_uint n) ≡ some n
parse_uint-format_uint bits n h =
    parse_uint_of_ne-nil bits (format_uint n) (format_uint-ne-nil n)
    ∙ unfold format_uint in
      rw (scan-digits (suc n) n [] (omega arith)) (unfold scan within in ground arith)

scan-format_uint : (n : ℕ) → scan 0 (format_uint n) ≡ some n
unfolding format_uint
scan-format_uint n = rw (scan-digits (suc n) n [] (omega arith)) (unfold scan in refl)

-- Two numbers with one decimal text are one number.
pub format_uint-injective : (m n : ℕ) → format_uint m ≡ format_uint n → m ≡ n
format_uint-injective m n e =
    let both : some m ≡ some n = sym (scan-format_uint m) ∙ ap (scan 0) e ∙ scan-format_uint n in cc

abbrev pub IsDigits : Text → Type 0
IsDigits = All (λ c. (b'0' ≤ c) × (c ≤ b'9'))

digits-IsDigits : (fuel n : ℕ) (rest : Text) → IsDigits rest → IsDigits (digits fuel n rest)
unfolding digits
digits-IsDigits zero n rest h = h
digits-IsDigits (suc fuel) n rest h = elim (Bool-cases (ltb n 10)) [
  | inl small ↦ rw small ((omega arith, ground arith), h)
  | inr big ↦
      rw big
        (digits-IsDigits fuel (n / 10) ((b'0' + n % 10) ∷ rest) ((omega arith, omega arith), h))
]

-- A printed number holds no separator.
pub format_uint-IsDigits : (n : ℕ) → IsDigits (format_uint n)
unfolding format_uint
format_uint-IsDigits n = digits-IsDigits (suc n) n [] tt

parse_test :
    (parse_uint 64 (codes "18446744073709551615") ≡ some 18446744073709551615)
    × (parse_uint 64 (codes "18446744073709551616") ≡ none)
    × (parse_uint 64 (codes "-1") ≡ none)
    × (parse_uint 64 [] ≡ none)
unfolding parse_uint
parse_test = (refl, refl, refl, refl)

-- Where digits end at one separator, both parts are determined.
digits-split :
    (xs ys r t : Text)
    → IsDigits xs
    → IsDigits ys
    → xs ++ b':' ∷ r ≡ ys ++ b':' ∷ t
    → (xs ≡ ys) × (r ≡ t)
digits-split [] [] r t h k e = ground arith
digits-split [] (y ∷ ys) r t h k e = absurd (ground arith)
digits-split (x ∷ xs) [] r t h k e = absurd (ground arith)
digits-split (x ∷ xs) (y ∷ ys) r t h k e =
    let tails : xs ++ b':' ∷ r ≡ ys ++ b':' ∷ t = cc in
    let (same, rest) = digits-split xs ys r t h.1 k.1 tails in (ground arith, rest)

-- The number before a colon, and what stands behind it.
pub format_uint-colon :
    (m n : ℕ) (r t : Text)
    → format_uint m ++ b':' ∷ r ≡ format_uint n ++ b':' ∷ t
    → (m ≡ n) × (r ≡ t)
format_uint-colon m n r t e =
    let (same, rest) =
      digits-split (format_uint m) (format_uint n) r t (format_uint-IsDigits m)
        (format_uint-IsDigits n) e in
    (format_uint-injective m n same, rest)
