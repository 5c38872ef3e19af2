-- ===== src/Prelude/Int.antt =====
-- Go's `int`: signed integers with the tests of the source, and `strconv.Atoi`.
use focot_services.Prelude.{
  ltb, leb, ◌==◌, if◌then◌else◌, Text, format_uint, parse_uint, IsDigits, format_uint-injective,
  format_uint-IsDigits, ℕ, zero, suc, ◌+◌, ◌^◌, ◌≡◌, sym, ap, ◌≢◌, Bool, true, false, Option, none,
  some, [], ◌∷◌, arith, ℕ_discrete,
}

-- `negsuc n` is -(n + 1).
pub data ℤ : Type 0 where
  pos : ℕ → ℤ
  negsuc : ℕ → ℤ

-- `0 < z`
abbrev pub is_positive : ℤ → Bool
is_positive (pos n) = ltb 0 n
is_positive (negsuc n) = false

-- `z` as a count, once it is known to be positive.
abbrev pub pos_part : ℤ → ℕ
pos_part (pos n) = n
pos_part (negsuc n) = 0

abbrev negate : ℕ → ℤ
negate zero = pos 0
negate (suc n) = negsuc n

-- The range of a 64-bit `int`.
abbrev signed : Bool → Option ℕ → Option ℤ
signed minus none = none
signed false (some n) = if ltb n (2 ^ 63) then some (pos n) else none
signed true (some n) = if leb n (2 ^ 63) then some (negate n) else none

unfoldable pub atoi : Text → Option ℤ
unfolding parse_uint
atoi [] = none
atoi (c ∷ s) =
    if c == b'-'
    then signed true (parse_uint 64 s)
    else if c == b'+'
    then signed false (parse_uint 64 s)
    else signed false (parse_uint 64 (c ∷ s))

unfoldable pub ℤ_discrete : Discrete ℤ
unfolding ℕ_discrete
ℤ_discrete = hlevel ℕ_discrete

-- `strconv.Itoa`
pub itoa : ℤ → Text
itoa (pos n) = format_uint n
itoa (negsuc n) = b'-' ∷ format_uint (n + 1)

itoa_sign : (m n : ℕ) → format_uint m ≢ b'-' ∷ format_uint n
itoa_sign m n e =
    let d : IsDigits (b'-' ∷ format_uint n) = rw e at (format_uint-IsDigits m) in
    absurd (omega (arith, d.0.0))

pub itoa-injective : (a b : ℤ) → itoa a ≡ itoa b → a ≡ b
unfolding itoa
itoa-injective (pos m) (pos n) e = ap pos (format_uint-injective m n e)
itoa-injective (pos m) (negsuc n) e = absurd (itoa_sign m (n + 1) e)
itoa-injective (negsuc m) (pos n) e = absurd (itoa_sign n (m + 1) (sym e))
itoa-injective (negsuc m) (negsuc n) e =
    let same = format_uint-injective (m + 1) (n + 1) (cc) in ground arith
