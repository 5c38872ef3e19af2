-- ===== src/Prelude/Strings.antt =====
-- Texts as lists of code points, with the functions of Go's `strings` that the services call.
use Prim.Native.Char.{code}
use Prim.Native.String.{String}
use Prim.Native.Nat.{ℕ}
use mathlib.Core.Path.{◌≡◌, refl, ap, ◌∙◌}
use mathlib.Core.Logic.{◌≢◌, inl, inr}
use mathlib.Core.Bool.{Bool, true, false, ◌&&◌, ◌||◌}
use mathlib.Core.List.{List, [], ◌∷◌, ◌++◌, reverse}
use native.Mathlib.Decide.{ℕ_discrete}
use native.Mathlib.Omega.{arith}
use focot_services.Prelude.Lists.{contains}
use focot_services.Prelude.Tests.{leb, ◌==◌, if◌then◌else◌, Bool-cases}

abbrev pub Text : Type 0
Text = List ℕ

abbrev pub codes : String → Text
codes String.[] = []
codes (String.◌∷◌ c s) = code c ∷ codes s

unfoldable pub text_dec : Discrete Text
unfolding ℕ_discrete
text_dec = hlevel ℕ_discrete

add_char : ℕ → List Text → List Text
add_char c [] = (c ∷ []) ∷ []
add_char c (p ∷ ps) = (c ∷ p) ∷ ps

-- `strings.Split(s, sep)` at a separator of one character: never empty.
unfoldable pub split : ℕ → Text → List Text
unfolding add_char
split sep [] = [] ∷ []
split sep (c ∷ s) = let parts = split sep s in if c == sep then [] ∷ parts else add_char c parts

-- `strings.Join(parts, sep)`
unfoldable pub join : ℕ → List Text → Text
join sep [] = []
join sep (p ∷ []) = p
join sep (p ∷ q ∷ ps) = p ++ sep ∷ join sep (q ∷ ps)

-- `parts[:len(parts)-1]` and `parts[len(parts)-1]`
unfoldable pub init_parts : List Text → List Text
init_parts [] = []
init_parts (p ∷ []) = []
init_parts (p ∷ q ∷ ps) = p ∷ init_parts (q ∷ ps)

unfoldable pub last_part : List Text → Text
last_part [] = []
last_part (p ∷ []) = p
last_part (p ∷ q ∷ ps) = last_part (q ∷ ps)

-- `unicode.IsSpace`
unfoldable pub is_space : ℕ → Bool
is_space c =
    (leb 9 c && leb c 13)
    || c == 32
    || c == 0x85
    || c == 0xA0
    || c == 0x1680
    || (leb 0x2000 c && leb c 0x200A)
    || c == 0x2028
    || c == 0x2029
    || c == 0x202F
    || c == 0x205F
    || c == 0x3000

trim_left : Text → Text
trim_left [] = []
trim_left (c ∷ s) = if is_space c then trim_left s else c ∷ s

-- `strings.TrimSpace`
unfoldable pub trim_space : Text → Text
unfolding trim_left is_space
trim_space s = reverse (trim_left (reverse (trim_left s)))

split_test : split b'.' (codes "a.b..c") ≡ codes "a" ∷ codes "b" ∷ [] ∷ codes "c" ∷ []
unfolding split
split_test = refl

join-add_char : (sep c : ℕ) (ps : List Text) → join sep (add_char c ps) ≡ c ∷ join sep ps
unfolding join add_char
join-add_char sep c [] = refl
join-add_char sep c (p ∷ []) = refl
join-add_char sep c (p ∷ q ∷ ps) = refl

join-cons_nil : (sep : ℕ) (ps : List Text) → ps ≢ [] → join sep ([] ∷ ps) ≡ sep ∷ join sep ps
unfolding join
join-cons_nil sep [] h = absurd (h refl)
join-cons_nil sep (p ∷ ps) h = refl

pub split-ne-nil : (sep : ℕ) (s : Text) → split sep s ≢ []
unfolding split
split-ne-nil sep [] = ground arith
split-ne-nil sep (c ∷ s) = ground (arith, split-ne-nil sep s)

-- Joining the parts of a split gives the text back.
pub join-split : (sep : ℕ) (s : Text) → join sep (split sep s) ≡ s
unfolding split
join-split sep [] = unfold join in refl
join-split sep (c ∷ s) = ground (
  arith,
  join-split sep s,
  join-add_char sep c (split sep s),
  join-cons_nil sep (split sep s),
  split-ne-nil sep s,
)

-- A text with no separator is one part.
split-Lacks : (sep : ℕ) (s : Text) → contains ℕ_discrete s sep ≡ false → split sep s ≡ s ∷ []
unfolding split add_char
split-Lacks sep [] h = refl
split-Lacks sep (c ∷ s) h =
    let same : (c == sep) ≡ false = ground arith in rw (same, split-Lacks sep s (ground arith))

-- Parts before a separator and behind it.
split-parts :
    (sep : ℕ) (p q : Text)
    → (a b : Text) × ((ps : List Text) × (split sep (p ++ sep ∷ q) ≡ a ∷ b ∷ ps)
        × (last_part (split sep (p ++ sep ∷ q)) ≡ last_part (split sep q)))
unfolding split last_part add_char
split-parts sep [] q = go (split sep q) refl (split-ne-nil sep q)
  where
    go :
        (parts : List Text)
        → split sep q ≡ parts
        → split sep q ≢ []
        → (a b : Text) × ((ps : List Text) × (split sep (sep ∷ q) ≡ a ∷ b ∷ ps)
            × (last_part (split sep (sep ∷ q)) ≡ last_part (split sep q)))
    go [] e h = absurd (h e)
    go (b ∷ ps) e h =
        let same : (sep == sep) ≡ true = ground arith in ([], b, (ps, rw (same, e), rw (same, e)))
split-parts sep (c ∷ p) q =
    let (a, b, rest) = split-parts sep p q in
    let (ps, shape, last) = rest in
    elim (Bool-cases (c == sep)) [
      | inl cut ↦ ([], a, (b ∷ ps, rw (cut, shape), rw cut (rw shape (rw shape at last))))
      | inr more ↦ (c ∷ a, b, (ps, rw (more, shape), rw more (rw shape (rw shape at last))))
    ]

-- `subject[len(subject)-1]`: what stands behind the last separator.
pub last_part-split :
    (sep : ℕ) (p q : Text)
    → contains ℕ_discrete q sep ≡ false
    → last_part (split sep (p ++ sep ∷ q)) ≡ q
last_part-split sep p q h =
    let (_, _, rest) = split-parts sep p q in
    rest.2 ∙ rw (split-Lacks sep q h) (unfold last_part in refl)

-- The first part ends at the first separator.
pub split-first :
    (sep : ℕ) (p s : Text)
    → contains ℕ_discrete p sep ≡ false
    → split sep (p ++ sep ∷ s) ≡ p ∷ split sep s
unfolding split add_char
split-first sep [] s h = ground arith
split-first sep (c ∷ p) s h = ground (arith, split-first sep p s)

add_char-append :
    (c : ℕ) (ps qs : List Text) → ps ≢ [] → add_char c (ps ++ qs) ≡ add_char c ps ++ qs
unfolding add_char
add_char-append c [] qs h = absurd (h refl)
add_char-append c (p ∷ ps) qs h = refl

init_parts-concat : (ps : List Text) (q : Text) → init_parts (ps ++ q ∷ []) ≡ ps
unfolding init_parts
init_parts-concat [] q = refl
init_parts-concat (p ∷ []) q = refl
init_parts-concat (p ∷ r ∷ ps) q = ap (λ l. p ∷ l) (init_parts-concat (r ∷ ps) q)

-- A last part is split off behind the parts before it.
split-last :
    (sep : ℕ) (p q : Text)
    → contains ℕ_discrete q sep ≡ false
    → split sep (p ++ sep ∷ q) ≡ split sep p ++ q ∷ []
unfolding split
split-last sep [] q h = ground (arith, split-Lacks sep q h)
split-last sep (c ∷ p) q h = elim (Bool-cases (c == sep)) [
  | inl cut ↦ rw (cut, split-last sep p q h) refl
  | inr more ↦
      rw (more, split-last sep p q h)
        (add_char-append c (split sep p) (q ∷ []) (split-ne-nil sep p))
]

-- The parts before the last, joined again, are the text before the last separator.
pub join-init_parts :
    (sep : ℕ) (p q : Text)
    → contains ℕ_discrete q sep ≡ false
    → join sep (init_parts (split sep (p ++ sep ∷ q))) ≡ p
join-init_parts sep p q h =
    ap (λ l. join sep (init_parts l)) (split-last sep p q h)
    ∙ ap (join sep) (init_parts-concat (split sep p) q)
    ∙ join-split sep p
