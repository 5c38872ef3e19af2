-- ===== src/Damaku/Wash/Rescan.antt =====
-- io-bilive-damaku/cmd/wash.go: which files a scan finds, and finds again.
use focot_services.Prelude.{
  All, contains, contains-append, join-split, Text, codes, split, join, init_parts, ◌≡◌, refl, ◌∙◌,
  Bool, true, false, List, [], ◌∷◌, ◌++◌, arith, ℕ_discrete,
}
use focot_services.Damaku.Wash.Names.{trim_ext, output_file_name}
use focot_services.Damaku.Wash.Scan.{
  starts, dot_xml, title_xml, digits_dash, numbers, after_blive, is_recorded, json_name, gzip_name,
  has_output, read_entries,
}

abbrev SlashFree : Text → Type 0
SlashFree s = contains ℕ_discrete s b'/' ≡ false

-- The name of an output holds no slash where the name of the file holds none.
contains-trim_ext :
    (s : Text) → contains ℕ_discrete s b'/' ≡ false → contains ℕ_discrete (trim_ext s) b'/' ≡ false
unfolding trim_ext
contains-trim_ext [] h = refl
contains-trim_ext (c ∷ s) h = ground (arith, contains-trim_ext s)

SlashFree-join :
    (parts : List Text) → SlashFree (join b'-' parts) → SlashFree (join b'-' (init_parts parts))
unfolding join init_parts
SlashFree-join [] h = refl
SlashFree-join (p ∷ []) h = refl
SlashFree-join (p ∷ q ∷ []) h = ground (arith, contains-append ℕ_discrete p (b'-' ∷ q) b'/')
SlashFree-join (p ∷ q ∷ r ∷ parts) h =
    let rest = SlashFree-join (q ∷ r ∷ parts) in
    ground (
      arith,
      contains-append ℕ_discrete p (b'-' ∷ join b'-' (q ∷ r ∷ parts)) b'/',
      contains-append ℕ_discrete p (b'-' ∷ join b'-' (init_parts (q ∷ r ∷ parts))) b'/',
      rest,
    )

SlashFree-output : (s : Text) → SlashFree s → SlashFree (output_file_name s)
unfolding output_file_name
SlashFree-output s h =
    SlashFree-join (split b'-' (trim_ext s))
      (rw (join-split b'-' (trim_ext s)) (contains-trim_ext s h))

-- Two accounts of which files exist that agree on the names with no slash.
abbrev pub AgreeHere : (Text → Bool) → (Text → Bool) → Type 0
AgreeHere e f = (name : Text) → contains ℕ_discrete name b'/' ≡ false → e name ≡ f name

has_output_here :
    (e f : Text → Bool) (name : Text)
    → AgreeHere e f
    → SlashFree name
    → has_output e name ≡ has_output f name
unfolding ℕ_discrete
has_output_here e f name same h =
    let out = SlashFree-output name h in
    let json : SlashFree (json_name name) =
      contains-append ℕ_discrete (output_file_name name) (codes ".json") b'/' ∙ rw out refl in
    let gzip : SlashFree (gzip_name name) =
      contains-append ℕ_discrete (output_file_name name) (codes ".json.gz") b'/' ∙ rw out refl in
    rw (same (json_name name) json, same (gzip_name name) gzip) refl

-- A scan of one directory looks for outputs in the working directory, not beside the files: what
-- exists under a name with a slash, such as the outputs in another directory, makes no difference
-- to the files that it finds. Asked for is that the names of the entries hold no slash.
pub read_entries-elsewhere :
    (e f : Text → Bool) (dir : Text) (entries : List (Text × Bool))
    → All (λ (p : Text × Bool). contains ℕ_discrete p.0 b'/' ≡ false) entries
    → AgreeHere e f
    → read_entries e dir entries ≡ read_entries f dir entries
unfolding read_entries
read_entries-elsewhere e f dir [] names same = refl
read_entries-elsewhere e f dir ((name, is_dir) ∷ entries) names same =
    rw (read_entries-elsewhere e f dir entries names.1 same, has_output_here e f name same names.0)
      refl

starts-append : (p s t : Text) → starts p s ≡ true → starts p (s ++ t) ≡ true
starts-append [] s t h = refl
starts-append (c ∷ p) [] t h = cc
starts-append (c ∷ p) (d ∷ s) t h = ground (arith, starts-append p s t)

dot_xml-append : (s t : Text) → dot_xml s ≡ true → dot_xml (s ++ t) ≡ true
unfolding dot_xml
dot_xml-append [] t h = cc
dot_xml-append (c ∷ s) t h = ground (arith, starts-append (codes "xml") s t)

title_xml-append : (s t : Text) → title_xml s ≡ true → title_xml (s ++ t) ≡ true
unfolding title_xml
title_xml-append [] t h = cc
title_xml-append (c ∷ s) t h = ground (arith, dot_xml-append s t, title_xml-append s t)

digits_dash-append :
    (next : Text → Bool) (some_digit : Bool) (s t : Text)
    → ((r : Text) → next r ≡ true → next (r ++ t) ≡ true)
    → digits_dash next some_digit s ≡ true
    → digits_dash next some_digit (s ++ t) ≡ true
unfolding digits_dash
digits_dash-append next some_digit [] t grows h = cc
digits_dash-append next some_digit (c ∷ s) t grows h =
    ground (arith, digits_dash-append next true s t grows, grows s)

numbers-append : (s t : Text) → numbers s ≡ true → numbers (s ++ t) ≡ true
unfolding numbers
numbers-append s t = digits_dash-append _ false s t λ r. digits_dash-append _ false r t λ r.
    digits_dash-append _ false r t
      λ r. digits_dash-append title_xml false r t λ r. title_xml-append r t

after_blive-append : (p s t : Text) → after_blive p s ≡ true → after_blive p (s ++ t) ≡ true
unfolding after_blive
after_blive-append [] s t h = numbers-append s t h
after_blive-append (c ∷ p) [] t h = cc
after_blive-append (c ∷ p) (d ∷ s) t h = ground (arith, after_blive-append p s t)

-- The expression for the names of recorded files is not anchored at its end: a name that it accepts
-- stays accepted whatever is appended to it.
pub is_recorded-append : (s t : Text) → is_recorded s ≡ true → is_recorded (s ++ t) ≡ true
unfolding is_recorded
is_recorded-append s t h = after_blive-append (codes "Blive-") s t h
