-- ===== src/Damaku/Wash/Names.antt =====
-- io-bilive-damaku/cmd/wash.go: `outputFileName`.
use focot_services.Prelude.{
  ◌==◌, if◌then◌else◌, contains, contains-append, join-init_parts, Text, split, join, init_parts,
  ◌≡◌, ap, ◌∙◌, false, not, ◌&&◌, [], ◌∷◌, ◌++◌, arith, ℕ_discrete,
}

-- `filepath.Ext` cut off: from the last dot, if no slash follows it.
unfoldable pub trim_ext : Text → Text
trim_ext [] = []
trim_ext (c ∷ s) =
    let rest = trim_ext s in
    if c == b'.' && not (contains ℕ_discrete s b'.') && not (contains ℕ_discrete s b'/')
    then []
    else c ∷ rest

-- `outputFileName`
unfoldable pub output_file_name : Text → Text
unfolding trim_ext
output_file_name source = join b'-' (init_parts (split b'-' (trim_ext source)))

trim_ext-dot :
    (s ext : Text)
    → contains ℕ_discrete ext b'.' ≡ false
    → contains ℕ_discrete ext b'/' ≡ false
    → trim_ext (s ++ b'.' ∷ ext) ≡ s
unfolding trim_ext
trim_ext-dot [] ext dot slash = ground arith
trim_ext-dot (c ∷ s) ext dot slash =
    ground (arith, trim_ext-dot s ext dot slash, contains-append ℕ_discrete s (b'.' ∷ ext) b'.')

-- The output of a file is named as the file, without its last part and its extension: for a title
-- with no dash, these are the title and the extension.
pub output_file_name_titled :
    (name title ext : Text)
    → contains ℕ_discrete title b'-' ≡ false
    → contains ℕ_discrete ext b'.' ≡ false
    → contains ℕ_discrete ext b'/' ≡ false
    → output_file_name (name ++ b'-' ∷ title ++ b'.' ∷ ext) ≡ name
unfolding output_file_name
output_file_name_titled name title ext dash dot slash =
    ap (λ s. join b'-' (init_parts (split b'-' s)))
      (trim_ext-dot (name ++ b'-' ∷ title) ext dot slash)
    ∙ join-init_parts b'-' name title dash
