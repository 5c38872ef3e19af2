-- ===== src/Damaku/Wash/ScanTests.antt =====
-- Directories with recorded files.
use focot_services.Prelude.{
  if◌then◌else◌, is_yes, All, contains, Text, codes, text_dec, split, join, init_parts, last_part,
  ℕ, ◌≡◌, refl, sym, ap, ◌∙◌, inl, inr, Bool, true, false, Option, none, some, List, [], ◌∷◌, ◌++◌,
  ℕ_discrete,
}
use focot_services.Prelude.Int.{pos}
use focot_services.Prelude.Results.{ok}
use focot_services.Damaku.Raw.{Document}
use focot_services.Damaku.Wash.Names.{trim_ext, output_file_name}
use focot_services.Damaku.Wash.Store.{Library, Token, other_token}
use focot_services.Damaku.Wash.Tokens.{attr_parse, final_listing, washer}
use focot_services.Damaku.Wash.Scan.{
  dot_xml, title_xml, digits_dash, numbers, after_blive, is_recorded, path_join, Visit, visited,
  walk, read_entries, Flags, Files, file_list, empty_data, Written, write_file, wash_file,
  wash_files, action,
}
use focot_services.Damaku.Wash.Rescan.{read_entries-elsewhere, is_recorded-append}
use focot_services.Damaku.Wash.Again.{exists_after, Known, LostOrWritten, action-again}

abbrev name : Text
name = codes "Blive-22-2024-01-5-a title.xml"

names_read :
    (is_recorded name ≡ true)
    × (is_recorded (codes "Blive-22-2024-01-5-.xml") ≡ false)
    × (is_recorded (codes "Blive-22-2024-01-t.xml") ≡ false)
    × (output_file_name name ≡ codes "Blive-22-2024-01-5")
unfolding is_recorded after_blive numbers digits_dash title_xml dot_xml output_file_name trim_ext
    split join init_parts ℕ_discrete
names_read = (refl, refl, refl, refl)

paths_joined :
    (path_join (codes "./") name ≡ name)
    × (path_join (codes "/a/../b//") name ≡ codes "/b/" ++ name)
    × (path_join (codes "../x/.") (codes "..") ≡ codes "..")
unfolding path_join split join init_parts last_part text_dec ℕ_discrete
paths_joined = (refl, refl, refl)

-- A copy of a recorded file is read as one, and has the same output.
is_recorded-append_example : is_recorded (name ++ codes ".bak") ≡ true
unfolding is_recorded after_blive numbers digits_dash title_xml dot_xml
is_recorded-append_example = is_recorded-append name (codes ".bak") refl

same_output : output_file_name (name ++ codes ".bak") ≡ output_file_name name
unfolding output_file_name trim_ext split join init_parts ℕ_discrete
same_output = refl

-- The output stands beside the file.
abbrev beside : Text → Bool
beside path = is_yes (text_dec path (codes "dir/Blive-22-2024-01-5.json"))

read_entries-elsewhere_example :
    read_entries beside (codes "dir") ((name, false) ∷ [])
    ≡ read_entries (λ _. false) (codes "dir") ((name, false) ∷ [])
unfolding ℕ_discrete
read_entries-elsewhere_example =
    read_entries-elsewhere beside (λ _. false) (codes "dir") ((name, false) ∷ []) (refl, tt)
      (λ path here.
        elim (text_dec path (codes "dir/Blive-22-2024-01-5.json")) as (λ d. is_yes d ≡ false) [
          | yes e ↦
              let clash : true ≡ false = ap (λ p. contains ℕ_discrete p b'/') (sym e) ∙ here in cc
          | no _ ↦ refl
        ])

abbrev document : Document
document = record {
  uint = λ path. 7;
  text = λ path. codes "x";
  bool = λ path. true;
  is_null = λ path. false;
}

abbrev library : Library
library = record {
  Time = ℕ;
  parse_int = λ s. pos 1;
  parse_time = λ s. 0;
  parse_json = λ s. document;
}

-- A file with one token, and one that is cut off.
abbrev tokens : Text → Option (List (Option Token))
tokens path =
    if is_yes (text_dec path (codes "d/" ++ name))
    then some (some other_token ∷ [])
    else some (none ∷ [])

abbrev cut_off : Text
cut_off = codes "d/Blive-22-2024-02-5-b.xml"

abbrev files : Files
files = record {
  visits = λ dir.
      visited (codes "d") (codes "d") true
      ∷ visited (codes "d/" ++ name) name false
      ∷ visited cut_off (codes "Blive-22-2024-02-5-b.xml") false
      ∷ [];
  entries = λ dir. none;
  tokens = tokens;
  creates = λ path. true;
  exists = λ path. false;
}

abbrev flags : Flags
flags = record { dir = codes "d"; recursive = true; file = []; no_compress = false }

abbrev written : Written library 0
written = (codes "d/Blive-22-2024-01-5.json.gz", empty_data library 0) ∷ []

action_run : action library 0 files flags ≡ ok (some written)
unfolding action file_list walk wash_files wash_file write_file washer attr_parse final_listing
    is_recorded after_blive numbers digits_dash title_xml dot_xml output_file_name trim_ext split
    join init_parts text_dec ℕ_discrete
action_run = refl

-- A later scan meets the output too, and lists the file that is cut off and no other.
abbrev later : List Visit
later =
    visited (codes "d") (codes "d") true
    ∷ visited (codes "d/" ++ name) name false
    ∷ visited (codes "d/Blive-22-2024-01-5.json.gz") (codes "Blive-22-2024-01-5.json.gz") false
    ∷ visited cut_off (codes "Blive-22-2024-02-5-b.xml") false
    ∷ []

later-Known : All (Known library 0 files true flags.dir written) later
unfolding text_dec ℕ_discrete
later-Known = (inl (inl refl), (inl (inr (inl refl)), (inr refl, (inl (inr (inr (inl refl))), tt))))

rescan : walk (exists_after library 0 files true written) later ≡ some (cut_off ∷ [])
unfolding walk is_recorded after_blive numbers digits_dash title_xml dot_xml output_file_name
    trim_ext split join init_parts text_dec ℕ_discrete
rescan = refl

action-again_example : All (LostOrWritten library 0 files true written) (cut_off ∷ [])
action-again_example =
    action-again library 0 files true flags written later (cut_off ∷ []) refl refl refl action_run
      later-Known rescan
