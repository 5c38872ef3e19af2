-- ===== src/Damaku/Wash/Scan.antt =====
-- io-bilive-damaku/cmd/wash.go: `action`, which finds the recorded files, and `washer` with the files
-- that it reads and writes. Directories, the opening of files and their creation are parameters; the
-- encoding of the output, and with it gzip, is left out: a file written is its data.
use focot_services.Prelude.{
  leb, ◌==◌, if◌then◌else◌, is_yes, length, Text, codes, text_dec, split, join, init_parts,
  last_part, ℕ, Bool, true, false, not, ◌&&◌, ◌||◌, Option, none, some, List, [], ◌∷◌, ◌++◌,
}
use focot_services.Prelude.Results.{Result, ok, ◌>>=◌, Fault}
use focot_services.Prelude.Int.{pos}
use mathlib.Core.Option
use focot_services.Damaku.Wash.Names.{output_file_name}
use focot_services.Damaku.Wash.Store.{Library, Token, BliveData}
use focot_services.Damaku.Wash.Tokens.{washer}

abbrev pub is_digit : ℕ → Bool
is_digit c = leb b'0' c && leb c b'9'

-- `[\S ]`: all but the white space of the expression, less the blank.
abbrev pub is_title : ℕ → Bool
is_title c = not (c == 9 || c == 10 || c == 12 || c == 13)

abbrev pub starts : Text → Text → Bool
starts [] s = true
starts (p ∷ ps) [] = false
starts (p ∷ ps) (c ∷ s) = p == c && starts ps s

-- `.xml`, at any character but a line feed.
unfoldable pub dot_xml : Text → Bool
dot_xml [] = false
dot_xml (c ∷ s) = not (c == 10) && starts (codes "xml") s

-- `[\S ]+.xml`
unfoldable pub title_xml : Text → Bool
unfolding dot_xml
title_xml [] = false
title_xml (c ∷ s) = is_title c && (dot_xml s || title_xml s)

-- `\d+-` and what follows it; `some_digit` says whether a digit was read.
unfoldable pub digits_dash : (Text → Bool) → Bool → Text → Bool
digits_dash next some_digit [] = false
digits_dash next some_digit (c ∷ s) =
    let more = digits_dash next true s in
    if is_digit c then more else some_digit && c == b'-' && next s

-- `^Blive-\d+-\d+-\d+-\d+-[\S ]+.xml`, behind its first six characters, and whole.
unfoldable pub numbers : Text → Bool
unfolding title_xml digits_dash
numbers = digits_dash (digits_dash (digits_dash (digits_dash title_xml false) false) false) false

unfoldable pub after_blive : Text → Text → Bool
unfolding numbers
after_blive [] s = numbers s
after_blive (p ∷ ps) [] = false
after_blive (p ∷ ps) (c ∷ s) = p == c && after_blive ps s

unfoldable pub is_recorded : Text → Bool
unfolding after_blive
is_recorded = after_blive (codes "Blive-")

-- `filepath.Clean`: the elements of a path, where `..` takes back the one before it.
clean_parts : Bool → List Text → List Text → List Text
clean_parts rooted kept [] = kept
clean_parts rooted kept (p ∷ ps) =
    let same = clean_parts rooted kept ps in
    let more = clean_parts rooted (kept ++ p ∷ []) ps in
    let less = clean_parts rooted (init_parts kept) ps in
    if is_yes (text_dec p []) || is_yes (text_dec p (codes "."))
    then same
    else if is_yes (text_dec p (codes ".."))
    then (if length kept == 0
        then (if rooted then same else more)
        else if is_yes (text_dec (last_part kept) (codes ".."))
        then more
        else less)
    else more

abbrev is_rooted : Text → Bool
is_rooted [] = false
is_rooted (c ∷ s) = c == b'/'

clean : Text → Text
unfolding clean_parts
clean path =
    let parts = join b'/' (clean_parts (is_rooted path) [] (split b'/' path)) in
    if is_rooted path then b'/' ∷ parts else if is_yes (text_dec parts []) then codes "." else parts

-- `filepath.Join(dir, name)` at a name that is not empty.
unfoldable pub path_join : Text → Text → Text
unfolding clean
path_join dir name = if is_yes (text_dec dir []) then clean name else clean (dir ++ b'/' ∷ name)

-- The two outputs that a file may have.
abbrev pub json_name : Text → Text
json_name source = output_file_name source ++ codes ".json"

abbrev pub gzip_name : Text → Text
gzip_name source = output_file_name source ++ codes ".json.gz"

abbrev pub has_output : (Text → Bool) → Text → Bool
has_output exists source = exists (json_name source) || exists (gzip_name source)

-- A path that `filepath.Walk` comes to: an error, or its name and whether it is a directory.
pub data Visit : Type 0 where
  walk_error : Visit
  visited : Text → Text → Bool → Visit

-- The callback of the walk, over the paths: an error ends it.
unfoldable pub walk : (Text → Bool) → List Visit → Option (List Text)
unfolding is_recorded
walk exists [] = some []
walk exists (walk_error ∷ visits) = none
walk exists (visited path name dir ∷ visits) =
    Option.map
      (λ files.
        if not dir && is_recorded name && not (has_output exists path) then path ∷ files else files)
      (walk exists visits)

-- The loop over the entries of `os.ReadDir`.
unfoldable pub read_entries : (Text → Bool) → Text → List (Text × Bool) → List Text
unfolding is_recorded path_join
read_entries exists dir [] = []
read_entries exists dir ((name, is_dir) ∷ entries) =
    let files = read_entries exists dir entries in
    if is_dir
    then files
    else if is_recorded name && not (has_output exists name)
    then path_join dir name ∷ files
    else files

-- The flags of the command.
pub record Flags : Type 0 where
  pub dir : Text
  pub recursive : Bool
  pub file : Text
  pub no_compress : Bool

-- The file system: what a walk meets, the entries of a directory, the tokens of a file that can be
-- opened, whether a file can be created, and which files exist.
pub record Files : Type 0 where
  pub visits : Text → List Visit
  pub entries : Text → Option (List (Text × Bool))
  pub tokens : Text → Option (List (Option Token))
  pub creates : Text → Bool
  pub exists : Text → Bool

-- The list of `action`: `none` is an error that is returned.
unfoldable pub file_list : Files → Flags → Option (List Text)
unfolding walk read_entries
file_list fs flags =
    if not (is_yes (text_dec flags.file []))
    then some (flags.file ∷ [])
    else if flags.recursive
    then walk fs.exists (fs.visits flags.dir)
    else Option.map (read_entries fs.exists flags.dir) (fs.entries flags.dir)

module _ (L : Library) (zero_time : L.Time) where
  -- `var data BliveData`
  abbrev pub empty_data : BliveData L
  empty_data = record {
    meta = record {
      recorder_version = [];
      room_id = pos 0;
      short_room_id = pos 0;
      name = [];
      title = [];
      area_name_parent = [];
      area_name_child = [];
      start_time = zero_time;
    };
    damaku = [];
    gifts = [];
    guards = [];
    super_chats = [];
    user = [];
    fans_medal = [];
    map_user = [];
    map_medal = [];
  }

  abbrev pub Written : Type 0
  Written = List (Text × BliveData L)

  abbrev pub out_name : Bool → Text → Text
  out_name compress source = if compress then gzip_name source else json_name source

  -- The output of `washer`, where the file could be read.
  unfoldable pub write_file : Files → Bool → Text → Option (BliveData L) → Written → Written
  write_file fs compress source none out = out
  write_file fs compress source (some b) out =
      if fs.creates (out_name compress source)
      then out ++ (out_name compress source, b) ∷ []
      else out

  -- `washer`: a file that cannot be opened or read leaves nothing behind.
  unfoldable pub wash_file : Files → Bool → Text → Written → Result Fault Written
  unfolding washer write_file
  wash_file fs compress source out = elim (fs.tokens source) [
    | none ↦ ok out
    | some tokens ↦ (do
      read ← washer L tokens empty_data
      ok (write_file fs compress source read out))
  ]

  unfoldable pub wash_files : Files → Bool → List Text → Written → Result Fault Written
  unfolding wash_file
  wash_files fs compress [] out = ok out
  wash_files fs compress (source ∷ sources) out = do
    out' ← wash_file fs compress source out
    wash_files fs compress sources out'

  -- `action`: what is written, or `none` for an error that is returned.
  unfoldable pub action : Files → Flags → Result Fault (Option Written)
  unfolding file_list wash_files
  action fs flags = elim (file_list fs flags) [
    | none ↦ ok none
    | some sources ↦ (do out ← wash_files fs (not flags.no_compress) sources []; ok (some out))
  ]
