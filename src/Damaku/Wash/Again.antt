-- ===== src/Damaku/Wash/Again.antt =====
-- io-bilive-damaku/cmd/wash.go: a second run over the same directories.
use focot_services.Prelude.{
  if◌then◌else◌, Bool-cases, Option-cases, All, contains, contains-append, Text, text_dec, ◌≡◌,
  refl, sym, ap, ◌∙◌, ◌⊎◌, inl, inr, Bool, true, false, not, ◌&&◌, ◌||◌, Option, none, some, List,
  [], ◌∷◌, ◌++◌, arith,
}
use focot_services.Prelude.Results.{ok, ok-Passed, ok_mapped}
use focot_services.Damaku.Wash.Store.{Library, BliveData}
use focot_services.Damaku.Wash.Scan.{
  is_recorded, json_name, gzip_name, has_output, Visit, walk_error, visited, walk, Flags, Files,
  file_list, empty_data, Written, out_name, write_file, wash_file, wash_files, action,
}
use focot_services.Damaku.Wash.Tokens.{washer}
use mathlib.Core.Option
use mathlib.Core.Path.{subst}

map-eq_some :
    {A B : Type 0} (f : A → B) (o : Option A) (b : B)
    → Option.map f o ≡ some b
    → (a : A) × ((o ≡ some a) × (f a ≡ b))
map-eq_some f none b h = absurd (cc)
map-eq_some f (some a) b h = (a, (refl, cc))

module _ (L : Library) (zero_time : L.Time) (fs : Files) (compress : Bool) where
  abbrev names : Written L zero_time → List Text
  names [] = []
  names ((name, _) ∷ out) = name ∷ names out

  names-append : (xs ys : Written L zero_time) → names (xs ++ ys) ≡ names xs ++ names ys
  names-append [] ys = refl
  names-append ((name, b) ∷ xs) ys = ap (◌∷◌ name) (names-append xs ys)

  -- Washing the file leaves nothing behind: it cannot be opened or read, or its output not created.
  abbrev pub IsLost : Text → Type 0
  IsLost source = wash_file L zero_time fs compress source [] ≡ ok []

  abbrev Done : Written L zero_time → Text → Type 0
  Done out source =
      IsLost source ⊎ (contains text_dec (names out) (out_name L zero_time compress source) ≡ true)

  -- The files that exist behind a run that wrote `out`.
  abbrev pub exists_after : Written L zero_time → Text → Bool
  exists_after out name = fs.exists name || contains text_dec (names out) name

  -- A visit among others, and a visit of an output.
  abbrev pub Among : Visit → List Visit → Type 0
  Among v [] = ⊥
  Among v (w ∷ visits) = (v ≡ w) ⊎ Among v visits

  abbrev pub IsOutput : Written L zero_time → Visit → Type 0
  IsOutput out walk_error = ⊥
  IsOutput out (visited path name dir) = contains text_dec (names out) path ≡ true

  write_file-Done :
      (source : Text) (read : Option (BliveData L)) (out : Written L zero_time)
      → ((write_file L zero_time fs compress source read [] ≡ [])
          × (write_file L zero_time fs compress source read out ≡ out))
        ⊎ ((b : BliveData L) × (write_file L zero_time fs compress source read out
              ≡ out ++ (out_name L zero_time compress source, b) ∷ []))
  unfolding write_file
  write_file-Done source none out = inl (refl, refl)
  write_file-Done source (some b) out =
      elim (Bool-cases (fs.creates (out_name L zero_time compress source))) [
        | inl created ↦ inr (b, rw created refl)
        | inr refused ↦ inl (rw refused refl, rw refused refl)
      ]

  -- One file: lost, or written at the end.
  wash_file-Done :
      (source : Text) (out out' : Written L zero_time)
      → wash_file L zero_time fs compress source out ≡ ok out'
      → (IsLost source × (out' ≡ out))
        ⊎ ((b : BliveData L) × (out' ≡ out ++ (out_name L zero_time compress source, b) ∷ []))
  unfolding wash_file
  wash_file-Done source out out' h = elim (Option-cases (fs.tokens source)) [
    | inl shut ↦
        let same : ok out ≡ ok out' = rw (wash_file, shut) at h in
        inl (rw (wash_file, shut) refl, cc)
    | inr (tokens, opened) ↦
        let (read, facts) =
          ok_mapped (washer L tokens (empty_data L zero_time))
            (λ r. write_file L zero_time fs compress source r out) out'
            (rw (wash_file, opened) at h) in
        elim (write_file-Done source read out) [
          | inl (nothing, same) ↦
              inl (rw (wash_file, opened, facts.0) (ap ok nothing), sym (facts.1) ∙ same)
          | inr (b, more) ↦ inr (b, sym (facts.1) ∙ more)
        ]
  ]

  Grown : Written L zero_time → Written L zero_time → Type 0
  Grown out out' =
      (name : Text)
      → contains text_dec (names out) name ≡ true
      → contains text_dec (names out') name ≡ true

  wash_files-Done :
      (sources : List Text) (out out' : Written L zero_time)
      → wash_files L zero_time fs compress sources out ≡ ok out'
      → All (Done out') sources × Grown out out'
  unfolding wash_files Grown
  wash_files-Done [] out out' h = (tt, λ name has. rw (← (let is : out ≡ out' = cc in is)) has)
  wash_files-Done (source ∷ sources) out out' h =
      let p =
        ok-Passed (wash_file L zero_time fs compress source out)
          (wash_files L zero_time fs compress sources) out' h in
      let (rest, grown) = wash_files-Done sources p.value out' p.onward in
      elim (wash_file-Done source out p.value p.reached) [
        | inl (lost, same) ↦ ((inl lost, rest), λ name has. grown name (rw same has))
        | inr (b, more) ↦
            let appended = λ (name : Text).
              ap (λ x. contains text_dec (names x) name) more
              ∙ ap (λ x. contains text_dec x name)
                  (names-append out ((out_name L zero_time compress source, b) ∷ []))
              ∙ contains-append text_dec (names out) (out_name L zero_time compress source ∷ [])
                  name in
            (
              (
                inr (
                    grown (out_name L zero_time compress source)
                      (ground (arith, appended (out_name L zero_time compress source)))),
                rest,
              ),
              λ name has. grown name (ground (arith, appended name)),
            )
      ]

  tail_Done :
      (test : Bool) (path : Text) (files : List Text) (out : Written L zero_time)
      → All (Done out) (if test then path ∷ files else files)
      → All (Done out) files
  tail_Done true path files out done = done.1
  tail_Done false path files out done = done

  has_output_after :
      (path : Text) (out : Written L zero_time)
      → contains text_dec (names out) (out_name L zero_time compress path) ≡ true
      → has_output (exists_after out) path ≡ true
  has_output_after path out h = elim (Bool-cases compress) [
    | inl is ↦
        let at : contains text_dec (names out) (gzip_name path) ≡ true = rw is at h in ground arith
    | inr is ↦
        let at : contains text_dec (names out) (json_name path) ≡ true = rw is at h in ground arith
  ]

  -- A file that the second scan lists was listed by the first, and is lost if it is done.
  still_there :
      (base : Bool) (path : Text) (out : Written L zero_time)
      → (base && not (has_output (exists_after out) path)) ≡ true
      → ((base && not (has_output fs.exists path)) ≡ true) × (Done out path → IsLost path)
  still_there base path out h = (
    ground arith,
    λ d. elim d [
      | inl lost ↦ lost
      | inr there ↦ absurd (ground (arith, has_output_after path out there))
    ],
  )

  -- A recorded file without outputs that a walk comes to is listed by it.
  walk-lists :
      (visits : List Visit) (out : Written L zero_time) (first : List Text) (path name : Text)
      (dir : Bool)
      → walk fs.exists visits ≡ some first
      → All (Done out) first
      → Among (visited path name dir) visits
      → (not dir && is_recorded name && not (has_output fs.exists path)) ≡ true
      → Done out path
  unfolding walk
  walk-lists [] out first path name dir found done among new = absurd among
  walk-lists (walk_error ∷ visits) out first path name dir found done among new = absurd (cc)
  walk-lists (visited p n d ∷ visits) out first path name dir found done among new =
      let (files, at) = map-eq_some _ (walk fs.exists visits) first found in
      let test = not d && is_recorded n && not (has_output fs.exists p) in
      let here : All (Done out) (if test then p ∷ files else files) =
        subst (All (Done out)) (sym (at.1)) done in
      elim among [
        | inl same ↦
            let paths : path ≡ p = cc in
            let names : name ≡ n = cc in
            let dirs : dir ≡ d = cc in
            let yes : test ≡ true = rw (← paths, ← names, ← dirs) new in
            let all : All (Done out) (p ∷ files) = rw yes at here in rw paths (all.0)
        | inr later ↦
            walk-lists visits out files path name dir (at.0) (tail_Done test p files out here) later
              new
      ]

  -- A file that a later scan lists was there for the first, or was written by it.
  abbrev pub Known : Text → Written L zero_time → Visit → Type 0
  Known dir out v = Among v (fs.visits dir) ⊎ IsOutput out v

  abbrev pub LostOrWritten : Written L zero_time → Text → Type 0
  LostOrWritten out path = IsLost path ⊎ (contains text_dec (names out) path ≡ true)

  -- The later scan, over files of the first and its outputs, lists no other file with an output.
  walk-Done :
      (dir : Text) (out : Written L zero_time) (first : List Text) (later : List Visit)
      (second : List Text)
      → walk fs.exists (fs.visits dir) ≡ some first
      → All (Done out) first
      → All (Known dir out) later
      → walk (exists_after out) later ≡ some second
      → All (LostOrWritten out) second
  unfolding walk
  walk-Done dir out first [] second found done known again =
      let is : [] ≡ second = cc in rw (← is) tt
  walk-Done dir out first (walk_error ∷ later) second found done known again = absurd (cc)
  walk-Done dir out first (visited path name is_dir ∷ later) second found done known again =
      let (files, at) = map-eq_some _ (walk (exists_after out) later) second again in
      let rest = walk-Done dir out first later files found done known.1 (at.0) in
      rw (← (at.1))
        (elim (Bool-cases
          (not is_dir && is_recorded name && not (has_output (exists_after out) path))) [
            | inl still ↦ rw still (
              elim known.0 [
                | inl before ↦
                    let (new, lost) = still_there (not is_dir && is_recorded name) path out still in
                    inl (
                      lost (
                        walk-lists (fs.visits dir) out first path name is_dir found done before
                          new))
                | inr written ↦ inr written
              ],
              rest,
            )
            | inr other ↦ rw other rest
          ])

  file_list-walk :
      (flags : Flags)
      → flags.file ≡ []
      → flags.recursive ≡ true
      → file_list fs flags ≡ walk fs.exists (fs.visits flags.dir)
  unfolding file_list text_dec
  file_list-walk flags no_file recursive = rw (file_list, no_file, recursive) refl

  -- A later scan, behind a run with subdirectories that came to its end, which meets only what the run
  -- met and the files that the run wrote, lists only files that were lost in the run, those that could
  -- not be opened or read, or whose output could not be created, and files that the run wrote.
  pub action-again :
      (flags : Flags) (out : Written L zero_time) (later : List Visit) (second : List Text)
      → flags.file ≡ []
      → flags.recursive ≡ true
      → not flags.no_compress ≡ compress
      → action L zero_time fs flags ≡ ok (some out)
      → All (Known flags.dir out) later
      → walk (exists_after out) later ≡ some second
      → All (LostOrWritten out) second
  unfolding action file_list
  action-again flags out later second no_file recursive compressed ran known again =
      elim (Option-cases (walk fs.exists (fs.visits flags.dir))) [
        | inl failed ↦
            let none_listed = file_list-walk flags no_file recursive ∙ failed in
            let no : ok none ≡ ok (some out) = rw (action, none_listed) at ran in absurd (cc)
        | inr (first, found) ↦
            let all_listed = file_list-walk flags no_file recursive ∙ found in
            let (written, facts) =
              ok_mapped (wash_files L zero_time fs (not flags.no_compress) first []) (λ w. some w)
                (some out) (rw (action, all_listed) at ran) in
            let same : written ≡ out = cc in
            let washed : wash_files L zero_time fs compress first [] ≡ ok out =
              ap (λ c. wash_files L zero_time fs c first []) (sym compressed)
              ∙ facts.0
              ∙ ap ok same in
            walk-Done flags.dir out first later second found (wash_files-Done first [] out washed).0
              known again
      ]
