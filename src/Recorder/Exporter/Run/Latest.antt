-- ===== src/Recorder/Exporter/Run/Latest.antt =====
-- io-bilive-recorder/metrics.go: what the exporter shows after any messages, from its start on.
use focot_services.Prelude.{
  if◌then◌else◌, is_yes, contains, insert, lookup-insert, Text, text_dec, ℕ, suc, ◌≤◌, ◌<◌, ◌≡◌,
  refl, sym, ◌∙◌, ◌⊎◌, inl, inr, Bool, true, false, Option, none, some, List, [], ◌∷◌, arith,
}
use focot_services.Prelude.Int.{ℤ, ℤ_discrete}
use focot_services.Prelude.Results.{ok, ok-Passed}
use focot_services.Recorder.Rooms.{Metrics}
use focot_services.Recorder.Exporter.{
  Gauge, collector, RoomMap, room_lookup, Exporter, update_metrics,
}
use focot_services.Recorder.Exporter.Run.Totals.{AreKnown, run_updates_taken}
use focot_services.Recorder.Exporter.Run.{make_maps, start, run_updates}
use focot_services.Recorder.Exporter.Series.{gauge_dec}
use focot_services.Recorder.Exporter.Series.Live.{shows, version, IsExact}
use focot_services.Recorder.Exporter.Series.Sweep.{refreshed, swept, ids}
use focot_services.Recorder.Exporter.Series.Updates.{
  update_metrics-Updated, update_metrics-IsExact, update_metrics_shown,
}

-- No room is in a new map.
room_lookup-make_maps :
    (nodes : List Text) (m : RoomMap ℕ) (n : Text) (r : ℤ)
    → ((k : Text) → room_lookup k r m ≡ none)
    → room_lookup n r (make_maps nodes m) ≡ none
unfolding make_maps
room_lookup-make_maps [] m n r h = h n
room_lookup-make_maps (node ∷ nodes) m n r h =
    room_lookup-make_maps nodes (insert text_dec node [] m) n r
      (λ k. ground (arith, lookup-insert text_dec node k [] m, h k))

-- A version behind a message is that of before, or this one.
swept-refreshed_cases :
    (node : Text) (now : ℕ) (reported listed : List ℤ) (n : Text) (r : ℤ) (old : Option ℕ) (v : ℕ)
    → swept node now listed n r (refreshed node now reported n r old) ≡ some v
    → (v ≡ now) ⊎ (old ≡ some v)
swept-refreshed_cases node now reported listed n r none v h = ground arith
swept-refreshed_cases node now reported listed n r (some w) v h = ground arith

if_contains :
    (b : Bool) (xs ys : List ℤ) (r : ℤ) (s : Bool)
    → s ≡ contains ℤ_discrete ys r
    → (if b then contains ℤ_discrete xs r else s) ≡ contains ℤ_discrete (if b then xs else ys) r
if_contains true xs ys r s h = refl
if_contains false xs ys r s h = h

module _ (Float : Type 0) (of_int : ℤ → Float) where
  -- The rooms in the last message of a node.
  abbrev pub last_rooms : Text → List (ℕ × Metrics Float) → List ℤ → List ℤ
  last_rooms n [] before = before
  last_rooms n ((_, m) ∷ messages) before =
      last_rooms n messages
        (if is_yes (text_dec m.node_name n) then ids Float of_int m.rooms else before)

  -- The messages come at later and later times, the first at `t` at the earliest.
  abbrev pub IsOrdered : ℕ → List (ℕ × Metrics Float) → Type 0
  IsOrdered t [] = Unit
  IsOrdered t ((now, m) ∷ messages) = (t ≤ now) × IsOrdered (suc now) messages

  -- Every version is earlier than `t`.
  abbrev IsBefore : ℕ → Exporter Float of_int → Type 0
  IsBefore t e = (n : Text) (r : ℤ) (v : ℕ) → version Float of_int n r e ≡ some v → v < t

  update_metrics-IsBefore :
      (t now : ℕ) (m : Metrics Float) (e e' : Exporter Float of_int)
      → update_metrics Float of_int now m e ≡ ok e'
      → t ≤ now
      → IsBefore t e
      → IsBefore (suc now) e'
  update_metrics-IsBefore t now m e e' h later before n r v at =
      let u = update_metrics-Updated Float of_int now m e e' h in
      elim (swept-refreshed_cases m.node_name now (ids Float of_int m.rooms) u.listed n r
        (version Float of_int n r e) v (sym (u.moved.versions n r) ∙ at)) [
          | inl fresh ↦ omega arith
          | inr kept ↦ omega (arith, before n r v kept)
        ]

  run_updates_kept :
      (t : ℕ) (messages : List (ℕ × Metrics Float)) (e e' : Exporter Float of_int)
      → IsOrdered t messages
      → IsBefore t e
      → IsExact Float of_int e
      → run_updates Float of_int messages e ≡ ok e'
      → (g : Gauge) → contains gauge_dec collector g ≡ true
      → (n : Text) (r : ℤ) (rooms : List ℤ)
      → shows Float of_int g n r e ≡ contains ℤ_discrete rooms r
      → shows Float of_int g n r e' ≡ contains ℤ_discrete (last_rooms n messages rooms) r
  unfolding run_updates
  run_updates_kept t [] e e' order before x go g hg n r rooms now_shown =
      let same : e ≡ e' = cc in rw (← same) now_shown
  run_updates_kept t ((now, m) ∷ messages) e e' order before x go g hg n r rooms now_shown =
      let p =
        ok-Passed (update_metrics Float of_int now m e) (run_updates Float of_int messages) e' go in
      run_updates_kept (suc now) messages p.value e' order.1
        (update_metrics-IsBefore t now m e p.value p.reached order.0 before)
        (update_metrics-IsExact Float of_int now m e p.value p.reached x) p.onward g hg n r _
        (update_metrics_shown Float of_int now m e p.value p.reached x
            (λ k q at. absurd (omega (arith, before k q now at, order.0))) g hg n r
          ∙ if_contains (is_yes (text_dec m.node_name n)) (ids Float of_int m.rooms) rooms r _
              now_shown)

  -- From the start of the exporter on, whatever messages come at later and later times: as long as
  -- none of them panics, every gauge of the collector shows for each node exactly the rooms in its
  -- last message, and none for a node that has sent none.
  pub run_updates_shown :
      (nodes : List Text) (messages : List (ℕ × Metrics Float)) (e' : Exporter Float of_int)
      → IsOrdered 0 messages
      → run_updates Float of_int messages (start Float of_int nodes) ≡ ok e'
      → (g : Gauge) → contains gauge_dec collector g ≡ true
      → (n : Text) (r : ℤ)
      → shows Float of_int g n r e' ≡ contains ℤ_discrete (last_rooms n messages []) r
  unfolding start shows IsExact
  run_updates_shown nodes messages e' order go g hg n r =
      let none_yet = λ (k : Text) (q : ℤ). room_lookup-make_maps nodes [] k q (λ _. refl) in
      run_updates_kept 0 messages (start Float of_int nodes) e' order
        (λ k q v at. absurd (let no : none ≡ some v = sym (none_yet k q) ∙ at in cc))
        (λ h hh k q. rw (none_yet k q) refl) go g hg n r [] refl

  -- From its start on, whatever messages of configured nodes come at later and later times, the
  -- exporter takes them without a panic; then every gauge of the collector shows for each node
  -- exactly the rooms in its last message, and none for a node that has sent none.
  pub run_updates-latest :
      (nodes : List Text) (messages : List (ℕ × Metrics Float))
      → AreKnown Float of_int nodes messages
      → IsOrdered 0 messages
      → (e' : Exporter Float of_int) × (run_updates Float of_int messages (start Float of_int nodes)
          ≡ ok e')
        × ((g : Gauge)
            → contains gauge_dec collector g ≡ true
            → (n : Text) (r : ℤ)
            → shows Float of_int g n r e' ≡ contains ℤ_discrete (last_rooms n messages []) r)
  run_updates-latest nodes messages known order =
      let (e', taken) = run_updates_taken Float of_int nodes messages known in
      (e', taken, run_updates_shown nodes messages e' order taken)
