-- ===== src/Recorder/Exporter/Registry/Held.antt =====
-- io-bilive-recorder/metrics.go: the labels that the exporter holds, and the calls that it makes with
-- them.
use focot_services.Prelude.{
  Option-cases, length, All, lookup, insert, AllValues, AllValues-insert, lookup-AllValues, Text,
  text_dec, ◌≡◌, refl, inl, inr, true, Option, none, some, List, [], ◌∷◌, map, arith,
}
use focot_services.Prelude.Int.{ℤ, ℤ_discrete}
use focot_services.Prelude.Results.{ok, err, nil_map_write}
use focot_services.Recorder.Exporter.{
  Gauge, room_info, collector, RoomMap, room_lookup, room_insert, rooms_of, room_series, Call, set,
  delete_values, Exporter, info_calls, values_of,
}
use focot_services.Recorder.Exporter.Run.{make_maps}
use focot_services.Recorder.Exporter.Registry.{gauge, metrics_room_label_names, label_names, fits}
use focot_services.Recorder.Exporter.Registry.Labels.{registered, registered-has_labels}

-- The labels of a room info are as many as the fields of `RoomMetricsLabel`.
abbrev pub IsInfo : List Text → Type 0
IsInfo values = length metrics_room_label_names ≡ length values

-- The gauges of the collector have two labels.
abbrev IsRoomGauge : Gauge → Type 0
IsRoomGauge g = length (label_names (gauge g)) ≡ 2

pub collector-IsRoomGauge : All IsRoomGauge collector
unfolding label_names
collector-IsRoomGauge = (
  refl,
  (
    refl,
    (refl, (refl, (refl, (refl, (refl, (refl, (refl, (refl, (refl, (refl, (refl, tt))))))))))),
  ),
)

-- Labels that a room map holds were held before, or are those that were inserted.
pub AllValues-room_insert :
    (node : Text) (room : ℤ) (values : List Text) (m m' : RoomMap (List Text))
    → room_insert node room values m ≡ ok m'
    → IsInfo values
    → AllValues (AllValues IsInfo) m
    → AllValues (AllValues IsInfo) m'
unfolding room_insert
AllValues-room_insert node room values m m' h new before =
    elim (Option-cases (lookup text_dec node m)) [
      | inl e ↦ absurd (let no : err nil_map_write ≡ ok m' = rw (room_insert, e) at h in cc)
      | inr (rooms, e) ↦
          let is : ok (insert text_dec node (insert ℤ_discrete room values rooms) m) ≡ ok m' =
            rw (room_insert, e) at h in
          let same : insert text_dec node (insert ℤ_discrete room values rooms) m ≡ m' = cc in
          let held = lookup-AllValues text_dec (AllValues IsInfo) node rooms m before e in
          rw (← same) (
            AllValues-insert text_dec (AllValues IsInfo) node _ m
              (AllValues-insert ℤ_discrete IsInfo room values rooms new held) before)
    ]

pub rooms_of-AllValues :
    (node : Text) (m : RoomMap (List Text))
    → AllValues (AllValues IsInfo) m
    → AllValues IsInfo (rooms_of node m)
rooms_of-AllValues node m h = elim (Option-cases (lookup text_dec node m)) [
  | inl e ↦ rw (rooms_of, e) tt
  | inr (rooms, e) ↦
      rw (rooms_of, e) (lookup-AllValues text_dec (AllValues IsInfo) node rooms m h e)
]

pub room_lookup-IsInfo :
    (node : Text) (room : ℤ) (m : RoomMap (List Text)) (values : List Text)
    → AllValues (AllValues IsInfo) m
    → room_lookup node room m ≡ some values
    → IsInfo values
room_lookup-IsInfo node room m values h found = elim (Option-cases (lookup text_dec node m)) [
  | inl e ↦ absurd (ground arith)
  | inr (rooms, e) ↦
      lookup-AllValues ℤ_discrete IsInfo room values rooms
        (lookup-AllValues text_dec (AllValues IsInfo) node rooms m h e)
        (rw (room_lookup, e) at found)
]

pub make_maps-AllValues :
    (nodes : List Text) (m : RoomMap (List Text))
    → AllValues (AllValues IsInfo) m
    → AllValues (AllValues IsInfo) (make_maps nodes m)
unfolding make_maps
make_maps-AllValues [] m h = h
make_maps-AllValues (node ∷ nodes) m h =
    make_maps-AllValues nodes (insert text_dec node [] m)
      (AllValues-insert text_dec (AllValues IsInfo) node [] m tt h)

module _ (Float : Type 0) (of_int : ℤ → Float) where
  abbrev pub IsFitting : Call Float of_int → Type 0
  IsFitting c = fits Float of_int registered c ≡ true

  -- Every call so far was fitting, and the labels that are held are those of room infos.
  pub record IsLabelled (e : Exporter Float of_int) : Type 0 where
    pub held : AllValues (AllValues IsInfo) e.room_labels
    pub fitting : All IsFitting e.calls

  pub set-IsFitting :
      (node : Text) (room : ℤ) (value : Gauge → Float) (gs : List Gauge)
      → All IsRoomGauge gs
      → All IsFitting (map (λ g. set g (room_series node room) (value g)) gs)
  unfolding fits
  set-IsFitting node room value [] h = tt
  set-IsFitting node room value (g ∷ gs) h = (
    registered-has_labels (gauge g) (room_series node room) h.0,
    set-IsFitting node room value gs h.1,
  )

  pub delete-IsFitting :
      (node : Text) (room : ℤ) (gs : List Gauge)
      → All IsRoomGauge gs
      → All IsFitting (map (λ g. delete_values g (room_series node room)) gs)
  unfolding fits
  delete-IsFitting node room [] h = tt
  delete-IsFitting node room (g ∷ gs) h = (
    registered-has_labels (gauge g) (room_series node room) h.0,
    delete-IsFitting node room gs h.1,
  )

  pub values_of-IsFitting :
      (labels : List (ℤ × List Text))
      → AllValues IsInfo labels
      → All IsFitting (values_of Float of_int labels)
  unfolding fits label_names
  values_of-IsFitting [] h = tt
  values_of-IsFitting ((_, old) ∷ labels) h =
      (registered-has_labels (gauge room_info) old h.0, values_of-IsFitting labels h.1)

  pub info_calls-IsFitting :
      (values : List Text) (old : Option (List Text))
      → IsInfo values
      → ((vs : List Text) → old ≡ some vs → IsInfo vs)
      → All IsFitting (info_calls Float of_int values old)
  unfolding fits label_names info_calls
  info_calls-IsFitting values none new before =
      (registered-has_labels (gauge room_info) values new, tt)
  info_calls-IsFitting values (some vs) new before = (
    registered-has_labels (gauge room_info) vs (before vs refl),
    (registered-has_labels (gauge room_info) values new, tt),
  )
