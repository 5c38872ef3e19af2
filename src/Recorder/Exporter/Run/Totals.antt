-- ===== src/Recorder/Exporter/Run/Totals.antt =====
-- io-bilive-recorder/metrics.go: messages of configured nodes never make the exporter panic.
use focot_services.Prelude.{
  ◌==◌, Bool-cases, Option-cases, All, contains, contains_again, keys, lookup, insert, delete,
  contains-keys, contains-insert, Text, text_dec, ℕ, ◌≡◌, refl, ◌∙◌, inl, inr, Bool, true, ◌||◌,
  List, [], ◌∷◌, ◌++◌, map, arith,
}
use focot_services.Prelude.Int.{ℤ, ℤ_discrete}
use focot_services.Prelude.Results.{Result, ok, Fault}
use focot_services.Recorder.Rooms.{Room, Metrics}
use focot_services.Recorder.Exporter.{
  collector, RoomMap, room_lookup, room_insert, rooms_of, room_delete, room_series, observe, set,
  delete_values, Exporter, label_values, gauge_value, info_calls, same_labels, update_info,
  update_room, update_rooms, clean_info, clean_rooms, update_metrics,
}
use focot_services.Recorder.Exporter.Run.{make_maps, start, run_updates}

module _ {V : Type 0} where
  -- Whether a node has a map.
  abbrev pub has_node : Text → RoomMap V → Bool
  has_node n m = contains text_dec (keys m) n

  -- An insertion at a node that has a map goes through, and keeps the nodes.
  room_insert-ok :
      (node : Text) (room : ℤ) (v : V) (m : RoomMap V)
      → has_node node m ≡ true
      → (m' : RoomMap V) × ((room_insert node room v m ≡ ok m')
          × ((n : Text) → has_node n m' ≡ has_node n m))
  unfolding room_insert
  room_insert-ok node room v m h = elim (Option-cases (lookup text_dec node m)) [
    | inl e ↦ absurd (ground (arith, contains-keys text_dec node m))
    | inr (rooms, e) ↦
        let rooms' = insert ℤ_discrete room v rooms in
        (
          insert text_dec node rooms' m,
          (
            rw (room_insert, e) refl,
            λ n.
                contains-insert text_dec node n rooms' m
                ∙ contains_again text_dec (keys m) node n h,
          ),
        )
  ]

  has_node-delete :
      (node : Text) (room : ℤ) (m : RoomMap V) (n : Text)
      → has_node n (room_delete node room m) ≡ has_node n m
  unfolding room_delete
  has_node-delete node room m n = elim (Option-cases (lookup text_dec node m)) [
    | inl e ↦ rw (room_delete, e) refl
    | inr (rooms, e) ↦
        rw (room_delete, e)
          (contains-insert text_dec node n (delete ℤ_discrete room rooms) m
            ∙ contains_again text_dec (keys m) node n
                (ground (arith, contains-keys text_dec node m)))
  ]

  has_node-make_maps :
      (nodes : List Text) (m : RoomMap V) (n : Text)
      → has_node n (make_maps nodes m) ≡ (contains text_dec nodes n || has_node n m)
  unfolding make_maps
  has_node-make_maps [] m n = refl
  has_node-make_maps (node ∷ nodes) m n = ground (
    arith,
    has_node-make_maps nodes (insert text_dec node [] m) n,
    contains-insert text_dec node n [] m,
  )

module _ (Float : Type 0) (of_int : ℤ → Float) where
  -- A step that goes through, and keeps the nodes of both maps.
  record Ends (e : Exporter Float of_int) (step : Result Fault (Exporter Float of_int))
      : Type 0 where
    result : Exporter Float of_int
    reached : step ≡ ok result
    versions : (n : Text) → has_node n result.room_versions ≡ has_node n e.room_versions
    labels : (n : Text) → has_node n result.room_labels ≡ has_node n e.room_labels

  update_info-Ends :
      (node : Text) (r : Room Float) (e : Exporter Float of_int)
      → has_node node e.room_labels ≡ true
      → Ends e (update_info Float of_int node r e)
  unfolding update_info
  update_info-Ends node r e h =
      let values = label_values Float of_int node r in
      let old = room_lookup node r.room_id e.room_labels in
      elim (Bool-cases (same_labels Float of_int values old))
        as (λ _. Ends e (update_info Float of_int node r e)) [
          | inl same ↦ record {
            result = e;
            reached = rw (update_info, same) refl;
            versions = λ _. refl;
            labels = λ _. refl;
          }
          | inr new ↦
              let (labels', stored) = room_insert-ok node r.room_id values e.room_labels h in
              record {
                result = record e {
                  room_labels = labels';
                  calls = e.calls ++ info_calls Float of_int values old;
                };
                reached = rw (update_info, new, stored.0) refl;
                versions = λ _. refl;
                labels = stored.1;
              }
        ]

  update_room-Ends :
      (node : Text) (now : ℕ) (r : Room Float) (e : Exporter Float of_int)
      → has_node node e.room_versions ≡ true
      → has_node node e.room_labels ≡ true
      → Ends e (update_room Float of_int node now r e)
  unfolding update_room
  update_room-Ends node now r e hv hl =
      let i = update_info-Ends node r e hl in
      let (versions', stored) =
        room_insert-ok node r.room_id now i.result.room_versions (i.versions node ∙ hv) in
      record {
        result = record i.result {
          room_versions = versions';
          calls =
              i.result.calls
              ++ map (λ g. set g (room_series node r.room_id) (gauge_value Float of_int g r))
                  collector;
        };
        reached = rw (i.reached, stored.0) refl;
        versions = λ n. stored.1 n ∙ i.versions n;
        labels = i.labels;
      }

  update_rooms-Ends :
      (node : Text) (now : ℕ) (rooms : List (Room Float)) (e : Exporter Float of_int)
      → has_node node e.room_versions ≡ true
      → has_node node e.room_labels ≡ true
      → Ends e (update_rooms Float of_int node now rooms e)
  unfolding update_rooms
  update_rooms-Ends node now [] e hv hl = record {
    result = e;
    reached = refl;
    versions = λ _. refl;
    labels = λ _. refl;
  }
  update_rooms-Ends node now (r ∷ rooms) e hv hl =
      let i = update_room-Ends node now r e hv hl in
      let rest =
        update_rooms-Ends node now rooms i.result (i.versions node ∙ hv) (i.labels node ∙ hl) in
      record {
        result = rest.result;
        reached = rw (i.reached) (rest.reached);
        versions = λ n. rest.versions n ∙ i.versions n;
        labels = λ n. rest.labels n ∙ i.labels n;
      }

  -- The sweep keeps the nodes.
  record Keeps (e e' : Exporter Float of_int) : Type 0 where
    versions : (n : Text) → has_node n e'.room_versions ≡ has_node n e.room_versions
    labels : (n : Text) → has_node n e'.room_labels ≡ has_node n e.room_labels

  clean_rooms-Keeps :
      (node : Text) (now : ℕ) (rooms : List ℤ) (e : Exporter Float of_int)
      → Keeps e (clean_rooms Float of_int node now rooms e)
  unfolding clean_rooms
  clean_rooms-Keeps node now [] e = record { versions = λ _. refl; labels = λ _. refl }
  clean_rooms-Keeps node now (room ∷ rooms) e =
      elim (Option-cases (room_lookup node room e.room_versions))
        as (λ _. Keeps e (clean_rooms Float of_int node now (room ∷ rooms) e)) [
          | inl is ↦ rw (clean_rooms, is) (clean_rooms-Keeps node now rooms e)
          | inr (v, is) ↦
              elim (Bool-cases (v == now))
                as (λ _. Keeps e (clean_rooms Float of_int node now (room ∷ rooms) e)) [
                  | inl fresh ↦ rw (clean_rooms, is, fresh) (clean_rooms-Keeps node now rooms e)
                  | inr old ↦
                      let dropped = record e {
                        room_versions = room_delete node room e.room_versions;
                        calls =
                            e.calls ++ map (λ g. delete_values g (room_series node room)) collector;
                      } in
                      let rest = clean_rooms-Keeps node now rooms dropped in
                      rw (clean_rooms, is, old)
                        (record {
                          versions =
                              λ n. rest.versions n ∙ has_node-delete node room e.room_versions n;
                          labels = rest.labels;
                        })
                ]
        ]

  clean_info-Keeps :
      (node : Text) (rooms : List (Room Float)) (e : Exporter Float of_int)
      → Keeps e (clean_info Float of_int node rooms e)
  unfolding clean_info
  clean_info-Keeps node [] e = record { versions = λ _. refl; labels = λ _. refl }
  clean_info-Keeps node (r ∷ rooms) e = record { versions = λ _. refl; labels = λ _. refl }

  update_metrics-Ends :
      (now : ℕ) (m : Metrics Float) (e : Exporter Float of_int)
      → has_node m.node_name e.room_versions ≡ true
      → has_node m.node_name e.room_labels ≡ true
      → Ends e (update_metrics Float of_int now m e)
  unfolding update_metrics
  update_metrics-Ends now m e hv hl =
      let observed = record e { calls = e.calls ++ observe m.node_name m.request_duration ∷ [] } in
      let i = update_rooms-Ends m.node_name now m.rooms observed hv hl in
      let info = clean_info-Keeps m.node_name m.rooms i.result in
      let cleaned = clean_info Float of_int m.node_name m.rooms i.result in
      let listed = keys (rooms_of m.node_name cleaned.room_versions) in
      let sweep = clean_rooms-Keeps m.node_name now listed cleaned in
      record {
        result = clean_rooms Float of_int m.node_name now listed cleaned;
        reached = rw (i.reached) refl;
        versions = λ n. sweep.versions n ∙ info.versions n ∙ i.versions n;
        labels = λ n. sweep.labels n ∙ info.labels n ∙ i.labels n;
      }

  -- Messages of nodes that have both maps.
  abbrev pub AreKnown : List Text → List (ℕ × Metrics Float) → Type 0
  AreKnown nodes = All (λ (p : ℕ × Metrics Float). contains text_dec nodes p.1.node_name ≡ true)

  run_updates-Ends :
      (nodes : List Text) (messages : List (ℕ × Metrics Float)) (e : Exporter Float of_int)
      → AreKnown nodes messages
      → ((n : Text) → contains text_dec nodes n ≡ true → has_node n e.room_versions ≡ true)
      → ((n : Text) → contains text_dec nodes n ≡ true → has_node n e.room_labels ≡ true)
      → (e' : Exporter Float of_int) × (run_updates Float of_int messages e ≡ ok e')
  unfolding run_updates
  run_updates-Ends nodes [] e known hv hl = (e, refl)
  run_updates-Ends nodes ((now, m) ∷ messages) e known hv hl =
      let i = update_metrics-Ends now m e (hv m.node_name known.0) (hl m.node_name known.0) in
      let (e', reached) =
        run_updates-Ends nodes messages i.result known.1 (λ n h. i.versions n ∙ hv n h)
          (λ n h. i.labels n ∙ hl n h) in
      (e', rw (i.reached) reached)

  -- From its start on, the exporter takes every message of a configured node without a panic.
  pub run_updates_taken :
      (nodes : List Text) (messages : List (ℕ × Metrics Float))
      → AreKnown nodes messages
      → (e' : Exporter Float of_int) × (run_updates Float of_int messages (start Float of_int nodes)
          ≡ ok e')
  unfolding start
  run_updates_taken nodes messages known =
      run_updates-Ends nodes messages (start Float of_int nodes) known
        (λ n h. has_node-make_maps nodes [] n ∙ rw h refl)
        (λ n h. has_node-make_maps nodes [] n ∙ rw h refl)
