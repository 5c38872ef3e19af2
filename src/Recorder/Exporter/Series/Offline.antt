-- ===== src/Recorder/Exporter/Series/Offline.antt =====
-- io-bilive-recorder/metrics.go: the room info of a node that goes offline and comes back.
use focot_services.Prelude.{
  ◌==◌, Bool-cases, Option-cases, is_yes, keys, lookup, Text, text_dec, ℕ, ◌≡◌, refl, sym, ap, ◌∙◌,
  inl, inr, ite, Bool, true, false, not, ◌&&◌, Option, none, some, List, [], ◌∷◌, ◌++◌, map, arith,
}
use focot_services.Prelude.Int.{ℤ, ℤ_discrete}
use focot_services.Prelude.Results.{ok, value_or}
use focot_services.Recorder.Rooms.{Room, Metrics}
use focot_services.Recorder.Exporter.{
  room_info, collector, texts_dec, RoomMap, room_lookup, rooms_of, room_delete, room_series,
  observe, delete_values, Exporter, label_values, same_labels, update_info, update_rooms, values_of,
  clean_info, clean_rooms, update_metrics,
}
use focot_services.Recorder.Exporter.Series.{
  gauge_dec, is_series, live_after, live_after-append, live_after-delete,
}
use focot_services.Recorder.Exporter.Series.Live.{unmanaged}

room_info_self : is_yes (gauge_dec room_info room_info) ≡ true
unfolding gauge_dec
room_info_self = refl

texts_self : (vs : List Text) → is_yes (texts_dec vs vs) ≡ true
texts_self vs = elim (texts_dec vs vs) as (λ d. is_yes d ≡ true) [
  | yes _ ↦ refl
  | no different ↦ absurd (different refl)
]

lookup-rooms_of :
    {V : Type 0} (node : Text) (room : ℤ) (m : RoomMap V)
    → lookup ℤ_discrete room (rooms_of node m) ≡ room_lookup node room m
lookup-rooms_of node room m = elim (Option-cases (lookup text_dec node m)) [
  | inl e ↦ rw (rooms_of, room_lookup, e) refl
  | inr (rooms, e) ↦ rw (rooms_of, room_lookup, e) refl
]

module _ (Float : Type 0) (of_int : ℤ → Float) where
  -- Whether the room info shows some labels.
  unfoldable pub info_shown : List Text → Exporter Float of_int → Bool
  info_shown vs e = live_after Float of_int false room_info vs e.calls

  -- Deletions show nothing new.
  values_of_hidden :
      (vs : List Text) (labels : List (ℤ × List Text))
      → live_after Float of_int false room_info vs (values_of Float of_int labels) ≡ false
  values_of_hidden vs [] = refl
  values_of_hidden vs ((_, old) ∷ labels) = values_of_hidden vs labels

  values_of_deletes :
      (b : Bool) (vs : List Text) (room : ℤ) (labels : List (ℤ × List Text))
      → lookup ℤ_discrete room labels ≡ some vs
      → live_after Float of_int b room_info vs (values_of Float of_int labels) ≡ false
  values_of_deletes b vs room [] h = absurd (cc)
  values_of_deletes b vs room ((j, old) ∷ labels) h =
      elim (ℤ_discrete j room)
          as (λ d.
            ite d (some old) (lookup ℤ_discrete room labels) ≡ some vs
            → live_after Float of_int (b && not (is_series Float of_int room_info vs room_info old))
                room_info vs (values_of Float of_int labels)
              ≡ false) [
                | yes _ ↦ λ is.
                    let same : old ≡ vs = cc in
                    let gone : (b && not (is_series Float of_int room_info vs room_info old))
                        ≡ false =
                      rw (same, room_info_self, texts_self vs) (ground arith) in
                    rw gone (values_of_hidden vs labels)
                | no _ ↦ λ is.
                    values_of_deletes (b && not (is_series Float of_int room_info vs room_info old))
                      vs room labels is
              ]
        h

  -- The sweep leaves the labels and the room info alone.
  clean_rooms_info :
      (node : Text) (now : ℕ) (rooms : List ℤ) (vs : List Text) (e : Exporter Float of_int)
      → ((clean_rooms Float of_int node now rooms e).room_labels ≡ e.room_labels)
        × (info_shown vs (clean_rooms Float of_int node now rooms e) ≡ info_shown vs e)
  unfolding clean_rooms
  clean_rooms_info node now [] vs e = (refl, refl)
  clean_rooms_info node now (room ∷ rooms) vs e =
      on_version (room_lookup node room e.room_versions) refl
        (λ f. clean_rooms_info node now rooms vs f)
    where
      on_version :
          (o : Option ℕ)
          → room_lookup node room e.room_versions ≡ o
          → ((f : Exporter Float of_int)
              → ((clean_rooms Float of_int node now rooms f).room_labels ≡ f.room_labels)
                × (info_shown vs (clean_rooms Float of_int node now rooms f) ≡ info_shown vs f))
          → ((clean_rooms Float of_int node now (room ∷ rooms) e).room_labels ≡ e.room_labels)
            × (info_shown vs (clean_rooms Float of_int node now (room ∷ rooms) e) ≡ info_shown vs e)
      on_version none at rest = rw (clean_rooms, at) (rest e)
      on_version (some v) at rest = elim (Bool-cases (v == now)) [
        | inl fresh ↦ rw (clean_rooms, at, fresh) (rest e)
        | inr old ↦
            let swept = rest (record e {
              room_versions = room_delete node room e.room_versions;
              calls = e.calls ++ map (λ g. delete_values g (room_series node room)) collector;
            }) in
            rw (clean_rooms, at, old)
              (
                swept.0,
                swept.1
                    ∙ (unfold info_shown in
                        live_after-append Float of_int false room_info vs e.calls
                          (map (λ g. delete_values g (room_series node room)) collector)
                        ∙ live_after-delete Float of_int
                            (live_after Float of_int false room_info vs e.calls) room_info vs
                            (room_series node room) collector
                        ∙ rw unmanaged (ground arith)),
              )
      ]

  abbrev pub offline : Text → ℕ → Metrics Float
  offline node duration = record { node_name = node; request_duration = duration; rooms = [] }

  -- When a node goes offline, by a message that does not panic, the room info of a known room is
  -- deleted, but its labels are kept: if the room comes back with these labels, the update of its
  -- room info finds nothing to change, and the room info stays deleted.
  pub update_metrics-offline :
      (now duration : ℕ) (node : Text) (r : Room Float) (e e' : Exporter Float of_int)
      → room_lookup node r.room_id e.room_labels ≡ some (label_values Float of_int node r)
      → update_metrics Float of_int now (offline node duration) e ≡ ok e'
      → (info_shown (label_values Float of_int node r) e' ≡ false)
        × (update_info Float of_int node r e' ≡ ok e')
  unfolding update_metrics update_rooms clean_info info_shown update_info
  update_metrics-offline now duration node r e e' held h =
      let observed = e.calls ++ observe node duration ∷ [] in
      let rooms = rooms_of node e.room_labels in
      let cleaned : Exporter Float of_int = record e {
        calls = observed ++ values_of Float of_int rooms;
      } in
      let vs = label_values Float of_int node r in
      let is : clean_rooms Float of_int node now (keys (rooms_of node e.room_versions)) cleaned
          ≡ e' =
        ap (value_or e) h in
      let kept = clean_rooms_info node now (keys (rooms_of node e.room_versions)) vs cleaned in
      let labels : e'.room_labels ≡ e.room_labels = ap (λ x. x.room_labels) (sym is) ∙ kept.0 in
      let same : same_labels Float of_int vs (room_lookup node r.room_id e'.room_labels) ≡ true =
        ap (λ l. same_labels Float of_int vs (room_lookup node r.room_id l)) labels
        ∙ rw held (texts_self vs) in
      (
        ap (info_shown vs) (sym is)
            ∙ kept.1
            ∙ live_after-append Float of_int false room_info vs observed
                (values_of Float of_int rooms)
            ∙ values_of_deletes _ vs r.room_id rooms
                (lookup-rooms_of node r.room_id e.room_labels ∙ held),
        rw (update_info, same) refl,
      )
