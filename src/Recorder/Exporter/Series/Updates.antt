-- ===== src/Recorder/Exporter/Series/Updates.antt =====
-- io-bilive-recorder/metrics.go: what a message of `updateMetrics` leaves for the scrapes.
use focot_services.Prelude.{
  ◌==◌, if◌then◌else◌, Bool-cases, is_yes, All, contains, keys, Text, text_dec, ℕ, ◌≡◌, refl, sym,
  ap, ◌∙◌, ◌≢◌, inl, inr, true, false, Option, none, some, List, [], ◌∷◌, ◌++◌, arith,
}
use focot_services.Prelude.Int.{ℤ, pos, ℤ_discrete}
use focot_services.Prelude.Results.{ok, ok_mapped}
use focot_services.Recorder.Rooms.{Room, Metrics}
use focot_services.Recorder.Exporter.{
  Gauge, auto_record, recording, streaming, danmaku_connected, session_duration, total_input_bytes,
  current_file_size, session_max_timestamp, file_max_timestamp, network_bytes_downloaded,
  disk_bytes_written, network_mbps, disk_mbps, collector, rooms_of, observe, Exporter, of_bool,
  gauge_value, update_rooms, clean_info, clean_rooms, update_metrics,
}
use focot_services.Recorder.Exporter.Series.{gauge_dec}
use focot_services.Recorder.Exporter.Series.Maps.{contains-rooms_of}
use focot_services.Recorder.Exporter.Series.Live.{
  is_some, stay, shows, version, IsExact, Moved, Moved-stay,
}
use focot_services.Recorder.Exporter.Series.Sweep.{
  refreshed, swept, ids, Moved-then, update_rooms-Moved, clean_info-Moved, clean_rooms-Moved,
}
use focot_services.Recorder.Exporter.Series.Values.{shown}
use focot_services.Recorder.Exporter.Series.Shown.{
  last_report, reported, shown-update_rooms, shown-clean_rooms, shown-clean_info,
}

-- The rooms that a sweep leaves, where no version was of this message before.
sweep-refreshed :
    (node : Text) (now : ℕ) (reported listed : List ℤ) (n : Text) (r : ℤ) (v : Option ℕ)
    → v ≢ some now
    → (node ≡ n → contains ℤ_discrete listed r ≡ is_some (refreshed node now reported n r v))
    → is_some (swept node now listed n r (refreshed node now reported n r v))
      ≡ (if is_yes (text_dec node n) then contains ℤ_discrete reported r else is_some v)
sweep-refreshed node now reported listed n r none fresh all = ground arith
sweep-refreshed node now reported listed n r (some v) fresh all =
    let old : (v == now) ≡ false = ground arith in ground arith

module _ (Float : Type 0) (of_int : ℤ → Float) where
  abbrev observed : Metrics Float → Exporter Float of_int → Exporter Float of_int
  observed m e = record e { calls = e.calls ++ observe m.node_name m.request_duration ∷ [] }

  abbrev cleaned : Metrics Float → Exporter Float of_int → Exporter Float of_int
  cleaned m f = clean_info Float of_int m.node_name m.rooms f

  abbrev swept_rooms : Metrics Float → Exporter Float of_int → List ℤ
  swept_rooms m f = keys (rooms_of m.node_name (cleaned m f).room_versions)

  -- The two parts of a message that does not panic: the rooms, and the sweep.
  update_metrics_parts :
      (now : ℕ) (m : Metrics Float) (e e' : Exporter Float of_int)
      → update_metrics Float of_int now m e ≡ ok e'
      → (f : Exporter Float of_int) × ((update_rooms Float of_int m.node_name now m.rooms
              (observed m e)
            ≡ ok f)
          × (clean_rooms Float of_int m.node_name now (swept_rooms m f) (cleaned m f) ≡ e'))
  unfolding update_metrics
  update_metrics_parts now m e e' h =
      ok_mapped (update_rooms Float of_int m.node_name now m.rooms (observed m e))
        (λ f. clean_rooms Float of_int m.node_name now (swept_rooms m f) (cleaned m f)) e' h

  -- What a message does, from the observation to the sweep.
  pub record Updated (now : ℕ) (m : Metrics Float) (e e' : Exporter Float of_int) : Type 0 where
    pub listed : List ℤ
    pub all :
        (r : ℤ)
        → contains ℤ_discrete listed r
          ≡ is_some (
              refreshed m.node_name now
                (ids Float of_int m.rooms)
                m.node_name
                r
                (version Float of_int m.node_name r e))
    pub moved :
        Moved Float of_int
          (λ n r v.
            swept m.node_name now listed n r
              (refreshed m.node_name now (ids Float of_int m.rooms) n r v))
          e
          e'

  pub update_metrics-Updated :
      (now : ℕ) (m : Metrics Float) (e e' : Exporter Float of_int)
      → update_metrics Float of_int now m e ≡ ok e'
      → Updated now m e e'
  update_metrics-Updated now m e e' h =
      let node = m.node_name in
      let (f, done) = update_metrics_parts now m e e' h in
      let seen : Moved Float of_int stay e (observed m e) =
        Moved-stay Float of_int e (observed m e) (observe m.node_name m.request_duration ∷ []) refl
          refl (λ _ _ _ _. refl) in
      let info : Moved Float of_int (refreshed node now (ids Float of_int m.rooms)) e
          (cleaned m f) =
        Moved-then Float of_int (refreshed node now (ids Float of_int m.rooms)) stay e f
          (cleaned m f)
          (Moved-then Float of_int stay (refreshed node now (ids Float of_int m.rooms)) e
            (observed m e) f seen
            (update_rooms-Moved Float of_int node now m.rooms (observed m e) f done.0))
          (clean_info-Moved Float of_int node m.rooms f) in
      record {
        listed = swept_rooms m f;
        all = λ r.
            contains-rooms_of node r (cleaned m f).room_versions
            ∙ ap is_some (info.versions node r);
        moved = rw (← done.1) (
            Moved-then Float of_int (refreshed node now (ids Float of_int m.rooms))
              (swept node now (swept_rooms m f)) e (cleaned m f) _ info
              (clean_rooms-Moved Float of_int node now (swept_rooms m f) (cleaned m f)));
      }

  -- What the gauges show is kept to the rooms that have a version: after any message that does not
  -- panic, every gauge of the collector shows exactly those, if it did before.
  pub update_metrics-IsExact :
      (now : ℕ) (m : Metrics Float) (e e' : Exporter Float of_int)
      → update_metrics Float of_int now m e ≡ ok e'
      → IsExact Float of_int e
      → IsExact Float of_int e'
  update_metrics-IsExact now m e e' h x = (update_metrics-Updated now m e e' h).moved.exact x

  -- After a message of a node that does not panic, every gauge of the collector shows exactly the
  -- rooms of this message for the node, and for the other nodes what it showed before. Asked for is
  -- that the gauges showed the rooms that have a version, and that no version is the time of this
  -- message yet.
  pub update_metrics_shown :
      (now : ℕ) (m : Metrics Float) (e e' : Exporter Float of_int)
      → update_metrics Float of_int now m e ≡ ok e'
      → IsExact Float of_int e
      → ((n : Text) (r : ℤ) → version Float of_int n r e ≢ some now)
      → (g : Gauge) → contains gauge_dec collector g ≡ true
      → (n : Text) (r : ℤ)
      → shows Float of_int g n r e' ≡ (
          if is_yes (text_dec m.node_name n)
          then contains ℤ_discrete (ids Float of_int m.rooms) r
          else shows Float of_int g n r e)
  unfolding IsExact
  update_metrics_shown now m e e' h x fresh g hg n r =
      let u = update_metrics-Updated now m e e' h in
      u.moved.exact x g hg n r
      ∙ ap is_some (u.moved.versions n r)
      ∙ sweep-refreshed m.node_name now (ids Float of_int m.rooms) u.listed n r
          (version Float of_int n r e) (fresh n r) (λ same. rw (← same) (u.all r))
      ∙ rw (x g hg n r) refl

  last_report-Lacks :
      (q : ℤ) (rooms : List (Room Float)) (before : Option (Room Float))
      → contains ℤ_discrete (ids Float of_int rooms) q ≡ false
      → last_report Float of_int q rooms before ≡ before
  last_report-Lacks q [] before lacks = refl
  last_report-Lacks q (r ∷ rooms) before lacks = ground (arith, last_report-Lacks q rooms before)

  last_report-contains :
      (q : ℤ) (rooms : List (Room Float)) (r : Room Float)
      → last_report Float of_int q rooms none ≡ some r
      → contains ℤ_discrete (ids Float of_int rooms) q ≡ true
  last_report-contains q rooms r last =
      elim (Bool-cases (contains ℤ_discrete (ids Float of_int rooms) q)) [
        | inl has ↦ has
        | inr lacks ↦
            let no : none ≡ some r = sym (last_report-Lacks q rooms none lacks) ∙ last in
            absurd (cc)
      ]

  -- The same for one gauge.
  update_metrics_value :
      (now : ℕ) (m : Metrics Float) (e e' : Exporter Float of_int) (g : Gauge) (q : ℤ)
      (r : Room Float)
      → update_metrics Float of_int now m e ≡ ok e'
      → contains gauge_dec collector g ≡ true
      → last_report Float of_int q m.rooms none ≡ some r
      → shown Float of_int g m.node_name q e' ≡ some (gauge_value Float of_int g r)
  update_metrics_value now m e e' g q r h hg last =
      let node = m.node_name in
      let (f, done) = update_metrics_parts now m e e' h in
      let has = last_report-contains q m.rooms r last in
      let fresh : version Float of_int node q (cleaned m f) ≡ some now =
        (clean_info-Moved Float of_int node m.rooms f).versions node q
        ∙ (update_rooms-Moved Float of_int node now m.rooms (observed m e) f done.0).versions node q
        ∙ rw has (ground arith) in
      ap (shown Float of_int g node q) (sym done.1)
      ∙ shown-clean_rooms Float of_int node now (swept_rooms m f) (cleaned m f) g q fresh
      ∙ shown-clean_info Float of_int node m.rooms f g q hg
      ∙ shown-update_rooms Float of_int node now m.rooms (observed m e) f g q none
          (shown Float of_int g node q (observed m e)) hg done.0 refl
      ∙ ap (λ x. reported Float of_int g x (shown Float of_int g node q (observed m e))) last

  -- Which field of a report each gauge of the collector is to show.
  abbrev pub readings : Room Float → List (Gauge × Float)
  readings r =
      (auto_record, of_bool Float of_int r.auto_record)
      ∷ (recording, of_bool Float of_int r.recording)
      ∷ (streaming, of_bool Float of_int r.streaming)
      ∷ (danmaku_connected, of_bool Float of_int r.danmaku_connected)
      ∷ (session_duration, r.stats.session_duration)
      ∷ (total_input_bytes, of_int r.stats.total_input_bytes)
      ∷ (current_file_size, of_int r.stats.current_file_size)
      ∷ (session_max_timestamp, of_int r.stats.session_max_timestamp)
      ∷ (file_max_timestamp, of_int r.stats.file_max_timestamp)
      ∷ (network_bytes_downloaded, of_int r.io_stats.network_bytes_downloaded)
      ∷ (disk_bytes_written, of_int r.io_stats.disk_bytes_written)
      ∷ (network_mbps, r.io_stats.network_mbps)
      ∷ (disk_mbps, elim r.io_stats.disk_mbps [ none ↦ of_int (pos 0) | some v ↦ v ])
      ∷ []

  -- Behind a message that does not panic, the gauges show of each room in it what its last report
  -- says: each gauge of the collector shows the field that the table of readings names for it.
  pub update_metrics_values :
      (now : ℕ) (m : Metrics Float) (e e' : Exporter Float of_int) (q : ℤ) (r : Room Float)
      → update_metrics Float of_int now m e ≡ ok e'
      → last_report Float of_int q m.rooms none ≡ some r
      → All (λ (p : Gauge × Float). shown Float of_int p.0 m.node_name q e' ≡ some p.1) (readings r)
  unfolding gauge_value gauge_dec
  update_metrics_values now m e e' q r h last =
      let at = λ (g : Gauge) (hg : contains gauge_dec collector g ≡ true).
        update_metrics_value now m e e' g q r h hg last in
      (
        at auto_record refl,
        (
          at recording refl,
          (
            at streaming refl,
            (
              at danmaku_connected refl,
              (
                at session_duration refl,
                (
                  at total_input_bytes refl,
                  (
                    at current_file_size refl,
                    (
                      at session_max_timestamp refl,
                      (
                        at file_max_timestamp refl,
                        (
                          at network_bytes_downloaded refl,
                          (
                            at disk_bytes_written refl,
                            (at network_mbps refl, (at disk_mbps refl, tt)),
                          ),
                        ),
                      ),
                    ),
                  ),
                ),
              ),
            ),
          ),
        ),
      )
