-- ===== src/NetCheck/Metrics/Window/Reported.antt =====
-- The value of the gauge is the one that the history of the probes makes due.
use focot_services.Prelude.{
  ◌==◌, if◌then◌else◌, length, All, contains, contains-append, Distinct, keys, Text, text_dec, ◌+◌,
  ◌^◌, ◌≤◌, ◌<◌, ◌≡◌, refl, ap, ◌∙◌, ◌||◌, some, List, [], ◌∷◌, map, arith,
}
use focot_services.Prelude.Sorting.{sort_texts, IsSorted, sort_texts-contains, sort_texts-Distinct}
use focot_services.NetCheck.Metrics.{
  Float64, u64, RatioState, Window, ensure_host, new_collector, sample, collect,
}
use focot_services.NetCheck.Metrics.Collect.{state_at, sampled, collect-Scraped}
use focot_services.NetCheck.Metrics.Window.{
  Outcome, succeeded, timed_out, successes, failures, heard_of, heard, reported, observe, run, due,
}
use focot_services.NetCheck.Metrics.Window.Observe.{
  shown, ensure_host_lem, observe-Counted, ensure_host-keys, ensure_host-Distinct, observe-keys,
  observe-Distinct,
}

module _ (F : Float64) where
  open F use {Carrier, zero_value, nan, of_uint64, div}

  abbrev ratio_of : RatioState F → Carrier
  ratio_of s = div (of_uint64 s.success) (of_uint64 (s.success + s.failure))

  sample_lem :
      (s : RatioState F)
      → s.success + s.failure < 2 ^ 64
      → ((sample F s).1 ≡ (if s.success + s.failure == 0 then shown F s else ratio_of s))
        × (shown F (sample F s).0 ≡ (sample F s).1)
        × ((sample F s).0.success ≡ 0)
        × ((sample F s).0.failure ≡ 0)
  unfolding sample
  sample_lem s room =
      let total : u64 (s.success + s.failure) ≡ s.success + s.failure = omega arith in ground arith

  successes-failures-le :
      (h : Text) (outs : List Outcome) → successes h outs + failures h outs ≤ length outs
  unfolding successes failures
  successes-failures-le h [] = omega arith
  successes-failures-le h (succeeded k ∷ outs) = ground (arith, successes-failures-le h outs)
  successes-failures-le h (timed_out k ∷ outs) = ground (arith, successes-failures-le h outs)

  -- A map between two windows, behind a history.
  record Between (hosts : List Text) (history : List (List Outcome)) (c : Window F) : Type 0 where
    pub once : Distinct text_dec (keys c)
    pub known :
        (k : Text)
        → contains text_dec (keys c) k
          ≡ (contains text_dec hosts k || contains text_dec (heard history) k)
    pub success : (h : Text) → (state_at F h c).success ≡ 0
    pub failure : (h : Text) → (state_at F h c).failure ≡ 0
    pub shows : (h : Text) → shown F (state_at F h c) ≡ reported F h history

  record Fresh (hosts : List Text) (c c' : Window F) : Type 0 where
    pub once : Distinct text_dec (keys c')
    pub known :
        (k : Text)
        → contains text_dec (keys c') k
          ≡ (contains text_dec (keys c) k || contains text_dec hosts k)
    pub states : (k : Text) → state_at F k c' ≡ state_at F k c

  new_collector-Fresh :
      (hosts : List Text) (c : Window F)
      → Distinct text_dec (keys c)
      → Fresh hosts c (new_collector F hosts c)
  unfolding new_collector
  new_collector-Fresh [] c d = record { once = d; known = λ k. ground arith; states = λ k. refl }
  new_collector-Fresh (h ∷ hosts) c d =
      let rest = new_collector-Fresh hosts (ensure_host F h c).1 (ensure_host-Distinct F h c d) in
      record {
        once = rest.once;
        known = λ k. ground (arith, rest.known k, ensure_host-keys F h k c);
        states = λ k. ground (arith, rest.states k, ensure_host_lem F h k c);
      }

  -- A scrape behind a history: one value for each host that was configured or heard of, in order,
  -- and each value is the one that is due.
  pub record Sent (hosts : List Text) (history : List (List Outcome)) (sent : List (Text × Carrier))
      : Type 0 where
    pub listed : List Text
    pub in_order : IsSorted listed
    pub once : Distinct text_dec listed
    pub known :
        (k : Text)
        → contains text_dec listed k
          ≡ (contains text_dec hosts k || contains text_dec (heard history) k)
    pub values : sent ≡ map (due F history) listed

  map-due :
      (hosts : List Text) (history : List (List Outcome)) (c : Window F)
      → ((h : Text) → (sample F (state_at F h c)).1 ≡ reported F h history)
      → map (sampled F c) hosts ≡ map (due F history) hosts
  map-due [] history c e = refl
  map-due (h ∷ hosts) history c e = ground (arith, e h, map-due hosts history c e)

  sampled-reported :
      (h : Text) (outs : List Outcome) (earlier : List (List Outcome)) (c : Window F)
      → length outs < 2 ^ 64
      → (state_at F h c).success ≡ 0
      → (state_at F h c).failure ≡ 0
      → shown F (state_at F h c) ≡ reported F h earlier
      → ((sample F (state_at F h (observe F outs c))).1 ≡ reported F h (outs ∷ earlier))
        × (shown F (sample F (state_at F h (observe F outs c))).0 ≡ reported F h (outs ∷ earlier))
        × ((sample F (state_at F h (observe F outs c))).0.success ≡ 0)
        × ((sample F (state_at F h (observe F outs c))).0.failure ≡ 0)
  unfolding reported
  sampled-reported h outs earlier c room success failure shows =
      let counted = observe-Counted F h outs c (omega arith) in
      let few = successes-failures-le h outs in
      let s = sample_lem (state_at F h (observe F outs c)) (omega arith) in
      let value : (sample F (state_at F h (observe F outs c))).1 ≡ reported F h (outs ∷ earlier) =
        ground arith in
      (value, s.1 ∙ value, s.2, s.3)

  -- The hosts of the map behind one more window.
  hosts_known :
      (hosts : List Text) (outs : List Outcome) (earlier : List (List Outcome)) (c : Window F)
      → Between hosts earlier c
      → (k : Text)
      → contains text_dec (keys (observe F outs c)) k
        ≡ (contains text_dec hosts k || contains text_dec (heard (outs ∷ earlier)) k)
  hosts_known hosts outs earlier c b k = ground (
    arith,
    observe-keys F k outs c,
    b.known k,
    contains-append text_dec (heard_of outs) (heard earlier) k,
  )

  step :
      (hosts : List Text) (outs : List Outcome) (earlier : List (List Outcome)) (c : Window F)
      → length outs < 2 ^ 64
      → Between hosts earlier c
      → (sent : List (Text × Carrier)) × ((c' : Window F) × (collect F (observe F outs c)
            ≡ some (sent, c'))
          × Between hosts (outs ∷ earlier) c'
          × Sent hosts (outs ∷ earlier) sent)
  step hosts outs earlier c room b =
      let c₁ = observe F outs c in
      let once = observe-Distinct F outs c b.once in
      let (sent, rest) = collect-Scraped F c₁ once in
      let (c', ran, scraped) = rest in
      let known = hosts_known hosts outs earlier c b in
      let at = λ (h : Text).
        sampled-reported h outs earlier c room (b.success h) (b.failure h) (b.shows h) in
      (
        sent,
        (
          c',
          ran,
          record {
            once = scraped.once;
            known = λ k. scraped.same_keys k ∙ known k;
            success = λ h. rw (scraped.states h) (at h).2;
            failure = λ h. rw (scraped.states h) (at h).3;
            shows = λ h. rw (scraped.states h) (at h).1;
          },
          record {
            listed = sort_texts (keys c₁);
            in_order = scraped.in_order;
            once = sort_texts-Distinct (keys c₁) once;
            known = λ k. sort_texts-contains (keys c₁) k ∙ known k;
            values =
                scraped.values ∙ map-due (sort_texts (keys c₁)) (outs ∷ earlier) c₁ (λ h. (at h).0);
          },
        ),
      )

  start : (hosts : List Text) → Between hosts [] (new_collector F hosts [])
  unfolding reported
  start hosts =
      let fresh = new_collector-Fresh hosts [] tt in
      record {
        once = fresh.once;
        known = λ k. ground (arith, fresh.known k);
        success = λ h. ap (λ s. s.success) (fresh.states h);
        failure = λ h. ap (λ s. s.failure) (fresh.states h);
        shows = λ h. ap (shown F) (fresh.states h);
      }

  runs :
      (hosts : List Text) (outs : List Outcome) (earlier : List (List Outcome))
      → All (λ o. length o < 2 ^ 64) (outs ∷ earlier)
      → (sent : List (Text × Carrier)) × ((c' : Window F) × (run F
              (outs ∷ earlier)
              (new_collector F hosts [])
            ≡ some (sent, c'))
          × Between hosts (outs ∷ earlier) c'
          × Sent hosts (outs ∷ earlier) sent)
  unfolding run
  runs hosts outs [] room = step hosts outs [] (new_collector F hosts []) room.0 (start hosts)
  runs hosts outs (o ∷ earlier) room =
      let (_, before) = runs hosts o earlier room.1 in
      let (c, ran, b, _) = before in
      let (sent, after) = step hosts outs (o ∷ earlier) c room.0 b in
      let (c', ran', b', s) = after in (sent, (c', rw ran ran', b', s))

  -- From the configured hosts on, the collector never faults, and after any number of windows the
  -- scrape sends one value for each host configured or heard of, in order: the success ratio of
  -- the last window that had an outcome at that host, and NaN where none had. The counters do not
  -- wrap as long as a window holds fewer than 2^64 outcomes.
  pub run-Sent :
      (hosts : List Text) (outs : List Outcome) (earlier : List (List Outcome))
      → All (λ o. length o < 2 ^ 64) (outs ∷ earlier)
      → (sent : List (Text × Carrier)) × ((c' : Window F) × (run F
              (outs ∷ earlier)
              (new_collector F hosts [])
            ≡ some (sent, c'))
          × Sent hosts (outs ∷ earlier) sent)
  run-Sent hosts outs earlier room =
      let (sent, all) = runs hosts outs earlier room in
      let (c', ran, _, s) = all in (sent, (c', ran, s))
