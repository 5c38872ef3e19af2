-- ===== src/NetCheck/Metrics/Collect.antt =====
-- What a scrape sends, and what it leaves behind.
use focot_services.Prelude.{
  if◌then◌else◌, is_yes, All, contains, Distinct, All-map, keys, lookup, insert, lookup-insert,
  contains-keys, contains-insert, Distinct-insert, Text, text_dec, ◌≡◌, refl, true, false, none,
  some, List, [], ◌∷◌, ◌++◌, map, append_assoc, append-nil, arith,
}
use focot_services.Prelude.Sorting.{
  sort_texts, IsSorted, sort_texts-IsSorted, sort_texts-contains, sort_texts-Distinct,
}
use focot_services.NetCheck.Metrics.{
  Float64, RatioState, Window, new_state, sample, collect_loop, collect,
}

module _ (F : Float64) where
  -- The state of a host; a host with none counts as new.
  abbrev pub state_at : Text → Window F → RatioState F
  state_at host c = elim (lookup text_dec host c) [ none ↦ new_state F | some s ↦ s ]

  abbrev pub sampled : Window F → Text → Text × F.Carrier
  sampled c host = (host, (sample F (state_at host c)).1)

  -- A scrape over some of the hosts, with the map that it leaves.
  record Collected (hosts : List Text) (c c' : Window F) : Type 0 where
    pub once : Distinct text_dec (keys c')
    pub same_keys : (k : Text) → contains text_dec (keys c') k ≡ contains text_dec (keys c) k
    pub states :
        (k : Text)
        → state_at k c'
          ≡ (if contains text_dec hosts k then (sample F (state_at k c)).0 else state_at k c)

  pub state_at-insert :
      (h k : Text) (s : RatioState F) (c : Window F)
      → state_at k (insert text_dec h s c) ≡ (if is_yes (text_dec h k) then s else state_at k c)
  state_at-insert h k s c = ground (arith, lookup-insert text_dec h k s c)

  sampled-insert :
      (h : Text) (s : RatioState F) (c : Window F) (hosts : List Text)
      → contains text_dec hosts h ≡ false
      → map (sampled (insert text_dec h s c)) hosts ≡ map (sampled c) hosts
  sampled-insert h s c [] out = refl
  sampled-insert h s c (k ∷ hosts) out =
      ground (arith, state_at-insert h k s c, sampled-insert h s c hosts)

  collect_loop_lem :
      (hosts : List Text) (c : Window F) (sent : List (Text × F.Carrier))
      → Distinct text_dec (keys c)
      → Distinct text_dec hosts
      → All (λ h. contains text_dec (keys c) h ≡ true) hosts
      → (c' : Window F) × (collect_loop F hosts c sent ≡ some (sent ++ map (sampled c) hosts, c'))
        × Collected hosts c c'
  unfolding collect_loop
  collect_loop_lem [] c sent once d known = (
    c,
    ground (arith, append-nil sent),
    record { once = once; same_keys = λ k. refl; states = λ k. refl },
  )
  collect_loop_lem (h ∷ hosts) c sent once d known =
      let s' = (sample F (state_at h c)).0 in
      let c₁ = insert text_dec h s' c in
      let (c', ran, left) =
        collect_loop_lem hosts c₁ (sent ++ sampled c h ∷ []) (Distinct-insert text_dec h s' c once)
          d.1 (All-map (λ k e. ground (arith, contains-insert text_dec h k s' c)) hosts known.1) in
      (
        c',
        ground (
          arith,
          contains-keys text_dec h c,
          append_assoc sent (sampled c h ∷ []) (map (sampled c) hosts),
          sampled-insert h s' c hosts,
        ),
        record {
          once = left.once;
          same_keys = λ k. ground (arith, left.same_keys k, contains-insert text_dec h k s' c);
          states = λ k. ground (arith, left.states k, state_at-insert h k s' c);
        },
      )

  unsampled : (s : RatioState F) → s ≡ new_state F → (sample F s).0 ≡ s
  unfolding sample
  unsampled s e = rw e

  -- What a scrape does to a map that holds each host once: it does not fault, it sends one value
  -- for each host, in the order of the hosts, and it leaves the hosts with their windows reset.
  pub record Scraped (c : Window F) (sent : List (Text × F.Carrier)) (c' : Window F) : Type 0 where
    pub in_order : IsSorted (sort_texts (keys c))
    pub values : sent ≡ map (sampled c) (sort_texts (keys c))
    pub once : Distinct text_dec (keys c')
    pub same_keys : (k : Text) → contains text_dec (keys c') k ≡ contains text_dec (keys c) k
    pub states : (k : Text) → state_at k c' ≡ (sample F (state_at k c)).0

  All-keys :
      (c : Window F) (hosts : List Text)
      → ((k : Text) → contains text_dec hosts k ≡ true → contains text_dec (keys c) k ≡ true)
      → All (λ h. contains text_dec (keys c) h ≡ true) hosts
  All-keys c [] sub = tt
  All-keys c (h ∷ hosts) sub =
      (sub h (ground arith), All-keys c hosts (λ k e. sub k (ground arith)))

  -- A scrape of a map that holds each host once succeeds, and does what `Scraped` says.
  pub collect-Scraped :
      (c : Window F)
      → Distinct text_dec (keys c)
      → (sent : List (Text × F.Carrier)) × ((c' : Window F) × (collect F c ≡ some (sent, c'))
          × Scraped c sent c')
  unfolding collect
  collect-Scraped c d =
      let hosts = sort_texts (keys c) in
      let (c', ran, left) =
        collect_loop_lem hosts c [] d (sort_texts-Distinct (keys c) d)
          (All-keys c hosts (λ k e. ground (arith, sort_texts-contains (keys c) k))) in
      (
        map (sampled c) hosts,
        (
          c',
          ran,
          record {
            in_order = sort_texts-IsSorted (keys c);
            values = refl;
            once = left.once;
            same_keys = left.same_keys;
            states = λ k. ground (
              arith,
              left.states k,
              sort_texts-contains (keys c) k,
              contains-keys text_dec k c,
              unsampled (state_at k c),
            );
          },
        ),
      )
