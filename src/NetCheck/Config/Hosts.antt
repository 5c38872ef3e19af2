-- ===== src/NetCheck/Config/Hosts.antt =====
-- The hosts for which `main` sets up metrics.
use focot_services.Prelude.{
  Bool-cases, contains, contains-append, contains_again, Distinct, Distinct-concat, Text, text_dec,
  ◌≡◌, inl, inr, ◌||◌, List, [], ◌∷◌, ◌++◌, map, arith,
}
use focot_services.NetCheck.Config.{ProbeTarget, collect_from, collect_hosts}

module _ (h : Text) where
  collect_from-contains :
      (hosts : List Text) (ts : List ProbeTarget)
      → contains text_dec (collect_from hosts ts) h
        ≡ (contains text_dec hosts h || contains text_dec (map (λ t. t.host) ts) h)
  unfolding collect_from
  collect_from-contains hosts [] = ground arith
  collect_from-contains hosts (t ∷ ts) = elim (Bool-cases (contains text_dec hosts t.host)) [
    | inl seen ↦ rw seen (
        ground (arith, collect_from-contains hosts ts, contains_again text_dec hosts t.host h seen))
    | inr new ↦ rw new (
        ground (
          arith,
          collect_from-contains (hosts ++ t.host ∷ []) ts,
          contains-append text_dec hosts (t.host ∷ []) h,
        ))
  ]

collect_from-Distinct :
    (hosts : List Text) (ts : List ProbeTarget)
    → Distinct text_dec hosts
    → Distinct text_dec (collect_from hosts ts)
unfolding collect_from
collect_from-Distinct hosts [] d = d
collect_from-Distinct hosts (t ∷ ts) d = elim (Bool-cases (contains text_dec hosts t.host)) [
  | inl seen ↦ rw seen (collect_from-Distinct hosts ts d)
  | inr new ↦ rw new (
      collect_from-Distinct (hosts ++ t.host ∷ []) ts (Distinct-concat text_dec hosts t.host new d))
]

-- The hosts are those of the targets, each once.
pub collect_hosts_lem :
    (ts : List ProbeTarget)
    → Distinct text_dec (collect_hosts ts)
      × ((h : Text)
          → contains text_dec (collect_hosts ts) h ≡ contains text_dec (map (λ t. t.host) ts) h)
unfolding collect_hosts
collect_hosts_lem ts = (collect_from-Distinct [] ts tt, λ h. collect_from-contains h [] ts)
