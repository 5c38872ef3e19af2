-- ===== src/Recorder/Cdn/Updater.antt =====
-- io-bilive-recorder/bcdn.go: `BCdnUpdater`. An attempt is given the queue as it is then.
use focot_services.Prelude.{Text, ℕ, ◌≡◌, Option, none, some, List, [], ◌∷◌}
use focot_services.Prelude.Results.{Result, ok, err, ◌>>=◌, Fault}
use focot_services.HttpProxy.Packing.{Wire}
use focot_services.HttpProxy.Gateway.{Queue}
use focot_services.Recorder.Cdn.{DnsData, Cdn, get_bcdn, update_bcdn}
use focot_services.Recorder.Cdn.Domains.{HasRegions, Holds}

-- The loop for the first fetch, and the loop of the ticker.
pub data Phase : Type 0 where
  first_fetch fetch_loop : Phase

-- The seconds until the next attempt; the interval is that of the configuration.
pub wait_seconds : ℕ → Phase → ℕ
wait_seconds interval first_fetch = 10
wait_seconds interval fetch_loop = interval

-- The phase behind an attempt: the first fetch is tried again until it has no error.
pub next_phase : Phase → Option (Unit {0}) → Phase
next_phase first_fetch none = fetch_loop
next_phase first_fetch (some _) = first_fetch
next_phase fetch_loop error = fetch_loop

-- The documents that attempts have brought, from the last one back.
abbrev pub last_brought : Result Fault (Option (Option DnsData)) → Option DnsData → Option DnsData
last_brought (ok (some (some dns))) before = some dns
last_brought (ok (some none)) before = before
last_brought (ok none) before = before
last_brought (err _) before = before

-- An answer that does not make the update panic: none, or a document that is not null and in which no
-- region is null.
abbrev pub IsReadable : Result Fault (Option (Option DnsData)) → Type 0
IsReadable (ok (some (some dns))) = HasRegions dns.dns_list
IsReadable (ok none) = Unit
IsReadable (ok (some none)) = ⊥
IsReadable (err _) = ⊥

-- What the updater holds: nothing before the first document, and then that document's version.
abbrev pub Follows : Option DnsData → Phase → Cdn → Type 0
Follows none phase c = (phase ≡ first_fetch) × (c ≡ record { bcdn = none; bcdn_regions = none })
Follows (some dns) phase c = (phase ≡ fetch_loop) × Holds dns.version c

module _ (w : Wire) (decode : List ℕ → Option (Option DnsData)) (id proxy_node : Text) where
  -- Both loops, over the attempts.
  pub updater : List Queue → Phase → Cdn → Result Fault (Phase × Cdn)
  updater [] phase c = ok (phase, c)
  updater (mq ∷ attempts) phase c = do
    (error, c') ← update_bcdn w decode mq id proxy_node c
    updater attempts (next_phase phase error) c'

  abbrev pub brought : List Queue → Option DnsData → Option DnsData
  brought [] before = before
  brought (mq ∷ attempts) before =
      brought attempts (last_brought (get_bcdn w decode mq id proxy_node) before)
