-- ===== src/Damaku/Agent/Status.antt =====
-- io-bilive-damaku/agent/agent.go: the status that `controller` collects each second and publishes
-- to the center. What bigcache counts, and the meta, are parameters; the order of a Go map is that of
-- its list.
mod Reported
mod Tests
use focot_services.Prelude.{length, ℕ, ◌%◌, ◌^◌, List, [], ◌∷◌}
use focot_services.Damaku.Messages.{BasicMsgMeta}
use focot_services.Damaku.Agent.Actions.{Watcher}
use focot_services.Damaku.Agent.Events.Data.{ChatEvent}
use focot_services.Damaku.Agent.Events.Counters.{Counters}

-- `Stats` of a cache. An int64 is its bits.
pub record CacheStats : Type 0 where
  pub hits : ℕ
  pub misses : ℕ
  pub del_hits : ℕ
  pub del_misses : ℕ
  pub collisions : ℕ

-- `MetaCacheInfo`
pub record MetaCacheInfo : Type 0 where
  pub buffer : ℕ
  pub cached : ℕ
  pub stats : CacheStats

-- The message `AgentStatus`.
pub record StatusReport : Type 0 where
  pub meta : BasicMsgMeta
  pub watching : List ℕ
  pub buffer_used : ℕ
  pub buffer_event_count : List (ℕ × ℕ)
  pub meta_cache : List (ℕ × MetaCacheInfo)

-- `SupportedMsgTypesProto`: the buffer types of the supported commands, with their counters.
abbrev pub buffer_counts : Counters → List (ℕ × ℕ)
buffer_counts c =
    (0, c.danmu) ∷ (1, c.gift) ∷ (2, c.guard) ∷ (3, c.super_chat) ∷ (4, c.count) ∷ (5, c.rank) ∷ []

-- `uint32(n)`
abbrev pub to_uint32 : ℕ → ℕ
to_uint32 n = n % 2 ^ 32

-- What `controller` reads of one of the two caches: what waits for it, its entries, and its counts.
pub record CacheView : Type 0 where
  pub waiting : ℕ
  pub entries : ℕ
  pub counts : CacheStats

abbrev pub cache_info : CacheView → MetaCacheInfo
cache_info v = record {
  buffer = to_uint32 v.waiting;
  cached = to_uint32 v.entries;
  stats = v.counts;
}

-- A tick of `collectTicker`.
pub collect_status :
    BasicMsgMeta → Watcher → Counters × List ChatEvent → CacheView → CacheView → StatusReport
collect_status meta w (counters, events) user medal = record {
  meta = meta;
  watching = w.watching;
  buffer_used = to_uint32 (length events);
  buffer_event_count = buffer_counts counters;
  meta_cache = (0, cache_info user) ∷ (1, cache_info medal) ∷ [];
}
