-- ===== src/Damaku/Center/Agents.antt =====
-- io-bilive-damaku/agent.go and io-bilive-damaku/types.go: the agents that the manager keeps, their
-- conditions and their masks, and which of them is the master.
use focot_services.Prelude.{
  ltb, ◌==◌, if◌then◌else◌, length, contains, lookup, insert, Text, codes, text_dec, split, join, ℕ,
  ◌+◌, ◌-◌, ◌*◌, ◌/◌, ◌%◌, ◌^◌, Bool, ◌&&◌, Option, none, some, List, [], ◌∷◌, ◌++◌, ℕ_discrete,
}
use focot_services.Prelude.Results.{Result, ok, err, Fault, nil_dereference}
use focot_services.Damaku.Cache.{Bytes}

-- `AgentInitialization`, `AgentReady` and `AgentSync`, bits of a uint32.
abbrev pub agent_initialization : ℕ
agent_initialization = 1

abbrev pub agent_ready : ℕ
agent_ready = 2

abbrev pub agent_sync : ℕ
agent_sync = 4

-- `c & bit > 0`, `c | bit` and `c ^ bit` at one bit, and `^AgentReady`.
abbrev pub has : ℕ → ℕ → Bool
has c bit = (c / bit) % 2 == 1

abbrev pub with_bit : ℕ → ℕ → ℕ
with_bit c bit = if has c bit then c else c + bit

abbrev pub flip_bit : ℕ → ℕ → ℕ
flip_bit c bit = if has c bit then c - bit else c + bit

abbrev pub all_but_ready : ℕ
all_but_ready = 2 ^ 32 - 1 - 2

-- `AgentStatus` of types.go. `watching` is that of `CachedStatus`, which is nil at first, and
-- `locked` says that `mu` is left locked.
pub record AgentStatus : Type 0 where
  pub id : Text
  pub mask : ℕ
  pub condition : ℕ
  pub update_time : ℕ
  pub watching : Option (List ℕ)
  pub hit_status : List (Text × ℕ)
  pub locked : Bool

abbrev pub is_ready : AgentStatus → Bool
is_ready a = has a.condition agent_initialization && has a.condition agent_ready

pub status_string : AgentStatus → Text
status_string a =
    let names =
      (if has a.condition agent_initialization then codes "INITIALIZED" ∷ [] else [])
      ++ ((if has a.condition agent_ready then codes "READY" ∷ [] else [])
          ++ (if has a.condition agent_sync then codes "SYNCED" ∷ [] else [])) in
    if ltb 0 (length names) then join b'|' names else codes "NO INITIALIZED"

-- `AgentManager`. The master is a pointer into `managed`, held here as the key.
pub record Manager : Type 0 where
  pub managed : List (Text × AgentStatus)
  pub watched_room : List ℕ
  pub latest_mask : ℕ
  pub master : Option Text
  pub mu_locked : Bool

-- `binary.BigEndian.PutUint16`
abbrev pub mask_bytes : ℕ → Bytes
mask_bytes mask = (mask / 256) ∷ (mask % 256) ∷ []

unfoldable pub agent_mask : Text → Manager → Option Bytes
agent_mask agent_id m = elim (lookup text_dec agent_id m.managed) [
  | none ↦ none
  | some a ↦ some (mask_bytes a.mask)
]

-- The loop that reads the masks back, two bytes at a time.
unfoldable pub hit_agents : Bytes → List ℕ
hit_agents [] = []
hit_agents (b ∷ []) = []
hit_agents (b ∷ c ∷ bytes) = (b * 256 + c) ∷ hit_agents bytes

unfoldable pub count_hit : Text → List (Text × ℕ) → List (Text × ℕ)
count_hit category hits = elim (lookup text_dec category hits) [
  | some n ↦ insert text_dec category ((n + 1) % 2 ^ 32) hits
  | none ↦ insert text_dec category 1 hits
]

unfoldable pub hit_all : List ℕ → Text → List (Text × AgentStatus) → List (Text × AgentStatus)
hit_all hit category [] = []
hit_all hit category ((k, a) ∷ rest) =
    (
      k,
      if contains ℕ_discrete hit a.mask
          then record a { hit_status = count_hit category a.hit_status }
          else a,
    )
    ∷ hit_all hit category rest

unfoldable pub add_agent_hit_mask : Bytes → Text → Manager → Manager
unfolding hit_all hit_agents count_hit
add_agent_hit_mask masks category m =
    if length masks % 2 == 0
    then record m { managed = hit_all (hit_agents masks) category m.managed }
    else m

-- `dupCacheRelease` of controller.go: the category is the first part of the key.
unfoldable pub dup_cache_release : Text → Bytes → Manager → Manager
dup_cache_release key entry m = elim (split b':' key) [
  | [] ↦ m
  | category ∷ parts ↦ if length parts == 0 then m else add_agent_hit_mask entry category m
]

-- `MasterAgent`: the test is the wrong way round.
unfoldable pub master_agent : Manager → Result Fault Text
master_agent m = elim m.master [ some _ ↦ ok [] | none ↦ err nil_dereference ]
