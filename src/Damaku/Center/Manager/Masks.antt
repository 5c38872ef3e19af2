-- ===== src/Damaku/Center/Manager/Masks.antt =====
-- The masks of the agents: `AgentMask`, `AddAgentHitMask` and `dupCacheRelease`.
use focot_services.Prelude.{
  if◌then◌else◌, is_yes, length, contains, lookup, lookup-insert, split-first, split-ne-nil, Text,
  text_dec, ℕ, ◌+◌, ◌%◌, ◌^◌, ◌≡◌, refl, ite, false, ◌&&◌, none, some, List, [], ◌∷◌, ◌++◌, arith,
  ℕ_discrete,
}
use focot_services.Damaku.Cache.{Bytes}
use focot_services.Damaku.Center.Agents.{
  AgentStatus, Manager, mask_bytes, hit_agents, count_hit, hit_all, add_agent_hit_mask,
  dup_cache_release,
}

-- The entry of the duplicate cache after the agents of these masks appended to it, in order.
pub appended : List ℕ → Bytes
appended [] = []
appended (mask ∷ masks) = mask_bytes mask ++ appended masks

-- The messages of a category that were counted for an agent.
abbrev pub hits : Text → AgentStatus → ℕ
hits category a = elim (lookup text_dec category a.hit_status) [ none ↦ 0 | some n ↦ n ]

hit_agents-appended : (masks : List ℕ) → hit_agents (appended masks) ≡ masks
unfolding hit_agents appended
hit_agents-appended [] = refl
hit_agents-appended (mask ∷ masks) = ground (arith, hit_agents-appended masks)

even_appended : (masks : List ℕ) → length (appended masks) % 2 ≡ 0
unfolding appended
even_appended [] = refl
even_appended (mask ∷ masks) = omega (arith, even_appended masks)

lookup-hit_all :
    (hit : List ℕ) (category id : Text) (managed : List (Text × AgentStatus))
    → lookup text_dec id (hit_all hit category managed) ≡ elim (lookup text_dec id managed) [
      | none ↦ none
      | some a ↦ some (
          if contains ℕ_discrete hit a.mask
          then record a { hit_status = count_hit category a.hit_status }
          else a)
    ]
unfolding hit_all
lookup-hit_all hit category id [] = refl
lookup-hit_all hit category id ((k, a) ∷ rest) = ground (arith, lookup-hit_all hit category id rest)

hits-count_hit :
    (category other : Text) (a : AgentStatus)
    → hits other (record a { hit_status = count_hit category a.hit_status })
      ≡ ite (text_dec category other) ((hits other a + 1) % 2 ^ 32) (hits other a)
unfolding count_hit
hits-count_hit category other a =
    ground
      (arith, lookup-insert text_dec category other ((hits category a + 1) % 2 ^ 32) a.hit_status)

-- When the entry of a message is released, every agent whose mask was appended to it, once or more
-- often, has one more message of the category; its other counts, and those of all other agents,
-- are what they were. Counts wrap around at 2^32.
pub add_agent_hit_mask-hits :
    (masks : List ℕ) (category other id : Text) (m : Manager) {a : AgentStatus}
    → lookup text_dec id m.managed ≡ some a
    → (b : AgentStatus) × ((lookup text_dec id
            (add_agent_hit_mask (appended masks) category m).managed
          ≡ some b)
        × (hits other b ≡ (
            if contains ℕ_discrete masks a.mask && is_yes (text_dec category other)
            then (hits other a + 1) % 2 ^ 32
            else hits other a)))
unfolding add_agent_hit_mask
add_agent_hit_mask-hits masks category other id m {a} found = (
  if contains ℕ_discrete masks a.mask
      then record a { hit_status = count_hit category a.hit_status }
      else a,
  (
    ground (
      arith,
      even_appended masks,
      hit_agents-appended masks,
      lookup-hit_all masks category id m.managed,
    ),
    ground (arith, hits-count_hit category other a),
  ),
)

-- The category of a released entry is what stands before the first colon of its key.
pub dup_cache_release-add_agent_hit_mask :
    (category rest : Text) (entry : Bytes) (m : Manager)
    → contains ℕ_discrete category b':' ≡ false
    → dup_cache_release (category ++ b':' ∷ rest) entry m ≡ add_agent_hit_mask entry category m
unfolding dup_cache_release
dup_cache_release-add_agent_hit_mask category rest entry m plain =
    ground (arith, split-first b':' category rest plain, split-ne-nil b':' rest)
