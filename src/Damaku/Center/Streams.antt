-- ===== src/Damaku/Center/Streams.antt =====
-- The controller and the agent manager together: the streams that follow the master, and the
-- counts of messages for each agent.
mod Tests
use focot_services.Prelude.{
  contains, lookup, Text, codes, text_dec, format_uint, ℕ, ◌+◌, ◌%◌, ◌^◌, ◌≡◌, refl, ◌≢◌, true,
  some, List, [], ◌∷◌, ◌++◌, arith, ℕ_discrete,
}
use focot_services.Prelude.Results.{ok}
use focot_services.Damaku.Messages.{BasicMsgMeta, OnlineRankCount, CompareEqual}
use focot_services.Damaku.Cache.{Bytes, BigCache}
use focot_services.Damaku.Center.Controller.{
  damaku, online, Decoders, Agents, State, pool_put, damaku_key, on_online, on_kind,
}
use focot_services.Damaku.Center.Agents.{
  AgentStatus, Manager, agent_mask, dup_cache_release, master_agent,
}
use focot_services.Damaku.Center.Manager.Masks.{
  appended, hits, add_agent_hit_mask-hits, dup_cache_release-add_agent_hit_mask,
}

-- The manager as the controller sees it.
pub agents_of : Manager → Agents
agents_of m = record { agent_mask = λ id. agent_mask id m; master_agent = master_agent m }

module _ (B : BigCache) (decode : Decoders) (equal : CompareEqual) (m : Manager) where
  -- A count of the online users from an agent that gives its name is never sent on, whichever agent
  -- is the master: the message goes back to its pool, or the controller panics.
  pub online_never_sent :
      (bytes : Bytes) (o : OnlineRankCount) (meta : BasicMsgMeta)
      (s : State B decode equal (agents_of m)) {s' : State B decode equal (agents_of m)}
      → decode.online bytes ≡ some o
      → o.meta ≡ some meta
      → meta.agent ≢ []
      → on_kind B decode equal (agents_of m) (some online) bytes s ≡ ok s'
      → s' ≡ pool_put B decode equal (agents_of m) online s
  unfolding on_kind on_online agents_of master_agent
  online_never_sent bytes o meta s {s'} decoded of_agent named h = ground arith

  -- When the entry of a message "damaku" leaves the duplicate cache, each agent whose mask was
  -- appended to it has one more hit in the category "damaku".
  pub damaku_release :
      (masks : List ℕ) (room uid time : ℕ) (id : Text) {a : AgentStatus}
      → lookup text_dec id m.managed ≡ some a
      → contains ℕ_discrete masks a.mask ≡ true
      → (b : AgentStatus) × ((lookup text_dec id
              (dup_cache_release
                (damaku_key B decode equal (agents_of m) room uid time)
                (appended masks)
                m).managed
            ≡ some b)
          × (hits (codes "damaku") b ≡ (hits (codes "damaku") a + 1) % 2 ^ 32))
  unfolding damaku_key
  damaku_release masks room uid time id {a} found hit =
      let (b, facts) = add_agent_hit_mask-hits masks (codes "damaku") (codes "damaku") id m found in
      let released =
        dup_cache_release-add_agent_hit_mask (codes "damaku")
          (format_uint room ++ b':' ∷ (format_uint uid ++ b':' ∷ format_uint time)) (appended masks)
          m (unfold ℕ_discrete in refl) in
      (b, (rw released facts.0, ground (arith, facts.1)))
