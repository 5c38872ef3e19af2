-- ===== src/Damaku/Center/Manager/Tests.antt =====
-- A manager of two agents run through its handlers, and the theorems at it.
use focot_services.Prelude.{
  if◌then◌else◌, is_yes, All, contains, lookup, Text, codes, text_dec, split, last_part, ℕ, ◌+◌,
  ◌%◌, ◌^◌, ◌≡◌, refl, ◌≢◌, ◌⊎◌, false, ◌&&◌, Option, none, some, List, [], ◌∷◌, arith, ℕ_discrete,
}
use focot_services.Prelude.Results.{ok, err, unlock_of_unlocked}
use focot_services.Damaku.Cache.{Bytes}
use focot_services.Damaku.Center.Agents.{
  AgentStatus, is_ready, Manager, agent_mask, hit_agents, count_hit, hit_all, add_agent_hit_mask,
}
use focot_services.Damaku.Center.Manager.{
  Link, control, init_visit, send_actions, unlock_mu, select_master, sync_done, sync_visit,
  sync_pass, status_visit, status_pass, StatusMsg, AgentEvent, message, new_agent, on_info,
  on_status, on_event, agent_status,
}
use focot_services.Damaku.Center.Manager.Masks.{appended, hits, add_agent_hit_mask-hits}
use focot_services.Damaku.Center.Manager.Handlers.{agent_status-registers_one}
use focot_services.Damaku.Center.Manager.Registry.{IsRegistry}
use focot_services.Damaku.Center.Manager.Unique.{agent_status-IsRegistry}
use focot_services.Damaku.Center.Manager.Sync.{sync_pass-Idle}

abbrev program : Unit {0}
unfolding agent_mask hit_agents count_hit hit_all add_agent_hit_mask control init_visit send_actions
    sync_visit sync_pass status_visit status_pass on_info on_status on_event agent_status split
    last_part text_dec ℕ_discrete
program = tt

abbrev nobody : Manager
nobody = record {
  managed = [];
  watched_room = 7 ∷ [];
  latest_mask = 0;
  master = none;
  mu_locked = false;
}

abbrev agent_a : AgentStatus
agent_a = record {
  id = codes "a";
  mask = 0;
  condition = 3;
  update_time = 5;
  watching = some (7 ∷ []);
  hit_status = (codes "gift", 4) ∷ [];
  locked = false;
}

abbrev agent_b : AgentStatus
agent_b = record {
  id = codes "b";
  mask = 300;
  condition = 0;
  update_time = 5;
  watching = some [];
  hit_status = [];
  locked = false;
}

abbrev two_agents : Manager
two_agents = record nobody {
  managed = (codes "a", agent_a) ∷ (codes "b", agent_b) ∷ [];
  latest_mask = 301;
}

abbrev info_of : Bytes → Option Text
info_of bytes = some bytes

abbrev status_of : Bytes → Option StatusMsg
status_of bytes = some (record { agent = some bytes; watching = 7 ∷ [] })

abbrev two_news : List AgentEvent
two_news =
    message 5 (codes "p.agent.info") (codes "a") ∷ message 6 (codes "p.agent.info") (codes "b") ∷ []

abbrev registered_a : Manager
registered_a = record nobody {
  managed = (codes "a", new_agent (codes "a") 0 5) ∷ [];
  latest_mask = 1;
}

-- Two agents announce themselves: the second is not heard.
two_infos : agent_status info_of status_of two_news nobody ≡ ok registered_a
unfolding program
two_infos = refl

agent_status-registers_one_example :
    (registered_a.managed ≡ [])
    ⊎ ((id : Text) × ((now : ℕ) × (registered_a.managed ≡ (id, new_agent id 0 now) ∷ [])))
agent_status-registers_one_example =
    agent_status-registers_one info_of status_of two_news nobody refl two_infos

two_agents-IsRegistry : IsRegistry two_agents
unfolding text_dec ℕ_discrete
two_agents-IsRegistry = record {
  named = (refl, (refl, tt));
  distinct = (refl, (refl, tt));
  below = (omega arith, (omega arith, tt));
  keyed = (refl, (refl, tt));
}

nobody-IsRegistry : IsRegistry nobody
nobody-IsRegistry = record { named = tt; distinct = tt; below = tt; keyed = tt }

agent_status-IsRegistry_example : IsRegistry registered_a
agent_status-IsRegistry_example =
    agent_status-IsRegistry info_of status_of two_news nobody nobody-IsRegistry (omega arith)
      two_infos

add_agent_hit_mask-hits_example :
    (b : AgentStatus) × ((lookup text_dec
          (codes "a")
          (add_agent_hit_mask (appended (300 ∷ 0 ∷ 0 ∷ [])) (codes "gift") two_agents).managed
        ≡ some b)
      × (hits (codes "gift") b ≡ (
          if contains ℕ_discrete (300 ∷ 0 ∷ 0 ∷ []) 0
            && is_yes (text_dec (codes "gift") (codes "gift"))
          then (hits (codes "gift") agent_a + 1) % 2 ^ 32
          else hits (codes "gift") agent_a)))
add_agent_hit_mask-hits_example =
    add_agent_hit_mask-hits (300 ∷ 0 ∷ 0 ∷ []) (codes "gift") (codes "gift") (codes "a") two_agents
      {a = agent_a} (unfold text_dec ℕ_discrete in refl)

-- The two agents answer nothing.
abbrev no_answer : Link
no_answer = record { prefix = codes "p"; request = λ s p. none; decode = λ b. none }

-- Agent a is ready: the pass ends the process. Agent b is not ready, and the pass skips it.
ready_faults :
    sync_pass no_answer (λ r. some []) (λ r. some []) 9 two_agents.managed two_agents
    ≡ err unlock_of_unlocked
unfolding program sync_done select_master unlock_mu
ready_faults = refl

sync_pass-Idle_example :
    All
      (λ (p : Text × AgentStatus). (p.1.watching ≢ none) × (is_ready p.1 ≡ false))
      ((codes "b", agent_b) ∷ [])
    × (two_agents.master ≡ none)
sync_pass-Idle_example =
    sync_pass-Idle no_answer (λ r. some []) (λ r. some []) 9 ((codes "b", agent_b) ∷ []) two_agents
      {n = two_agents} refl (unfold program in refl)
