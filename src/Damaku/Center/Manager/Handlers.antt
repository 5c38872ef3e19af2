-- ===== src/Damaku/Center/Manager/Handlers.antt =====
-- The loop of `agentStatus`: which agents it registers, and when an agent is ready.

use focot_services.Prelude.{
  leb, lookup, insert, Text, text_dec, ℕ, ◌-◌, ◌≡◌, refl, ◌⊎◌, inl, inr, true, ◌&&◌, Option, some,
  List, [], ◌∷◌, arith,
}
use focot_services.Prelude.Results.{Result, ok, err, Fault}
use focot_services.Damaku.Cache.{Bytes}
use focot_services.Damaku.Center.Agents.{
  agent_initialization, agent_ready, agent_sync, has, with_bit, AgentStatus, is_ready, Manager,
}
use focot_services.Damaku.Center.Manager.{
  three_seconds, status_visit, status_pass, StatusMsg, AgentEvent, tick, message, Flow, go_on,
  return, new_agent, on_info, on_status, on_event, agent_status,
}

-- Behind a tick of `agentStatus`, an agent is ready exactly if it was ready and its last news is
-- not older than three seconds.
pub status_visit-ready :
    (now : ℕ) (a : AgentStatus)
    → is_ready (status_visit now a) ≡ (is_ready a && leb (now - a.update_time) three_seconds)
unfolding status_visit
status_visit-ready now a = ground arith

-- Behind a status message of a managed agent that agent is ready, holds the rooms that it reported,
-- and is marked as synced exactly if it was; every other agent is what it was. The loop goes on.
pub on_status-ready :
    (now : ℕ) (msg : StatusMsg) (id : Text) (m : Manager) {a : AgentStatus}
    → msg.agent ≡ some id
    → lookup text_dec id m.managed ≡ some a
    → (b : AgentStatus) × ((on_status now msg m
          ≡ ok (go_on (record m { managed = insert text_dec id b m.managed })))
        × (is_ready b ≡ true)
        × (b.watching ≡ some msg.watching)
        × (has b.condition agent_sync ≡ has a.condition agent_sync))
unfolding on_status
on_status-ready now msg id m {a} named found = (
  record a {
    watching = some msg.watching;
    condition = with_bit (with_bit a.condition agent_initialization) agent_ready;
    update_time = now;
  },
  (ground arith, ground arith, refl, ground arith),
)

module _ (decode_info : Bytes → Option Text) (decode_status : Bytes → Option StatusMsg) where
  -- One event at a manager of no agents.
  on_event-empty :
      (e : AgentEvent) (m : Manager) {f : Flow}
      → m.managed ≡ []
      → on_event decode_info decode_status e m ≡ ok f
      → ((n : Manager) × ((f ≡ go_on n) × (n.managed ≡ []) × (n.latest_mask ≡ m.latest_mask)))
        ⊎ ((n : Manager) × ((f ≡ return n)
              × ((n.managed ≡ [])
                  ⊎ ((id : Text) × ((now : ℕ) × (n.managed
                          ≡ (id, new_agent id m.latest_mask now) ∷ []))))))
  unfolding on_event on_info on_status status_pass
  on_event-empty (tick now) m e h = ground arith
  on_event-empty (message now subject bytes) m e h = ground arith

  -- Started with no agents, the loop of `agentStatus` has at most one agent when it has returned or
  -- has taken all its events, and this agent is as it was registered: neither initialized nor
  -- ready. The handler returns at the first registration, and nothing reads the channel after it.
  pub agent_status-registers_one :
      (events : List AgentEvent) (m : Manager) {n : Manager}
      → m.managed ≡ []
      → agent_status decode_info decode_status events m ≡ ok n
      → (n.managed ≡ [])
        ⊎ ((id : Text) × ((now : ℕ) × (n.managed ≡ (id, new_agent id m.latest_mask now) ∷ [])))
  unfolding agent_status
  agent_status-registers_one [] m e h = inl (ground arith)
  agent_status-registers_one (ev ∷ events) m {n} e h =
      after (λ m' none_yet. agent_status-registers_one events m' none_yet)
        (on_event decode_info decode_status ev m) refl h
    where
      after :
          ((m' : Manager)
            → m'.managed ≡ []
            → agent_status decode_info decode_status events m' ≡ ok n
            → (n.managed ≡ [])
              ⊎ ((id : Text) × ((now : ℕ) × (n.managed
                      ≡ (id, new_agent id m'.latest_mask now) ∷ []))))
          → (r : Result Fault Flow) → on_event decode_info decode_status ev m ≡ r
          → (elim r [
            | err f ↦ err f
            | ok (return m') ↦ ok m'
            | ok (go_on m') ↦ agent_status decode_info decode_status events m'
          ])
            ≡ ok n
          → (n.managed ≡ [])
            ⊎ ((id : Text) × ((now : ℕ) × (n.managed ≡ (id, new_agent id m.latest_mask now) ∷ [])))
      after later (err f) came k = ground arith
      after later (ok (return m')) came k = ground (arith, on_event-empty ev m e came)
      after later (ok (go_on m')) came k = elim (on_event-empty ev m e came) [
        | inl (q, (same, none_yet, mask)) ↦ ground (arith, later m' (ground arith) k)
        | inr (q, (other, _)) ↦ ground arith
      ]
