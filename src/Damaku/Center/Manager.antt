-- ===== src/Damaku/Center/Manager.antt =====
-- io-bilive-damaku/agent.go: the loops of the agent manager. A pass of a ticker visits the managed agents in turn. Times are nanoseconds; the clock, the requests to agents and
-- protobuf are parameters.
pub mod Masks
pub mod Handlers
mod Registry
mod Unique
mod Sync
mod Tests
use focot_services.Prelude.{
  ltb, leb, if◌then◌else◌, is_yes, length, contains, keep, lookup, insert, Text, codes, text_dec,
  split, last_part, ℕ, ◌+◌, ◌-◌, ◌%◌, ◌^◌, Bool, true, false, not, ◌&&◌, ◌||◌, Option, none, some,
  List, [], ◌∷◌, ◌++◌, ℕ_discrete,
}
use focot_services.Prelude.Results.{
  Result, ok, err, ◌>>=◌, ◌>>◌, Fault, nil_dereference, unlock_of_unlocked, process_exit,
}
use focot_services.Damaku.Center.Agents.{
  agent_initialization, agent_ready, agent_sync, has, with_bit, flip_bit, all_but_ready,
  AgentStatus, is_ready, Manager,
}
use focot_services.Damaku.Cache.{Bytes}

-- What an agent answers: whether the status is OK, and the text of the error.
pub record ControlResponse : Type 0 where
  pub is_ok : Bool
  pub error : Option Text

-- `request` is a request over the message queue, `none` where it fails.
pub record Link : Type 0 where
  pub prefix : Text
  pub request : Text → Option Bytes → Option Bytes
  pub decode : Bytes → Option ControlResponse

-- `control`: whether it returns the nil error. The payload is `none` where it cannot be marshalled.
unfoldable pub control : Link → Option Bytes → Text → Text → Result Fault Bool
control link none action agent_id = ok false
control link (some payload) action agent_id =
    let subject = link.prefix ++ (codes ".agent." ++ (agent_id ++ b'.' ∷ action)) in
    elim (link.request subject (some payload)) [
      | none ↦ ok false
      | some reply ↦ elim (link.decode reply) [
        | none ↦ ok false
        | some r ↦
            if r.is_ok
            then ok true
            else elim r.error [ none ↦ err nil_dereference | some _ ↦ ok false ]
      ]
    ]

abbrev pub three_seconds : ℕ
three_seconds = 3_000_000_000

-- A visit of `initAgent`; `now` is the time before the request and `later` behind it.
unfoldable pub init_visit : Link → Option Bytes → ℕ → ℕ → AgentStatus → Result Fault AgentStatus
init_visit link payload now later a =
    if not (has a.condition agent_initialization) && leb (now - a.update_time) three_seconds
    then (do
      sent ← control link payload (codes "init") a.id
      ok (
          if sent
          then record a {
            condition = with_bit a.condition agent_initialization;
            update_time = later;
          }
          else a))
    else ok a

pub init_pass :
    Link
    → Option Bytes
    → ℕ
    → ℕ
    → List (Text × AgentStatus)
    → Result Fault (List (Text × AgentStatus))
init_pass link payload now later [] = ok []
init_pass link payload now later ((k, a) ∷ rest) = do
  a' ← init_visit link payload now later a
  rest' ← init_pass link payload now later rest
  ok ((k, a') ∷ rest')

-- The actions of `syncAgent`: an error is logged, and the loop goes on.
pub send_actions : Link → (ℕ → Option Bytes) → Text → List ℕ → Result Fault (Unit {0})
send_actions link payload agent_id [] = ok tt
send_actions link payload agent_id (room ∷ rooms) = do
  _ ← control link (payload room) (codes "action") agent_id
  send_actions link payload agent_id rooms

-- `m.mu.Unlock()`
pub unlock_mu : Manager → Result Fault Manager
unlock_mu m = if m.mu_locked then ok (record m { mu_locked = false }) else err unlock_of_unlocked

-- "select a master", behind the update of the agent.
pub select_master : Text → Manager → Manager
select_master id m = elim m.master [
  | none ↦ record m { master = some id }
  | some k ↦ elim (lookup text_dec k m.managed) [
    | none ↦ m
    | some a ↦ if has a.condition agent_ready then m else record m { master = some id }
  ]
]

-- The end of a visit of `syncAgent`: the rooms are cached, the agent is marked, a master is
-- chosen, and the mutex that is unlocked is the manager's, not the one of the agent.
pub sync_done : Text → AgentStatus → List ℕ → List ℕ → List ℕ → ℕ → Manager → Result Fault Manager
unfolding select_master unlock_mu
sync_done k a watching need_add need_del now m =
    let a' = record a {
      watching = some (keep (λ r. not (contains ℕ_discrete need_del r)) watching ++ need_add);
      condition = with_bit a.condition agent_sync;
      update_time = now;
      locked = true;
    } in
    unlock_mu (select_master k (record m { managed = insert text_dec k a' m.managed }))

-- The rooms that the agent is to add, and those that it is to leave.
abbrev pub need_add : List ℕ → List ℕ → List ℕ
need_add watched watching = keep (λ r. not (contains ℕ_discrete watching r)) watched

abbrev pub need_del : List ℕ → List ℕ → List ℕ
need_del watched watching = keep (λ r. not (contains ℕ_discrete watched r)) watching

-- A visit of `syncAgent`. `add` and `del` give the payloads of the two actions.
pub sync_visit :
    Link
    → (ℕ → Option Bytes)
    → (ℕ → Option Bytes)
    → ℕ
    → Text
    → AgentStatus
    → Manager
    → Result Fault Manager
sync_visit link add del now k a m = elim a.watching [
  | none ↦ err nil_dereference
  | some watching ↦
      let adds = need_add m.watched_room watching in
      let dels = need_del m.watched_room watching in
      let stale = has a.condition agent_sync && (ltb 0 (length adds) || ltb 0 (length dels)) in
      let a' =
        if stale
        then record a { condition = flip_bit a.condition agent_sync; update_time = now }
        else a in
      let m' = record m { managed = insert text_dec k a' m.managed } in
      if is_ready a'
      then (do
        send_actions link add a.id adds
        send_actions link del a.id dels
        sync_done k a' watching adds dels now m')
      else ok m'
]

pub sync_pass :
    Link
    → (ℕ → Option Bytes)
    → (ℕ → Option Bytes)
    → ℕ
    → List (Text × AgentStatus)
    → Manager
    → Result Fault Manager
sync_pass link add del now [] m = ok m
sync_pass link add del now ((k, a) ∷ rest) m = do
  m' ← sync_visit link add del now k a m
  sync_pass link add del now rest m'

-- A visit of the ticker of `agentStatus`.
pub status_visit : ℕ → AgentStatus → AgentStatus
status_visit now a =
    if is_ready a && ltb three_seconds (now - a.update_time)
    then record a { condition = all_but_ready; update_time = now }
    else a

pub status_pass : ℕ → List (Text × AgentStatus) → List (Text × AgentStatus)
status_pass now [] = []
status_pass now ((k, a) ∷ rest) = (k, status_visit now a) ∷ status_pass now rest

-- What the source reads of an `agent.AgentStatus`; the agent is that of its `Meta`, if it has one.
pub record StatusMsg : Type 0 where
  pub agent : Option Text
  pub watching : List ℕ

pub data AgentEvent : Type 0 where
  tick : ℕ → AgentEvent
  message : ℕ → Text → Bytes → AgentEvent

-- Whether `agentStatus` goes on with its loop or returns.
pub data Flow : Type 0 where
  go_on : Manager → Flow
  return : Manager → Flow

abbrev pub new_agent : Text → ℕ → ℕ → AgentStatus
new_agent id mask now = record {
  id = id;
  mask = mask;
  condition = 0;
  update_time = now;
  watching = none;
  hit_status = [];
  locked = false;
}

-- The message "info". A new agent is registered, and the handler returns.
pub on_info : ℕ → Text → Manager → Flow
on_info now id m = elim (lookup text_dec id m.managed) [
  | none ↦ return (record m {
    managed = insert text_dec id (new_agent id m.latest_mask now) m.managed;
    latest_mask = (m.latest_mask + 1) % 2 ^ 16;
  })
  | some a ↦ go_on (record m {
    managed = insert text_dec id (record a { condition = 0; update_time = now }) m.managed;
  })
]

-- The message "status".
pub on_status : ℕ → StatusMsg → Manager → Result Fault Flow
on_status now msg m = elim msg.agent [
  | none ↦ err nil_dereference
  | some id ↦ elim (lookup text_dec id m.managed) [
    | none ↦ ok (return m)
    | some a ↦
        let a' = record a {
          watching = some msg.watching;
          condition = with_bit (with_bit a.condition agent_initialization) agent_ready;
          update_time = now;
        } in
        ok (go_on (record m { managed = insert text_dec id a' m.managed }))
  ]
]

module _ (decode_info : Bytes → Option Text) (decode_status : Bytes → Option StatusMsg) where
  pub on_event : AgentEvent → Manager → Result Fault Flow
  unfolding on_info on_status status_pass
  on_event (tick now) m = ok (go_on (record m { managed = status_pass now m.managed }))
  on_event (message now subject bytes) m =
      let name = last_part (split b'.' subject) in
      if is_yes (text_dec name (codes "info"))
      then elim (decode_info bytes) [ none ↦ ok (go_on m) | some id ↦ ok (on_info now id m) ]
      else if is_yes (text_dec name (codes "status"))
      then elim (decode_status bytes) [ none ↦ err process_exit | some msg ↦ on_status now msg m ]
      else ok (go_on m)

  -- The loop of `agentStatus` over the events that come: it ends at a return.
  pub agent_status : List AgentEvent → Manager → Result Fault Manager
  agent_status [] m = ok m
  agent_status (e ∷ events) m = elim (on_event e m) [
    | err f ↦ err f
    | ok (return m') ↦ ok m'
    | ok (go_on m') ↦ agent_status events m'
  ]
