-- ===== src/Damaku/Center/Start.antt =====
-- io-bilive-damaku: how the center starts. providers.go with the sources of rooms, providerInit of
-- main.go, Init and Start of controller.go and of agent.go. A send on a channel without a buffer
-- waits until a loop that runs receives from it. The JSON library, the queue, the caches and whether
-- the routes are set up by then are parameters.
mod Providers
mod Tests
use focot_services.Prelude.{
  ◌==◌, if◌then◌else◌, is_yes, Text, codes, text_dec, parse_uint, ℕ, Bool, true, false, ◌||◌,
  Option, none, some, List, [], ◌∷◌, ◌++◌,
}
use focot_services.Prelude.Results.{Result, ok, err, ◌>>=◌, Fault, nil_dereference, process_exit}

-- The channels that the loops share, and the loops.
pub data Channel : Type 0 where
  agent_chan stream_chan recycle_chan room_provide room_revoke : Channel

pub data Loop : Type 0 where
  init_agent sync_agent agent_status aggregate_window recycler : Loop

-- The `select` of each loop.
pub receives : Channel → Loop → Bool
receives agent_chan agent_status = true
receives stream_chan aggregate_window = true
receives recycle_chan recycler = true
receives _ _ = false

pub any_receives : Channel → List Loop → Bool
unfolding receives
any_receives c [] = false
any_receives c (l ∷ loops) = receives c l || any_receives c loops

-- `ProvidedRoom` of types.go.
pub record ProvidedRoom : Type 0 where
  pub provider_name : Text
  pub room_id : ℕ

pub data Method : Type 0 where
  http_get http_delete : Method

-- What has been set up: the loops that run, the subjects subscribed to, the routes, and the rooms
-- that went through the two channels. `started` is the flag of the manager.
pub record Center : Type 0 where
  pub running : List Loop
  pub subscriptions : List Text
  pub routes : List (Method × Text)
  pub provided : List ProvidedRoom
  pub revoked : List ℕ
  pub started : Bool

-- Why the start does not come to its end: an error that is returned, a send that nobody receives,
-- or a panic.
pub data Stop : Type 0 where
  failed : Text → Stop
  waits : Channel → Stop
  crash : Fault → Stop

-- `r <- &ProvidedRoom{...}` and `r <- roomId`
pub send_room : ProvidedRoom → Center → Result Stop Center
unfolding any_receives
send_room room c =
    if any_receives room_provide c.running
    then ok (record c { provided = c.provided ++ room ∷ [] })
    else err (waits room_provide)

pub send_revoke : ℕ → Center → Result Stop Center
unfolding any_receives
send_revoke room c =
    if any_receives room_revoke c.running
    then ok (record c { revoked = c.revoked ++ room ∷ [] })
    else err (waits room_revoke)

-- `StaticConfigProvider`, and `ApiConfigProvider` with whether it holds a server.
pub data Provider : Type 0 where
  static_config : List Text → Provider
  api_config : Text → Bool → Provider

-- `Provide` of `StaticConfigProvider`: a room that is no number is logged and left out.
pub provide_static : List Text → Center → Result Stop Center
unfolding send_room
provide_static [] c = ok c
provide_static (room ∷ rooms) c = elim (parse_uint 64 room) [
  | none ↦ provide_static rooms c
  | some id ↦ (do
    c' ← send_room (record { provider_name = codes "static"; room_id = id }) c
    provide_static rooms c')
]

abbrev pub room_route : Text → Text
room_route path = path ++ codes "/:roomId"

abbrev pub add_route : Method → Text → Bool → Center → Result Stop Center
add_route m path held c =
    if held
    then ok (record c { routes = c.routes ++ (m, room_route path) ∷ [] })
    else err (crash nil_dereference)

-- `Provide` and `Revoke`
pub provide : Provider → Center → Result Stop Center
unfolding provide_static
provide (static_config rooms) c = provide_static rooms c
provide (api_config path held) c = add_route http_get path held c

pub revoke : Provider → Center → Result Stop Center
revoke (static_config rooms) c = ok c
revoke (api_config path held) c = add_route http_delete path held c

-- The handlers of the two routes: the status of the answer.
pub on_provide : Text → Center → Result Stop (ℕ × Center)
unfolding send_room
on_provide room c = elim (parse_uint 64 room) [
  | none ↦ ok (400, c)
  | some id ↦ (do
    c' ← send_room (record { provider_name = codes "api"; room_id = id }) c
    ok (200, c'))
]

pub on_revoke : Text → Center → Result Stop (ℕ × Center)
unfolding send_revoke
on_revoke room c = elim (parse_uint 64 room) [
  | none ↦ ok (400, c)
  | some id ↦ (do c' ← send_revoke id c; ok (200, c'))
]

-- What `json.Unmarshal` makes of the configuration of a provider; `null` clears the interface.
pub data Parsed {ℓ} (A : Type ℓ) : Type ℓ where
  bad null : Parsed A
  parsed : A → Parsed A

-- A `RoomProviderConfig`: its type, and what its JSON holds for each of the two providers.
pub record ProviderConfig : Type 0 where
  pub type : Text
  pub rooms : Parsed (List Text)
  pub path : Parsed Text
  -- Whether the JSON is null, for a type that is unknown.
  pub is_null : Bool

-- An entry in the loop of `providerInit`, with the `Init` of the provider.
pub init_provider : Bool → ProviderConfig → Result Stop Provider
init_provider served p =
    if is_yes (text_dec p.type (codes "room"))
    then elim p.rooms [
      | bad ↦ err (crash process_exit)
      | null ↦ err (crash nil_dereference)
      | parsed rooms ↦ ok (static_config rooms)
    ]
    else if is_yes (text_dec p.type (codes "api"))
    then elim p.path [
      | bad ↦ err (crash process_exit)
      | null ↦ err (crash nil_dereference)
      | parsed path ↦ ok (api_config path served)
    ]
    else if p.is_null
    then err (crash nil_dereference)
    else err (crash process_exit)

pub provider_init : Bool → List ProviderConfig → Result Stop (List Provider)
unfolding init_provider
provider_init served [] = ok []
provider_init served (p ∷ configs) = do
  provider ← init_provider served p
  providers ← provider_init served configs
  ok (provider ∷ providers)

-- `ChanSubscribe` and `AddSubscribe`; `accepts` says whether the queue takes a subject.
pub subscribe : (Text → Bool) → Text → Text → Center → Result Stop Center
subscribe accepts message subject c =
    if accepts subject
    then ok (record c { subscriptions = c.subscriptions ++ subject ∷ [] })
    else err (failed message)

-- The loop over the providers in `Init`.
pub provide_all : List Provider → Center → Result Stop Center
unfolding provide revoke
provide_all [] c = ok c
provide_all (p ∷ providers) c = do
  provided ← provide p c
  revoked ← revoke p provided
  provide_all providers revoked

-- A cache that cannot be made ends `Init` with an error.
abbrev pub new_cache : Bool → Text → Center → Result Stop Center
new_cache made message c = if made then ok c else err (failed message)

-- `Init` of the controller; `caches` says which of the three caches can be made.
pub init : (Text → Bool) → Bool × Bool × Bool → Text → List Provider → Center → Result Stop Center
unfolding provide_all subscribe
init accepts caches prefix providers c = do
  dup ← new_cache caches.0 (codes "failed to init dupCache") c
  user ← new_cache caches.1 (codes "failed to init userMetaCache") dup
  medal ← new_cache caches.2 (codes "failed to init medalMetaCache") user
  managed ←
      subscribe accepts (codes "failed to init agent manager") (prefix ++ codes ".agent.*") medal
  filled ← provide_all providers managed
  subscribe accepts (codes "failed to subscribe stream msg") (prefix ++ codes ".stream.*") filled

-- `Start` of the manager and of the controller: the loops are started.
pub start_manager : Center → Center
start_manager c = if c.started then c else record c {
  started = true;
  running = c.running ++ init_agent ∷ sync_agent ∷ agent_status ∷ [];
}

pub start_controller : Center → Center
start_controller c = record c { running = c.running ++ aggregate_window ∷ recycler ∷ [] }

-- Nothing is set up.
abbrev pub at_rest : Center
at_rest = record {
  running = [];
  subscriptions = [];
  routes = [];
  provided = [];
  revoked = [];
  started = false;
}

-- What `main` does behind the configuration: it calls neither `Start`.
pub main :
    (Text → Bool) → Bool × Bool × Bool → Text → Bool → List ProviderConfig → Result Stop Center
unfolding provider_init init
main accepts caches prefix served configs = do
  providers ← provider_init served configs
  init accepts caches prefix providers at_rest
