-- ===== src/HttpProxy/Node.antt =====
-- client-http-proxy/main.go, and what client.go tells of the node: the start of a node, its meta, its
-- events and its end. Traces are left out; the connection and the queue are parameters, and uptimes
-- are given in seconds.
mod Reached
mod Tests
use focot_services.Prelude.{
  ◌==◌, if◌then◌else◌, Text, codes, join, Bool, true, false, Option, none, some, List, [], ◌∷◌,
  ◌++◌,
}
use focot_services.Prelude.Int.{ℤ, pos, negsuc}
use focot_services.Prelude.Results.{Result, ok, err, ◌>>=◌}

-- `config`
pub record Config : Type 0 where
  pub service_id : Text
  pub node_id : Text
  pub node_groups : List Text
  pub rate_limit_ms : ℤ
  pub gzip_min_length : ℤ
  pub heartbeat_interval : ℤ

-- `MetaResponse` of api/response.go, and `getMeta`.
pub record MetaResponse : Type 0 where
  pub node_id : Text
  pub groups : List Text
  pub rate_limit_ms : ℤ
  pub gzip_min_length : ℤ
  pub uptime : ℤ
  pub heartbeat_interval : ℤ

pub get_meta : Config → ℤ → MetaResponse
get_meta cfg uptime = record {
  node_id = cfg.node_id;
  groups = cfg.node_groups;
  rate_limit_ms = cfg.rate_limit_ms;
  gzip_min_length = cfg.gzip_min_length;
  uptime = uptime;
  heartbeat_interval = cfg.heartbeat_interval;
}

-- What a node does: it subscribes, in a queue group or alone, it starts its scheduler, with a limit
-- in milliseconds or without, it publishes an event with its meta, and it closes the queue.
pub data Action : Type 0 where
  subscribed : Text → Option Text → Action
  scheduler_started : Option ℤ → Action
  published : Text → MetaResponse → Action
  closed : Action

-- The subjects.
abbrev pub group_subject : Config → Text → Text
group_subject cfg group = join b'.' (cfg.service_id ∷ codes "groups" ∷ group ∷ codes "request" ∷ [])

abbrev pub node_subject : Config → Text → Text
node_subject cfg what = join b'.' (cfg.service_id ∷ cfg.node_id ∷ what ∷ [])

abbrev pub event_subject : Config → Text → Text
event_subject cfg subject = join b'.' (cfg.service_id ∷ codes "event" ∷ subject ∷ [])

-- `eventHooks`: the message, and whether it could be published.
abbrev pub event_hooks : Config → ℤ → Text → Action
event_hooks cfg uptime subject = published (event_subject cfg subject) (get_meta cfg uptime)

-- A subscription that the queue refuses ends `main`.
abbrev pub subscribe :
    (Text → Bool) → Text → Option Text → List Action → Result (List Action) (List Action)
subscribe accepts subject group done =
    if accepts subject
    then ok (done ++ subscribed subject group ∷ [])
    else err (done ++ closed ∷ [])

pub subscribe_groups :
    (Text → Bool) → Config → List Text → List Action → Result (List Action) (List Action)
subscribe_groups accepts cfg [] done = ok done
subscribe_groups accepts cfg (group ∷ groups) done = do
  done' ← subscribe accepts (group_subject cfg group) (some group) done
  subscribe_groups accepts cfg groups done'

-- The limit that the scheduler is started with, if it is not 0.
abbrev pub limit_of : ℤ → Option ℤ
limit_of (pos n) = if n == 0 then none else some (pos n)
limit_of (negsuc n) = some (negsuc n)

-- The online hook.
abbrev pub announce : (Text → Bool) → Config → List Action → Result (List Action) (List Action)
announce publishes cfg started =
    if publishes (event_subject cfg (codes "online"))
    then ok (started ++ event_hooks cfg (pos 0) (codes "online") ∷ [])
    else err (started ++ closed ∷ [])

-- The subscriptions of `main`.
pub subscribe_all : (Text → Bool) → Config → Result (List Action) (List Action)
unfolding subscribe_groups
subscribe_all accepts cfg = do
  grouped ← subscribe_groups accepts cfg cfg.node_groups []
  asked ← subscribe accepts (node_subject cfg (codes "request")) none grouped
  subscribe accepts (node_subject cfg (codes "meta")) none asked

-- `main` up to the online hook: what it has done where it returns early, and where it goes on. The
-- queue connects, and publishes an event, or not.
pub start_node : Bool → (Text → Bool) → (Text → Bool) → Config → Result (List Action) (List Action)
unfolding subscribe_all
start_node false accepts publishes cfg = err []
start_node true accepts publishes cfg = do
  told ← subscribe_all accepts cfg
  announce publishes cfg (told ++ scheduler_started (limit_of cfg.rate_limit_ms) ∷ [])

-- `heartbeat`: an event at each tick, with the uptime then; a failure is logged.
pub heartbeat : (Text → Bool) → Config → List ℤ → List Action
heartbeat publishes cfg [] = []
heartbeat publishes cfg (uptime ∷ ticks) =
    let rest = heartbeat publishes cfg ticks in
    if publishes (event_subject cfg (codes "heartbeat"))
    then event_hooks cfg uptime (codes "heartbeat") ∷ rest
    else rest

-- The end of `main`.
pub stop_node : (Text → Bool) → Config → ℤ → List Action
stop_node publishes cfg uptime =
    if publishes (event_subject cfg (codes "offline"))
    then event_hooks cfg uptime (codes "offline") ∷ closed ∷ []
    else closed ∷ []
