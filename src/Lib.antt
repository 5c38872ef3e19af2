-- ===== src/Lib.antt =====
-- The services of this repository, as definitions that can be run and theorems about them.
--
-- io-net-check probes the addresses of configured targets in rounds and exports metrics of them.
-- NetCheck/Config is io-net-check/config.go (Validate, ParseProbeTarget) and collectHosts of
-- io-net-check/main.go; NetCheck/Metrics is io-net-check/metrics.go, with the window of successes
-- whose ratio Collect exports; NetCheck/Checker is io-net-check/checker.go: Trigger, runRound and
-- probeOnce. A round is a step relation (`RoundStep`), since its goroutine and its probes run side
-- by side: each step is one operation on the semaphore, the wait group or the loops, and
-- `CheckerStep` interleaves rounds and ticks. The checker calls the metrics, and the configuration
-- gives it its targets. What a finished round has done is kept in ghost fields (`resolved`,
-- `started`, `finished`).
--
-- io-bilive-damaku has agents, which watch chat rooms and publish messages, and a center, which
-- manages the agents and merges their messages. Damaku/Messages has the messages of
-- io-bilive-damaku/pb/agent.proto with the comparisons and the cache keys that both sides share.
-- Damaku/Center/Controller is io-bilive-damaku/controller.go: `aggregate` is one message in
-- aggregateWindow, dispatched by `on_kind`, and `recycle` one of recycler. Damaku/Center/Agents has
-- the agents of io-bilive-damaku/agent.go and io-bilive-damaku/types.go with their conditions and
-- masks, and Damaku/Center/Manager the loops of agent.go: `agent_status` is the loop of
-- agentStatus, `init_pass` and `sync_pass` are a tick of initAgent and syncAgent, and
-- `dup_cache_release` is the callback by which the controller's cache reports to AddAgentHitMask.
-- Damaku/Center/Streams puts the two together. Damaku/Center/Start is how the center starts: the
-- sources of rooms in io-bilive-damaku/providers.go, providerInit and main of
-- io-bilive-damaku/main.go, and Init and Start of the controller and of the manager, with the
-- channels on which the loops wait for each other. Damaku/Agent/Start is the other side of
-- initAgent: the loop of Init by which an agent registers and takes its settings, and
-- Damaku/Agent/Status the status that it reports. Damaku/Agent/Indexer is metaIndexer of
-- io-bilive-damaku/agent/agent.go, and Damaku/Agent/Actions its part of controller that takes the
-- actions of the center. Damaku/Agent/Events is its eventHandler: Data is what it reads and sends,
-- Handle has a function for each command, and Counters has the counters of waiting events, with the
-- wrapper of io-bilive-damaku/agent/utils.go in its two steps: `on_wrapper` counts, `enter` sends;
-- Counted runs them with the handler in any order.
--
-- Damaku/Raw is io-bilive-damaku/agent/parse/rawJsonParser.go, and Damaku/Wash is
-- io-bilive-damaku/cmd/wash.go: Tokens has `attr_parse` and the loop of washer, Store the data of
-- cmd/types.go with updateUser and updateMedal, Names the names of the outputs, and Scan `action`
-- with its search for recorded files, `washer` with the files that it opens and creates, and the
-- expression for their names as a matcher.
--
-- client-http-proxy runs HTTP requests for others, and api-http-proxy is its front.
-- HttpProxy/Request is client-http-proxy/api/request.go; HttpProxy/Packing has PackResponse of
-- client-http-proxy/client.go, PrepareUnPackedResponse of client-http-proxy/api/packing.go and
-- SendRequest: a response is packed at a node and unpacked at the caller. HttpProxy/Client is the
-- rest of client.go: requestHandle gives a task to the scheduler, and doRequest is the task.
-- HttpProxy/Scheduler is client-http-proxy/task.go, the queue of tasks with and without a rate
-- limit: `Step` is one operation of the scheduler's goroutine, of those that add tasks, or the
-- shutdown. HttpProxy/Node is client-http-proxy/main.go with getMeta and heartbeat of client.go:
-- what a node subscribes to and publishes from its start to its end. HttpProxy/Gateway is
-- requestProxy of api-http-proxy/api.go; its child EndToEnd puts the gateway, a queue and a node
-- together, where `Transport` is what lies between them: JSON of requests and acknowledgements.
--
-- io-bilive-recorder watches recording nodes. Recorder/Rooms has the rooms of
-- io-bilive-recorder/model.go. Recorder/Cdn is io-bilive-recorder/bcdn.go, which fetches its
-- document through the packing of client-http-proxy, and its child Updater is the loops of
-- BCdnUpdater; Recorder/Sync is doRequest of io-bilive-recorder/dataSync.go, which looks up the
-- hosts of the rooms in it and sends an update to the exporter, and its child Ticks is doSync;
-- Recorder/Exporter is a message of updateMetrics of io-bilive-recorder/metrics.go, where Series
-- has the series that the gauges show, Run is the loop over the messages behind Start, and Registry
-- is initMetrics.
--
-- api-one-action starts actions elsewhere. OneAction/Zdy is api-one-action/zdy-doors/zdy.go:
-- `request_body` is the body of doRequest over the refresh and the retry that it calls,
-- `refresh_token` and `do_request` close the recursion. Its child Actions is
-- api-one-action/zdy-doors/actions.go. OneAction/Routes is setupRoutes and useAuth of
-- api-one-action/api.go, with the components of api-one-action/api/api.go.
--
-- Prelude has texts as lists of code points, Go maps as association lists, decimal numbers, Go's
-- integers, sorted texts and results with errors, each with its laws.
--
-- State is passed on explicitly. What is sent on a channel, put back to a pool, published or called
-- in the metrics library is recorded in a list. A panic, and a fatal error of the runtime, is a
-- value of `Fault`; a send on a channel that nobody receives from is a value of `Stop`. Numbers are
-- natural numbers, or ℤ where the source reads signed ones: the counts that wrap around in the
-- source (uint64 of the window, uint32 hits, uint16 masks) are reduced where the source adds, and
-- time differences stop at 0. `do_request` of OneAction/Zdy runs on fuel, one for each retry: a
-- service that says n times more that a token has expired needs n + 1. No other definition does:
-- loops are recursion on the list that they range over, and endless loops are runs over the events
-- that come.
--
-- Code of other projects is a parameter: net/url, the resolver and the dialer, floating point,
-- bigcache (Damaku/Cache, with the laws that a theorem asks for), protobuf, gjson and the other
-- parsers of JSON, XML, gzip, the HTTP library, compare.Equal of lancet, the message queue, the
-- door service, echo (its router, and the keys of a request), the file system, the metrics library
-- where it takes or refuses a metric, and the clock. The order of a Go map is the order of its
-- association list.
--
-- Not modelled: configuration loading and connections of all services, the HTTP servers, the
-- registration of the collectors of io-net-check, generated code, logging and traces, the stop of
-- goroutines by their contexts, races between the workers of the controller, between the three
-- loops of the manager and between the requests of a sync (each runs here alone), the databases
-- (the types of io-bilive-damaku/storage.go, metrics.go and msg.go have no operations), the
-- encoding of the files that wash writes, the spelling of header names that net/http makes uniform,
-- the wildcards of the queue in configured names, which are plain text here, the conversion of the
-- exporter's duration to milliseconds, and io-ys-vid-downloader.
pub mod Prelude
pub mod NetCheck
pub mod HttpProxy
pub mod Recorder
pub mod OneAction
pub mod Damaku
