-- ===== src/NetCheck/Checker.antt =====
-- io-net-check/checker.go. The resolver, the dialer and the clock are parameters: a resolver may
-- answer anything, and `dial` gives the error and the duration of an attempt at an address. The
-- goroutines of a round are interleaved: one step of the relation is one of their operations.
mod Probes
mod Rounds
mod Tests
use focot_services.Prelude.{
  if◌then◌else◌, contains, Text, format_uint, ℕ, ◌+◌, ◌-◌, ◌<◌, ◌≡◌, Bool, true, false, Option,
  none, some, List, [], ◌∷◌, ◌++◌, map, ℕ_discrete,
}
use focot_services.NetCheck.Config.{ProbeTarget}
use focot_services.NetCheck.Metrics.{
  Float64, ProbeMetrics, record_success, record_timeout_failure, observe_duration,
}

-- What the source asks of an error: `errors.Is` for the two errors of the context, and
-- `errors.As` for a `net.Error`, with its `Timeout()`.
pub record DialError : Type 0 where
  pub is_canceled : Bool
  pub is_deadline_exceeded : Bool
  pub net_timeout : Option Bool

pub is_timeout_error : Option DialError → Bool
is_timeout_error none = false
is_timeout_error (some e) =
    if e.is_canceled
    then false
    else if e.is_deadline_exceeded
    then true
    else elim e.net_timeout [ none ↦ false | some timeout ↦ timeout ]

-- `net.JoinHostPort`: an address with a colon is bracketed.
pub join_host_port : Text → Text → Text
join_host_port ip port =
    if contains ℕ_discrete ip b':' then b'[' ∷ (ip ++ b']' ∷ b':' ∷ port) else ip ++ b':' ∷ port

-- A target and one of its IP addresses.
abbrev pub Job : Type 0
Job = ProbeTarget × Text

module _ (F : Float64) (dial : Text → Option DialError × F.Carrier) where
  pub probe_once : Job → ProbeMetrics F → ProbeMetrics F
  probe_once (target, ip) m =
      let (error, seconds) = dial (join_host_port ip (format_uint target.port)) in
      let observed = observe_duration F target.host seconds m in
      elim error [
        | none ↦ record_success F target.host observed
        | some e ↦
            if is_timeout_error (some e)
            then record_timeout_failure F target.host observed
            else observed
      ]

-- Where the loops of `runRound` stand: before the next target, before the next address of a
-- target, at `wg.Wait`, and behind it.
pub data Phase : Type 0 where
  scanning : List ProbeTarget → Phase
  dispatching : ProbeTarget → List Text → List ProbeTarget → Phase
  waiting returned : Phase

-- A round. `sem` is the fill of the channel and `wg` the counter. A job is `probing` until it has
-- given its token back, and `closing` until `wg.Done`. The last four fields record what happened.
pub record Round : Type 0 where
  pub phase : Phase
  pub sem : ℕ
  pub wg : ℕ
  pub probing : List Job
  pub closing : List Job
  pub resolved : List Job
  pub started : List Job
  pub finished : List Job
  pub cancelled : Bool

pub new_round : List ProbeTarget → Round
new_round targets = record {
  phase = scanning targets;
  sem = 0;
  wg = 0;
  probing = [];
  closing = [];
  resolved = [];
  started = [];
  finished = [];
  cancelled = false;
}

abbrev pub jobs_of : ProbeTarget → List Text → List Job
jobs_of target = map (λ ip. (target, ip))

-- One operation of the round's goroutine or of one of its probes.
pub data RoundStep (max_concurrency : ℕ) (t u : Round) : Type 0 where
  resolve_failed :
      (x : ProbeTarget) (xs : List ProbeTarget)
      → t.phase ≡ scanning (x ∷ xs)
      → u ≡ record t { phase = scanning xs }
      → RoundStep max_concurrency t u
  resolve :
      (x : ProbeTarget) (xs : List ProbeTarget) (ips : List Text)
      → t.phase ≡ scanning (x ∷ xs)
      → u ≡ record t { phase = dispatching x ips xs; resolved = t.resolved ++ jobs_of x ips }
      → RoundStep max_concurrency t u
  scanned : t.phase ≡ scanning [] → u ≡ record t { phase = waiting } → RoundStep max_concurrency t u
  next_target :
      (x : ProbeTarget) (xs : List ProbeTarget)
      → t.phase ≡ dispatching x [] xs
      → u ≡ record t { phase = scanning xs }
      → RoundStep max_concurrency t u
  cancel :
      (x : ProbeTarget) (ip : Text) (ips : List Text) (xs : List ProbeTarget)
      → t.phase ≡ dispatching x (ip ∷ ips) xs
      → u ≡ record t { phase = waiting; cancelled = true }
      → RoundStep max_concurrency t u
  acquire :
      (x : ProbeTarget) (ip : Text) (ips : List Text) (xs : List ProbeTarget)
      → t.phase ≡ dispatching x (ip ∷ ips) xs
      → t.sem < max_concurrency
      → u ≡ record t {
        phase = dispatching x ips xs;
        sem = t.sem + 1;
        wg = t.wg + 1;
        probing = t.probing ++ (x, ip) ∷ [];
        started = t.started ++ (x, ip) ∷ [];
      }
      → RoundStep max_concurrency t u
  release :
      (before after : List Job) (job : Job)
      → t.probing ≡ before ++ job ∷ after
      → u ≡ record t {
        sem = t.sem - 1;
        probing = before ++ after;
        closing = job ∷ t.closing;
        finished = t.finished ++ job ∷ [];
      }
      → RoundStep max_concurrency t u
  done :
      (before after : List Job) (job : Job)
      → t.closing ≡ before ++ job ∷ after
      → u ≡ record t { wg = t.wg - 1; closing = before ++ after }
      → RoundStep max_concurrency t u
  wait_over :
      t.phase ≡ waiting
      → t.wg ≡ 0
      → u ≡ record t { phase = returned }
      → RoundStep max_concurrency t u

-- `Checker`: the flag, and the goroutines that `Trigger` has started and that have not ended.
pub record Checker : Type 0 where
  pub running : Bool
  pub rounds : List Round

-- `Trigger`: the compare-and-swap, and the new goroutine.
pub trigger : List ProbeTarget → Checker → Checker × Bool
unfolding new_round
trigger targets c =
    if c.running
    then (c, false)
    else (record { running = true; rounds = new_round targets ∷ c.rounds }, true)

pub data CheckerStep (targets : List ProbeTarget) (max_concurrency : ℕ) (c d : Checker)
    : Type 0 where
  tick : d ≡ (trigger targets c).0 → CheckerStep targets max_concurrency c d
  advance :
      (before after : List Round) (t u : Round)
      → c.rounds ≡ before ++ t ∷ after
      → RoundStep max_concurrency t u
      → d ≡ record c { rounds = before ++ u ∷ after }
      → CheckerStep targets max_concurrency c d
  -- `defer c.running.Store(false)`
  end_round :
      (before after : List Round) (t : Round)
      → c.rounds ≡ before ++ t ∷ after
      → t.phase ≡ returned
      → d ≡ record { running = false; rounds = before ++ after }
      → CheckerStep targets max_concurrency c d

-- The states that a checker goes through.
pub data Reach (targets : List ProbeTarget) (max_concurrency : ℕ) : Checker → Type 0 where
  start :
      (c : Checker) → c ≡ record { running = false; rounds = [] } → Reach targets max_concurrency c
  next :
      {c d : Checker}
      → Reach targets max_concurrency c
      → CheckerStep targets max_concurrency c d
      → Reach targets max_concurrency d
