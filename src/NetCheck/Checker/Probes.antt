-- ===== src/NetCheck/Checker/Probes.antt =====
-- What a probe counts, and that the success window hears of the probes of a round in order.
use focot_services.Prelude.{
  if◌then◌else◌, Bool-cases, Text, format_uint, ◌≡◌, refl, ◌∙◌, ◌↔◌, inl, inr, true, false, Option,
  none, some, List, [], ◌∷◌, ◌++◌, append_assoc, arith,
}
use focot_services.NetCheck.Metrics.{
  Float64, window_success, window_failure, MetricCall, success_inc, failure_inc, duration_observe,
  ProbeMetrics, record_success, record_timeout_failure, observe_duration,
}
use focot_services.NetCheck.Checker.{DialError, is_timeout_error, join_host_port, Job, probe_once}
use focot_services.NetCheck.Metrics.Window.{Outcome, succeeded, timed_out, observe}

-- A timeout: the deadline passed, or the network says so, and the probe was not cancelled.
pub data IsTimeout (e : DialError) : Type 0 where
  deadline : e.is_canceled ≡ false → e.is_deadline_exceeded ≡ true → IsTimeout e
  network : e.is_canceled ≡ false → e.net_timeout ≡ some true → IsTimeout e

is_timeout_error-IsTimeout : (e : DialError) → is_timeout_error (some e) ≡ true → IsTimeout e
unfolding is_timeout_error
is_timeout_error-IsTimeout e h = elim (Bool-cases e.is_deadline_exceeded) [
  | inl late ↦ deadline (ground arith) late
  | inr early ↦ network (ground arith) (ground arith)
]

IsTimeout-is_timeout_error : (e : DialError) → IsTimeout e → is_timeout_error (some e) ≡ true
unfolding is_timeout_error
IsTimeout-is_timeout_error e (deadline c d) = ground arith
IsTimeout-is_timeout_error e (network c n) = ground arith

-- `IsTimeoutError` says yes exactly at the timeouts.
pub is_timeout_error_iff : (e : DialError) → (is_timeout_error (some e) ≡ true) ↔ IsTimeout e
is_timeout_error_iff e = (is_timeout_error-IsTimeout e, IsTimeout-is_timeout_error e)

module _ (F : Float64) (dial : Text → Option DialError × F.Carrier) where
  -- The result of the attempt at the address of a job.
  abbrev pub attempt : Job → Option DialError × F.Carrier
  attempt (target, ip) = dial (join_host_port ip (format_uint target.port))

  -- What a probe did to the metrics, by the result of its attempt.
  pub data Probed (job : Job) (m m' : ProbeMetrics F) : Type 0 where
    connected :
        (attempt job).0 ≡ none
        → m'.calls
          ≡ m.calls ++ duration_observe job.0.host (attempt job).1 ∷ success_inc job.0.host ∷ []
        → m'.success_window ≡ window_success F job.0.host m.success_window
        → Probed job m m'
    timed :
        (e : DialError)
        → (attempt job).0 ≡ some e
        → IsTimeout e
        → m'.calls
          ≡ m.calls ++ duration_observe job.0.host (attempt job).1 ∷ failure_inc job.0.host ∷ []
        → m'.success_window ≡ window_failure F job.0.host m.success_window
        → Probed job m m'
    failed :
        (e : DialError)
        → (attempt job).0 ≡ some e
        → ¬ IsTimeout e
        → m'.calls ≡ m.calls ++ duration_observe job.0.host (attempt job).1 ∷ []
        → m'.success_window ≡ m.success_window
        → Probed job m m'

  -- Every probe observes its duration, once. It counts a success exactly where the attempt gave no
  -- error, and a failure exactly where it timed out; other errors, a cancellation among them,
  -- count as neither.
  pub probe_once-Probed : (job : Job) (m : ProbeMetrics F) → Probed job m (probe_once F dial job m)
  unfolding probe_once record_success record_timeout_failure observe_duration
  probe_once-Probed job m = go (attempt job).0 refl
    where
      two : (c d : MetricCall F) → (m.calls ++ c ∷ []) ++ d ∷ [] ≡ m.calls ++ c ∷ d ∷ []
      two c d = append_assoc m.calls (c ∷ []) (d ∷ [])

      go :
          (error : Option DialError)
          → (attempt job).0 ≡ error
          → Probed job m (probe_once F dial job m)
      go none e =
          connected e
            (ground
              (arith, two (duration_observe job.0.host (attempt job).1) (success_inc job.0.host)))
            (ground arith)
      go (some x) e = elim (Bool-cases (is_timeout_error (some x))) [
        | inl late ↦
            timed x e (is_timeout_error-IsTimeout x late)
              (ground
                (arith, two (duration_observe job.0.host (attempt job).1) (failure_inc job.0.host)))
              (ground arith)
        | inr other ↦
            failed x e (λ t. ground (arith, IsTimeout-is_timeout_error x t)) (ground arith)
              (ground arith)
      ]

  -- The outcomes that the success window hears of.
  pub outcomes : List Job → List Outcome
  outcomes [] = []
  outcomes (job ∷ jobs) = elim (attempt job).0 [
    | none ↦ succeeded job.0.host ∷ outcomes jobs
    | some e ↦
        if is_timeout_error (some e) then timed_out job.0.host ∷ outcomes jobs else outcomes jobs
  ]

  pub probe_all : List Job → ProbeMetrics F → ProbeMetrics F
  probe_all [] m = m
  probe_all (job ∷ jobs) m = probe_all jobs (probe_once F dial job m)

  window_heard :
      (job : Job) (jobs : List Job) (m m' : ProbeMetrics F)
      → Probed job m m'
      → observe F (outcomes jobs) m'.success_window
        ≡ observe F (outcomes (job ∷ jobs)) m.success_window
  unfolding outcomes observe
  window_heard job jobs m m' (connected e c w) = ground arith
  window_heard job jobs m m' (timed x e t c w) = ground (arith, IsTimeout-is_timeout_error x t)
  window_heard job jobs m m' (failed x e t c w) = elim (Bool-cases (is_timeout_error (some x))) [
    | inl late ↦ absurd (t (is_timeout_error-IsTimeout x late))
    | inr other ↦ ground arith
  ]

  -- The probes of any jobs leave the success window as the collector leaves it that observes their
  -- outcomes, in the same order.
  pub probe_all-observe :
      (jobs : List Job) (m : ProbeMetrics F)
      → (probe_all jobs m).success_window ≡ observe F (outcomes jobs) m.success_window
  unfolding probe_all
  probe_all-observe [] m = unfold outcomes observe in refl
  probe_all-observe (job ∷ jobs) m =
      probe_all-observe jobs (probe_once F dial job m)
      ∙ window_heard job jobs m (probe_once F dial job m) (probe_once-Probed job m)
