-- ===== src/NetCheck/Metrics.antt =====
-- io-net-check/metrics.go. The Prometheus registry is not part of the repository: a call of it is
-- recorded as a value. Floating point is a parameter. The mutexes make each method one step.
mod Collect
pub mod Window
use focot_services.Prelude.{
  ltb, if◌then◌else◌, keys, lookup, insert, Text, text_dec, ℕ, ◌+◌, ◌%◌, ◌^◌, Bool, true, false,
  Option, none, some, List, [], ◌∷◌, ◌++◌,
}
use focot_services.Prelude.Sorting.{sort_texts}

-- The values of `float64` that the source computes: `0`, `math.NaN()`, a conversion and `/`.
pub record Float64 : Type 1 where
  pub Carrier : Type 0
  pub zero_value : Carrier
  pub nan : Carrier
  pub of_uint64 : ℕ → Carrier
  pub div : Carrier → Carrier → Carrier

abbrev pub u64 : ℕ → ℕ
u64 n = n % 2 ^ 64

module _ (F : Float64) where
  open F use {Carrier, zero_value, nan, of_uint64, div}

  -- `successRatioState`
  pub record RatioState : Type 0 where
    pub success : ℕ
    pub failure : ℕ
    pub last_value : Carrier
    pub has_last_value : Bool

  -- The map of `SuccessRatioCollector`.
  abbrev pub Window : Type 0
  Window = List (Text × RatioState)

  abbrev pub new_state : RatioState
  new_state = record { success = 0; failure = 0; last_value = zero_value; has_last_value = false }

  -- `ensureHostLocked`: the state at the host, and the map that holds it.
  pub ensure_host : Text → Window → RatioState × Window
  ensure_host host c = elim (lookup text_dec host c) [
    | some s ↦ (s, c)
    | none ↦ (new_state, insert text_dec host new_state c)
  ]

  pub new_collector : List Text → Window → Window
  unfolding ensure_host
  new_collector [] c = c
  new_collector (host ∷ hosts) c = new_collector hosts (ensure_host host c).1

  pub window_success : Text → Window → Window
  window_success host c =
      let (s, c') = ensure_host host c in
      insert text_dec host (record s { success = u64 (s.success + 1) }) c'

  pub window_failure : Text → Window → Window
  window_failure host c =
      let (s, c') = ensure_host host c in
      insert text_dec host (record s { failure = u64 (s.failure + 1) }) c'

  -- One round of the loop of `Collect`: the state behind it, and the value that is sent.
  pub sample : RatioState → RatioState × Carrier
  sample s =
      let total = u64 (s.success + s.failure) in
      let ratio = div (of_uint64 s.success) (of_uint64 total) in
      if ltb 0 total
      then (record { success = 0; failure = 0; last_value = ratio; has_last_value = true }, ratio)
      else (record s { success = 0; failure = 0 }, if s.has_last_value then s.last_value else nan)

  -- `none` would be the nil dereference at a host with no state.
  pub collect_loop :
      List Text → Window → List (Text × Carrier) → Option (List (Text × Carrier) × Window)
  unfolding sample
  collect_loop [] c sent = some (sent, c)
  collect_loop (host ∷ hosts) c sent = elim (lookup text_dec host c) [
    | none ↦ none
    | some s ↦
        let (s', ratio) = sample s in
        collect_loop hosts (insert text_dec host s' c) (sent ++ (host, ratio) ∷ [])
  ]

  pub collect : Window → Option (List (Text × Carrier) × Window)
  unfolding collect_loop
  collect c = collect_loop (sort_texts (keys c)) c []

  -- The calls of the metrics library, by label.
  pub data MetricCall : Type 0 where
    success_inc failure_inc : Text → MetricCall
    duration_observe : Text → Carrier → MetricCall

  pub record ProbeMetrics : Type 0 where
    pub calls : List MetricCall
    pub success_window : Window

  pub new_probe_metrics : List Text → ProbeMetrics
  unfolding new_collector
  new_probe_metrics hosts = record { calls = []; success_window = new_collector hosts [] }

  unfoldable pub record_success : Text → ProbeMetrics → ProbeMetrics
  unfolding window_success
  record_success host m = record {
    calls = m.calls ++ success_inc host ∷ [];
    success_window = window_success host m.success_window;
  }

  unfoldable pub record_timeout_failure : Text → ProbeMetrics → ProbeMetrics
  unfolding window_failure
  record_timeout_failure host m = record {
    calls = m.calls ++ failure_inc host ∷ [];
    success_window = window_failure host m.success_window;
  }

  unfoldable pub observe_duration : Text → Carrier → ProbeMetrics → ProbeMetrics
  observe_duration host seconds m = record m {
    calls = m.calls ++ duration_observe host seconds ∷ [];
  }
