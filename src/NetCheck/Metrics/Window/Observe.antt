-- ===== src/NetCheck/Metrics/Window/Observe.antt =====
-- What the outcomes of one window do to the states and the hosts of the collector.
use focot_services.Prelude.{
  if◌then◌else◌, is_yes, length, contains, contains_again, Distinct, keys, insert, lookup-insert,
  contains-keys, contains-insert, Distinct-insert, Text, text_dec, ℕ, ◌+◌, ◌^◌, ◌<◌, ◌≡◌, ◌||◌,
  List, [], ◌∷◌, arith,
}
use focot_services.NetCheck.Metrics.{
  Float64, u64, RatioState, Window, new_state, ensure_host, window_success, window_failure,
}
use focot_services.NetCheck.Metrics.Collect.{state_at, state_at-insert}
use focot_services.NetCheck.Metrics.Window.{
  Outcome, succeeded, timed_out, successes, failures, heard_of, observe,
}

module _ (F : Float64) where
  open F use {Carrier, zero_value, nan, of_uint64, div}

  -- What the state of a host shows between two windows.
  abbrev pub shown : RatioState F → Carrier
  shown s = if s.has_last_value then s.last_value else nan

  pub record Counted (before after : RatioState F) (s f : ℕ) : Type 0 where
    pub success : after.success ≡ before.success + s
    pub failure : after.failure ≡ before.failure + f
    pub shows : shown after ≡ shown before

  pub ensure_host_lem :
      (h k : Text) (c : Window F)
      → ((ensure_host F h c).0 ≡ state_at F h c)
        × (state_at F k (ensure_host F h c).1 ≡ state_at F k c)
  unfolding ensure_host
  ensure_host_lem h k c = ground (arith, lookup-insert text_dec h k (new_state F) c)

  window_success-state :
      (h k : Text) (c : Window F)
      → state_at F k (window_success F h c) ≡ (
          if is_yes (text_dec h k)
          then record (state_at F k c) { success = u64 ((state_at F k c).success + 1) }
          else state_at F k c)
  unfolding window_success
  window_success-state h k c = ground (
    arith,
    ensure_host_lem h k c,
    state_at-insert F h k
        (record (ensure_host F h c).0 { success = u64 ((ensure_host F h c).0.success + 1) })
        (ensure_host F h c).1,
  )

  window_failure-state :
      (h k : Text) (c : Window F)
      → state_at F k (window_failure F h c) ≡ (
          if is_yes (text_dec h k)
          then record (state_at F k c) { failure = u64 ((state_at F k c).failure + 1) }
          else state_at F k c)
  unfolding window_failure
  window_failure-state h k c = ground (
    arith,
    ensure_host_lem h k c,
    state_at-insert F h k
        (record (ensure_host F h c).0 { failure = u64 ((ensure_host F h c).0.failure + 1) })
        (ensure_host F h c).1,
  )

  pub observe-Counted :
      (h : Text) (outs : List Outcome) (c : Window F)
      → (state_at F h c).success + (state_at F h c).failure + length outs < 2 ^ 64
      → Counted
          (state_at F h c)
          (state_at F h (observe F outs c))
          (successes h outs)
          (failures h outs)
  unfolding observe successes failures
  observe-Counted h [] c room = ground arith
  observe-Counted h (succeeded k ∷ outs) c room =
      ground (arith, window_success-state k h c, observe-Counted h outs (window_success F k c))
  observe-Counted h (timed_out k ∷ outs) c room =
      ground (arith, window_failure-state k h c, observe-Counted h outs (window_failure F k c))

  pub ensure_host-keys :
      (h k : Text) (c : Window F)
      → contains text_dec (keys (ensure_host F h c).1) k
        ≡ (is_yes (text_dec h k) || contains text_dec (keys c) k)
  unfolding ensure_host
  ensure_host-keys h k c = ground (
    arith,
    contains-insert text_dec h k (new_state F) c,
    contains-keys text_dec h c,
    contains_again text_dec (keys c) h k,
  )

  pub ensure_host-Distinct :
      (h : Text) (c : Window F)
      → Distinct text_dec (keys c)
      → Distinct text_dec (keys (ensure_host F h c).1)
  unfolding ensure_host
  ensure_host-Distinct h c d = ground (arith, Distinct-insert text_dec h (new_state F) c)

  -- Both ways to count an outcome add its host and nothing else.
  window-keys :
      (h k : Text) (s : RatioState F) (c : Window F)
      → contains text_dec (keys (insert text_dec h s (ensure_host F h c).1)) k
        ≡ (is_yes (text_dec h k) || contains text_dec (keys c) k)
  window-keys h k s c =
      ground (arith, contains-insert text_dec h k s (ensure_host F h c).1, ensure_host-keys h k c)

  pub observe-keys :
      (k : Text) (outs : List Outcome) (c : Window F)
      → contains text_dec (keys (observe F outs c)) k
        ≡ (contains text_dec (keys c) k || contains text_dec (heard_of outs) k)
  unfolding observe window_success window_failure
  observe-keys k [] c = ground arith
  observe-keys k (succeeded h ∷ outs) c = ground (
    arith,
    observe-keys k outs (window_success F h c),
    window-keys h k
        (record (ensure_host F h c).0 { success = u64 ((ensure_host F h c).0.success + 1) }) c,
  )
  observe-keys k (timed_out h ∷ outs) c = ground (
    arith,
    observe-keys k outs (window_failure F h c),
    window-keys h k
        (record (ensure_host F h c).0 { failure = u64 ((ensure_host F h c).0.failure + 1) }) c,
  )

  pub observe-Distinct :
      (outs : List Outcome) (c : Window F)
      → Distinct text_dec (keys c)
      → Distinct text_dec (keys (observe F outs c))
  unfolding observe window_success window_failure
  observe-Distinct [] c d = d
  observe-Distinct (succeeded h ∷ outs) c d =
      observe-Distinct outs _ (Distinct-insert text_dec h _ _ (ensure_host-Distinct h c d))
  observe-Distinct (timed_out h ∷ outs) c d =
      observe-Distinct outs _ (Distinct-insert text_dec h _ _ (ensure_host-Distinct h c d))
