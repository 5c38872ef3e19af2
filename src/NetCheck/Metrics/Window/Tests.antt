-- ===== src/NetCheck/Metrics/Window/Tests.antt =====
-- Scrapes of a collector with two hosts, and the theorems at them.
use focot_services.Prelude.{
  Text, codes, text_dec, ℕ, ◌≡◌, refl, Option, none, some, List, [], ◌∷◌, arith, ℕ_discrete,
}
use mathlib.Core.Option
use focot_services.Prelude.Sorting.{sort_texts}
use focot_services.NetCheck.Metrics.{
  Float64, Window, ensure_host, new_collector, window_success, window_failure, sample, collect_loop,
  collect,
}
use focot_services.NetCheck.Metrics.Window.{Outcome, succeeded, timed_out, observe, run}
use focot_services.NetCheck.Metrics.Window.Reported.{Sent, run-Sent}

abbrev program : Unit {0}
unfolding collect collect_loop sample ensure_host window_success window_failure new_collector run
    observe sort_texts text_dec ℕ_discrete
program = tt

-- Fractions that are not reduced; `none` is NaN.
abbrev fraction : Float64
fraction = record {
  Carrier = Option (ℕ × ℕ);
  zero_value = some (0, 1);
  nan = none;
  of_uint64 = λ n. some (n, 1);
  div = divide;
}
  where
    divide : Option (ℕ × ℕ) → Option (ℕ × ℕ) → Option (ℕ × ℕ)
    divide (some (a, _)) (some (b, _)) = some (a, b)
    divide _ _ = none

abbrev hosts : List Text
hosts = codes "b" ∷ codes "a" ∷ []

abbrev first_window : List Outcome
first_window = succeeded (codes "b") ∷ timed_out (codes "b") ∷ succeeded (codes "c") ∷ []

abbrev quiet_window : List Outcome
quiet_window = timed_out (codes "c") ∷ []

two_windows :
    Option.map
      (λ r. r.0)
      (run fraction (quiet_window ∷ first_window ∷ []) (new_collector fraction hosts []))
    ≡ some ((codes "a", none) ∷ (codes "b", some (1, 2)) ∷ (codes "c", some (0, 1)) ∷ [])
unfolding program
two_windows = refl

run-Sent_example :
    (sent : List (Text × fraction.Carrier)) × ((c : Window fraction) × (run fraction
          (quiet_window ∷ first_window ∷ [])
          (new_collector fraction hosts [])
        ≡ some (sent, c))
      × Sent fraction hosts (quiet_window ∷ first_window ∷ []) sent)
run-Sent_example = run-Sent fraction hosts quiet_window (first_window ∷ []) (omega arith)
