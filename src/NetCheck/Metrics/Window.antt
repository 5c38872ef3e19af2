-- ===== src/NetCheck/Metrics/Window.antt =====
-- The gauge against the whole history of the probes: what a scrape reports for a host.
mod Observe
mod Reported
mod Tests
use focot_services.Prelude.{
  ◌==◌, if◌then◌else◌, is_yes, Text, text_dec, ℕ, suc, ◌+◌, Option, none, some, List, [], ◌∷◌, ◌++◌,
}
use focot_services.NetCheck.Metrics.{Float64, Window, window_success, window_failure, collect}

-- The outcomes of probes that the collector hears of.
pub data Outcome : Type 0 where
  succeeded timed_out : Text → Outcome

-- The outcomes of one kind at one host.
pub successes : Text → List Outcome → ℕ
successes h [] = 0
successes h (succeeded k ∷ outs) =
    if is_yes (text_dec k h) then suc (successes h outs) else successes h outs
successes h (timed_out k ∷ outs) = successes h outs

pub failures : Text → List Outcome → ℕ
failures h [] = 0
failures h (succeeded k ∷ outs) = failures h outs
failures h (timed_out k ∷ outs) =
    if is_yes (text_dec k h) then suc (failures h outs) else failures h outs

-- The hosts of some outcomes, and of a history.
abbrev pub heard_of : List Outcome → List Text
heard_of [] = []
heard_of (succeeded h ∷ outs) = h ∷ heard_of outs
heard_of (timed_out h ∷ outs) = h ∷ heard_of outs

abbrev pub heard : List (List Outcome) → List Text
heard [] = []
heard (outs ∷ earlier) = heard_of outs ++ heard earlier

module _ (F : Float64) where
  open F use {Carrier, zero_value, nan, of_uint64, div}

  -- What a scrape should report at a host, by the outcomes since each scrape, the latest first:
  -- the ratio of the last window that had an outcome there, and `NaN` before there was one.
  pub reported : Text → List (List Outcome) → Carrier
  reported h [] = nan
  reported h (outs ∷ earlier) =
      let s = successes h outs in
      let f = failures h outs in
      if s + f == 0 then reported h earlier else div (of_uint64 s) (of_uint64 (s + f))

  unfoldable pub observe : List Outcome → Window F → Window F
  observe [] c = c
  observe (succeeded h ∷ outs) c = observe outs (window_success F h c)
  observe (timed_out h ∷ outs) c = observe outs (window_failure F h c)

  -- The collector over a history: the outcomes of each window, then a scrape.
  pub run : List (List Outcome) → Window F → Option (List (Text × Carrier) × Window F)
  run [] c = some ([], c)
  run (outs ∷ earlier) c = elim (run earlier c) [
    | none ↦ none
    | some (sent, c') ↦ collect F (observe outs c')
  ]

  -- The values that a scrape should send.
  abbrev pub due : List (List Outcome) → Text → Text × Carrier
  due history h = (h, reported h history)
