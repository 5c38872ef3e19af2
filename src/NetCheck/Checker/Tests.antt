-- ===== src/NetCheck/Checker/Tests.antt =====
-- A short life of a checker with one target, and the theorems at it.
use focot_services.Prelude.{
  length, Text, codes, format_uint, ℕ, ◌/◌, ◌≡◌, refl, true, false, Option, some, [], ◌∷◌, arith,
  ℕ_discrete,
}
use focot_services.NetCheck.Config.{ProbeTarget}
use focot_services.NetCheck.Checker.{
  DialError, join_host_port, probe_once, scanning, dispatching, waiting, returned, Round, new_round,
  RoundStep, resolve, scanned, next_target, acquire, release, done, wait_over, Checker, trigger,
  tick, advance, Reach, start, next,
}
use focot_services.NetCheck.Metrics.{Float64, ProbeMetrics}
use focot_services.NetCheck.Checker.Probes.{Probed, probe_once-Probed}
use focot_services.NetCheck.Checker.Rounds.{
  IsExclusive, Reach-IsExclusive, returned_complete, round_progress,
}

abbrev target : ProbeTarget
target = record { endpoint = codes "http://h"; host = codes "h"; port = 80 }

abbrev ip : Text
ip = codes "::1"

abbrev idle : Checker
idle = record { running = false; rounds = [] }

-- The states of the round, one for each step.
abbrev fresh : Round
unfolding new_round
fresh = new_round (target ∷ [])

abbrev resolved_one : Round
resolved_one = record fresh {
  phase = dispatching target (ip ∷ []) [];
  resolved = (target, ip) ∷ [];
}

abbrev probing_one : Round
probing_one = record resolved_one {
  phase = dispatching target [] [];
  sem = 1;
  wg = 1;
  probing = (target, ip) ∷ [];
  started = (target, ip) ∷ [];
}

abbrev closing_one : Round
closing_one = record probing_one {
  sem = 0;
  probing = [];
  closing = (target, ip) ∷ [];
  finished = (target, ip) ∷ [];
}

abbrev rescanning : Round
rescanning = record closing_one { phase = scanning [] }

abbrev joining : Round
joining = record rescanning { phase = waiting }

abbrev joined : Round
joined = record joining { wg = 0; closing = [] }

abbrev ended : Round
ended = record joined { phase = returned }

abbrev with_round : Round → Checker
with_round t = record { running = true; rounds = t ∷ [] }

then_round :
    (t u : Round)
    → RoundStep 1 t u
    → Reach (target ∷ []) 1 (with_round t)
    → Reach (target ∷ []) 1 (with_round u)
then_round t u s r = next r (advance [] [] t u refl s refl)

Reach-probing_one : Reach (target ∷ []) 1 (with_round probing_one)
unfolding new_round trigger
Reach-probing_one =
    then_round resolved_one probing_one (acquire target ip [] [] refl (omega arith) refl) (
      then_round fresh resolved_one (resolve target [] (ip ∷ []) refl refl)
        (next (start idle refl) (tick refl)))

Reach-ended : Reach (target ∷ []) 1 (with_round ended)
unfolding fresh
Reach-ended = then_round joined ended (wait_over refl refl refl) (
    then_round joining joined (done [] [] (target, ip) refl refl) (
      then_round rescanning joining (scanned refl refl) (
        then_round closing_one rescanning (next_target target [] refl refl) (
          then_round probing_one closing_one (release [] [] (target, ip) refl refl)
            Reach-probing_one))))

Reach-IsExclusive_example : IsExclusive 1 (with_round probing_one)
Reach-IsExclusive_example = Reach-IsExclusive (target ∷ []) 1 Reach-probing_one

returned_complete_example :
    (ended.started ≡ ended.resolved)
    × (ended.probing ≡ [])
    × (ended.closing ≡ [])
    × (length ended.finished ≡ length ended.resolved)
unfolding fresh
returned_complete_example = returned_complete (target ∷ []) 1 ended Reach-ended refl refl refl

round_progress_example :
    (u : Round) × RoundStep 1 probing_one u × (u.cancelled ≡ probing_one.cancelled)
round_progress_example =
    round_progress (target ∷ []) 1 probing_one Reach-probing_one (omega arith) refl (ground arith)

-- `dial` fails by a timeout at every address, after no time.
abbrev no_time : Float64
no_time = record { Carrier = ℕ; zero_value = 0; nan = 0; of_uint64 = λ n. n; div = λ a b. a / b }

abbrev late : DialError
late = record { is_canceled = false; is_deadline_exceeded = false; net_timeout = some true }

abbrev always_late : Text → Option DialError × ℕ
always_late address = (some late, length address)

bracketed : join_host_port ip (format_uint 80) ≡ codes "[::1]:80"
unfolding join_host_port format_uint ℕ_discrete
bracketed = refl

abbrev no_metrics : ProbeMetrics no_time
no_metrics = record { calls = []; success_window = [] }

probe_once-Probed_example :
    Probed no_time always_late
      (target, ip)
      no_metrics
      (probe_once no_time always_late (target, ip) no_metrics)
probe_once-Probed_example = probe_once-Probed no_time always_late (target, ip) no_metrics
