-- ===== src/Damaku/Agent/Status/Reported.antt =====
-- io-bilive-damaku: what the status of an agent tells.
use focot_services.Prelude.{ℕ, ◌+◌, List, [], ◌∷◌}
use focot_services.Damaku.Agent.Events.Data.{ChatEvent, unsupported}

abbrev pub sum_counts : List (ℕ × ℕ) → ℕ
sum_counts [] = 0
sum_counts ((_, n) ∷ counts) = n + sum_counts counts

-- Events of the supported commands: the chat library hands over no others to the wrappers.
abbrev pub IsSupported : ChatEvent → Type 0
IsSupported (unsupported _) = ⊥
IsSupported _ = Unit
