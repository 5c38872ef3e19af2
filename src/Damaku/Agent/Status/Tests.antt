-- ===== src/Damaku/Agent/Status/Tests.antt =====
-- io-bilive-damaku: the status of an agent at examples.
use focot_services.Prelude.{codes, none, List, [], ◌∷◌}
use focot_services.Prelude.Int.{pos}
use focot_services.Damaku.Messages.{BasicMsgMeta}
use focot_services.Damaku.Agent.Actions.{Watcher}
use focot_services.Damaku.Agent.Events.Data.{send_gift, online_rank_v2, Frame}
use focot_services.Damaku.Agent.Events.Counters.{Intake, zeros}
use focot_services.Damaku.Agent.Events.Counted.{Step, arrive, send_at, turn}
use focot_services.Damaku.Agent.Status.{CacheStats, CacheView}

abbrev stats : CacheStats
stats = record { hits = 5; misses = 2; del_hits = 0; del_misses = 0; collisions = 0 }

abbrev view : CacheView
view = record { waiting = 1; entries = 3; counts = stats }

abbrev meta : BasicMsgMeta
meta = record { version = 1; agent = codes "a"; room_id = none; time_stamp = 9; trace = [] }

abbrev watcher : Watcher
watcher = record { watching = 1 ∷ 2 ∷ []; chat = []; replies = [] }

abbrev frame : Frame
frame = record { agent = codes "a"; now = 9; wait = 1; process = 2; room = pos 6 }

-- Two gifts and a rank arrive, the rank is sent first, then a gift, and the handler takes the rank.
abbrev steps : List Step
steps =
    arrive (send_gift none)
    ∷ arrive (online_rank_v2 none)
    ∷ arrive (send_gift none)
    ∷ send_at 1
    ∷ send_at 0
    ∷ turn
    ∷ []

abbrev intake : Intake
intake = record {
  counters = record zeros { gift = 2 };
  sending = send_gift none ∷ [];
  channel = send_gift none ∷ [];
}
