-- ===== src/Damaku/Center/Streams/Tests.antt =====
-- The controller at a manager of one agent that is the master.
use focot_services.Prelude.{codes, false, none, some, [], ◌∷◌}
use focot_services.Damaku.Messages.{BasicMsgMeta, OnlineRankCount, CompareEqual}
use focot_services.Damaku.Cache.Table.{table}
use focot_services.Damaku.Center.Controller.{Decoders, State}
use focot_services.Damaku.Center.Agents.{AgentStatus, Manager}
use focot_services.Damaku.Center.Streams.{agents_of}

abbrev agent_a : AgentStatus
agent_a = record {
  id = codes "a";
  mask = 1;
  condition = 7;
  update_time = 5;
  watching = some [];
  hit_status = [];
  locked = false;
}

abbrev one_master : Manager
one_master = record {
  managed = (codes "a", agent_a) ∷ [];
  watched_room = [];
  latest_mask = 2;
  master = some (codes "a");
  mu_locked = false;
}

abbrev from_a : BasicMsgMeta
from_a = record { version = 1; agent = codes "a"; room_id = some 5; time_stamp = 100; trace = [] }

abbrev counted : OnlineRankCount
counted = record { meta = some from_a; count = 3; online = 4 }

abbrev decoders : Decoders
decoders = record {
  medal = λ b. none;
  user = λ b. none;
  damaku = λ b. none;
  gift = λ b. none;
  guard = λ b. none;
  super_chat = λ b. none;
  online = λ b. some counted;
  online_v2 = λ b. none;
}

abbrev never_equal : CompareEqual
never_equal = record { text = λ a b. false; number = λ a b. false }

abbrev idle : State table decoders never_equal (agents_of one_master)
idle = record {
  dup_cache = [];
  user_meta_cache = [];
  medal_meta_cache = [];
  events = [];
  pooled = [];
  replies = [];
}
