-- ===== src/Damaku/Agent/Events/Data.antt =====
-- io-bilive-damaku/agent/agent.go: the data of `eventHandler`, which turns an event of the chat library into a
-- user meta, a medal meta and a message to publish. The parsers of JSON are parameters: a record
-- below that is named `…Data` has what the source reads of a parsed event. Integers of the library
-- are ℤ, and the conversions of the source reduce them; an enum is the bits of its int32.
use focot_services.Prelude.{Text, ℕ, ◌-◌, ◌%◌, ◌^◌, Bool, false, Option, none, some, List, [], ◌∷◌}
use focot_services.Prelude.Int.{ℤ, pos, negsuc}
use focot_services.Damaku.Messages.{BasicMsgMeta, UserInfoMeta, FansMedalMeta}
use focot_services.Damaku.Center.Controller.{Event}

-- `uint64(z)` and `uint32(z)`, in two's complement.
abbrev pub to_uint : ℕ → ℤ → ℕ
to_uint bits (pos n) = n % 2 ^ bits
to_uint bits (negsuc n) = 2 ^ bits - 1 - n % 2 ^ bits

-- A document of gjson, by the paths that the source reads.
pub record Json : Type 0 where
  pub uint : Text → ℕ
  pub text : Text → Text
  pub bool : Text → Bool

pub record MedalData : Type 0 where
  pub target : ℤ
  pub name : Text
  pub level : ℤ
  pub light : Bool
  pub guard_level : ℤ

pub record InfoData : Type 0 where
  pub id : ℤ
  pub name : Text
  pub price : ℤ

-- `events.SendGift`, and the wealth level of `ExtraSendGiftEvent`.
pub record GiftData : Type 0 where
  pub uid : ℤ
  pub name : Text
  pub face : Text
  pub wealth_level : ℕ
  pub medal : Option MedalData
  pub num : ℤ
  pub timestamp : ℤ
  pub tid : Text
  pub info : InfoData
  pub blind : Option InfoData

-- `events.GuardBuyMsg`
pub record GuardData : Type 0 where
  pub uid : ℤ
  pub username : Text
  pub price : ℤ
  pub gift_id : ℤ
  pub start_time : ℤ

-- `events.SuperChatMessage`
pub record SuperChatData : Type 0 where
  pub id : ℤ
  pub uid : ℤ
  pub name : Text
  pub face : Text
  pub user_level : ℤ
  pub medal : MedalData
  pub message : Text
  pub message_trans : Text
  pub price : ℤ
  pub ts : ℤ

-- `OnlineRankCount` and an entry of `OnlineRankV2`, of types.go.
pub record CountData : Type 0 where
  pub count : ℕ
  pub online : ℕ

pub record RankData : Type 0 where
  pub uid : ℤ
  pub face : Text
  pub score : Text
  pub name : Text
  pub rank : ℤ
  pub guard_level : ℤ

-- An event by its command; `none` is an event that cannot be parsed. A super chat with a mismatch
-- of types is parsed as far as it goes.
pub data ChatEvent : Type 0 where
  danmu_msg : Json → ChatEvent
  send_gift : Option GiftData → ChatEvent
  guard_buy : Option GuardData → ChatEvent
  super_chat_message : Option SuperChatData → ChatEvent
  online_rank_count : Option CountData → ChatEvent
  online_rank_v2 : Option (List RankData) → ChatEvent
  unsupported : Text → ChatEvent

-- What goes to `userMetaChan` and `medalMetaChan`, and the message to publish with its subject.
pub record Output : Type 0 where
  pub users : List UserInfoMeta
  pub medals : List FansMedalMeta
  pub stream : Option (Text × Event)

-- What surrounds an event: the agent, the clock, the two times of the trace, and the room.
pub record Frame : Type 0 where
  pub agent : Text
  pub now : ℕ
  pub wait : ℕ
  pub process : ℕ
  pub room : ℤ

-- `NewMsgMetaBuilder`
unfoldable pub built_meta : Frame → BasicMsgMeta
built_meta f = record {
  version = 1;
  agent = f.agent;
  room_id = none;
  time_stamp = f.now;
  trace = [];
}

-- The meta of a message with its room and its trace.
unfoldable pub traced_meta : Frame → BasicMsgMeta
unfolding built_meta
traced_meta f = record (built_meta f) {
  room_id = some (to_uint 64 f.room);
  trace = (0, f.wait) ∷ (1, f.process) ∷ [];
}

abbrev pub nonempty : Text → Option Text
nonempty [] = none
nonempty (c ∷ s) = some (c ∷ s)

abbrev pub no_medal : ℕ → FansMedalMeta
no_medal uid = record {
  uid = uid;
  room_uid = 0;
  name = [];
  level = 0;
  light = false;
  guard_level = 0;
}

abbrev pub medal_of : ℕ → MedalData → FansMedalMeta
medal_of uid d = record {
  uid = uid;
  room_uid = to_uint 64 d.target;
  name = d.name;
  level = to_uint 32 d.level;
  light = d.light;
  guard_level = to_uint 32 d.guard_level;
}
