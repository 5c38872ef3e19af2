-- ===== src/Damaku/Agent/Events/Counters.antt =====
-- io-bilive-damaku/agent: the counters of the events that wait, which the wrapper of utils.go
-- raises and `eventHandler` lowers. A counter is the bits of its int32.
use focot_services.Prelude.{
  ltb, if◌then◌else◌, length, ℕ, zero, suc, ◌+◌, ◌-◌, ◌%◌, ◌^◌, Option, none, some, List, [], ◌∷◌,
  ◌++◌,
}
use focot_services.Prelude.Results.{Result, ok, err, Fault, nil_dereference}
use focot_services.Damaku.Agent.Events.Data.{
  ChatEvent, danmu_msg, send_gift, guard_buy, super_chat_message, online_rank_count, online_rank_v2,
  unsupported, Output, Frame,
}
use focot_services.Damaku.Agent.Events.Handle.{nothing, handle}

-- `eventCounter`, with a counter for each supported command.
pub record Counters : Type 0 where
  pub danmu : ℕ
  pub gift : ℕ
  pub guard : ℕ
  pub super_chat : ℕ
  pub count : ℕ
  pub rank : ℕ

-- The counter of the command of an event, changed; `none` where there is no counter.
unfoldable pub change : (ℕ → ℕ) → ChatEvent → Counters → Option Counters
change f (danmu_msg _) c = some (record c { danmu = f c.danmu })
change f (send_gift _) c = some (record c { gift = f c.gift })
change f (guard_buy _) c = some (record c { guard = f c.guard })
change f (super_chat_message _) c = some (record c { super_chat = f c.super_chat })
change f (online_rank_count _) c = some (record c { count = f c.count })
change f (online_rank_v2 _) c = some (record c { rank = f c.rank })
change f (unsupported _) c = none

-- `Add(1)` and `Add(-1)`
abbrev pub up : ℕ → ℕ
up n = (n + 1) % 2 ^ 32

abbrev pub down : ℕ → ℕ
down n = (n + (2 ^ 32 - 1)) % 2 ^ 32

-- The counters, the wrappers that have counted an event and are not past their send, and `eventChan`.
pub record Intake : Type 0 where
  pub counters : Counters
  pub sending : List ChatEvent
  pub channel : List ChatEvent

-- `On` of the wrapper up to its send: it counts where it has a counter.
unfoldable pub on_wrapper : ChatEvent → Intake → Intake
unfolding change
on_wrapper e s = record s {
  counters = elim (change up e s.counters) [ none ↦ s.counters | some c ↦ c ];
  sending = s.sending ++ e ∷ [];
}

abbrev pub behind :
    ChatEvent → Option (ChatEvent × List ChatEvent) → Option (ChatEvent × List ChatEvent)
behind x none = none
behind x (some (e, rest)) = some (e, x ∷ rest)

abbrev pub pick : ℕ → List ChatEvent → Option (ChatEvent × List ChatEvent)
pick k [] = none
pick zero (e ∷ es) = some (e, es)
pick (suc k) (e ∷ es) = behind e (pick k es)

-- The send of the wrapper at a place, which blocks while the channel is full.
unfoldable pub enter : ℕ → Intake → Intake
enter k s = elim (pick k s.sending) [
  | none ↦ s
  | some (e, rest) ↦
      if ltb (length s.channel) 100
      then record s { sending = rest; channel = s.channel ++ e ∷ [] }
      else s
]

-- One turn of `eventHandler`: the first event of the channel. A command with no counter faults.
unfoldable pub handler_turn :
    Frame → Counters × List ChatEvent → Result Fault (Output × (Counters × List ChatEvent))
unfolding change
handler_turn f (c, []) = ok (nothing, (c, []))
handler_turn f (c, e ∷ queue) = elim (change down e c) [
  | none ↦ err nil_dereference
  | some c' ↦ ok (handle f e, (c', queue))
]

abbrev pub zeros : Counters
zeros = record { danmu = 0; gift = 0; guard = 0; super_chat = 0; count = 0; rank = 0 }
