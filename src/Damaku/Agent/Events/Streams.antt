-- ===== src/Damaku/Agent/Events/Streams.antt =====
-- What the messages of the event handler say, and under which subjects the center finds them.
use focot_services.Prelude.{
  Text, text_dec, ℕ, ◌≡◌, refl, Option, none, some, [], ◌∷◌, arith, ℕ_discrete,
}
use focot_services.Damaku.Messages.{BasicMsgMeta, UserInfoMeta, FansMedalMeta}
use focot_services.Damaku.Center.Controller.{
  Kind, fans_medal, user_info_meta, damaku, gift, guard, super_chat, online, online_v2,
  kind_of_name, Event, medal_event, user_event, damaku_event, gift_event, guard_event,
  super_chat_event, online_event, online_v2_event,
}
use focot_services.Damaku.Agent.Events.Data.{
  to_uint, MedalData, ChatEvent, danmu_msg, send_gift, guard_buy, super_chat_message,
  online_rank_count, online_rank_v2, unsupported, Output, Frame, built_meta, traced_meta,
}
use focot_services.Damaku.Agent.Events.Handle.{
  on_danmu, gift_medal, gift_stream, on_send_gift, on_guard_buy, super_chat_medal,
  on_super_chat_message, on_online_count, on_rank_v2, handle,
}
use focot_services.Prelude.Int.{ℤ, atoi}

-- The kind of a message, and the meta that it carries.
abbrev pub kind_of : Event → Kind
kind_of (medal_event _) = fans_medal
kind_of (user_event _) = user_info_meta
kind_of (damaku_event _) = damaku
kind_of (gift_event _) = gift
kind_of (guard_event _) = guard
kind_of (super_chat_event _) = super_chat
kind_of (online_event _) = online
kind_of (online_v2_event _) = online_v2

abbrev pub meta_of : Event → Option BasicMsgMeta
meta_of (medal_event _) = none
meta_of (user_event _) = none
meta_of (damaku_event m) = m.meta
meta_of (gift_event m) = m.meta
meta_of (guard_event m) = m.meta
meta_of (super_chat_event m) = m.meta
meta_of (online_event m) = m.meta
meta_of (online_v2_event m) = m.meta

-- A message under the name by which the controller takes it for what it is, with the id of the
-- agent and the room of the event.
abbrev pub IsRouted : Frame → Option (Text × Event) → Type 0
IsRouted f none = Unit
IsRouted f (some (name, m)) =
    (kind_of_name name ≡ some (kind_of m))
    × ((b : BasicMsgMeta) × ((meta_of m ≡ some b)
          × (b.agent ≡ f.agent)
          × (b.room_id ≡ some (to_uint 64 f.room))))

-- A message whose user and medal are those of the metas that were sent before it.
abbrev pub IsOf : ℕ → ℕ → Output → Type 0
IsOf uid medal out =
    (u : UserInfoMeta) × ((d : FansMedalMeta) × ((out.users ≡ u ∷ [])
        × (out.medals ≡ d ∷ [])
        × (u.uid ≡ uid)
        × (d.uid ≡ uid)
        × (d.room_uid ≡ medal)))

abbrev pub Agrees : Output → Option (Text × Event) → Type 0
Agrees out (some (_, damaku_event m)) = IsOf m.uid m.medal out
Agrees out (some (_, gift_event m)) = IsOf m.uid m.medal out
Agrees out (some (_, super_chat_event m)) = IsOf m.uid m.medal out
Agrees out (some (_, guard_event m)) = (u : UserInfoMeta) × ((out.users ≡ u ∷ []) × (u.uid ≡ m.uid))
Agrees out (some (_, medal_event m)) = ⊥
Agrees out (some (_, user_event m)) = ⊥
Agrees out (some (_, online_event m)) = (out.users ≡ []) × (out.medals ≡ [])
Agrees out (some (_, online_v2_event m)) = out.medals ≡ []
Agrees out none = Unit

-- The message about the event itself that `handle` publishes, if it does, stands under the name by
-- which the controller of the center takes it for what it is, and carries the id of the agent and
-- the room of the event. The metas of users and medals, which the indexer publishes, are not meant.
pub handle-IsRouted : (f : Frame) (e : ChatEvent) → IsRouted f (handle f e).stream
unfolding handle on_danmu on_send_gift on_guard_buy on_super_chat_message on_online_count on_rank_v2
    kind_of_name traced_meta built_meta text_dec ℕ_discrete
handle-IsRouted f (danmu_msg j) = (refl, (_, (refl, refl, refl)))
handle-IsRouted f (send_gift (some d)) = go (atoi d.tid)
  where
    go : (tid : Option ℤ) → IsRouted f (gift_stream f d tid)
    go none = tt
    go (some t) = (refl, (_, (refl, refl, refl)))
handle-IsRouted f (guard_buy (some d)) = (refl, (_, (refl, refl, refl)))
handle-IsRouted f (super_chat_message (some d)) = (refl, (_, (refl, refl, refl)))
handle-IsRouted f (online_rank_count (some d)) = (refl, (_, (refl, refl, refl)))
handle-IsRouted f (online_rank_v2 (some ranks)) = (refl, (_, (refl, refl, refl)))
handle-IsRouted f (send_gift none) = tt
handle-IsRouted f (guard_buy none) = tt
handle-IsRouted f (super_chat_message none) = tt
handle-IsRouted f (online_rank_count none) = tt
handle-IsRouted f (online_rank_v2 none) = tt
handle-IsRouted f (unsupported _) = tt

super_chat_medal-uid : (uid : ℕ) (d : MedalData) → (super_chat_medal uid d).uid ≡ uid
super_chat_medal-uid uid d = ground arith

gift_medal-uid : (uid : ℕ) (d : Option MedalData) → (gift_medal uid d).uid ≡ uid
gift_medal-uid uid none = refl
gift_medal-uid uid (some d) = refl

-- The user and the medal of the message published are those of the metas that the agent has indexed
-- before it: the center can look both up.
pub handle-Agrees : (f : Frame) (e : ChatEvent) → Agrees (handle f e) (handle f e).stream
unfolding handle on_danmu on_send_gift on_guard_buy on_super_chat_message on_online_count on_rank_v2
handle-Agrees f (danmu_msg j) = (_, (_, (refl, refl, refl, refl, refl)))
handle-Agrees f (send_gift (some d)) = go (atoi d.tid)
  where
    go : (tid : Option ℤ) → Agrees (handle f (send_gift (some d))) (gift_stream f d tid)
    go none = tt
    go (some t) = (_, (_, (refl, refl, refl, gift_medal-uid (to_uint 64 d.uid) d.medal, refl)))
handle-Agrees f (guard_buy (some d)) = (_, (refl, refl))
handle-Agrees f (super_chat_message (some d)) =
    (_, (_, (refl, refl, refl, super_chat_medal-uid (to_uint 64 d.uid) d.medal, refl)))
handle-Agrees f (online_rank_count (some d)) = (refl, refl)
handle-Agrees f (online_rank_v2 (some ranks)) = refl
handle-Agrees f (send_gift none) = tt
handle-Agrees f (guard_buy none) = tt
handle-Agrees f (super_chat_message none) = tt
handle-Agrees f (online_rank_count none) = tt
handle-Agrees f (online_rank_v2 none) = tt
handle-Agrees f (unsupported _) = tt
