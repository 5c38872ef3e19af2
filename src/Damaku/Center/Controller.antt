-- ===== src/Damaku/Center/Controller.antt =====
-- io-bilive-damaku/controller.go: what `aggregateWindow` does with one message, the duplicate
-- filter, the release of its entries and the recycler. A channel that the controller writes to is
-- a list of what was written; a pool is a list of the kinds of the objects put back. Protobuf, the
-- cache and the answers of the agent manager are parameters.
mod Filter
mod Metas
mod Tests
use focot_services.Prelude.{
  ◌==◌, if◌then◌else◌, is_yes, Text, codes, text_dec, split, last_part, format_uint, ℕ, Option,
  none, some, List, [], ◌∷◌, ◌++◌,
}
use focot_services.Prelude.Results.{Result, ok, err, ◌>>=◌, ◌>>◌}
use focot_services.Damaku.Messages.{
  BasicMsgMeta, UserInfoMeta, FansMedalMeta, DamakuMsg, GiftMsg, GuardMsg, SuperChatMsg,
  OnlineRankCount, OnlineRankV2, CompareEqual, same_user, same_medal, fill_user, user_key,
  medal_key,
}
use focot_services.Damaku.Cache.{
  Bytes, CacheError, entry_not_found, cache_failure, BigCache, Fault, nil_dereference,
}

-- The cases of the `switch` on the last part of the subject.
pub data Kind : Type 0 where
  fans_medal user_info_meta damaku gift guard super_chat online online_v2 : Kind

unfoldable pub kind_of_name : Text → Option Kind
kind_of_name name =
    if is_yes (text_dec name (codes "fansMedal"))
    then some fans_medal
    else if is_yes (text_dec name (codes "userInfoMeta"))
    then some user_info_meta
    else if is_yes (text_dec name (codes "damaku"))
    then some damaku
    else if is_yes (text_dec name (codes "gift"))
    then some gift
    else if is_yes (text_dec name (codes "guard"))
    then some guard
    else if is_yes (text_dec name (codes "superChat"))
    then some super_chat
    else if is_yes (text_dec name (codes "online"))
    then some online
    else if is_yes (text_dec name (codes "onlineV2"))
    then some online_v2
    else none

-- What is sent on `eventChan`.
pub data Event : Type 0 where
  medal_event : FansMedalMeta → Event
  user_event : UserInfoMeta → Event
  damaku_event : DamakuMsg → Event
  gift_event : GiftMsg → Event
  guard_event : GuardMsg → Event
  super_chat_event : SuperChatMsg → Event
  online_event : OnlineRankCount → Event
  online_v2_event : OnlineRankV2 → Event

-- `agent.ControlSuccess` and `agent.ControlError`
pub data Reply : Type 0 where
  control_success control_error : Reply

-- `proto.Unmarshal` at each type; `none` is an error.
pub record Decoders : Type 0 where
  pub medal : Bytes → Option FansMedalMeta
  pub user : Bytes → Option UserInfoMeta
  pub damaku : Bytes → Option DamakuMsg
  pub gift : Bytes → Option GiftMsg
  pub guard : Bytes → Option GuardMsg
  pub super_chat : Bytes → Option SuperChatMsg
  pub online : Bytes → Option OnlineRankCount
  pub online_v2 : Bytes → Option OnlineRankV2

-- `AgentMask` and `MasterAgent` of the agent manager.
pub record Agents : Type 0 where
  pub agent_mask : Text → Option Bytes
  pub master_agent : Result Fault Text

module _ (B : BigCache) (decode : Decoders) (equal : CompareEqual) (agents : Agents) where
  pub record State : Type 0 where
    pub dup_cache : B.Store
    pub user_meta_cache : B.Store
    pub medal_meta_cache : B.Store
    pub events : List Event
    pub pooled : List Kind
    pub replies : List Reply

  abbrev pub send : Event → State → State
  send e s = record s { events = s.events ++ e ∷ [] }

  abbrev pub pool_put : Kind → State → State
  pool_put k s = record s { pooled = s.pooled ++ k ∷ [] }

  abbrev pub respond : Reply → State → State
  respond r s = record s { replies = s.replies ++ r ∷ [] }

  -- The case "fansMedal", from the look into the cache on.
  pub medal_cached : Bytes → FansMedalMeta → Result CacheError Bytes → State → State
  medal_cached bytes meta (err entry_not_found) s =
      let (error, cache) = B.set (medal_key meta) bytes s.medal_meta_cache in
      let s' = record s { medal_meta_cache = cache } in
      send (medal_event meta) (elim error [ none ↦ s' | some _ ↦ respond control_success s' ])
  medal_cached bytes meta (err cache_failure) s = pool_put fans_medal (respond control_error s)
  medal_cached bytes meta (ok cached) s = elim (decode.medal cached) [
    | none ↦ pool_put fans_medal (respond control_error s)
    | some old ↦
        if same_medal meta old
        then pool_put fans_medal s
        else (let (_, cache) = B.set (medal_key meta) bytes s.medal_meta_cache in
            send (medal_event meta)
              (respond control_success (record s { medal_meta_cache = cache })))
  ]

  pub on_medal : Bytes → State → State
  unfolding medal_cached
  on_medal bytes s = elim (decode.medal bytes) [
    | none ↦ pool_put fans_medal (respond control_error s)
    | some meta ↦
        if meta.room_uid == 0
        then pool_put fans_medal (respond control_error s)
        else medal_cached bytes meta (B.get (medal_key meta) s.medal_meta_cache) s
  ]

  -- The case "userInfoMeta", from the look into the cache on. What is stored is the message as it
  -- came, without what was filled in.
  pub user_cached : Bytes → UserInfoMeta → Result CacheError Bytes → State → State
  user_cached bytes meta (err entry_not_found) s =
      let (error, cache) = B.set (user_key meta) bytes s.user_meta_cache in
      let s' = record s { user_meta_cache = cache } in
      send (user_event meta) (elim error [ none ↦ s' | some _ ↦ respond control_success s' ])
  user_cached bytes meta (err cache_failure) s = pool_put user_info_meta (respond control_error s)
  user_cached bytes meta (ok cached) s = elim (decode.user cached) [
    | none ↦ pool_put user_info_meta (respond control_error s)
    | some old ↦
        if same_user equal meta old
        then pool_put user_info_meta s
        else (let (_, cache) = B.set (user_key meta) bytes s.user_meta_cache in
            send (user_event (fill_user meta old))
              (respond control_success (record s { user_meta_cache = cache })))
  ]

  pub on_user : Bytes → State → State
  unfolding user_cached
  on_user bytes s = elim (decode.user bytes) [
    | none ↦ pool_put user_info_meta (respond control_error s)
    | some meta ↦ user_cached bytes meta (B.get (user_key meta) s.user_meta_cache) s
  ]

  -- `msgDuplicateFilter`. At a nil error the inner test `errors.Is(err, …)` fails, and the message
  -- of the nil error is asked for. The errors returned are only logged by the callers.
  pub msg_duplicate_filter : Kind → Text → Bytes → State → Result Fault State
  msg_duplicate_filter kind key mask s = elim (B.get key s.dup_cache) [
    | ok _ ↦ err nil_dereference
    | err _ ↦
        let s' = pool_put kind s in ok (record s' { dup_cache = (B.append key mask s.dup_cache).1 })
  ]

  -- The mask of the agent, of which a message with no meta faults.
  pub with_mask :
      Kind
      → Option BasicMsgMeta
      → (BasicMsgMeta → Bytes → State → Result Fault State)
      → State
      → Result Fault State
  with_mask kind none next s = err nil_dereference
  with_mask kind (some meta) next s = elim (agents.agent_mask meta.agent) [
    | none ↦ ok (pool_put kind s)
    | some mask ↦ next meta mask s
  ]

  unfoldable pub damaku_key : ℕ → ℕ → ℕ → Text
  damaku_key room uid time =
      codes "damaku:" ++ (format_uint room ++ b':' ∷ (format_uint uid ++ b':' ∷ format_uint time))

  pub on_damaku : Bytes → State → Result Fault State
  unfolding with_mask msg_duplicate_filter
  on_damaku bytes s = elim (decode.damaku bytes) [
    | none ↦ ok (pool_put damaku s)
    | some m ↦
        with_mask damaku m.meta
          (λ meta mask s'. elim meta.room_id [
            | none ↦ ok (pool_put damaku s')
            | some room ↦
                msg_duplicate_filter damaku (damaku_key room m.uid meta.time_stamp) mask s'
          ])
          s
  ]

  pub on_gift : Bytes → State → Result Fault State
  unfolding with_mask msg_duplicate_filter
  on_gift bytes s = elim (decode.gift bytes) [
    | none ↦ ok (pool_put gift s)
    | some m ↦
        with_mask gift m.meta
          (λ meta mask. msg_duplicate_filter gift (codes "gift:" ++ format_uint m.tid) mask) s
  ]

  pub timed_key : Text → ℕ → ℕ → Text
  timed_key name uid time = name ++ b':' ∷ (format_uint uid ++ b':' ∷ format_uint time)

  pub on_guard : Bytes → State → Result Fault State
  unfolding with_mask msg_duplicate_filter
  on_guard bytes s = elim (decode.guard bytes) [
    | none ↦ ok (pool_put guard s)
    | some m ↦
        with_mask guard m.meta
          (λ meta mask.
            msg_duplicate_filter guard (timed_key (codes "guard") m.uid meta.time_stamp) mask)
          s
  ]

  pub on_super_chat : Bytes → State → Result Fault State
  unfolding with_mask msg_duplicate_filter
  on_super_chat bytes s = elim (decode.super_chat bytes) [
    | none ↦ ok (pool_put super_chat s)
    | some m ↦
        with_mask super_chat m.meta
          (λ meta mask.
            msg_duplicate_filter super_chat (timed_key (codes "superChat") m.uid meta.time_stamp)
              mask)
          s
  ]

  -- A single stream follows the master: the event passes if its agent is the master.
  pub from_master : Kind → Event → Option BasicMsgMeta → State → Result Fault State
  from_master kind e none s = err nil_dereference
  from_master kind e (some meta) s = do
    master ← agents.master_agent
    ok (if is_yes (text_dec meta.agent master) then send e s else pool_put kind s)

  unfoldable pub on_online : Bytes → State → Result Fault State
  unfolding from_master
  on_online bytes s = elim (decode.online bytes) [
    | none ↦ ok (pool_put online s)
    | some m ↦ from_master online (online_event m) m.meta s
  ]

  pub on_online_v2 : Bytes → State → Result Fault State
  unfolding from_master
  on_online_v2 bytes s = elim (decode.online_v2 bytes) [
    | none ↦ ok (pool_put online_v2 s)
    | some m ↦ from_master online_v2 (online_v2_event m) m.meta s
  ]

  unfoldable pub on_kind : Option Kind → Bytes → State → Result Fault State
  on_kind none bytes s = ok s
  on_kind (some fans_medal) bytes s = ok (on_medal bytes s)
  on_kind (some user_info_meta) bytes s = ok (on_user bytes s)
  on_kind (some damaku) bytes s = on_damaku bytes s
  on_kind (some gift) bytes s = on_gift bytes s
  on_kind (some guard) bytes s = on_guard bytes s
  on_kind (some super_chat) bytes s = on_super_chat bytes s
  on_kind (some online) bytes s = on_online bytes s
  on_kind (some online_v2) bytes s = on_online_v2 bytes s

  -- One message of `streamChan`.
  pub aggregate : Text → Bytes → State → Result Fault State
  unfolding on_kind
  aggregate subject bytes s = on_kind (kind_of_name (last_part (split b'.' subject))) bytes s

  -- `aggregateWindow` over the messages that come.
  pub aggregate_window : List (Text × Bytes) → State → Result Fault State
  aggregate_window [] s = ok s
  aggregate_window ((subject, bytes) ∷ msgs) s = do
    s' ← aggregate subject bytes s
    aggregate_window msgs s'

  -- `recycler`: an event goes back to the pool of its type.
  pub recycle : Event → State → State
  recycle (medal_event _) s = pool_put fans_medal s
  recycle (user_event _) s = pool_put user_info_meta s
  recycle (damaku_event _) s = pool_put damaku s
  recycle (gift_event _) s = pool_put gift s
  recycle (guard_event _) s = pool_put guard s
  recycle (super_chat_event _) s = pool_put super_chat s
  recycle (online_event _) s = pool_put online s
  recycle (online_v2_event _) s = pool_put online_v2 s
