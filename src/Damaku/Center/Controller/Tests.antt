-- ===== src/Damaku/Center/Controller/Tests.antt =====
-- Messages of one user run through the controller, and the theorems at them.
use focot_services.Prelude.{
  ltb, ◌==◌, if◌then◌else◌, is_yes, length, codes, text_dec, split, last_part, format_uint, ◌+◌,
  ◌≡◌, refl, Bool, true, false, none, some, [], ◌∷◌, ℕ_discrete,
}
use focot_services.Prelude.Results.{ok, err, nil_dereference}
use focot_services.Damaku.Messages.{
  BasicMsgMeta, UserInfoMeta, FansMedalMeta, DamakuMsg, OnlineRankCount, CompareEqual, same_user,
  same_medal, fill_user, user_key, medal_key,
}
use focot_services.Damaku.Cache.Table.{table}
use focot_services.Damaku.Center.Controller.{
  Kind, damaku, kind_of_name, user_event, control_success, Decoders, Agents, State, medal_cached,
  on_medal, user_cached, on_user, msg_duplicate_filter, with_mask, damaku_key, on_damaku, on_gift,
  timed_key, on_guard, on_super_chat, from_master, on_online, on_online_v2, on_kind, aggregate,
  aggregate_window,
}
use focot_services.Damaku.Center.Controller.Filter.{damaku_filtered, filtered_never_sent}
use focot_services.Damaku.Center.Controller.Metas.{pooled_of, sent_of, on_kind-conserves}

abbrev program : Unit {0}
unfolding msg_duplicate_filter on_damaku on_gift on_guard on_super_chat on_online on_online_v2
    on_medal on_user on_kind aggregate aggregate_window kind_of_name medal_cached user_cached
    with_mask damaku_key timed_key from_master same_user same_medal fill_user user_key medal_key
    format_uint split last_part text_dec ℕ_discrete
program = tt

abbrev medal_7 : FansMedalMeta
medal_7 = record {
  uid = 7;
  room_uid = 9;
  name = codes "fan";
  level = 3;
  light = true;
  guard_level = 0;
}

abbrev with_face : UserInfoMeta
with_face = record {
  uid = 7;
  user_name = codes "u";
  face = some (codes "f");
  level = none;
  wealth_level = none;
}

-- The same user under a new name, and without the face.
abbrev renamed : UserInfoMeta
renamed = record with_face { user_name = codes "v"; face = none }

abbrev pub from_a : BasicMsgMeta
from_a = record { version = 1; agent = codes "a"; room_id = some 5; time_stamp = 100; trace = [] }

abbrev a_damaku : DamakuMsg
a_damaku = record { meta = some from_a; uid = 7; content = codes "hi"; medal = 0 }

abbrev pub counted : OnlineRankCount
counted = record { meta = some from_a; count = 3; online = 4 }

abbrev pub decoders : Decoders
decoders = record {
  medal = λ b. some medal_7;
  user = λ b. if ltb 1 (length b) then some renamed else some with_face;
  damaku = λ b. some a_damaku;
  gift = λ b. none;
  guard = λ b. none;
  super_chat = λ b. none;
  online = λ b. some counted;
  online_v2 = λ b. none;
}

-- `compare.Equal` of values that are both there and the same, or both nil.
abbrev pub same_values : CompareEqual
same_values = record {
  text = λ a b. elim a [
    | none ↦ elim b [ none ↦ true | some _ ↦ false ]
    | some x ↦ elim b [ none ↦ false | some y ↦ is_yes (text_dec x y) ]
  ];
  number = λ a b. elim a [
    | none ↦ elim b [ none ↦ true | some _ ↦ false ]
    | some x ↦ elim b [ none ↦ false | some y ↦ x == y ]
  ];
}

abbrev one_agent : Agents
one_agent = record { agent_mask = λ id. some (0 ∷ 1 ∷ []); master_agent = ok (codes "a") }

abbrev empty_state : State table decoders same_values one_agent
empty_state = record {
  dup_cache = [];
  user_meta_cache = [];
  medal_meta_cache = [];
  events = [];
  pooled = [];
  replies = [];
}

-- A first message "damaku" is dropped, and a second one panics.
damaku_run :
    (aggregate_window table decoders same_values one_agent ((codes "p.damaku", []) ∷ []) empty_state
      ≡ ok (record empty_state {
        dup_cache = (codes "damaku:5:7:100", 0 ∷ 1 ∷ []) ∷ [];
        pooled = damaku ∷ [];
      }))
    × (aggregate_window table decoders same_values one_agent
          ((codes "p.damaku", []) ∷ (codes "p.damaku", []) ∷ [])
          empty_state
        ≡ err nil_dereference)
unfolding program
damaku_run = (refl, refl)

-- The user with a face, and then under the new name: the event has the face, the cache has not.
user_run :
    aggregate_window table decoders same_values one_agent
      ((codes "p.userInfoMeta", 0 ∷ []) ∷ (codes "p.userInfoMeta", 0 ∷ 0 ∷ []) ∷ [])
      empty_state
    ≡ ok (record empty_state {
      user_meta_cache = (codes "7", 0 ∷ 0 ∷ []) ∷ [];
      events = user_event with_face ∷ user_event (record renamed { face = some (codes "f") }) ∷ [];
      replies = control_success ∷ [];
    })
unfolding program
user_run = refl

abbrev after_damaku : State table decoders same_values one_agent
after_damaku = record empty_state {
  dup_cache = (codes "damaku:5:7:100", 0 ∷ 1 ∷ []) ∷ [];
  pooled = damaku ∷ [];
}

one_damaku :
    on_kind table decoders same_values one_agent (some damaku) [] empty_state ≡ ok after_damaku
unfolding program
one_damaku = refl

abbrev is_damaku : Kind → Bool
is_damaku damaku = true
is_damaku _ = false

on_kind-conserves_example :
    sent_of is_damaku after_damaku.events + pooled_of is_damaku after_damaku.pooled ≡ 1
on_kind-conserves_example =
    on_kind-conserves table decoders same_values one_agent is_damaku damaku [] empty_state
      one_damaku

filtered_never_sent_example : after_damaku.events ≡ empty_state.events
filtered_never_sent_example =
    filtered_never_sent table decoders same_values one_agent damaku [] empty_state damaku_filtered
      one_damaku
