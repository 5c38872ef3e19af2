-- ===== src/Damaku/Agent/Events/Handle.antt =====
-- io-bilive-damaku/agent/agent.go: the cases of `eventHandler`, one function for each command. The
-- metas are sent before the message is made, and are not taken back where it fails.
use focot_services.Prelude.{
  ◌==◌, if◌then◌else◌, Text, codes, parse_uint, ℕ, ◌*◌, ◌%◌, ◌^◌, Bool, false, Option, none, some,
  List, [], ◌∷◌, map,
}
use focot_services.Prelude.Int.{ℤ, pos, negsuc, atoi}
use focot_services.Damaku.Messages.{UserInfoMeta, FansMedalMeta, GiftInfo, GiftMsg, OnlineRankList}
use focot_services.Damaku.Center.Controller.{
  Event, damaku_event, gift_event, guard_event, super_chat_event, online_event, online_v2_event,
}
use focot_services.Damaku.Agent.Events.Data.{
  to_uint, Json, MedalData, InfoData, GiftData, GuardData, SuperChatData, CountData, RankData,
  ChatEvent, danmu_msg, send_gift, guard_buy, super_chat_message, online_rank_count, online_rank_v2,
  unsupported, Output, Frame, traced_meta, nonempty, no_medal, medal_of,
}

abbrev pub nothing : Output
nothing = record { users = []; medals = []; stream = none }

unfoldable pub on_danmu : Frame → Json → Output
on_danmu f j =
    let uid = j.uint (codes "info.2.0") in
    let room_uid = j.uint (codes "info.3.12") in
    record {
      users =
          record {
            uid = uid;
            user_name = j.text (codes "info.2.1");
            face = nonempty (j.text (codes "info.0.15.user.base.face"));
            level = none;
            wealth_level = none;
          }
          ∷ [];
      medals =
          record {
            uid = uid;
            room_uid = room_uid;
            name = j.text (codes "info.3.1");
            level = j.uint (codes "info.3.0") % 2 ^ 32;
            light = j.bool (codes "info.3.11");
            guard_level = j.uint (codes "info.3.10") % 2 ^ 32;
          }
          ∷ [];
      stream = some (
        codes "damaku",
        damaku_event (record {
          meta = some (record (traced_meta f) { time_stamp = j.uint (codes "info.0.4") });
          uid = uid;
          content = j.text (codes "info.1");
          medal = room_uid;
        }),
      );
    }

abbrev pub gift_info : InfoData → GiftInfo
gift_info d = record { id = to_uint 32 d.id; name = d.name; price = to_uint 32 d.price }

abbrev pub gift_medal : ℕ → Option MedalData → FansMedalMeta
gift_medal uid none = no_medal uid
gift_medal uid (some d) = medal_of uid d

abbrev pub original_info : InfoData → Option InfoData → GiftInfo
original_info info none = gift_info info
original_info info (some blind) = gift_info blind

abbrev pub gift_msg : Frame → GiftData → ℤ → GiftMsg
gift_msg f d tid = record {
  meta = some (record (traced_meta f) { time_stamp = (to_uint 64 d.timestamp * 1000) % 2 ^ 64 });
  tid = to_uint 64 tid;
  uid = to_uint 64 d.uid;
  count = to_uint 32 d.num;
  info = some (gift_info d.info);
  original_info = some (original_info d.info d.blind);
  medal = (gift_medal (to_uint 64 d.uid) d.medal).room_uid;
}

abbrev pub gift_stream : Frame → GiftData → Option ℤ → Option (Text × Event)
gift_stream f d none = none
gift_stream f d (some tid) = some (codes "gift", gift_event (gift_msg f d tid))

-- A gift whose id cannot be read is not published; its metas are.
unfoldable pub on_send_gift : Frame → GiftData → Output
on_send_gift f d =
    let uid = to_uint 64 d.uid in
    record {
      users =
          record {
            uid = uid;
            user_name = d.name;
            face = nonempty d.face;
            level = none;
            wealth_level = if d.wealth_level == 0 then none else some d.wealth_level;
          }
          ∷ [];
      medals = gift_medal uid d.medal ∷ [];
      stream = gift_stream f d (atoi d.tid);
    }

unfoldable pub on_guard_buy : Frame → GuardData → Output
on_guard_buy f d =
    let uid = to_uint 64 d.uid in
    record {
      users =
          record {
            uid = uid;
            user_name = d.username;
            face = none;
            level = none;
            wealth_level = none;
          }
          ∷ [];
      medals = [];
      stream = some (
        codes "guard",
        guard_event (record {
          meta =
              some
                (record (traced_meta f) { time_stamp = (to_uint 64 d.start_time * 1000) % 2 ^ 64 });
          uid = uid;
          price = to_uint 32 d.price;
          gift_type = to_uint 32 d.gift_id;
        }),
      );
    }

abbrev pub is_zero : ℤ → Bool
is_zero (pos n) = n == 0
is_zero (negsuc n) = false

abbrev pub super_chat_medal : ℕ → MedalData → FansMedalMeta
super_chat_medal uid d = if is_zero d.target then no_medal uid else medal_of uid d

unfoldable pub on_super_chat_message : Frame → SuperChatData → Output
on_super_chat_message f d =
    let uid = to_uint 64 d.uid in
    let medal = super_chat_medal uid d.medal in
    record {
      users =
          record {
            uid = uid;
            user_name = d.name;
            face = some d.face;
            level = some (to_uint 32 d.user_level);
            wealth_level = none;
          }
          ∷ [];
      medals = medal ∷ [];
      stream = some (
        codes "superChat",
        super_chat_event (record {
          meta = some (record (traced_meta f) { time_stamp = to_uint 64 d.ts });
          id = to_uint 64 d.id;
          uid = uid;
          message = d.message;
          message_trans = d.message_trans;
          price = to_uint 32 d.price;
          medal = medal.room_uid;
        }),
      );
    }

unfoldable pub on_online_count : Frame → CountData → Output
on_online_count f d = record nothing {
  stream = some (
    codes "online",
    online_event (record { meta = some (traced_meta f); count = d.count; online = d.online }),
  );
}

-- The loop over the ranks: an entry whose score cannot be read is left out.
unfoldable pub rank_list : List RankData → List OnlineRankList
rank_list [] = []
rank_list (d ∷ ranks) =
    let rest = rank_list ranks in
    elim (parse_uint 32 d.score) [
      | none ↦ rest
      | some score ↦
          record {
            rank = to_uint 32 d.rank;
            score = score;
            uid = to_uint 64 d.uid;
            guard_level = to_uint 32 d.guard_level;
          }
          ∷ rest
    ]

abbrev pub rank_user : RankData → UserInfoMeta
rank_user d = record {
  uid = to_uint 64 d.uid;
  user_name = d.name;
  face = some d.face;
  level = none;
  wealth_level = none;
}

unfoldable pub on_rank_v2 : Frame → List RankData → Output
unfolding rank_list
on_rank_v2 f ranks = record {
  users = map rank_user ranks;
  medals = [];
  stream = some (
    codes "onlineV2",
    online_v2_event (record { meta = some (traced_meta f); list = rank_list ranks }),
  );
}

-- One event of `eventChan`.
unfoldable pub handle : Frame → ChatEvent → Output
unfolding on_danmu on_send_gift on_guard_buy on_super_chat_message on_online_count on_rank_v2
handle f (danmu_msg j) = on_danmu f j
handle f (send_gift (some d)) = on_send_gift f d
handle f (guard_buy (some d)) = on_guard_buy f d
handle f (super_chat_message (some d)) = on_super_chat_message f d
handle f (online_rank_count (some d)) = on_online_count f d
handle f (online_rank_v2 (some ranks)) = on_rank_v2 f ranks
handle f (send_gift none) = nothing
handle f (guard_buy none) = nothing
handle f (super_chat_message none) = nothing
handle f (online_rank_count none) = nothing
handle f (online_rank_v2 none) = nothing
handle f (unsupported _) = nothing
