-- ===== src/Damaku/Agent/Events/Tests.antt =====
-- Events of one room through the handler, and the theorems at them.
use focot_services.Prelude.{length, codes, parse_uint, ◌≡◌, refl, none, some, [], ◌∷◌}
use focot_services.Prelude.Int.{pos, atoi}
use focot_services.Damaku.Center.Controller.{gift_event}
use focot_services.Damaku.Agent.Events.Data.{
  InfoData, GiftData, RankData, send_gift, unsupported, Frame, built_meta, traced_meta, no_medal,
}
use focot_services.Damaku.Agent.Events.Handle.{on_send_gift, rank_list, handle}
use focot_services.Prelude.Results.{err, nil_dereference}
use focot_services.Damaku.Agent.Events.Counters.{change, handler_turn, zeros}
use focot_services.Damaku.Agent.Events.Streams.{IsRouted, handle-IsRouted}

abbrev frame : Frame
frame = record { agent = codes "a"; now = 50; wait = 1; process = 2; room = pos 5 }

abbrev rose : InfoData
rose = record { id = pos 8; name = codes "rose"; price = pos 100 }

abbrev a_gift : GiftData
a_gift = record {
  uid = pos 7;
  name = codes "u";
  face = [];
  wealth_level = 0;
  medal = none;
  num = pos 2;
  timestamp = pos 3;
  tid = codes "12";
  info = rose;
  blind = none;
}

gift_run : handle frame (send_gift (some a_gift)) ≡ record {
  users =
      record { uid = 7; user_name = codes "u"; face = none; level = none; wealth_level = none }
      ∷ [];
  medals = no_medal 7 ∷ [];
  stream = some (
    codes "gift",
    gift_event (record {
      meta = some (record {
        version = 1;
        agent = codes "a";
        room_id = some 5;
        time_stamp = 3000;
        trace = (0, 1) ∷ (1, 2) ∷ [];
      });
      tid = 12;
      uid = 7;
      count = 2;
      info = some (record { id = 8; name = codes "rose"; price = 100 });
      original_info = some (record { id = 8; name = codes "rose"; price = 100 });
      medal = 0;
    }),
  );
}
unfolding handle on_send_gift traced_meta built_meta atoi parse_uint
gift_run = refl

-- A gift without a readable id sends its metas, and no message.
bad_gift :
    ((handle frame (send_gift (some (record a_gift { tid = codes "x" })))).stream ≡ none)
    × (length (handle frame (send_gift (some (record a_gift { tid = codes "x" })))).users ≡ 1)
unfolding handle on_send_gift atoi parse_uint
bad_gift = (refl, refl)

abbrev first : RankData
first = record {
  uid = pos 7;
  face = [];
  score = codes "90";
  name = codes "u";
  rank = pos 1;
  guard_level = pos 0;
}

-- A rank without a readable score is left out of the list.
ranks_run :
    rank_list (record first { score = codes "-1" } ∷ first ∷ [])
    ≡ record { rank = 1; score = 90; uid = 7; guard_level = 0 } ∷ []
unfolding rank_list parse_uint
ranks_run = refl

handle-IsRouted_example : IsRouted frame (handle frame (send_gift (some a_gift))).stream
handle-IsRouted_example = handle-IsRouted frame (send_gift (some a_gift))

-- A command that has no counter ends the process.
unsupported_faults : handler_turn frame (zeros, unsupported (codes "X") ∷ []) ≡ err nil_dereference
unfolding handler_turn change
unsupported_faults = refl
