-- ===== src/Damaku/Raw.antt =====
-- io-bilive-damaku/agent/parse/rawJsonParser.go: the raw events of a recorded file. A document of
-- gjson is a parameter, by the paths that the source reads; an enum is the bits of its int32.
use focot_services.Prelude.{
  ◌==◌, if◌then◌else◌, Text, codes, ℕ, ◌*◌, ◌%◌, ◌^◌, Bool, Option, none, some, [], ◌∷◌,
}
use focot_services.Prelude.Results.{Result, ok, err, ◌>>=◌, Fault, nil_dereference}
use focot_services.Damaku.Messages.{
  BasicMsgMeta, UserInfoMeta, FansMedalMeta, DamakuMsg, GiftInfo, GiftMsg, GuardMsg, SuperChatMsg,
}

pub record Document : Type 0 where
  pub uint : Text → ℕ
  pub text : Text → Text
  pub bool : Text → Bool
  pub is_null : Text → Bool

-- `uint32(n)`, and the conversion to an enum.
abbrev uint32 : ℕ → ℕ
uint32 n = n % 2 ^ 32

-- `msg.Meta.TimeStamp = time`
unfoldable pub stamp : ℕ → Option BasicMsgMeta → Result Fault (Option BasicMsgMeta)
stamp time none = err nil_dereference
stamp time (some m) = ok (some (record m { time_stamp = time }))

-- `if face != "" { user.Face = &face }`
abbrev or_kept : Text → Option Text → Option Text
or_kept [] kept = kept
or_kept (c ∷ s) kept = some (c ∷ s)

-- `Danmu`
unfoldable pub danmu :
    Document
    → UserInfoMeta
    → FansMedalMeta
    → DamakuMsg
    → Result Fault (UserInfoMeta × FansMedalMeta × DamakuMsg)
unfolding stamp
danmu d user medal damaku = do
  meta ← stamp (d.uint (codes "0.4")) damaku.meta
  let uid = d.uint (codes "2.0")
  let room = d.uint (codes "3.12")
  ok (
    record user {
      uid = uid;
      user_name = d.text (codes "2.1");
      face = or_kept (d.text (codes "0.15.user.base.face")) user.face;
    },
    record medal {
      uid = uid;
      room_uid = room;
      name = d.text (codes "3.1");
      level = uint32 (d.uint (codes "3.0"));
      light = d.bool (codes "3.11");
      guard_level = uint32 (d.uint (codes "3.10"));
    },
    record damaku { meta = meta; uid = uid; content = d.text (codes "1"); medal = room },
  )

-- The medal of a gift or of a super chat, under a path.
abbrev read_medal : Document → FansMedalMeta → Text → Text → Text → Text → Text → FansMedalMeta
read_medal d medal target name level light guard = record medal {
  room_uid = d.uint target;
  name = d.text name;
  level = uint32 (d.uint level);
  light = d.bool light;
  guard_level = uint32 (d.uint guard);
}

abbrev gift_medal : Document → FansMedalMeta → FansMedalMeta
gift_medal d medal =
    if d.is_null (codes "medal_info")
    then medal
    else read_medal d medal (codes "medal_info.target_id") (codes "medal_info.medal_name")
        (codes "medal_info.medal_level") (codes "medal_info.is_lighted")
        (codes "medal_info.guard_level")

abbrev gift_wealth : ℕ → Option ℕ → Option ℕ
gift_wealth wealth kept = if wealth == 0 then kept else some (uint32 wealth)

abbrev gift_info : Document → GiftInfo
gift_info d = record {
  id = uint32 (d.uint (codes "giftId"));
  name = d.text (codes "giftName");
  price = uint32 (d.uint (codes "price"));
}

abbrev gift_original : Document → GiftInfo
gift_original d = if d.is_null (codes "blind_gift") then gift_info d else record {
  id = uint32 (d.uint (codes "blind_gift.original_gift_id"));
  name = d.text (codes "blind_gift.original_gift_name");
  price = uint32 (d.uint (codes "blind_gift.original_gift_price"));
}

-- `Gift`
unfoldable pub gift :
    Document
    → UserInfoMeta
    → FansMedalMeta
    → GiftMsg
    → Result Fault (UserInfoMeta × FansMedalMeta × GiftMsg)
unfolding stamp
gift d user medal g = do
  meta ← stamp (d.uint (codes "timestamp") * 1000 % 2 ^ 64) g.meta
  let uid = d.uint (codes "uid")
  let worn = gift_medal d (record medal { uid = uid })
  ok (
    record user {
      uid = uid;
      user_name = d.text (codes "uname");
      face = or_kept (d.text (codes "face")) user.face;
      wealth_level = gift_wealth (d.uint (codes "wealth_level")) user.wealth_level;
    },
    worn,
    record g {
      meta = meta;
      uid = uid;
      count = uint32 (d.uint (codes "num"));
      medal = worn.room_uid;
      tid = d.uint (codes "tid");
      info = some (gift_info d);
      original_info = some (gift_original d);
    },
  )

-- `Guard`
unfoldable pub guard : Document → UserInfoMeta → GuardMsg → Result Fault (UserInfoMeta × GuardMsg)
unfolding stamp
guard d user g = do
  meta ← stamp (d.uint (codes "start_time") * 1000 % 2 ^ 64) g.meta
  let uid = d.uint (codes "uid")
  ok (
    record user { uid = uid; user_name = d.text (codes "username") },
    record g {
      meta = meta;
      uid = uid;
      price = uint32 (d.uint (codes "price"));
      gift_type = uint32 (d.uint (codes "gift_id"));
    },
  )

-- `SuperChat`
unfoldable pub super_chat :
    Document
    → UserInfoMeta
    → FansMedalMeta
    → SuperChatMsg
    → Result Fault (UserInfoMeta × FansMedalMeta × SuperChatMsg)
unfolding stamp
super_chat d user medal sc = do
  meta ← stamp (d.uint (codes "ts")) sc.meta
  let uid = d.uint (codes "uid")
  let named = record medal { uid = uid }
  let worn =
      if d.is_null (codes "uinfo.medal")
      then named
      else read_medal d named (codes "uinfo.medal.ruid") (codes "uinfo.medal.name")
          (codes "uinfo.medal.level") (codes "uinfo.medal.is_light")
          (codes "uinfo.medal.guard_level")
  ok (
    record user {
      uid = uid;
      user_name = d.text (codes "uinfo.base.name");
      face = some (d.text (codes "uinfo.base.face"));
      level = some (uint32 (d.uint (codes "user_info.user_level")));
    },
    worn,
    record sc {
      meta = meta;
      id = d.uint (codes "id");
      uid = uid;
      message = d.text (codes "message");
      message_trans = d.text (codes "message_trans");
      price = uint32 (d.uint (codes "price"));
      medal = worn.room_uid;
    },
  )
