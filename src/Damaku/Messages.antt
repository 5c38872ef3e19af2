-- ===== src/Damaku/Messages.antt =====
-- The messages of io-bilive-damaku/pb/agent.proto. A field that the schema calls optional, and a
-- message inside a message, is an `Option`, since the generated structs hold pointers.
pub mod Keys
mod Tests
use focot_services.Prelude.{
  ◌==◌, is_yes, Text, text_dec, format_uint, ℕ, Bool, true, false, not, ◌&&◌, Option, none, some,
  List, ◌∷◌, ◌++◌,
}

pub record BasicMsgMeta : Type 0 where
  pub version : ℕ
  pub agent : Text
  pub room_id : Option ℕ
  pub time_stamp : ℕ
  pub trace : List (ℕ × ℕ)

pub record UserInfoMeta : Type 0 where
  pub uid : ℕ
  pub user_name : Text
  pub face : Option Text
  pub level : Option ℕ
  pub wealth_level : Option ℕ

pub record FansMedalMeta : Type 0 where
  pub uid : ℕ
  pub room_uid : ℕ
  pub name : Text
  pub level : ℕ
  pub light : Bool
  pub guard_level : ℕ

pub record DamakuMsg : Type 0 where
  pub meta : Option BasicMsgMeta
  pub uid : ℕ
  pub content : Text
  pub medal : ℕ

pub record GiftInfo : Type 0 where
  pub id : ℕ
  pub name : Text
  pub price : ℕ

pub record GiftMsg : Type 0 where
  pub meta : Option BasicMsgMeta
  pub tid : ℕ
  pub uid : ℕ
  pub count : ℕ
  pub info : Option GiftInfo
  pub original_info : Option GiftInfo
  pub medal : ℕ

pub record GuardMsg : Type 0 where
  pub meta : Option BasicMsgMeta
  pub uid : ℕ
  pub price : ℕ
  pub gift_type : ℕ

pub record SuperChatMsg : Type 0 where
  pub meta : Option BasicMsgMeta
  pub id : ℕ
  pub uid : ℕ
  pub message : Text
  pub message_trans : Text
  pub price : ℕ
  pub medal : ℕ

pub record OnlineRankCount : Type 0 where
  pub meta : Option BasicMsgMeta
  pub count : ℕ
  pub online : ℕ

pub record OnlineRankList : Type 0 where
  pub rank : ℕ
  pub score : ℕ
  pub uid : ℕ
  pub guard_level : ℕ

pub record OnlineRankV2 : Type 0 where
  pub meta : Option BasicMsgMeta
  pub list : List OnlineRankList

-- `compare.Equal` of the library lancet, at the pointers that the source compares with it.
pub record CompareEqual : Type 0 where
  pub text : Option Text → Option Text → Bool
  pub number : Option ℕ → Option ℕ → Bool

-- The two tests "same as" that the agent and the controller share.
module _ (equal : CompareEqual) where
  unfoldable pub same_user : UserInfoMeta → UserInfoMeta → Bool
  same_user meta cached =
      is_yes (text_dec meta.user_name cached.user_name)
      && equal.text meta.face cached.face
      && equal.number meta.level cached.level
      && equal.number meta.wealth_level cached.wealth_level

same_bool : Bool → Bool → Bool
same_bool true b = b
same_bool false b = not b

unfoldable pub same_medal : FansMedalMeta → FansMedalMeta → Bool
unfolding same_bool
same_medal meta cached =
    meta.room_uid == cached.room_uid
    && is_yes (text_dec meta.name cached.name)
    && meta.level == cached.level
    && same_bool meta.light cached.light
    && meta.guard_level == cached.guard_level

abbrev or_cached {ℓ} : {A : Type ℓ} → Option A → Option A → Option A
or_cached none cached = cached
or_cached (some a) cached = some a

-- "diff compare": what the new message leaves out is taken from the cached one.
unfoldable pub fill_user : UserInfoMeta → UserInfoMeta → UserInfoMeta
fill_user meta cached = record meta {
  face = or_cached meta.face cached.face;
  level = or_cached meta.level cached.level;
  wealth_level = or_cached meta.wealth_level cached.wealth_level;
}

-- `strconv.FormatUint(uid, 10)` and `fmt.Sprintf("%d:%d", uid, room_uid)`
unfoldable pub user_key : UserInfoMeta → Text
user_key meta = format_uint meta.uid

unfoldable pub medal_key : FansMedalMeta → Text
medal_key meta = format_uint meta.uid ++ b':' ∷ format_uint meta.room_uid
