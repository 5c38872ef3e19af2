-- ===== src/Damaku/Wash/Store.antt =====
-- io-bilive-damaku/cmd/wash.go, with `BliveData` of cmd/types.go: what a recorded file is read into.
-- XML, the conversions of `strconv` and `time`, and gjson are parameters.
use focot_services.Prelude.{
  ◌==◌, if◌then◌else◌, lookup, insert, Text, ℕ, false, Option, none, some, List, [], ℕ_discrete,
}
use focot_services.Prelude.Int.{ℤ}
use focot_services.Damaku.Messages.{
  BasicMsgMeta, UserInfoMeta, FansMedalMeta, DamakuMsg, GiftMsg, GuardMsg, SuperChatMsg,
}
use focot_services.Damaku.Raw.{Document}

-- The first result of `strconv.ParseInt(s, 10, 64)` and of `time.Parse(time.RFC3339, s)`, and
-- `gjson.Parse`.
pub record Library : Type 1 where
  pub Time : Type 0
  pub parse_int : Text → ℤ
  pub parse_time : Text → Time
  pub parse_json : Text → Document

-- `xml.Token`: a start element with its local names, or another token.
pub data Token : Type 0 where
  start_element : Text → List (Text × Text) → Token
  other_token : Token

abbrev pub zero_user : UserInfoMeta
zero_user = record { uid = 0; user_name = []; face = none; level = none; wealth_level = none }

abbrev pub zero_medal : FansMedalMeta
zero_medal = record { uid = 0; room_uid = 0; name = []; level = 0; light = false; guard_level = 0 }

-- `&agent.BasicMsgMeta{}`
abbrev pub zero_meta : Option BasicMsgMeta
zero_meta = some (record { version = 0; agent = []; room_id = none; time_stamp = 0; trace = [] })

abbrev pub zero_damaku : DamakuMsg
zero_damaku = record { meta = zero_meta; uid = 0; content = []; medal = 0 }

abbrev pub zero_gift : GiftMsg
zero_gift = record {
  meta = zero_meta;
  tid = 0;
  uid = 0;
  count = 0;
  info = none;
  original_info = none;
  medal = 0;
}

abbrev pub zero_guard : GuardMsg
zero_guard = record { meta = zero_meta; uid = 0; price = 0; gift_type = 0 }

abbrev pub zero_super_chat : SuperChatMsg
zero_super_chat = record {
  meta = zero_meta;
  id = 0;
  uid = 0;
  message = [];
  message_trans = [];
  price = 0;
  medal = 0;
}

module _ (L : Library) where
  -- `BliveData.Meta`
  pub record Meta : Type 0 where
    pub recorder_version : Text
    pub room_id : ℤ
    pub short_room_id : ℤ
    pub name : Text
    pub title : Text
    pub area_name_parent : Text
    pub area_name_child : Text
    pub start_time : L.Time

  -- `BliveData`
  pub record BliveData : Type 0 where
    pub meta : Meta
    pub damaku : List DamakuMsg
    pub gifts : List GiftMsg
    pub guards : List GuardMsg
    pub super_chats : List SuperChatMsg
    pub user : List UserInfoMeta
    pub fans_medal : List FansMedalMeta
    pub map_user : List (ℕ × UserInfoMeta)
    pub map_medal : List (ℕ × List (ℕ × FansMedalMeta))

  -- The `switch` of `updateUser`.
  unfoldable pub take_first : UserInfoMeta → UserInfoMeta → UserInfoMeta
  take_first user info = elim user.face [
    | some face ↦ record info { face = some face }
    | none ↦ elim user.level [
      | some level ↦ record info { level = some level }
      | none ↦ elim user.wealth_level [
        | some wealth ↦ record info { wealth_level = some wealth }
        | none ↦ info
      ]
    ]
  ]

  -- `updateUser`
  unfoldable pub update_user : UserInfoMeta → BliveData → BliveData
  unfolding take_first
  update_user user b =
      let info : UserInfoMeta = elim (lookup ℕ_discrete user.uid b.map_user) [
        | none ↦ zero_user
        | some i ↦ i
      ] in
      let named = record info { uid = user.uid; user_name = user.user_name } in
      record b { map_user = insert ℕ_discrete user.uid (take_first user named) b.map_user }

  -- `updateMedal`
  unfoldable pub update_medal : FansMedalMeta → BliveData → BliveData
  update_medal info b =
      if info.room_uid == 0
      then b
      else (let medal : List (ℕ × FansMedalMeta) = elim (lookup ℕ_discrete info.uid b.map_medal) [
        | none ↦ []
        | some m ↦ m
      ] in
          let held : FansMedalMeta = elim (lookup ℕ_discrete info.room_uid medal) [
            | none ↦ record zero_medal { uid = info.uid; room_uid = info.room_uid }
            | some m ↦ m
          ] in
          let latest = record held {
            name = info.name;
            level = info.level;
            light = info.light;
            guard_level = info.guard_level;
          } in
          record b {
            map_medal =
                insert ℕ_discrete info.uid (insert ℕ_discrete info.room_uid latest medal)
                  b.map_medal;
          })
