-- ===== src/Damaku/Wash/Tokens.antt =====
-- io-bilive-damaku/cmd/wash.go: `attrParse`, and the loop of `washer`. Files are left out, and a map
-- that `range` visits is visited in the order of its entries.
use focot_services.Prelude.{
  if◌then◌else◌, is_yes, Text, codes, text_dec, ℕ, Bool, Option, none, some, List, [], ◌∷◌, ◌++◌,
}
use focot_services.Prelude.Results.{Result, ok, ◌>>=◌, Fault}
use focot_services.Damaku.Messages.{UserInfoMeta, FansMedalMeta}
use focot_services.Damaku.Raw.{danmu, gift, guard, super_chat}
use focot_services.Damaku.Wash.Store.{
  Library, Token, start_element, other_token, zero_user, zero_medal, zero_damaku, zero_gift,
  zero_guard, zero_super_chat, BliveData, update_user, update_medal,
}

abbrev pub is_named : Text → Text → Bool
is_named name local = is_yes (text_dec local name)

module _ (L : Library) where
  -- The attributes of `BililiveRecorder` and of `BililiveRecorderRecordInfo`.
  unfoldable pub version_attr : Text × Text → BliveData L → BliveData L
  version_attr (local, value) b =
      if is_named (codes "version") local
      then record b { meta = record b.meta { recorder_version = value } }
      else b

  unfoldable pub info_attr : Text × Text → BliveData L → BliveData L
  info_attr (local, value) b =
      if is_named (codes "roomid") local
      then record b { meta = record b.meta { room_id = L.parse_int value } }
      else if is_named (codes "shortid") local
      then record b { meta = record b.meta { short_room_id = L.parse_int value } }
      else if is_named (codes "name") local
      then record b { meta = record b.meta { name = value } }
      else if is_named (codes "title") local
      then record b { meta = record b.meta { title = value } }
      else if is_named (codes "areanameparent") local
      then record b { meta = record b.meta { area_name_parent = value } }
      else if is_named (codes "areanamechild") local
      then record b { meta = record b.meta { area_name_child = value } }
      else if is_named (codes "start_time") local
      then record b { meta = record b.meta { start_time = L.parse_time value } }
      else b

  -- The elements with a raw event.
  unfoldable pub damaku_raw : Text → BliveData L → Result Fault (BliveData L)
  unfolding update_user update_medal
  damaku_raw raw b = do
    (user, medal, msg) ← danmu (L.parse_json raw) zero_user zero_medal zero_damaku
    ok (update_medal L medal (update_user L user (record b { damaku = b.damaku ++ msg ∷ [] })))

  unfoldable pub gift_raw : Text → BliveData L → Result Fault (BliveData L)
  unfolding update_user update_medal
  gift_raw raw b = do
    (user, medal, msg) ← gift (L.parse_json raw) zero_user zero_medal zero_gift
    ok (update_medal L medal (update_user L user (record b { gifts = b.gifts ++ msg ∷ [] })))

  unfoldable pub super_chat_raw : Text → BliveData L → Result Fault (BliveData L)
  unfolding update_user update_medal
  super_chat_raw raw b = do
    (user, medal, msg) ← super_chat (L.parse_json raw) zero_user zero_medal zero_super_chat
    ok (
        update_medal L medal
          (update_user L user (record b { super_chats = b.super_chats ++ msg ∷ [] })))

  unfoldable pub guard_raw : Text → BliveData L → Result Fault (BliveData L)
  unfolding update_user
  guard_raw raw b = do
    (user, msg) ← guard (L.parse_json raw) zero_user zero_guard
    ok (update_user L user (record b { guards = b.guards ++ msg ∷ [] }))

  abbrev pub raw_attr :
      (Text → BliveData L → Result Fault (BliveData L))
      → Text × Text
      → BliveData L
      → Result Fault (BliveData L)
  raw_attr on_raw (local, value) b = if is_named (codes "raw") local then on_raw value b else ok b

  -- `for _, attr := range t.Attr`
  abbrev pub each_attr :
      (Text × Text → BliveData L → Result Fault (BliveData L))
      → List (Text × Text)
      → BliveData L
      → Result Fault (BliveData L)
  each_attr on_attr [] b = ok b
  each_attr on_attr (a ∷ attrs) b = do next ← on_attr a b; each_attr on_attr attrs next

  -- `attrParse`
  unfoldable pub attr_parse : Token → BliveData L → Result Fault (BliveData L)
  unfolding version_attr info_attr damaku_raw gift_raw super_chat_raw guard_raw
  attr_parse other_token b = ok b
  attr_parse (start_element name attrs) b =
      if is_named (codes "BililiveRecorder") name
      then each_attr (λ a c. ok (version_attr a c)) attrs b
      else if is_named (codes "BililiveRecorderRecordInfo") name
      then each_attr (λ a c. ok (info_attr a c)) attrs b
      else if is_named (codes "d") name
      then each_attr (raw_attr damaku_raw) attrs b
      else if is_named (codes "gift") name
      then each_attr (raw_attr gift_raw) attrs b
      else if is_named (codes "sc") name
      then each_attr (raw_attr super_chat_raw) attrs b
      else if is_named (codes "guard") name
      then each_attr (raw_attr guard_raw) attrs b
      else ok b

  abbrev pub users_of : List (ℕ × UserInfoMeta) → List UserInfoMeta
  users_of [] = []
  users_of ((_, u) ∷ m) = u ∷ users_of m

  abbrev pub room_medals : List (ℕ × FansMedalMeta) → List FansMedalMeta
  room_medals [] = []
  room_medals ((_, m) ∷ rest) = m ∷ room_medals rest

  abbrev pub medals_of : List (ℕ × List (ℕ × FansMedalMeta)) → List FansMedalMeta
  medals_of [] = []
  medals_of ((_, m) ∷ rest) = room_medals m ++ medals_of rest

  -- "final map listing"
  unfoldable pub final_listing : BliveData L → BliveData L
  final_listing b = record b {
    user = b.user ++ users_of b.map_user;
    fans_medal = b.fans_medal ++ medals_of b.map_medal;
  }

  -- The loop of `washer` over the tokens, where `none` is a token that could not be decoded: it ends
  -- the file with no output.
  unfoldable pub washer : List (Option Token) → BliveData L → Result Fault (Option (BliveData L))
  unfolding attr_parse final_listing
  washer [] b = ok (some (final_listing b))
  washer (none ∷ tokens) b = ok none
  washer (some t ∷ tokens) b = do next ← attr_parse t b; washer tokens next
