-- ===== src/Damaku/Messages/Tests.antt =====
-- The keys and the filling in of messages, at values.
use focot_services.Prelude.{codes, format_uint, ◌≡◌, refl, true, none, some}
use focot_services.Damaku.Messages.{UserInfoMeta, FansMedalMeta, fill_user, medal_key}

abbrev medal_7 : FansMedalMeta
medal_7 = record {
  uid = 7;
  room_uid = 9;
  name = codes "fan";
  level = 3;
  light = true;
  guard_level = 0;
}

abbrev with_face : UserInfoMeta
with_face = record {
  uid = 7;
  user_name = codes "u";
  face = some (codes "f");
  level = none;
  wealth_level = some 2;
}

abbrev renamed : UserInfoMeta
renamed = record with_face { user_name = codes "v"; face = none; wealth_level = some 3 }

-- A new name and level stand, and the face that is left out is taken from the cache.
fill_run :
    fill_user renamed with_face ≡ record with_face { user_name = codes "v"; wealth_level = some 3 }
unfolding fill_user
fill_run = refl

key_run : medal_key medal_7 ≡ codes "7:9"
unfolding medal_key format_uint
key_run = refl
