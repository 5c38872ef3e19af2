-- ===== src/Damaku/Wash/Tests.antt =====
-- A recorded file with one super chat.
use focot_services.Prelude.{
  codes, text_dec, split, join, init_parts, ℕ, ◌≡◌, refl, true, false, Option, none, some, List, [],
  ◌∷◌, ℕ_discrete,
}
use focot_services.Prelude.Int.{pos}
use focot_services.Prelude.Results.{ok, value_or}
use focot_services.Damaku.Messages.{FansMedalMeta}
use focot_services.Damaku.Raw.{Document, stamp, super_chat}
use focot_services.Damaku.Wash.Names.{trim_ext, output_file_name}
use focot_services.Damaku.Wash.Store.{Library, Token, start_element, other_token, BliveData}
use focot_services.Damaku.Wash.Tokens.{super_chat_raw, attr_parse, washer}
use focot_services.Damaku.Wash.Files.{washer-HasKeys}
use focot_services.Damaku.Wash.Metas.{medal_at, HasKeys, level_of, super_chat_raw_level}

-- Every number is 7, and every text "x".
abbrev sevens : Document
sevens = record {
  uint = λ path. 7;
  text = λ path. codes "x";
  bool = λ path. true;
  is_null = λ path. false;
}

abbrev library : Library
library = record { Time = ℕ; parse_int = λ s. pos 1; parse_time = λ s. 0; parse_json = λ s. sevens }

abbrev empty : BliveData library
empty = record {
  meta = record {
    recorder_version = [];
    room_id = pos 0;
    short_room_id = pos 0;
    name = [];
    title = [];
    area_name_parent = [];
    area_name_child = [];
    start_time = 0;
  };
  damaku = [];
  gifts = [];
  guards = [];
  super_chats = [];
  user = [];
  fans_medal = [];
  map_user = [];
  map_medal = [];
}

abbrev chatted : BliveData library
chatted = value_or empty (super_chat_raw library [] empty)

super_chat_raw_level_example : level_of library 7 chatted ≡ level_of library 7 empty
unfolding super_chat_raw super_chat stamp
super_chat_raw_level_example = super_chat_raw_level library [] empty chatted 7 refl

abbrev worn : FansMedalMeta
worn = record { uid = 7; room_uid = 3; name = codes "m"; level = 2; light = true; guard_level = 0 }

empty-HasKeys : HasKeys library empty
unfolding HasKeys medal_at
empty-HasKeys uid room m e = cc

abbrev tokens : List (Option Token)
tokens = some (start_element (codes "sc") ((codes "raw", []) ∷ [])) ∷ some other_token ∷ []

-- The data that the file is read into.
output : BliveData library
output = elim (value_or none (washer library tokens empty)) [ none ↦ empty | some b ↦ b ]

output_read : washer library tokens empty ≡ ok (some output)
unfolding output washer attr_parse super_chat_raw super_chat stamp text_dec
output_read = refl

washer-HasKeys_example : HasKeys library output
washer-HasKeys_example = washer-HasKeys library tokens empty output empty-HasKeys output_read

-- A title with no dash is left out of the output's name, with the extension.
name_run : output_file_name (codes "Blive-1-2-3-4-t.1.xml") ≡ codes "Blive-1-2-3-4"
unfolding output_file_name trim_ext split join init_parts ℕ_discrete
name_run = refl
