-- ===== src/Damaku/Agent/Start/Tests.antt =====
-- io-bilive-damaku: an agent that starts, at examples.
use focot_services.Prelude.{
  ◌==◌, Text, codes, ℕ, ◌≡◌, refl, Bool, true, false, Option, none, some, List, [], ◌∷◌, arith,
}
use focot_services.Prelude.Int.{pos}
use focot_services.Damaku.Cache.{Bytes}
use focot_services.Damaku.Agent.Start.{
  Global, AgentInit, init_msg, to_int64, ChatClient, set_headers, set_up, Boot, success, failure,
  BootEvent, ticked, received, on_init, boot_step, init_loop,
}
use focot_services.Damaku.Agent.Start.Handshake.{IsSettled, init_loop-IsSettled, init_visit-set_up}
use focot_services.Prelude.Results.{ok}
use focot_services.Damaku.Center.Agents.{AgentStatus}
use focot_services.Damaku.Center.Manager.{ControlResponse, Link, init_visit, new_agent}

abbrev global : Global
global = record {
  prefix = codes "dm";
  buvid = codes "B";
  uid = 7;
  cookie = codes "C";
  ua = some (codes "agent");
  headers = (codes "X", codes "1") ∷ [];
}

abbrev decode : Bytes → Option AgentInit
decode [] = none
decode (uid ∷ bytes) = some (record {
  buvid = codes "B";
  uid = uid;
  cookie = codes "C";
  ua = none;
  header = [];
  priority_mode = none;
})

abbrev client : ChatClient
client = record {
  cookie = [];
  buvid = [];
  uid = pos 0;
  ua = none;
  priority_mode = none;
  header = [];
}

abbrev booting : Boot
booting = record {
  client = client;
  registrations = 0;
  subscribed = false;
  replies = [];
  ready = false;
}

-- Two registrations, a message that cannot be read, one at which the subscription fails, and one at
-- which it works: what comes then is not taken.
abbrev events : List BootEvent
events =
    ticked
    ∷ received [] none
    ∷ ticked
    ∷ received (7 ∷ []) (some (codes "closed"))
    ∷ received (7 ∷ []) none
    ∷ ticked
    ∷ []

boots : init_loop decode events booting ≡ record {
  client = record client { cookie = codes "C"; buvid = codes "B"; uid = pos 7 };
  registrations = 2;
  subscribed = true;
  replies = failure (codes "closed") ∷ success ∷ [];
  ready = true;
}
unfolding init_loop boot_step on_init set_up to_int64 set_headers
boots = refl

init_loop-IsSettled_example :
    IsSettled (init_loop decode events booting) × ((init_loop decode events booting).ready ≡ true)
init_loop-IsSettled_example = init_loop-IsSettled decode events booting refl (refl, refl, refl)

abbrev bit : Bool → ℕ
bit true = 1
bit false = 0

abbrev error_bytes : Option Text → Bytes
error_bytes none = []
error_bytes (some e) = 1 ∷ e

abbrev encode_reply : ControlResponse → Bytes
encode_reply r = bit r.is_ok ∷ error_bytes r.error

abbrev error_text : Bytes → Option Text
error_text [] = none
error_text (_ ∷ e) = some e

abbrev decode_reply : Bytes → Option ControlResponse
decode_reply [] = none
decode_reply (b ∷ e) = some (record { is_ok = b == 1; error = error_text e })

reply_read :
    (b : Bool) (e : Option Text)
    → decode_reply (encode_reply (record { is_ok = b; error = e }))
      ≡ some (record { is_ok = b; error = e })
reply_read true none = refl
reply_read true (some e) = refl
reply_read false none = refl
reply_read false (some e) = refl

abbrev link : Link
link = record {
  prefix = codes "dm";
  request = λ _ _. some (encode_reply success);
  decode = decode_reply;
}

abbrev registered : AgentStatus
registered = new_agent (codes "a") 0 5

abbrev initialized : AgentStatus
initialized = record registered { condition = 1; update_time = 9 }

-- The user agent and the headers of the configuration are lost.
init_visit-set_up_example :
    let b' = boot_step decode (received (7 ∷ []) none) booting in
    (init_visit link (some (7 ∷ [])) 8 9 registered ≡ ok initialized)
    × (b'.ready ≡ true)
    × (b'.client ≡ record client { cookie = codes "C"; buvid = codes "B"; uid = pos 7 })
unfolding boot_step on_init init_msg set_up to_int64 set_headers
init_visit-set_up_example =
    init_visit-set_up decode link global registered booting 8 9 none (7 ∷ []) encode_reply refl
      (omega arith) refl refl (λ r. reply_read r.is_ok r.error) refl
