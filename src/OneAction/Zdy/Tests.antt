-- ===== src/OneAction/Zdy/Tests.antt =====
-- A service that checks tokens, and one that declares each of them expired.
use focot_services.Prelude.{
  if◌then◌else◌, is_yes, lookup, Text, codes, text_dec, ℕ, ◌≡◌, refl, Bool, false, Option, none,
  some, List, [], ◌∷◌, ◌++◌,
}
use focot_services.Prelude.Int.{pos}
use focot_services.OneAction.Zdy.{
  LoginResult, default_option, Reply, replied, unfinished, Service, srv_url, url_login, State,
  after_reply, inject_and_send, request_body, on_login, refresh_token, do_request,
}
use focot_services.OneAction.Zdy.Endless.{IsStale, do_request_endless}

abbrev coded : ℕ → Reply
coded n = replied (record { code = pos n; msg = []; result = [] })

abbrev is_login : Text → Bool
is_login url = is_yes (text_dec url (srv_url ++ url_login))

abbrev account : LoginResult
account = record { token = codes "t"; community_id = pos 1; user_id = pos 2 }

abbrev has_token : Option (List (Text × Text)) → Bool
has_token none = false
has_token (some form) = elim (lookup text_dec (codes "Accesstoken") form) [
  | none ↦ false
  | some token ↦ is_yes (text_dec token (codes "t"))
]

-- It accepts the token that its login gives, and declares every other expired.
abbrev checking : Service
checking = record {
  World = Unit {0};
  send = λ method url form w.
      (coded (if is_login url then 0 else if has_token form then 0 else 2), tt);
  read_login = λ bytes. some (some account);
  phone = codes "1";
  password = codes "p";
}

abbrev stale : Service
stale = record {
  World = Unit {0};
  send = λ method url form w. (coded (if is_login url then 0 else 2), tt);
  read_login = λ bytes. some (some account);
  phone = codes "1";
  password = codes "p";
}

abbrev doors : Text
doors = srv_url ++ codes "/AppAPI/GetDoorDevs"

abbrev form : List (Text × Text)
form = (codes "Community", codes "1") ∷ []

abbrev left : State checking → ℕ
left s = if is_yes (text_dec s.token (codes "t")) then 0 else 1

stale-IsStale : IsStale stale (codes "POST") doors
unfolding refresh_token request_body inject_and_send after_reply on_login text_dec
stale-IsStale = record {
  expires = λ form w. refl;
  logs_in = λ s. (codes "t", refl);
  has_token = λ s. refl;
}

do_request_endless_example :
    (do_request stale 5
      (codes "POST")
      doors
      default_option
      (some form)
      (record { token = codes "t"; community_id = pos 0; world = tt })).0
    ≡ unfinished
do_request_endless_example =
    do_request_endless stale (codes "POST") doors stale-IsStale 5 default_option (some form)
      (record { token = codes "t"; community_id = pos 0; world = tt }) refl refl
