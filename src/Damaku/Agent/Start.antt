-- ===== src/Damaku/Agent/Start.antt =====
-- io-bilive-damaku/agent/agent.go: `Init`, which registers the agent at the center and waits for its
-- settings, and the message by which io-bilive-damaku/agent.go sends them (with Global of config.go).
-- Protobuf and the message queue are parameters, and the calls that set up the chat library are
-- recorded as what it holds then.
mod Handshake
mod Tests
use focot_services.Prelude.{
  ltb, if◌then◌else◌, insert, Text, text_dec, ℕ, ◌+◌, ◌-◌, ◌^◌, Bool, true, false, Option, none,
  some, List, [], ◌∷◌, ◌++◌,
}
use focot_services.Prelude.Int.{ℤ, pos, negsuc}
use focot_services.Damaku.Cache.{Bytes}
use focot_services.Damaku.Center.Manager.{ControlResponse}

-- `Global` of the center's configuration.
pub record Global : Type 0 where
  pub prefix : Text
  pub buvid : Text
  pub uid : ℕ
  pub cookie : Text
  pub ua : Option Text
  pub headers : List (Text × Text)

-- The message `AgentInit`.
pub record AgentInit : Type 0 where
  pub buvid : Text
  pub uid : ℕ
  pub cookie : Text
  pub ua : Option Text
  pub header : List (Text × Text)
  pub priority_mode : Option ℕ

-- The message as `initAgent` fills it.
pub init_msg : Global → AgentInit
init_msg g = record {
  buvid = g.buvid;
  uid = g.uid;
  cookie = g.cookie;
  ua = none;
  header = [];
  priority_mode = none;
}

-- `int64(u)` of a uint64.
pub to_int64 : ℕ → ℤ
to_int64 u = if ltb u (2 ^ 63) then pos u else negsuc (2 ^ 64 - 1 - u)

-- What the chat library was set to: `none` where it keeps its own.
pub record ChatClient : Type 0 where
  pub cookie : Text
  pub buvid : Text
  pub uid : ℤ
  pub ua : Option Text
  pub priority_mode : Option ℕ
  pub header : List (Text × Text)

abbrev or_held {ℓ} : {A : Type ℓ} → Option A → Option A → Option A
or_held none held = held
or_held (some a) held = some a

-- `biliChatClient.Header.Set(k, v)` for each header.
pub set_headers : List (Text × Text) → List (Text × Text) → List (Text × Text)
set_headers [] held = held
set_headers ((k, v) ∷ rest) held = set_headers rest (insert text_dec k v held)

-- "setup bili client"
pub set_up : AgentInit → ChatClient → ChatClient
unfolding to_int64 set_headers
set_up m c = record {
  cookie = m.cookie;
  buvid = m.buvid;
  uid = to_int64 m.uid;
  ua = or_held m.ua c.ua;
  priority_mode = or_held m.priority_mode c.priority_mode;
  header = set_headers m.header c.header;
}

-- The agent while it starts: the library, how often it has registered, whether it is subscribed to
-- its actions, its answers, and whether it has left the loop.
pub record Boot : Type 0 where
  pub client : ChatClient
  pub registrations : ℕ
  pub subscribed : Bool
  pub replies : List ControlResponse
  pub ready : Bool

-- `ControlSuccess` and `ControlError`
abbrev pub success : ControlResponse
success = record { is_ok = true; error = none }

abbrev pub failure : Text → ControlResponse
failure reason = record { is_ok = false; error = some reason }

-- A tick, or a message with whether the queue takes the subscription to the actions: the error where
-- it does not.
pub data BootEvent : Type 0 where
  ticked : BootEvent
  received : Bytes → Option Text → BootEvent

-- A message that was decoded.
pub on_init : AgentInit → Option Text → Boot → Boot
unfolding set_up
on_init m error b = elim error [
  | none ↦ record b {
    client = set_up m b.client;
    subscribed = true;
    replies = b.replies ++ success ∷ [];
    ready = true;
  }
  | some e ↦ record b { client = set_up m b.client; replies = b.replies ++ failure e ∷ [] }
]

module _ (decode : Bytes → Option AgentInit) where
  -- One round of the loop.
  pub boot_step : BootEvent → Boot → Boot
  unfolding on_init
  boot_step ticked b = record b { registrations = b.registrations + 1 }
  boot_step (received bytes error) b = elim (decode bytes) [ none ↦ b | some m ↦ on_init m error b ]

  -- `initLoop`: it is left when the agent is ready.
  pub init_loop : List BootEvent → Boot → Boot
  unfolding boot_step
  init_loop [] b = b
  init_loop (e ∷ events) b =
      let rest = init_loop events (boot_step e b) in if b.ready then b else rest
