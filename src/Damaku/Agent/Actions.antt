-- ===== src/Damaku/Agent/Actions.antt =====
-- io-bilive-damaku/agent/agent.go: the actions that `controller` takes from the center. The calls
-- of the chat library are recorded; their results are ignored by the source. What protobuf leaves
-- of a message, decoded or not, is a parameter: an error is logged only.
pub mod Rooms
mod Tests
use focot_services.Prelude.{
  ◌==◌, if◌then◌else◌, contains, keep, ℕ, not, Option, none, some, List, [], ◌∷◌, ◌++◌, ℕ_discrete,
}
use focot_services.Prelude.Results.{Result, ok, err, ◌>>=◌, ◌>>◌}
use focot_services.Damaku.Cache.{Bytes, Fault, nil_dereference}
use focot_services.Damaku.Center.Controller.{Reply, control_success}

pub data ActionType : Type 0 where
  add_room del_room : ActionType
  unknown_action : ℕ → ActionType

pub record AgentAction : Type 0 where
  pub type : ActionType
  pub room_id : Option ℕ

-- `watchingRooms`, the calls of `AddRoom` and `DelRoom`, and the answers.
pub record Watcher : Type 0 where
  pub watching : List ℕ
  pub chat : List (ActionType × ℕ)
  pub replies : List Reply

-- `watchingRooms.Store` and `watchingRooms.Delete`
abbrev pub store : ℕ → List ℕ → List ℕ
store room rooms = if contains ℕ_discrete rooms room then rooms else rooms ++ room ∷ []

abbrev pub remove : ℕ → List ℕ → List ℕ
remove room rooms = keep (λ r. not (r == room)) rooms

pub add_action : ℕ → Watcher → Watcher
add_action room w = record {
  watching = store room w.watching;
  chat = w.chat ++ (add_room, room) ∷ [];
  replies = w.replies ++ control_success ∷ [];
}

pub del_action : ℕ → Watcher → Watcher
del_action room w = record {
  watching = remove room w.watching;
  chat = w.chat ++ (del_room, room) ∷ [];
  replies = w.replies ++ control_success ∷ [];
}

-- One message of `controlChan`. A missing room is answered with an error, and then dereferenced.
pub on_action : AgentAction → Watcher → Result Fault Watcher
unfolding add_action del_action
on_action action w = elim action.type [
  | add_room ↦ elim action.room_id [
    | none ↦ err nil_dereference
    | some room ↦ ok (add_action room w)
  ]
  | del_room ↦ elim action.room_id [
    | none ↦ err nil_dereference
    | some room ↦ ok (del_action room w)
  ]
  | unknown_action _ ↦ ok w
]

pub on_actions : (Bytes → AgentAction) → List Bytes → Watcher → Result Fault Watcher
on_actions decode [] w = ok w
on_actions decode (bytes ∷ messages) w = do
  w' ← on_action (decode bytes) w
  on_actions decode messages w'
