-- ===== src/Damaku/Agent/Actions/Tests.antt =====
-- An agent that watches the rooms 1 and 2, and is synced to 2 and 3.
use focot_services.Prelude.{ℕ, zero, suc, ◌≡◌, refl, none, some, [], ◌∷◌, ℕ_discrete}
use focot_services.Prelude.Results.{ok, err, nil_dereference}
use focot_services.Damaku.Cache.{Bytes}
use focot_services.Damaku.Center.Controller.{control_success}
use focot_services.Damaku.Agent.Actions.{
  add_room, del_room, AgentAction, Watcher, add_action, del_action, on_action, on_actions,
}

abbrev add_bytes : ℕ → Bytes
add_bytes room = 0 ∷ room ∷ []

abbrev del_bytes : ℕ → Bytes
del_bytes room = 1 ∷ room ∷ []

abbrev read : Bytes → AgentAction
read (zero ∷ room ∷ []) = record { type = add_room; room_id = some room }
read (suc _ ∷ room ∷ []) = record { type = del_room; room_id = some room }
read bytes = record { type = add_room; room_id = none }

abbrev watcher : Watcher
watcher = record { watching = 1 ∷ 2 ∷ []; chat = []; replies = [] }

synced :
    on_actions read (add_bytes 3 ∷ del_bytes 1 ∷ []) watcher
    ≡ ok (record {
      watching = 2 ∷ 3 ∷ [];
      chat = (add_room, 3) ∷ (del_room, 1) ∷ [];
      replies = control_success ∷ control_success ∷ [];
    })
unfolding on_actions on_action add_action del_action ℕ_discrete
synced = refl

-- An action without a room ends the process.
no_room : on_actions read ([] ∷ []) watcher ≡ err nil_dereference
unfolding on_actions on_action
no_room = refl
