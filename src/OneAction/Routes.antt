-- ===== src/OneAction/Routes.antt =====
-- api-one-action: the routes of the components (api.go, api/api.go, and the routes of the door
-- service in zdy-doors/main.go). The router of echo is a parameter. Which keys a request carries is for
-- its middleware to say: it tries them in turn, and the validator of `useAuth` accepts the key.
mod Guarded
mod Tests
use focot_services.Prelude.{
  if◌then◌else◌, is_yes, contains, keys, Text, codes, text_dec, ℕ, Bool, true, not, Option, none,
  some, List, [], ◌∷◌, ◌++◌,
}

-- `ComponentConfig`
pub record ComponentConfig : Type 0 where
  pub auth : Bool
  pub key : Text

-- A component: its name, its configuration, and the routes that `Register` adds. Each route is held
-- with a number for its handler.
pub record Component : Type 0 where
  pub name : Text
  pub config : Option ComponentConfig
  pub routes : List (Text × ℕ)

-- A group of routes: its prefix, and the key that its middleware asks for, if any.
pub record Group : Type 0 where
  pub prefix : Text
  pub guard : Option Text

-- The group of a component in `setupRoutes`: with its own key, under the root's, or with none.
pub component_group : Text → Text → ComponentConfig → Group
component_group auth_key name c =
    if c.auth
    then (if not (is_yes (text_dec c.key []))
        then record { prefix = b'/' ∷ name; guard = some c.key }
        else record { prefix = b'/' ∷ name; guard = some auth_key })
    else record { prefix = b'/' ∷ name; guard = none }

-- A route as the server holds it.
pub record Route : Type 0 where
  pub path : Text
  pub guard : Option Text
  pub handler : ℕ

pub register : Group → List (Text × ℕ) → List Route
register g [] = []
register g ((path, handler) ∷ routes) =
    record { path = g.prefix ++ path; guard = g.guard; handler = handler } ∷ register g routes

-- `setupRoutes`
pub setup_routes : Text → List Component → List Route
unfolding component_group register
setup_routes auth_key [] = []
setup_routes auth_key (c ∷ components) =
    let rest = setup_routes auth_key components in
    elim c.config [
      | none ↦ rest
      | some config ↦ register (component_group auth_key c.name config) c.routes ++ rest
    ]

-- `useAuth` at a request that carries some keys.
pub admits : Option Text → List Text → Bool
admits none keys = true
admits (some key) keys = contains text_dec keys key

-- The server at a request: its router finds the route, whose handler runs if the keys are accepted.
pub data Served : Type 0 where
  not_found unauthorized : Served
  handled : ℕ → Served

pub serve : (List Route → Text → Option Route) → List Route → Text → List Text → Served
unfolding admits
serve find routes path keys = elim (find routes path) [
  | none ↦ not_found
  | some r ↦ if admits r.guard keys then handled r.handler else unauthorized
]

-- `Name`, `Config` and `Register` of the door service; 0 is listDoorDevs and 1 openDoor.
pub zdy_service : Text → Component
zdy_service key = record {
  name = codes "zdy";
  config = some (record { auth = true; key = key });
  routes = (codes "/doors", 0) ∷ (codes "/open", 1) ∷ [];
}
