-- ===== src/OneAction/Routes/Tests.antt =====
-- The door service, with a key of its own and without.
use focot_services.Prelude.{
  if◌then◌else◌, Bool-cases, is_yes, keys, Text, codes, text_dec, ◌≡◌, refl, inl, inr, Bool, Option,
  none, some, List, [], ◌∷◌, ℕ_discrete,
}
use focot_services.OneAction.Routes.{
  Component, component_group, Route, register, setup_routes, admits, Served, not_found,
  unauthorized, handled, serve, zdy_service,
}
use focot_services.OneAction.Routes.Guarded.{IsRouter, AnyServes, serve-guarded}

abbrev components : Text → List Component
components key =
    record { name = codes "off"; config = none; routes = (codes "/doors", 7) ∷ [] }
    ∷ zdy_service key
    ∷ []

-- A router for paths without parameters: the first route at the path.
abbrev same_path : Text → Text → Bool
same_path p path = is_yes (text_dec p path)

abbrev first_at : List Route → Text → Option Route
first_at [] path = none
first_at (r ∷ routes) path = if same_path r.path path then some r else first_at routes path

first_at-IsRouter : IsRouter same_path first_at
first_at-IsRouter [] path r h = absurd (cc)
first_at-IsRouter (x ∷ routes) path r h = elim (Bool-cases (same_path x.path path)) [
  | inl here ↦
      let is : some x ≡ some r = rw here at h in
      let same : x ≡ r = cc in rw (← same) (inl refl, here)
  | inr there ↦ let (among, m) = first_at-IsRouter routes path r (rw there at h) in (inr among, m)
]

abbrev asked : Text → Text → List Text → Served
asked key path keys = serve first_at (setup_routes (codes "root") (components key)) path keys

served :
    (asked [] (codes "/zdy/open") (codes "root" ∷ []) ≡ handled 1)
    × (asked (codes "k") (codes "/zdy/open") (codes "root" ∷ []) ≡ unauthorized)
    × (asked [] (codes "/off/doors") (codes "root" ∷ []) ≡ not_found)
unfolding serve setup_routes component_group register admits zdy_service text_dec ℕ_discrete
served = (refl, refl, refl)

serve-guarded_example :
    AnyServes same_path
      (codes "root")
      (codes "/zdy/doors")
      (codes "k" ∷ [])
      0
      (components (codes "k"))
serve-guarded_example =
    serve-guarded same_path (codes "root") (codes "/zdy/doors") (codes "k" ∷ []) first_at
      first_at-IsRouter (components (codes "k")) 0
      (unfold serve setup_routes component_group register admits zdy_service text_dec ℕ_discrete in
        refl)
