-- ===== src/OneAction/Routes/Guarded.antt =====
-- api-one-action: which requests reach a component.
use focot_services.Prelude.{
  ◌==◌, if◌then◌else◌, Bool-cases, Option-cases, is_yes, contains, keys, Text, text_dec, ℕ, ◌≡◌, ap,
  ◌⊎◌, inl, inr, Bool, true, false, ◌&&◌, ◌||◌, Option, some, List, [], ◌∷◌, ◌++◌, arith,
}
use focot_services.OneAction.Routes.{
  ComponentConfig, Component, Group, component_group, Route, register, setup_routes, admits,
  not_found, unauthorized, handled, serve,
}

-- The key of a component that asks for one: its own, or else the root's.
abbrev pub key_of : Text → ComponentConfig → Text
key_of auth_key c = if is_yes (text_dec c.key []) then auth_key else c.key

-- Whether a route with the handler, behind a prefix, matches a path.
abbrev pub has_route : (Text → Text → Bool) → Text → Text → ℕ → List (Text × ℕ) → Bool
has_route matches prefix path handler [] = false
has_route matches prefix path handler ((p, h) ∷ routes) =
    (matches (prefix ++ p) path && h == handler) || has_route matches prefix path handler routes

abbrev pub Among : Route → List Route → Type 0
Among r [] = ⊥
Among r (x ∷ routes) = (r ≡ x) ⊎ Among r routes

-- What the router finds is one of its routes, and matches the path.
abbrev pub IsRouter : (Text → Text → Bool) → (List Route → Text → Option Route) → Type 0
IsRouter matches find =
    (routes : List Route) (path : Text) (r : Route)
    → find routes path ≡ some r
    → Among r routes × (matches r.path path ≡ true)

Among-append : (r : Route) (xs ys : List Route) → Among r (xs ++ ys) → Among r xs ⊎ Among r ys
Among-append r [] ys h = inr h
Among-append r (x ∷ xs) ys (inl e) = inl (inl e)
Among-append r (x ∷ xs) ys (inr h) = elim (Among-append r xs ys h) [
  | inl here ↦ inl (inr here)
  | inr there ↦ inr there
]

component_group-admits :
    (auth_key name : Text) (c : ComponentConfig) (keys : List Text)
    → admits (component_group auth_key name c).guard keys ≡ true
    → (c.auth ≡ false) ⊎ (contains text_dec keys (key_of auth_key c) ≡ true)
unfolding admits component_group
component_group-admits auth_key name c keys h = elim (Bool-cases c.auth) [
  | inl asks ↦ inr (ground arith)
  | inr free ↦ inl free
]

component_group-prefix :
    (auth_key name : Text) (c : ComponentConfig)
    → (component_group auth_key name c).prefix ≡ b'/' ∷ name
unfolding component_group
component_group-prefix auth_key name c = ground arith

module _ (matches : Text → Text → Bool) (auth_key path : Text) (keys : List Text) where
  -- A component that is not skipped has the handler at a route that matches the path, and asks for no
  -- key or for one that the request carries.
  abbrev pub Serves : ℕ → Component → Type 0
  Serves handler c =
      (config : ComponentConfig) × (c.config ≡ some config)
      × (has_route matches (b'/' ∷ c.name) path handler c.routes ≡ true)
      × ((config.auth ≡ false) ⊎ (contains text_dec keys (key_of auth_key config) ≡ true))

  abbrev pub AnyServes : ℕ → List Component → Type 0
  AnyServes handler [] = ⊥
  AnyServes handler (c ∷ components) = Serves handler c ⊎ AnyServes handler components

  register-Among :
      (g : Group) (routes : List (Text × ℕ)) (r : Route)
      → matches r.path path ≡ true
      → Among r (register g routes)
      → (r.guard ≡ g.guard) × (has_route matches g.prefix path r.handler routes ≡ true)
  unfolding register
  register-Among g [] r m h = absurd h
  register-Among g ((p, f) ∷ routes) r m (inl e) = (ap (λ x. x.guard) e, ground arith)
  register-Among g ((p, f) ∷ routes) r m (inr h) =
      let (guarded, listed) = register-Among g routes r m h in (guarded, ground arith)

  setup_routes-Among :
      (components : List Component) (r : Route)
      → matches r.path path ≡ true
      → admits r.guard keys ≡ true
      → Among r (setup_routes auth_key components)
      → AnyServes r.handler components
  unfolding setup_routes
  setup_routes-Among [] r m a h = absurd h
  setup_routes-Among (c ∷ components) r m a h = elim (Option-cases c.config) [
    | inl skipped ↦ inr (setup_routes-Among components r m a (rw (setup_routes, skipped) at h))
    | inr (config, is) ↦
        let g = component_group auth_key c.name config in
        elim (Among-append r (register g c.routes) (setup_routes auth_key components)
          (rw (setup_routes, is) at h)) [
            | inl here ↦
                let (guarded, listed) = register-Among g c.routes r m here in
                inl (
                  config,
                  is,
                  rw (← (component_group-prefix auth_key c.name config)) listed,
                  component_group-admits auth_key c.name config keys (rw guarded at a),
                )
            | inr there ↦ inr (setup_routes-Among components r m a there)
          ]
  ]

  -- Where the router finds only routes of its own that match the path, a request that reaches a
  -- handler has its path matched by a route of a component with this handler, and carries the
  -- component's key, or the root's where the component asks for a key and has none of its own, unless
  -- the component asks for no key.
  pub serve-guarded :
      (find : List Route → Text → Option Route)
      → IsRouter matches find
      → (components : List Component) (handler : ℕ)
      → serve find (setup_routes auth_key components) path keys ≡ handled handler
      → AnyServes handler components
  unfolding serve
  serve-guarded find law components handler h =
      elim (Option-cases (find (setup_routes auth_key components) path)) [
        | inl e ↦ absurd (let no : not_found ≡ handled handler = rw (serve, e) at h in cc)
        | inr (r, e) ↦ elim (Bool-cases (admits r.guard keys)) [
          | inl a ↦
              let is : handled r.handler ≡ handled handler = rw (serve, e, a) at h in
              let same : r.handler ≡ handler = cc in
              let (among, m) = law (setup_routes auth_key components) path r e in
              rw (← same) (setup_routes-Among components r m a among)
          | inr a ↦ absurd (let no : unauthorized ≡ handled handler = rw (serve, e, a) at h in cc)
        ]
      ]
