-- ===== src/Damaku/Center/Start/Providers.antt =====
-- io-bilive-damaku: what becomes of the rooms that the providers have, since no loop receives them.
use focot_services.Prelude.{
  if◌then◌else◌, Bool-cases, Text, codes, parse_uint, ℕ, ◌≡◌, refl, sym, ap, ◌∙◌, inl, inr, Bool,
  true, false, ◌||◌, none, some, List, [], ◌∷◌, ◌++◌, append_assoc, append-nil,
}
use focot_services.Prelude.Results.{Result, ok, err, ◌>>=◌}
use focot_services.Damaku.Center.Start.{
  room_provide, room_revoke, Loop, init_agent, sync_agent, agent_status, aggregate_window, recycler,
  receives, any_receives, ProvidedRoom, Method, http_get, http_delete, Center, Stop, waits,
  send_room, send_revoke, Provider, static_config, api_config, provide_static, room_route, provide,
  revoke, on_provide, on_revoke, subscribe, provide_all, init,
}

-- Whether a room of a static provider is a number, and whether a provider has such a room.
abbrev pub is_room : Text → Bool
is_room room = elim (parse_uint 64 room) [ none ↦ false | some _ ↦ true ]

abbrev pub any_parses : List Text → Bool
any_parses [] = false
any_parses (room ∷ rooms) = is_room room || any_parses rooms

abbrev pub any_room : List Provider → Bool
any_room [] = false
any_room (static_config rooms ∷ providers) = any_parses rooms || any_room providers
any_room (api_config path held ∷ providers) = any_room providers

-- Every provider of routes holds the server.
abbrev pub HasServer : List Provider → Type 0
HasServer [] = Unit
HasServer (static_config rooms ∷ providers) = HasServer providers
HasServer (api_config path held ∷ providers) = (held ≡ true) × HasServer providers

abbrev pub routes_of : List Provider → List (Method × Text)
routes_of [] = []
routes_of (static_config rooms ∷ providers) = routes_of providers
routes_of (api_config path held ∷ providers) =
    (http_get, room_route path) ∷ (http_delete, room_route path) ∷ routes_of providers

-- None of the loops receives rooms.
provide_unheard : (loops : List Loop) → any_receives room_provide loops ≡ false
unfolding any_receives receives
provide_unheard [] = refl
provide_unheard (init_agent ∷ loops) = provide_unheard loops
provide_unheard (sync_agent ∷ loops) = provide_unheard loops
provide_unheard (agent_status ∷ loops) = provide_unheard loops
provide_unheard (aggregate_window ∷ loops) = provide_unheard loops
provide_unheard (recycler ∷ loops) = provide_unheard loops

revoke_unheard : (loops : List Loop) → any_receives room_revoke loops ≡ false
unfolding any_receives receives
revoke_unheard [] = refl
revoke_unheard (init_agent ∷ loops) = revoke_unheard loops
revoke_unheard (sync_agent ∷ loops) = revoke_unheard loops
revoke_unheard (agent_status ∷ loops) = revoke_unheard loops
revoke_unheard (aggregate_window ∷ loops) = revoke_unheard loops
revoke_unheard (recycler ∷ loops) = revoke_unheard loops

send_room-waits : (room : ProvidedRoom) (c : Center) → send_room room c ≡ err (waits room_provide)
unfolding send_room
send_room-waits room c = rw (provide_unheard c.running)

send_revoke-waits : (room : ℕ) (c : Center) → send_revoke room c ≡ err (waits room_revoke)
unfolding send_revoke
send_revoke-waits room c = rw (revoke_unheard c.running)

provide_static-waits :
    (rooms : List Text) (c : Center)
    → provide_static rooms c ≡ (if any_parses rooms then err (waits room_provide) else ok c)
unfolding provide_static
provide_static-waits [] c = refl
provide_static-waits (room ∷ rooms) c =
    elim (parse_uint 64 room)
      as (λ p.
        ◌≡◌ {A = Result Stop Center}
          (elim p [
            | none ↦ provide_static rooms c
            | some id ↦
                send_room (record { provider_name = codes "static"; room_id = id }) c
                >>= provide_static rooms
          ])
          (if elim p [ none ↦ false | some _ ↦ true ] || any_parses rooms
            then err (waits room_provide)
            else ok c)) [
              | none ↦ provide_static-waits rooms c
              | some id ↦
                  rw (send_room-waits (record { provider_name = codes "static"; room_id = id }) c)
            ]

-- Both routes of an api provider.
abbrev with_routes : Text → Center → Center
with_routes path c = record c {
  routes = (c.routes ++ (http_get, room_route path) ∷ []) ++ (http_delete, room_route path) ∷ [];
}

provide_all-waits :
    (providers : List Provider) (c : Center)
    → HasServer providers
    → provide_all providers c ≡ (
        if any_room providers
        then err (waits room_provide)
        else ok (record c { routes = c.routes ++ routes_of providers }))
unfolding provide_all provide revoke
provide_all-waits [] c h = ap (λ r. ok (record c { routes = r })) (sym (append-nil c.routes))
provide_all-waits (static_config rooms ∷ providers) c h = elim (Bool-cases (any_parses rooms)) [
  | inl some_room ↦ rw (provide_static-waits rooms c, some_room)
  | inr no_room ↦ rw (provide_static-waits rooms c, no_room) (provide_all-waits providers c h)
]
provide_all-waits (api_config path held ∷ providers) c h =
    let both : (with_routes path c).routes ++ routes_of providers
        ≡ c.routes ++ routes_of (api_config path held ∷ providers) =
      simp append_assoc in
    rw (h.0) (
      provide_all-waits providers (with_routes path c) h.1
      ∙ ap
          (λ r.
            if any_room providers then err (waits room_provide) else ok (record c { routes = r }))
          both)

-- `Init` of the controller, where the caches can be made, the queue takes both subjects and the
-- providers hold the server, sets up the routes of the providers and the two subscriptions; but
-- where a static provider has a room that is a number it waits for ever, whichever loops run.
pub init-waits :
    (accepts : Text → Bool) (prefix : Text) (providers : List Provider) (c : Center)
    → accepts (prefix ++ codes ".agent.*") ≡ true
    → accepts (prefix ++ codes ".stream.*") ≡ true
    → HasServer providers
    → init accepts (true, true, true) prefix providers c ≡ (
        if any_room providers
        then err (waits room_provide)
        else ok (record c {
          subscriptions =
              (c.subscriptions ++ (prefix ++ codes ".agent.*") ∷ [])
              ++ (prefix ++ codes ".stream.*") ∷ [];
          routes = c.routes ++ routes_of providers;
        }))
unfolding init subscribe
init-waits accepts prefix providers c agents streams held =
    let managed = record c {
      subscriptions = c.subscriptions ++ (prefix ++ codes ".agent.*") ∷ [];
    } in
    elim (Bool-cases (any_room providers)) [
      | inl any ↦ rw agents (rw (provide_all-waits providers managed held, any))
      | inr none_there ↦
          rw agents (rw (provide_all-waits providers managed held, none_there, streams))
    ]

-- The routes of an api provider answer a room that is no number with 400, and never answer one that
-- is a number, whichever loops run.
pub on_provide-waits :
    (room : Text) (c : Center)
    → (on_provide room c ≡ (if is_room room then err (waits room_provide) else ok (400, c)))
      × (on_revoke room c ≡ (if is_room room then err (waits room_revoke) else ok (400, c)))
unfolding on_provide on_revoke
on_provide-waits room c =
    elim (parse_uint 64 room)
      as (λ p.
        ◌≡◌ {A = Result Stop (ℕ × Center)}
          (elim p [
            | none ↦ ok (400, c)
            | some id ↦
                (send_room (record { provider_name = codes "api"; room_id = id }) c >>= λ d.
                ok (200, d))
          ])
          (if elim p [ none ↦ false | some _ ↦ true ]
            then err (waits room_provide)
            else ok (400, c))
        × ◌≡◌ {A = Result Stop (ℕ × Center)}
            (elim p [ none ↦ ok (400, c) | some id ↦ (send_revoke id c >>= λ d. ok (200, d)) ])
            (if elim p [ none ↦ false | some _ ↦ true ]
              then err (waits room_revoke)
              else ok (400, c))) [
                | none ↦ (refl, refl)
                | some id ↦ (
                  rw (send_room-waits (record { provider_name = codes "api"; room_id = id }) c),
                  rw (send_revoke-waits id c),
                )
              ]
