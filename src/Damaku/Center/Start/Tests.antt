-- ===== src/Damaku/Center/Start/Tests.antt =====
-- io-bilive-damaku: runs of the start, and its theorems at examples.
use focot_services.Prelude.{
  Text, codes, text_dec, parse_uint, ◌≡◌, refl, true, false, List, [], ◌∷◌, ℕ_discrete,
}
use focot_services.Prelude.Results.{err, nil_dereference}
use focot_services.Damaku.Center.Start.{
  room_provide, room_revoke, init_agent, sync_agent, agent_status, aggregate_window, recycler,
  any_receives, Center, waits, crash, send_room, Provider, static_config, api_config,
  provide_static, provide, revoke, on_provide, on_revoke, bad, parsed, ProviderConfig,
  init_provider, provider_init, subscribe, provide_all, init, start_manager, start_controller,
  at_rest, main,
}
use focot_services.Damaku.Center.Start.Providers.{init-waits, on_provide-waits}

abbrev prefix : Text
prefix = codes "dmCenter"

-- Two providers that `main` may be configured with.
abbrev both : List ProviderConfig
both =
    record { type = codes "api"; rooms = bad; path = parsed (codes "/room"); is_null = false }
    ∷ record {
      type = codes "room";
      rooms = parsed (codes "x" ∷ codes "6" ∷ []);
      path = bad;
      is_null = false;
    }
    ∷ []

abbrev providers : List Provider
providers = api_config (codes "/room") true ∷ static_config (codes "x" ∷ codes "6" ∷ []) ∷ []

main_waits : main (λ _. true) (true, true, true) prefix true both ≡ err (waits room_provide)
unfolding main provider_init init_provider init provide_all provide revoke provide_static send_room
    any_receives subscribe text_dec ℕ_discrete parse_uint
main_waits = refl

-- The server is not there yet.
main_too_early : main (λ _. true) (true, true, true) prefix false both ≡ err (crash nil_dereference)
unfolding main provider_init init_provider init provide_all provide revoke provide_static send_room
    any_receives subscribe text_dec ℕ_discrete parse_uint
main_too_early = refl

-- With every loop running.
abbrev in_service : Center
in_service = record at_rest {
  running = init_agent ∷ sync_agent ∷ agent_status ∷ aggregate_window ∷ recycler ∷ [];
  started = true;
}

starts_in_service : start_controller (start_manager (start_manager at_rest)) ≡ in_service
unfolding start_manager start_controller
starts_in_service = refl

init-waits_example :
    init (λ _. true) (true, true, true) prefix providers in_service ≡ err (waits room_provide)
unfolding parse_uint
init-waits_example = init-waits (λ _. true) prefix providers in_service refl refl (refl, tt)

on_provide-waits_example :
    (on_provide (codes "6") in_service ≡ err (waits room_provide))
    × (on_revoke (codes "6") in_service ≡ err (waits room_revoke))
unfolding parse_uint
on_provide-waits_example = on_provide-waits (codes "6") in_service
