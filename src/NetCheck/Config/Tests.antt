-- ===== src/NetCheck/Config/Tests.antt =====
-- Configurations run through `validate`, and the theorems at them.
use focot_services.Prelude.{
  if◌then◌else◌, is_yes, Text, codes, text_dec, is_space, trim_space, parse_uint, ◌≡◌, refl, ◌≢◌,
  ◌↔◌, Option, none, some, [], ◌∷◌, ℕ_discrete,
}
use focot_services.Prelude.Int.{pos, negsuc, atoi}
use focot_services.Prelude.Results.{ok, err}
use focot_services.NetCheck.Config.{
  Config, ProbeTarget, Url, bad_interval, bad_port, no_targets, empty_endpoint, unsupported_scheme,
  default_port_by_scheme, checked_port, target_port, target_of_url, parse_probe_target,
  parse_targets, validate, collect_hosts,
}
use focot_services.NetCheck.Config.Valid.{IsInRange, AllMean, validate_iff}

abbrev program : Unit {0}
unfolding validate parse_targets parse_probe_target target_of_url target_port checked_port
    default_port_by_scheme atoi parse_uint trim_space text_dec ℕ_discrete is_space collect_hosts
program = tt

-- Two addresses as `net/url` takes them apart.
abbrev parse_two : Text → Option Url
parse_two endpoint =
    if is_yes (text_dec endpoint (codes "http://a:8080"))
    then some (record { scheme = codes "http"; hostname = codes "a"; port = codes "8080" })
    else if is_yes (text_dec endpoint (codes "https://b"))
    then some (record { scheme = codes "https"; hostname = codes "b"; port = [] })
    else if is_yes (text_dec endpoint (codes "ftp://c"))
    then some (record { scheme = codes "ftp"; hostname = codes "c"; port = [] })
    else none

abbrev two_targets : Config
two_targets = record {
  config_file_name = codes "config.yaml";
  address = [];
  port = pos 8080;
  interval = pos 60000000000;
  dial_timeout = pos 3000000000;
  max_concurrency = pos 16;
  targets = codes "http://a:8080" ∷ codes "https://b" ∷ [];
}

abbrev target_a : ProbeTarget
target_a = record { endpoint = codes "http://a:8080"; host = codes "a"; port = 8080 }

abbrev target_b : ProbeTarget
target_b = record { endpoint = codes "https://b"; host = codes "b"; port = 443 }

accepted : validate parse_two two_targets ≡ ok (target_a ∷ target_b ∷ [])
unfolding program
accepted = refl

refused :
    (validate parse_two (record two_targets { interval = negsuc 0 }) ≡ err bad_interval)
    × (validate parse_two (record two_targets { port = pos 65536 }) ≡ err bad_port)
    × (validate parse_two (record two_targets { targets = [] }) ≡ err no_targets)
    × (validate parse_two (record two_targets { targets = codes " " ∷ [] }) ≡ err empty_endpoint)
    × (validate parse_two (record two_targets { targets = codes "ftp://c" ∷ [] })
        ≡ err (unsupported_scheme (codes "ftp://c") (codes "ftp")))
unfolding program
refused = (refl, refl, refl, refl, refl)

validate_iff_example : (validate parse_two two_targets ≡ ok (target_a ∷ target_b ∷ [])) ↔ (
    IsInRange two_targets
    × (two_targets.targets ≢ [])
    × AllMean parse_two two_targets.targets (target_a ∷ target_b ∷ []))
validate_iff_example = validate_iff parse_two two_targets (target_a ∷ target_b ∷ [])

hosts_once : collect_hosts (target_a ∷ target_b ∷ target_a ∷ []) ≡ codes "a" ∷ codes "b" ∷ []
unfolding program
hosts_once = refl
