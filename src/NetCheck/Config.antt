-- ===== src/NetCheck/Config.antt =====
-- io-net-check/config.go and `collectHosts` of io-net-check/main.go. `net/url` is a parameter:
-- `parse_url` stands for `url.Parse` with the methods that read the parts of its result.
mod Valid
mod Hosts
mod Tests
use focot_services.Prelude.{
  ltb, ◌==◌, if◌then◌else◌, is_yes, length, contains, Text, codes, text_dec, trim_space, ℕ, not,
  ◌||◌, Option, none, some, List, [], ◌∷◌, ◌++◌,
}
use focot_services.Prelude.Int.{ℤ, is_positive, pos_part, atoi}
use focot_services.Prelude.Results.{Result, ok, err, ◌>>=◌, ◌>>◌, reject_if}

-- `config`; the durations are counts of nanoseconds.
pub record Config : Type 0 where
  pub config_file_name : Text
  pub address : Text
  pub port : ℤ
  pub interval : ℤ
  pub dial_timeout : ℤ
  pub max_concurrency : ℤ
  pub targets : List Text

pub record ProbeTarget : Type 0 where
  pub endpoint : Text
  pub host : Text
  pub port : ℕ

-- What the source reads of a `*url.URL`: `Scheme`, `Hostname()` and `Port()`.
pub record Url : Type 0 where
  pub scheme : Text
  pub hostname : Text
  pub port : Text

pub data ConfigError : Type 0 where
  bad_interval bad_dial_timeout bad_max_concurrency bad_port no_targets empty_endpoint : ConfigError
  bad_url : Text → ConfigError
  unsupported_scheme : Text → Text → ConfigError
  empty_host : Text → ConfigError
  bad_target_port : Text → Text → ConfigError

-- The `switch` on the scheme: `none` is its `default`.
pub default_port_by_scheme : Text → Option ℕ
default_port_by_scheme scheme =
    if is_yes (text_dec scheme (codes "http"))
    then some 80
    else if is_yes (text_dec scheme (codes "https"))
    then some 443
    else none

-- `atoi` with the test of the range: `none` is the error.
pub checked_port : Option ℤ → Option ℕ
checked_port none = none
checked_port (some z) =
    if not (is_positive z) || ltb 65535 (pos_part z) then none else some (pos_part z)

-- The port in the address, or the default where the address has none.
pub target_port : Text → Text → ℕ → Result ConfigError ℕ
unfolding checked_port
target_port endpoint [] default = ok default
target_port endpoint (c ∷ raw) default = elim (checked_port (atoi (c ∷ raw))) [
  | none ↦ err (bad_target_port endpoint (c ∷ raw))
  | some p ↦ ok p
]

pub target_of_url : Text → Option Url → Result ConfigError ProbeTarget
target_of_url endpoint none = err (bad_url endpoint)
target_of_url endpoint (some u) = elim (default_port_by_scheme u.scheme) [
  | none ↦ err (unsupported_scheme endpoint u.scheme)
  | some default ↦ do
    reject_if (length u.hostname == 0) (empty_host endpoint)
    port ← target_port endpoint u.port default
    ok (record { endpoint = endpoint; host = u.hostname; port = port })
]

module _ (parse_url : Text → Option Url) where
  pub parse_probe_target : Text → Result ConfigError ProbeTarget
  unfolding target_of_url
  parse_probe_target endpoint = do
    reject_if (length (trim_space endpoint) == 0) empty_endpoint
    target_of_url endpoint (parse_url endpoint)

  -- The loop over `c.Targets`.
  pub parse_targets : List Text → Result ConfigError (List ProbeTarget)
  parse_targets [] = ok []
  parse_targets (endpoint ∷ rest) = do
    parsed ← parse_probe_target endpoint
    targets ← parse_targets rest
    ok (parsed ∷ targets)

  pub validate : Config → Result ConfigError (List ProbeTarget)
  validate c = do
    reject_if (not (is_positive c.interval)) bad_interval
    reject_if (not (is_positive c.dial_timeout)) bad_dial_timeout
    reject_if (not (is_positive c.max_concurrency)) bad_max_concurrency
    reject_if (not (is_positive c.port) || ltb 65535 (pos_part c.port)) bad_port
    reject_if (length c.targets == 0) no_targets
    parse_targets c.targets

-- The loop of `collectHosts`: `hosts` doubles as the set of the hosts seen.
collect_from : List Text → List ProbeTarget → List Text
collect_from hosts [] = hosts
collect_from hosts (t ∷ rest) =
    collect_from (if contains text_dec hosts t.host then hosts else hosts ++ t.host ∷ []) rest

pub collect_hosts : List ProbeTarget → List Text
unfolding collect_from
collect_hosts targets = collect_from [] targets
