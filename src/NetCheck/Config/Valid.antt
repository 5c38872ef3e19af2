-- ===== src/NetCheck/Config/Valid.antt =====
-- What a configuration that `validate` accepts is like, and what it is refused for.
use focot_services.Prelude.{
  Text, codes, trim_space, ℕ, ◌≤◌, ◌<◌, ◌≡◌, refl, ◌≢◌, ◌↔◌, ◌⊎◌, inl, inr, true, Option, none,
  some, List, [], ◌∷◌, arith,
}
use focot_services.Prelude.Int.{ℤ, pos, negsuc, is_positive, pos_part, atoi}
use focot_services.Prelude.Results.{ok, ok-Passed}
use focot_services.NetCheck.Config.{
  Config, ProbeTarget, Url, default_port_by_scheme, checked_port, target_port, target_of_url,
  parse_probe_target, parse_targets, validate,
}

-- The settings that the service can run with.
pub record IsInRange (c : Config) : Type 0 where
  pub interval : is_positive c.interval ≡ true
  pub dial_timeout : is_positive c.dial_timeout ≡ true
  pub max_concurrency : is_positive c.max_concurrency ≡ true
  pub port_low : is_positive c.port ≡ true
  pub port_high : pos_part c.port ≤ 65535

-- The schemes that the service dials, with their ports.
abbrev HasDefaultPort : Text → ℕ → Type 0
HasDefaultPort scheme p =
    ((scheme ≡ codes "http") × (p ≡ 80)) ⊎ ((scheme ≡ codes "https") × (p ≡ 443))

-- The port that is written in the address, or else the default.
abbrev HasPort : Text → ℕ → ℕ → Type 0
HasPort raw default p =
    ((raw ≡ []) × (p ≡ default)) ⊎ ((raw ≢ []) × (atoi raw ≡ some (pos p)) × (0 < p) × (p ≤ 65535))

-- What an endpoint means, told apart from the code: the target has the host of the address, which
-- is not empty, and the port of the address, or that of its scheme where the address has none.
pub record Means (parse_url : Text → Option Url) (endpoint : Text) (t : ProbeTarget) : Type 0 where
  pub url : Url
  pub not_blank : trim_space endpoint ≢ []
  pub parsed : parse_url endpoint ≡ some url
  pub same_endpoint : t.endpoint ≡ endpoint
  pub same_host : t.host ≡ url.hostname
  pub named : t.host ≢ []
  pub default : ℕ
  pub served : HasDefaultPort url.scheme default
  pub port : HasPort url.port default t.port

-- The accepted endpoints, in the order of the configuration.
pub data AllMean (parse_url : Text → Option Url) : List Text → List ProbeTarget → Type 0 where
  done : AllMean parse_url [] []
  more :
      {e : Text} {t : ProbeTarget} {es : List Text} {ts : List ProbeTarget}
      → Means parse_url e t
      → AllMean parse_url es ts
      → AllMean parse_url (e ∷ es) (t ∷ ts)

default_port-HasDefaultPort :
    (scheme : Text) {p : ℕ} → default_port_by_scheme scheme ≡ some p → HasDefaultPort scheme p
unfolding default_port_by_scheme
default_port-HasDefaultPort scheme h = ground arith

HasDefaultPort-default_port :
    (scheme : Text) (p : ℕ) → HasDefaultPort scheme p → default_port_by_scheme scheme ≡ some p
unfolding default_port_by_scheme
HasDefaultPort-default_port scheme p (inl h) = ground arith
HasDefaultPort-default_port scheme p (inr h) = ground arith

checked_port-eq_some :
    (z : Option ℤ) {p : ℕ} → checked_port z ≡ some p → (z ≡ some (pos p)) × (0 < p) × (p ≤ 65535)
unfolding checked_port
checked_port-eq_some none h = cc
checked_port-eq_some (some (pos n)) h = ground arith
checked_port-eq_some (some (negsuc n)) h = ground arith

target_port-HasPort :
    (endpoint raw : Text) (d : ℕ) {p : ℕ} → target_port endpoint raw d ≡ ok p → HasPort raw d p
unfolding target_port
target_port-HasPort endpoint [] d h = ground arith
target_port-HasPort endpoint (c ∷ raw) d h = ground (arith, checked_port-eq_some (atoi (c ∷ raw)))

HasPort-target_port :
    (endpoint raw : Text) (d p : ℕ) → HasPort raw d p → target_port endpoint raw d ≡ ok p
unfolding target_port
HasPort-target_port endpoint [] d p h = ground arith
HasPort-target_port endpoint (c ∷ raw) d p h = ground arith

target_of_url-host :
    (endpoint : Text) (u : Option Url) {t : ProbeTarget}
    → target_of_url endpoint u ≡ ok t
    → (v : Url) × (u ≡ some v)
      × (t.endpoint ≡ endpoint)
      × (t.host ≡ v.hostname)
      × (t.host ≢ [])
      × ((d : ℕ) × (default_port_by_scheme v.scheme ≡ some d)
          × (target_port endpoint v.port d ≡ ok t.port))
unfolding target_of_url
target_of_url-host endpoint none h = cc
target_of_url-host endpoint (some v) h =
    (v, refl, ground arith, ground arith, ground arith, ground arith)

module _ (parse_url : Text → Option Url) where
  parse_probe_target-Means :
      (endpoint : Text) {t : ProbeTarget}
      → parse_probe_target parse_url endpoint ≡ ok t
      → Means parse_url endpoint t
  unfolding parse_probe_target
  parse_probe_target-Means endpoint {t} h =
      let made : target_of_url endpoint (parse_url endpoint) ≡ ok t = ground arith in
      let (v, parsed, same, host, named, rest) = target_of_url-host endpoint _ made in
      let (d, found, ported) = rest in
      record {
        url = v;
        not_blank = ground arith;
        parsed = parsed;
        same_endpoint = same;
        same_host = host;
        named = named;
        default = d;
        served = default_port-HasDefaultPort v.scheme found;
        port = target_port-HasPort endpoint v.port d ported;
      }

  Means-parse_probe_target :
      (endpoint : Text) (t : ProbeTarget)
      → Means parse_url endpoint t
      → parse_probe_target parse_url endpoint ≡ ok t
  unfolding parse_probe_target target_of_url
  Means-parse_probe_target endpoint t m = ground (
    arith,
    HasDefaultPort-default_port m.url.scheme m.default m.served,
    HasPort-target_port endpoint m.url.port m.default t.port m.port,
  )

  parse_targets-AllMean :
      (es : List Text) {ts : List ProbeTarget}
      → parse_targets parse_url es ≡ ok ts
      → AllMean parse_url es ts
  unfolding parse_targets
  parse_targets-AllMean [] {ts} h = let e : [] ≡ ts = cc in rw (← e) done
  parse_targets-AllMean (e ∷ es) {ts} h =
      let one = ok-Passed (parse_probe_target parse_url e) _ ts h in
      let others = ok-Passed (parse_targets parse_url es) _ ts one.onward in
      let whole : one.value ∷ others.value ≡ ts = cc others.onward in
      rw (← whole)
        (more (parse_probe_target-Means e one.reached) (parse_targets-AllMean es others.reached))

  AllMean-parse_targets :
      {es : List Text} {ts : List ProbeTarget}
      → AllMean parse_url es ts
      → parse_targets parse_url es ≡ ok ts
  unfolding parse_targets
  AllMean-parse_targets done = refl
  AllMean-parse_targets (more m rest) =
      ground (arith, Means-parse_probe_target _ _ m, AllMean-parse_targets rest)

  -- A configuration is accepted exactly when its settings are in range, it has a target and
  -- every endpoint means the target at its place in the result.
  pub validate_iff :
      (c : Config) (ts : List ProbeTarget)
      → (validate parse_url c ≡ ok ts)
        ↔ (IsInRange c × (c.targets ≢ []) × AllMean parse_url c.targets ts)
  unfolding validate
  validate_iff c ts = (
    λ h. (ground arith, ground arith, parse_targets-AllMean c.targets (ground arith)),
    λ h. ground (arith, AllMean-parse_targets h.2),
  )
