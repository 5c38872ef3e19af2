-- ===== src/Recorder/Cdn/Domains.antt =====
-- io-bilive-recorder/bcdn.go: which listing of a domain a lookup finds.
use focot_services.Prelude.{
  if◌then◌else◌, Bool-cases, is_yes, All, lookup, insert, lookup-insert, Text, text_dec, ℕ, ◌≡◌,
  refl, sym, ap, ◌∙◌, ◌≢◌, inl, inr, false, Option, none, some, List, [], ◌∷◌, ◌++◌, map, arith,
}
use focot_services.Recorder.Cdn.{
  DomainIps, RegionNode, DnsData, DomainInfo, Domains, Cdn, lookups, bcdn_lookup_batch,
  parse_domains, parse_regions, parse_lists, parse_bcdn_data, get_bcdn, is_newest, on_data,
  update_bcdn,
}
use focot_services.Prelude.Results.{ok, ok-Passed}
use focot_services.HttpProxy.Packing.{Wire}
use focot_services.HttpProxy.Gateway.{Queue}

-- The listings of a document in their order, one entry for each time a domain is named.
abbrev pub domains_listed : RegionNode → List (Text × DomainIps) → Domains
domains_listed region [] = []
domains_listed region ((domain, ips) ∷ rest) =
    (domain, record { ips = ips; region_info = region }) ∷ domains_listed region rest

abbrev pub regions_listed : Text → List (Option RegionNode) → Domains
regions_listed isp [] = []
regions_listed isp (none ∷ rest) = regions_listed isp rest
regions_listed isp (some region ∷ rest) =
    domains_listed (record region { isp = isp }) region.domains ++ regions_listed isp rest

abbrev pub listed : List (Text × List (Option RegionNode)) → Domains
listed [] = []
listed ((isp, regions) ∷ rest) = regions_listed isp regions ++ listed rest

-- No region of a document is null.
abbrev pub HasRegions : List (Text × List (Option RegionNode)) → Type 0
HasRegions = All (λ (p : Text × List (Option RegionNode)). All (λ region. region ≢ none) p.1)

-- The last listing of a domain, or else what was known before.
abbrev pub last_listed : Text → Domains → Option DomainInfo → Option DomainInfo
last_listed domain [] before = before
last_listed domain ((d, info) ∷ rest) before =
    last_listed domain rest (if is_yes (text_dec d domain) then some info else before)

last_listed-append :
    (domain : Text) (l m : Domains) (before : Option DomainInfo)
    → last_listed domain (l ++ m) before ≡ last_listed domain m (last_listed domain l before)
last_listed-append domain [] m before = refl
last_listed-append domain ((d, info) ∷ l) m before =
    last_listed-append domain l m (if is_yes (text_dec d domain) then some info else before)

lookup-parse_domains :
    (region : RegionNode) (domains : List (Text × DomainIps)) (node : Domains) (domain : Text)
    → lookup text_dec domain (parse_domains region domains node)
      ≡ last_listed domain (domains_listed region domains) (lookup text_dec domain node)
unfolding parse_domains
lookup-parse_domains region [] node domain = refl
lookup-parse_domains region ((d, ips) ∷ rest) node domain =
    let info : DomainInfo = record { ips = ips; region_info = region } in
    lookup-parse_domains region rest (insert text_dec d info node) domain
    ∙ ap (last_listed domain (domains_listed region rest))
        (ground (arith, lookup-insert text_dec d domain info node))

lookup-parse_regions :
    (isp : Text) (regions : List (Option RegionNode)) (node node' : Domains) (domain : Text)
    → parse_regions isp regions node ≡ ok node'
    → lookup text_dec domain node'
      ≡ last_listed domain (regions_listed isp regions) (lookup text_dec domain node)
unfolding parse_regions
lookup-parse_regions isp [] node node' domain h = let is : node ≡ node' = cc in rw is refl
lookup-parse_regions isp (none ∷ rest) node node' domain h = absurd (cc)
lookup-parse_regions isp (some region ∷ rest) node node' domain h =
    let named : RegionNode = record region { isp = isp } in
    lookup-parse_regions isp rest (parse_domains named region.domains node) node' domain h
    ∙ ap (last_listed domain (regions_listed isp rest))
        (lookup-parse_domains named region.domains node domain)
    ∙ sym (
        last_listed-append domain (domains_listed named region.domains) (regions_listed isp rest)
          (lookup text_dec domain node))

lookup-parse_lists :
    (lists : List (Text × List (Option RegionNode))) (node node' : Domains) (domain : Text)
    → parse_lists lists node ≡ ok node'
    → lookup text_dec domain node' ≡ last_listed domain (listed lists) (lookup text_dec domain node)
unfolding parse_lists
lookup-parse_lists [] node node' domain h = let is : node ≡ node' = cc in rw is refl
lookup-parse_lists ((isp, regions) ∷ rest) node node' domain h =
    let p = ok-Passed (parse_regions isp regions node) (parse_lists rest) node' h in
    lookup-parse_lists rest p.value node' domain p.onward
    ∙ ap (last_listed domain (listed rest))
        (lookup-parse_regions isp regions node p.value domain p.reached)
    ∙ sym (
        last_listed-append domain (regions_listed isp regions) (listed rest)
          (lookup text_dec domain node))

-- A document without null regions is parsed without a panic.
parse_regions-ok :
    (isp : Text) (regions : List (Option RegionNode)) (node : Domains)
    → All (λ region. region ≢ none) regions
    → (node' : Domains) × (parse_regions isp regions node ≡ ok node')
unfolding parse_regions
parse_regions-ok isp [] node h = (node, refl)
parse_regions-ok isp (none ∷ rest) node h = absurd (h.0 refl)
parse_regions-ok isp (some region ∷ rest) node h =
    parse_regions-ok isp rest (parse_domains (record region { isp = isp }) region.domains node) h.1

parse_lists-ok :
    (lists : List (Text × List (Option RegionNode))) (node : Domains)
    → HasRegions lists
    → (node' : Domains) × (parse_lists lists node ≡ ok node')
unfolding parse_lists
parse_lists-ok [] node h = (node, refl)
parse_lists-ok ((isp, regions) ∷ rest) node h =
    let (node', first) = parse_regions-ok isp regions node h.0 in
    let (node'', more) = parse_lists-ok rest node' h.1 in (node'', rw first more)

parse_bcdn_data-ok :
    (dns : DnsData)
    → HasRegions dns.dns_list
    → (regions : Domains) × (parse_bcdn_data dns ≡ ok regions)
unfolding parse_bcdn_data
parse_bcdn_data-ok dns there = parse_lists-ok dns.dns_list [] there

-- The regions held are those of the document held.
unfoldable pub IsParsed : Cdn → Type 0
IsParsed c = elim c.bcdn [
  | none ↦ Unit {0}
  | some dns ↦
      (regions : Domains) × ((parse_bcdn_data dns ≡ ok regions) × (c.bcdn_regions ≡ some regions))
]

bcdn_lookup_batch_listed :
    (dns : DnsData) (regions : Domains) (domains : List Text)
    → parse_bcdn_data dns ≡ ok regions
    → lookups regions domains
      ≡ map (λ domain. last_listed domain (listed dns.dns_list) none) domains
unfolding parse_bcdn_data
bcdn_lookup_batch_listed dns regions [] h = refl
bcdn_lookup_batch_listed dns regions (domain ∷ domains) h =
    rw
      (
        lookup-parse_lists dns.dns_list [] regions domain h,
        bcdn_lookup_batch_listed dns regions domains h,
      )
      refl

-- What an updater keeps whose regions are those of the document held: a document of this version,
-- in which a batch finds for each domain the last listing, and nothing for a domain not listed.
abbrev pub Holds : Text → Cdn → Type 0
Holds version c =
    (dns : DnsData) × ((dns.version ≡ version)
      × (IsParsed c)
      × ((domains : List Text)
          → bcdn_lookup_batch c domains
            ≡ map (λ domain. last_listed domain (listed dns.dns_list) none) domains))

on_data-Holds :
    (c : Cdn) (dns : DnsData)
    → HasRegions dns.dns_list
    → IsParsed c
    → (c' : Cdn) × ((on_data c (some (some dns)) ≡ ok (none, c')) × Holds dns.version c')
unfolding on_data IsParsed bcdn_lookup_batch
on_data-Holds c dns there h = by_held c.bcdn refl h
  where
    new :
        (is_newest c.bcdn dns.version ≡ false)
        → (c' : Cdn) × ((on_data c (some (some dns)) ≡ ok (none, c')) × Holds dns.version c')
    new old =
        let (regions, parses) = parse_bcdn_data-ok dns there in
        (
          record { bcdn = some dns; bcdn_regions = some regions },
          (
            rw (on_data, old, parses) refl,
            (
              dns,
              (
                refl,
                (regions, (parses, refl)),
                λ domains. bcdn_lookup_batch_listed dns regions domains parses,
              ),
            ),
          ),
        )

    by_held :
        (held : Option DnsData)
        → c.bcdn ≡ held
        → IsParsed c
        → (c' : Cdn) × ((on_data c (some (some dns)) ≡ ok (none, c')) × Holds dns.version c')
    by_held none is p = new (rw is refl)
    by_held (some held) is p = elim (Bool-cases (is_newest c.bcdn dns.version)) [
      | inl newest ↦
          let same : held.version ≡ dns.version = ground arith in
          let (regions, (parses, kept)) = rw (IsParsed, is) at p in
          (
            c,
            (
              rw newest refl,
              (
                held,
                (
                  same,
                  p,
                  λ domains.
                      rw (bcdn_lookup_batch, kept)
                        (bcdn_lookup_batch_listed held regions domains parses),
                ),
              ),
            ),
          )
      | inr old ↦ new old
    ]

-- When the document could be fetched and read, and no region in it is null, an update goes through:
-- the document held is of its version, and a batch finds for each domain the region and the addresses
-- of its last listing in the document held, and nothing for a domain not listed. Asked for is that the
-- regions held before were those of the document held, which is kept.
pub update_bcdn-Holds :
    (w : Wire) (decode : List ℕ → Option (Option DnsData)) (mq : Queue) (id proxy_node : Text)
    (c : Cdn) (dns : DnsData)
    → get_bcdn w decode mq id proxy_node ≡ ok (some (some dns))
    → HasRegions dns.dns_list
    → IsParsed c
    → (c' : Cdn) × ((update_bcdn w decode mq id proxy_node c ≡ ok (none, c'))
        × Holds dns.version c')
unfolding update_bcdn
update_bcdn-Holds w decode mq id proxy_node c dns got there h = rw got (on_data-Holds c dns there h)
