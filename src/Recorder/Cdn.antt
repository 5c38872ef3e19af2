-- ===== src/Recorder/Cdn.antt =====
-- io-bilive-recorder/bcdn.go, with its types of model.go: the domains of the content network. A map
-- that `range` visits is visited in the order of its entries. A region may be null, at which the
-- parse panics. What the parse writes into a region
-- is in the regions of the result only.
pub mod Domains
mod Updater
mod Tests
use focot_services.Prelude.{
  if◌then◌else◌, is_yes, lookup, insert, Text, codes, text_dec, ℕ, Bool, false, Option, none, some,
  List, [], ◌∷◌,
}
use focot_services.Prelude.Int.{pos}
use focot_services.Prelude.Results.{Result, ok, err, ◌>>=◌, ◌>>◌, Fault, nil_dereference}
use focot_services.HttpProxy.Request.{new_request, with_request_host, with_request_path}
use focot_services.HttpProxy.Packing.{Wire, send_typed_request}
use focot_services.HttpProxy.Gateway.{Queue}

-- `ISPName`
abbrev pub isp_name : List (Text × Text)
isp_name =
    (codes "ct", codes "电信")
    ∷ (codes "cm", codes "移动")
    ∷ (codes "cu", codes "联通")
    ∷ (codes "gd", codes "广电")
    ∷ (codes "fx", codes "教育网")
    ∷ (codes "cc", codes "鹏博士")
    ∷ (codes "se", codes "教育网(北京)")
    ∷ (codes "eq", codes "BiliBili香港")
    ∷ (codes "ix", codes "电信(上海-zhao-1)")
    ∷ []

-- `BCdnDomainIPs`
pub record DomainIps : Type 0 where
  pub ipv4 : List Text
  pub ipv6 : List Text

-- `BCdnRegionNode`
pub record RegionNode : Type 0 where
  pub isp : Text
  pub region_code : Text
  pub region_name : Text
  pub domains : List (Text × DomainIps)

-- `BCdnDnsData`
pub record DnsData : Type 0 where
  pub version : Text
  pub dns_list : List (Text × List (Option RegionNode))

-- `BCdnDomainInfo`
pub record DomainInfo : Type 0 where
  pub ips : DomainIps
  pub region_info : RegionNode

abbrev pub Domains : Type 0
Domains = List (Text × DomainInfo)

-- The fields of `DataSyncer` that the updater keeps.
pub record Cdn : Type 0 where
  pub bcdn : Option DnsData
  pub bcdn_regions : Option Domains

-- `BCdnLookup`
pub bcdn_lookup : Cdn → Text → Option DomainInfo
bcdn_lookup c domain = elim c.bcdn_regions [
  | none ↦ none
  | some regions ↦ lookup text_dec domain regions
]

abbrev pub lookups : Domains → List Text → List (Option DomainInfo)
lookups regions [] = []
lookups regions (domain ∷ domains) = lookup text_dec domain regions ∷ lookups regions domains

abbrev pub nils : List Text → List (Option DomainInfo)
nils [] = []
nils (_ ∷ domains) = none ∷ nils domains

-- `BCdnLookupBatch`
pub bcdn_lookup_batch : Cdn → List Text → List (Option DomainInfo)
bcdn_lookup_batch c domains = elim c.bcdn_regions [
  | none ↦ nils domains
  | some regions ↦ lookups regions domains
]

-- The loops of `parseBCdnData`.
pub parse_domains : RegionNode → List (Text × DomainIps) → Domains → Domains
parse_domains region [] node = node
parse_domains region ((domain, ips) ∷ rest) node =
    parse_domains region rest
      (insert text_dec domain (record { ips = ips; region_info = region }) node)

pub parse_regions : Text → List (Option RegionNode) → Domains → Result Fault Domains
unfolding parse_domains
parse_regions isp [] node = ok node
parse_regions isp (none ∷ rest) node = err nil_dereference
parse_regions isp (some region ∷ rest) node =
    parse_regions isp rest (parse_domains (record region { isp = isp }) region.domains node)

pub parse_lists : List (Text × List (Option RegionNode)) → Domains → Result Fault Domains
unfolding parse_regions
parse_lists [] node = ok node
parse_lists ((isp, regions) ∷ rest) node = do
  node' ← parse_regions isp regions node
  parse_lists rest node'

-- `parseBCdnData`
pub parse_bcdn_data : DnsData → Result Fault Domains
unfolding parse_lists
parse_bcdn_data dns = parse_lists dns.dns_list []

-- `GetBCdn`; `id` is the new request's, and `decode` reads JSON into a pointer, which it may leave
-- nil.
pub get_bcdn :
    Wire
    → (List ℕ → Option (Option DnsData))
    → Queue
    → Text
    → Text
    → Result Fault (Option (Option DnsData))
get_bcdn w decode mq id proxy_node =
    let req = new_request id (
      with_request_host (codes "raw.githubusercontent.com")
      ∷ with_request_path (codes "/BililiveRecorder/website/main/src/data/cdn/bcdn.json")
      ∷ []) in
    send_typed_request w decode (mq proxy_node req (pos 10))

-- `syncer.bcdn != nil && syncer.bcdn.Version == data.Version`
abbrev pub is_newest : Option DnsData → Text → Bool
is_newest none version = false
is_newest (some held) version = is_yes (text_dec held.version version)

-- The rest of `updateBCdn`, which reads the data through a pointer. `some tt` is an error.
pub on_data : Cdn → Option (Option DnsData) → Result Fault (Option (Unit {0}) × Cdn)
unfolding parse_bcdn_data
on_data c none = ok (some tt, c)
on_data c (some none) = err nil_dereference
on_data c (some (some dns)) = if is_newest c.bcdn dns.version then ok (none, c) else (do
  regions ← parse_bcdn_data dns
  ok (none, record { bcdn = some dns; bcdn_regions = some regions }))

-- `updateBCdn`
pub update_bcdn :
    Wire
    → (List ℕ → Option (Option DnsData))
    → Queue
    → Text
    → Text
    → Cdn
    → Result Fault (Option (Unit {0}) × Cdn)
unfolding get_bcdn on_data
update_bcdn w decode mq id proxy_node c = do dns ← get_bcdn w decode mq id proxy_node; on_data c dns
