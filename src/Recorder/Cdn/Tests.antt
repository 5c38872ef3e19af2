-- ===== src/Recorder/Cdn/Tests.antt =====
-- A document with one domain that two regions list.
use focot_services.Prelude.{
  Text, codes, ℕ, ◌≡◌, refl, true, false, Option, none, some, List, [], ◌∷◌,
}
use focot_services.Prelude.Results.{err, nil_dereference}
use focot_services.Prelude.Int.{pos}
use focot_services.HttpProxy.Packing.{ProxyResponse, PackedResponse, bad_header, Wire}
use focot_services.HttpProxy.Gateway.{Queue}
use focot_services.Recorder.Cdn.{
  RegionNode, DnsData, Cdn, parse_regions, parse_lists, parse_bcdn_data, on_data,
}

abbrev region : Text → RegionNode
region name = record {
  isp = [];
  region_code = [];
  region_name = name;
  domains = (codes "d.example", record { ipv4 = []; ipv6 = [] }) ∷ [];
}

abbrev document : DnsData
document = record {
  version = codes "1";
  dns_list =
      (codes "ct", some (region (codes "a")) ∷ [])
      ∷ (codes "cu", some (region (codes "b")) ∷ [])
      ∷ [];
}

abbrev answered : PackedResponse
answered = record { is_ok = true; node = codes "n"; payload = 0 ∷ []; gzip = false }

abbrev page : ProxyResponse
page = record { status_code = pos 200; body = []; header = [] }

-- JSON that knows this page only.
abbrev wire : Wire
wire = record {
  marshal = λ r. none;
  unmarshal = λ bytes. some page;
  marshal_packed = λ p. none;
  unmarshal_packed = λ bytes. none;
  deflate = λ bytes. none;
  inflate = λ bytes. bad_header;
}

abbrev decode : List ℕ → Option (Option DnsData)
decode bytes = some (some document)

abbrev mq : Queue
mq subject request timeout = some (some answered)

-- The first attempt is not answered.
abbrev silent : Queue
silent subject request timeout = none

-- A null region.
null_region :
    on_data
      (record { bcdn = none; bcdn_regions = none })
      (some (some (record { version = []; dns_list = (codes "ct", none ∷ []) ∷ [] })))
    ≡ err nil_dereference
unfolding on_data parse_bcdn_data parse_lists parse_regions
null_region = refl
