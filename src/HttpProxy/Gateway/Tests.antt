-- ===== src/HttpProxy/Gateway/Tests.antt =====
-- A page fetched through the gateway, the queue and a node, whose JSON knows this page only.
use focot_services.Prelude.{
  if◌then◌else◌, is_yes, codes, text_dec, ℕ, ◌≡◌, refl, ap, true, Option, none, some, List, [], ◌∷◌,
  arith, ℕ_discrete,
}
use focot_services.Prelude.Int.{ℤ, pos}
use focot_services.HttpProxy.Request.{Request, new_request, with_request_host, with_request_path}
use focot_services.HttpProxy.Packing.{
  Header, ProxyResponse, PackedResponse, HttpResponse, Inflated, bad_header, inflated, Wire,
  compress, pack_response, send_request,
}
use focot_services.HttpProxy.Packing.RoundTrip.{WireLaws, seen, send_request-pack_response}
use focot_services.HttpProxy.Client.{scheduled, in_progress, fetched, Node, waiting, do_request}
use focot_services.Prelude.Results.{ok}
use focot_services.HttpProxy.Client.Answers.{replies, statuses, told, verdict, do_request-ends}
use focot_services.HttpProxy.Gateway.{ProxyRequest, blob, content_type, request_proxy}
use focot_services.HttpProxy.Gateway.EndToEnd.{
  Transport, IsPlain, queue_of, sent, overlay, request_proxy-do_request,
}

ℤ-discrete : Discrete ℤ
ℤ-discrete = hlevel ℕ_discrete

ProxyResponse-discrete : Discrete ProxyResponse
ProxyResponse-discrete = hlevel (ℕ_discrete, ℤ-discrete)

PackedResponse-discrete : Discrete PackedResponse
PackedResponse-discrete = hlevel ℕ_discrete

abbrev html : Header
html = (codes "Content-Type", codes "text/html" ∷ []) ∷ []

abbrev page : HttpResponse
page = record { is_ok = true; status_code = pos 200; body = codes "hello"; header = html }

-- The one value of a type that can be written, as one byte.
abbrev write_only : {A : Type 0} → Discrete A → A → A → Option (List ℕ)
write_only dec a x = if is_yes (dec a x) then some (1 ∷ []) else none

abbrev page_packed : PackedResponse
page_packed = record { is_ok = true; node = codes "n"; payload = 0 ∷ 1 ∷ []; gzip = true }

abbrev without_first : List ℕ → Inflated
without_first [] = bad_header
without_first (b ∷ bytes) = inflated bytes

abbrev read_packed : List ℕ → Option PackedResponse
read_packed [] = none
read_packed (b ∷ bytes) = some page_packed

abbrev wire : Wire
wire = record {
  marshal = write_only ProxyResponse-discrete (seen true page);
  unmarshal = λ bytes. some (seen true page);
  marshal_packed = write_only PackedResponse-discrete page_packed;
  unmarshal_packed = read_packed;
  deflate = λ bytes. some (0 ∷ bytes);
  inflate = without_first;
}

write_only-reads :
    {A : Type 0} (dec : Discrete A) (a x : A) (bytes : List ℕ)
    → write_only dec a x ≡ some bytes
    → some a ≡ some x
write_only-reads dec a x bytes h =
    elim (dec a x)
        as (λ d. (if is_yes d then some (1 ∷ []) else none) ≡ some bytes → some a ≡ some x) [
          | yes e ↦ λ k. ap some e
          | no n ↦ λ k. cc
        ]
      h

read_packed-write_only :
    (p : PackedResponse) (bytes : List ℕ)
    → write_only PackedResponse-discrete page_packed p ≡ some bytes
    → read_packed bytes ≡ some p
read_packed-write_only p bytes h =
    elim (PackedResponse-discrete page_packed p)
        as (λ d.
          (if is_yes d then some (1 ∷ []) else none) ≡ some bytes → read_packed bytes ≡ some p) [
            | yes e ↦ λ k. let is : 1 ∷ [] ≡ bytes = cc in rw (← is) (ap some e)
            | no n ↦ λ k. absurd (cc)
          ]
      h

wire-WireLaws : WireLaws wire
wire-WireLaws = record {
  unmarshal-marshal = λ r bytes. write_only-reads ProxyResponse-discrete (seen true page) r bytes;
  unmarshal-marshal_packed = read_packed-write_only;
  inflate-deflate = λ payload bytes e. ground arith;
}

abbrev node : Node
node = record {
  wire = wire;
  gzip_min_length = pos 1;
  node_id = codes "n";
  publishes = λ status. true;
  responds = λ bytes. true;
  fetch = λ method url options. fetched page;
  ticks = 2;
}

abbrev request : Request
request =
    new_request (codes "1") (with_request_host (codes "h") ∷ with_request_path (codes "/p") ∷ [])

page_is_packed : pack_response wire (pos 1) (codes "n") true page ≡ some (1 ∷ [])
unfolding pack_response compress ProxyResponse-discrete PackedResponse-discrete ℤ-discrete
    ℕ_discrete
page_is_packed = refl

send_request-pack_response_example :
    (p : PackedResponse) × ((wire.unmarshal_packed (1 ∷ []) ≡ some p)
      × (p.is_ok ≡ true)
      × (p.node ≡ codes "n")
      × (send_request wire (some (wire.unmarshal_packed (1 ∷ []))) ≡ ok (some (seen true page))))
send_request-pack_response_example =
    send_request-pack_response wire (pos 1) (codes "n") true page wire-WireLaws page_is_packed

do_request-ends_example :
    let calls = do_request node request in
    (replies node calls ≡ in_progress ∷ in_progress ∷ told node request (fetched page))
    × (statuses calls ≡ scheduled ∷ verdict node request (fetched page))
unfolding waiting
do_request-ends_example = do_request-ends node request

-- A request without a method, a protocol and an id.
abbrev asked : Request
asked = record (new_request [] []) {
  protocol = [];
  method = [];
  host = codes "h";
  path = codes "/p";
}

abbrev input : ProxyRequest
input = record { node = codes "n"; timeout = pos 0; payload = some asked }

abbrev quick : Node
quick = record node { ticks = 0 }

-- JSON of requests that knows the one asked for only, and acknowledgements that are empty.
abbrev transport : Transport
transport = record {
  encode = λ r. some (2 ∷ []);
  decode = λ fresh message. some (overlay fresh (sent asked));
  acknowledge = λ call. [];
  arrives = λ timeout. true;
}

wire-IsPlain : IsPlain wire transport
wire-IsPlain = record { progress = refl; nak_plain = refl; term_plain = refl }

request_proxy-do_request_example :
    request_proxy wire (codes "http-proxy") (queue_of quick transport (codes "7")) (some input)
    ≡ ok (blob (pos 200) (content_type html) (codes "hello"))
request_proxy-do_request_example =
    request_proxy-do_request quick transport (codes "7") (codes "http-proxy") input asked (2 ∷ [])
      wire-WireLaws wire-IsPlain refl refl refl refl refl (1 ∷ [], (page_is_packed, refl))

html_type : content_type html ≡ codes "text/html"
unfolding content_type text_dec ℕ_discrete
html_type = refl
