-- ===== src/HttpProxy/Packing/RoundTrip.antt =====
-- A packed response comes back as it was.
use focot_services.Prelude.{
  if◌then◌else◌, some-steps, Text, ℕ, ◌≡◌, refl, Bool, none, some, List, [], arith,
}
use focot_services.Prelude.Int.{ℤ}
use focot_services.Prelude.Results.{ok}
use focot_services.HttpProxy.Packing.{
  ProxyResponse, PackedResponse, HttpResponse, inflated, Wire, compress, pack_response,
  unpack_response, send_request,
}

-- What was marshalled or deflated without an error is read back.
pub record WireLaws (w : Wire) : Type 0 where
  pub unmarshal-marshal :
      (r : ProxyResponse) (bytes : List ℕ) → w.marshal r ≡ some bytes → w.unmarshal bytes ≡ some r
  pub unmarshal-marshal_packed :
      (p : PackedResponse) (bytes : List ℕ)
      → w.marshal_packed p ≡ some bytes
      → w.unmarshal_packed bytes ≡ some p
  pub inflate-deflate :
      (payload bytes : List ℕ) → w.deflate payload ≡ some bytes → w.inflate bytes ≡ inflated payload

-- What a client sees of a response.
abbrev pub seen : Bool → HttpResponse → ProxyResponse
seen response_headers r = record {
  status_code = r.status_code;
  body = r.body;
  header = if response_headers then r.header else [];
}

compress-unpack :
    (w : Wire) (limit : ℤ) (r : ProxyResponse) (payload bytes : List ℕ) (flag is_ok : Bool)
    (node : Text)
    → WireLaws w
    → w.marshal r ≡ some payload
    → compress w limit payload ≡ some (bytes, flag)
    → unpack_response w (record { is_ok = is_ok; node = node; payload = bytes; gzip = flag })
      ≡ ok (some r)
unfolding compress unpack_response
compress-unpack w limit r payload bytes flag is_ok node laws marshalled packed =
    ground (arith, laws.unmarshal-marshal r payload, laws.inflate-deflate payload bytes)

-- The three steps of a response that was packed.
pack_response-steps :
    (w : Wire) (limit : ℤ) (node : Text) (response_headers : Bool) (r : HttpResponse)
    {bytes : List ℕ}
    → pack_response w limit node response_headers r ≡ some bytes
    → (payload sent : List ℕ) × ((flag : Bool) × ((w.marshal (seen response_headers r)
            ≡ some payload)
          × (compress w limit payload ≡ some (sent, flag))
          × (w.marshal_packed (record { is_ok = r.is_ok; node = node; payload = sent; gzip = flag })
              ≡ some bytes)))
unfolding pack_response
pack_response-steps w limit node response_headers r {bytes} packed =
    let close = λ (z : List ℕ × Bool).
      w.marshal_packed (record { is_ok = r.is_ok; node = node; payload = z.0; gzip = z.1 }) in
    let (payload, first) =
      some-steps (w.marshal (seen response_headers r))
        (λ payload. elim (compress w limit payload) [ none ↦ none | some z ↦ close z ]) packed in
    let (z, second) = some-steps (compress w limit payload) close first.1 in
    (payload, z.0, (z.1, (first.0, second.0, second.1)))

-- A response that a node packs, compressed or not, comes out of `SendRequest` at the other side with
-- its status, its body and, where they were asked for, its headers; the packed form names the node
-- and keeps the flag. Asked for are the round trips of JSON and gzip.
pub send_request-pack_response :
    (w : Wire) (limit : ℤ) (node : Text) (response_headers : Bool) (r : HttpResponse)
    {bytes : List ℕ}
    → WireLaws w
    → pack_response w limit node response_headers r ≡ some bytes
    → (p : PackedResponse) × ((w.unmarshal_packed bytes ≡ some p)
        × (p.is_ok ≡ r.is_ok)
        × (p.node ≡ node)
        × (send_request w (some (w.unmarshal_packed bytes)) ≡ ok (some (seen response_headers r))))
unfolding send_request
send_request-pack_response w limit node response_headers r {bytes} laws packed =
    let (payload, sent, rest) = pack_response-steps w limit node response_headers r packed in
    let (flag, facts) = rest in
    let (marshalled, compressed, closed) = facts in
    let read = laws.unmarshal-marshal_packed _ bytes closed in
    (
      record { is_ok = r.is_ok; node = node; payload = sent; gzip = flag },
      (
        read,
        refl,
        refl,
        rw read (
            compress-unpack w limit (seen response_headers r) payload sent flag r.is_ok node laws
              marshalled compressed),
      ),
    )
