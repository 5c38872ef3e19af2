-- ===== src/HttpProxy/Gateway.antt =====
-- api-http-proxy/api.go: `requestProxy`, which sends a request of HTTP over the queue to a node. The
-- check of the input and the queue are parameters.
mod EndToEnd
mod Tests
use focot_services.Prelude.{
  ◌==◌, if◌then◌else◌, lookup, Text, codes, text_dec, join, ℕ, true, Option, none, some, List, [],
  ◌∷◌,
}
use focot_services.Prelude.Int.{ℤ, pos, negsuc}
use focot_services.Prelude.Results.{Result, ok, err, ◌>>=◌, ◌>>◌, Fault, nil_dereference}
use focot_services.HttpProxy.Request.{Request}
use focot_services.HttpProxy.Packing.{Header, ProxyResponse, PackedResponse, Wire, send_request}

pub record ProxyRequest : Type 0 where
  pub node : Text
  pub timeout : ℤ
  pub payload : Option Request

-- `echox.NormalErrorResponse` with its two codes, and `c.Blob`.
pub data HttpAnswer : Type 0 where
  error_response : ℕ → ℕ → HttpAnswer
  blob : ℤ → Text → List ℕ → HttpAnswer

-- `resp.Header.Get("Content-Type")`
unfoldable pub content_type : Header → Text
content_type header = elim (lookup text_dec (codes "Content-Type") header) [
  | none ↦ []
  | some values ↦ elim values [ [] ↦ [] | v ∷ vs ↦ v ]
]

abbrev pub or_ten : ℤ → ℤ
or_ten (pos n) = if n == 0 then pos 10 else pos n
or_ten (negsuc n) = negsuc n

-- The subject, the request and the timeout that go to the queue, and its answer.
abbrev pub Queue : Type 0
Queue = Text → Request → ℤ → Option (Option PackedResponse)

pub answer_of : Option ProxyResponse → HttpAnswer
answer_of none = error_response 502 400
answer_of (some r) = blob r.status_code (content_type r.header) r.body

pub request_proxy : Wire → Text → Queue → Option ProxyRequest → Result Fault HttpAnswer
unfolding answer_of
request_proxy w service_id queue none = ok (error_response 502 400)
request_proxy w service_id queue (some input) = elim input.payload [
  | none ↦ err nil_dereference
  | some payload ↦ do
    let subject = join b'.' (service_id ∷ input.node ∷ codes "request" ∷ [])
    response ←
        send_request w
          (queue subject (record payload { response_headers = true }) (or_ten input.timeout))
    ok (answer_of response)
]
