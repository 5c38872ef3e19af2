-- ===== src/HttpProxy/Client.antt =====
-- client-http-proxy/client.go: `requestHandle` and `doRequest`, with the calls that each makes on
-- the message and on the queue in their order. The HTTP library, the queue and JSON are parameters.
pub mod Answers
use focot_services.Prelude.{
  if◌then◌else◌, Text, ℕ, zero, suc, Bool, Option, none, some, List, [], ◌∷◌, ◌++◌,
}
use focot_services.Prelude.Int.{ℤ}
use focot_services.HttpProxy.Request.{
  Request, new_request, HttpOptions, build_request_options, request_url,
}
use focot_services.HttpProxy.Packing.{HttpResponse, Wire, pack_response}

-- The constants of client-http-proxy/api/task.go.
pub data TaskStatus : Type 0 where
  on_process scheduled finished failed : TaskStatus

-- A publication of a status, a call on the message, the request given to the HTTP library, and a
-- task given to the scheduler.
pub data Call : Type 0 where
  update : TaskStatus → Call
  in_progress nak term : Call
  respond : List ℕ → Call
  send : Text → Text → HttpOptions → Call
  add_task : Request → Call

-- What `grequests.Req` gives: an error, a response with an error in it, or a response.
pub data Fetched : Type 0 where
  not_sent not_read : Fetched
  fetched : HttpResponse → Fetched

-- The node's settings, and what the calls of one request meet: whether a status and the answer can
-- be published, what comes of the request, and how often the ticker is read before the response.
pub record Node : Type 0 where
  pub wire : Wire
  pub gzip_min_length : ℤ
  pub node_id : Text
  pub publishes : TaskStatus → Bool
  pub responds : List ℕ → Bool
  pub fetch : Text → Text → HttpOptions → Fetched
  pub ticks : ℕ

unfoldable pub waiting : ℕ → List Call
waiting zero = []
waiting (suc n) = in_progress ∷ waiting n

-- From `ProcessResp` on.
pub process_response : Node → Request → HttpResponse → List Call
process_response n request response =
    elim (pack_response n.wire n.gzip_min_length n.node_id request.response_headers response) [
      | none ↦ []
      | some bytes ↦ respond bytes ∷ update (if n.responds bytes then finished else failed) ∷ []
    ]

-- Behind the wait, the three ways on.
pub on_fetched : Node → Request → Fetched → List Call
unfolding process_response
on_fetched n request not_read = nak ∷ update failed ∷ []
on_fetched n request not_sent = update failed ∷ term ∷ []
on_fetched n request (fetched response) = process_response n request response

pub do_request : Node → Request → List Call
unfolding on_fetched waiting
do_request n request =
    let options = build_request_options request in
    if n.publishes scheduled
    then update scheduled
      ∷ send request.method (request_url request) options
      ∷ (waiting n.ticks
          ++ on_fetched n request (n.fetch request.method (request_url request) options))
    else update scheduled ∷ []

-- A message of the request subject: `decode` is `json.Unmarshal` into the new request.
unfoldable pub request_handle :
    Node → (Request → List ℕ → Option Request) → Text → List ℕ → List Call
request_handle n decode id message = elim (decode (new_request id []) message) [
  | none ↦ []
  | some request ↦
      if n.publishes on_process
      then update on_process ∷ add_task request ∷ []
      else update on_process ∷ []
]
