-- ===== src/HttpProxy/Gateway/EndToEnd.antt =====
-- The gateway, the queue and a node together.
use focot_services.Prelude.{
  ◌==◌, if◌then◌else◌, Bool-cases, Text, codes, ℕ, zero, suc, ◌≡◌, refl, ap, ◌∙◌, inl, inr, Bool,
  true, false, ◌&&◌, ◌||◌, Option, none, some, List, [], ◌∷◌, ◌++◌, arith,
}
use focot_services.HttpProxy.Request.{Request, apply_options, new_request}
use focot_services.HttpProxy.Client.{
  on_process, scheduled, Call, in_progress, nak, term, respond, add_task, Fetched, not_sent,
  not_read, fetched, Node, waiting, do_request, request_handle,
}
use focot_services.HttpProxy.Client.Answers.{replies, outcome, IsDelivered, told, do_request-ends}
use focot_services.HttpProxy.Packing.RoundTrip.{WireLaws, seen, send_request-pack_response}
use focot_services.HttpProxy.Gateway.{
  ProxyRequest, HttpAnswer, error_response, blob, content_type, or_ten, Queue, answer_of,
  request_proxy,
}
use focot_services.Prelude.Results.{ok}
use focot_services.HttpProxy.Packing.{ProxyResponse, PackedResponse, Wire, send_request}
use focot_services.Prelude.Int.{ℤ}

-- What lies between the gateway and a node: JSON of requests, the bytes of the three acknowledgements,
-- and whether the first answer is there before a timeout is over.
pub record Transport : Type 0 where
  pub encode : Request → Option (List ℕ)
  pub decode : Request → List ℕ → Option Request
  pub acknowledge : Call → List ℕ
  pub arrives : ℤ → Bool

-- The acknowledgements are no JSON.
pub record IsPlain (w : Wire) (t : Transport) : Type 0 where
  pub progress : w.unmarshal_packed (t.acknowledge in_progress) ≡ none
  pub nak_plain : w.unmarshal_packed (t.acknowledge nak) ≡ none
  pub term_plain : w.unmarshal_packed (t.acknowledge term) ≡ none

abbrev pub reply_bytes : Transport → Call → List ℕ
reply_bytes t (respond bytes) = bytes
reply_bytes t c = t.acknowledge c

-- The gateway reads the first message on the reply subject and no other.
abbrev pub first_read : Wire → Transport → List Call → Option (Option PackedResponse)
first_read w t [] = none
first_read w t (c ∷ calls) = elim (w.unmarshal_packed (reply_bytes t c)) [
  | none ↦ none
  | some p ↦ some (some p)
]

-- The task that a message of the request subject becomes.
abbrev pub task : List Call → Option Request
task [] = none
task (add_task request ∷ calls) = some request
task (c ∷ calls) = task calls

-- A queue that carries a request to a node as JSON, and the first answer back.
pub queue_of : Node → Transport → Text → Queue
queue_of n t id subject request timeout = elim (t.encode request) [
  | none ↦ none
  | some message ↦ elim (task (request_handle n t.decode id message)) [
    | none ↦ none
    | some r ↦ if t.arrives timeout then first_read n.wire t (replies n (do_request n r)) else none
  ]
]

-- The request as the gateway sends it on.
abbrev pub sent : Request → Request
sent payload = record payload { response_headers = true }

-- What `json.Unmarshal` makes of a fresh request and the JSON of another, which leaves out what is
-- empty.
abbrev pub filled : {A : Type 0} → List A → List A → List A
filled default [] = default
filled default (x ∷ xs) = x ∷ xs

abbrev pub or_default : {A : Type 0} → Option A → Option A → Option A
or_default default none = default
or_default default (some x) = some x

abbrev pub overlay : Request → Request → Request
overlay fresh r = record {
  protocol = filled fresh.protocol r.protocol;
  host = filled fresh.host r.host;
  path = filled fresh.path r.path;
  method = filled fresh.method r.method;
  params = filled fresh.params r.params;
  form = filled fresh.form r.form;
  json = or_default fresh.json r.json;
  headers = filled fresh.headers r.headers;
  cookies = filled fresh.cookies r.cookies;
  user_agent = filled fresh.user_agent r.user_agent;
  response_headers = r.response_headers || fresh.response_headers;
  request_id = filled fresh.request_id r.request_id;
}

-- The request that a node with a fresh id is to get.
abbrev pub received : Text → Request → Request
received id r = record r {
  protocol = filled (codes "https") r.protocol;
  method = filled (codes "GET") r.method;
  request_id = filled id r.request_id;
}

filled_empty : {A : Type 0} (xs : List A) → filled [] xs ≡ xs
filled_empty [] = refl
filled_empty (x ∷ xs) = refl

or_default-none : {A : Type 0} (o : Option A) → or_default none o ≡ o
or_default-none none = refl
or_default-none (some x) = refl

overlay-new_request :
    (id : Text) (payload : Request)
    → overlay (new_request id []) (sent payload) ≡ received id (sent payload)
unfolding new_request apply_options
overlay-new_request id payload =
    rw
      (
        filled_empty payload.host,
        filled_empty payload.path,
        filled_empty payload.params,
        filled_empty payload.form,
        or_default-none payload.json,
        filled_empty payload.headers,
        filled_empty payload.cookies,
        filled_empty payload.user_agent,
      )
      refl

-- What the caller of the gateway is to get, and that a response can be packed and sent.
abbrev pub expected : Fetched → HttpAnswer
expected (fetched r) = blob r.status_code (content_type r.header) r.body
expected f = error_response 502 400

abbrev pub Carries : Node → Request → Fetched → Type 0
Carries n request (fetched r) = IsDelivered n request (fetched r)
Carries n request f = Unit {0}

queue_of-first :
    (n : Node) (t : Transport) (id : Text) (r r' : Request) (message : List ℕ) (subject : Text)
    (timeout : ℤ)
    → t.encode r ≡ some message
    → t.decode (new_request id []) message ≡ some r'
    → n.publishes on_process ≡ true
    → n.publishes scheduled ≡ true
    → queue_of n t id subject r timeout ≡ (
        if t.arrives timeout
        then first_read n.wire t (waiting n.ticks ++ told n r' (outcome n r'))
        else none)
unfolding queue_of request_handle
queue_of-first n t id r r' message subject timeout encoded decoded taken go =
    rw (queue_of, encoded, decoded, taken)
      (ap (λ calls. if t.arrives timeout then first_read n.wire t calls else none)
        ((do_request-ends n r').0 ∙ rw go refl))

-- What the gateway makes of the first answer.
first_read-expected :
    (n : Node) (t : Transport) (r : Request) (f : Fetched)
    → WireLaws n.wire
    → IsPlain n.wire t
    → r.response_headers ≡ true
    → Carries n r f
    → (o : Option ProxyResponse) × ((send_request n.wire (first_read n.wire t (told n r f)) ≡ ok o)
        × (answer_of o ≡ expected f))
unfolding answer_of send_request
first_read-expected n t r not_sent laws plain headers c = (none, rw (plain.term_plain) (refl, refl))
first_read-expected n t r not_read laws plain headers c = (none, rw (plain.nak_plain) (refl, refl))
first_read-expected n t r (fetched resp) laws plain headers (bytes, (packed, went)) =
    let (p, facts) =
      send_request-pack_response n.wire n.gzip_min_length n.node_id true resp laws
        (rw headers at packed) in
    let is : told n r (fetched resp) ≡ respond bytes ∷ [] = ground arith in
    let read : first_read n.wire t (respond bytes ∷ []) ≡ some (some p) =
      rw (first_read, facts.0) refl in
    let back : send_request n.wire (some (some p)) ≡ ok (some (seen true resp)) =
      rw (facts.0) at facts.3 in
    (
      some (seen true resp),
      (
        ap (λ calls. send_request n.wire (first_read n.wire t calls)) is
            ∙ ap (send_request n.wire) read
            ∙ back,
        refl,
      ),
    )

is_suc : (n : ℕ) → (n == 0) ≡ false → (k : ℕ) × (n ≡ suc k)
is_suc zero h = absurd (cc)
is_suc (suc k) h = (k, refl)

-- A caller of the gateway whose request reaches a node gets the status, the content type and the body
-- that the node fetched for it, and the error 502 where the node could not fetch it; and the error 502
-- too where no answer came within the timeout, or the node noted progress before it: that note is the
-- first message on the reply subject. The node gets the request with the headers asked for, and with
-- https, GET and a fresh id where the caller gave nothing. Asked for are the round trips of JSON and
-- gzip, that JSON fills a fresh request with what this one gives, that acknowledgements are no JSON, that the node publishes
-- the statuses of the task, and, where there is a response, that it can be packed and sent.
pub request_proxy-do_request :
    (n : Node) (t : Transport) (id service_id : Text) (input : ProxyRequest) (payload : Request)
    (message : List ℕ)
    → WireLaws n.wire
    → IsPlain n.wire t
    → input.payload ≡ some payload
    → t.encode (sent payload) ≡ some message
    → t.decode (new_request id []) message ≡ some (overlay (new_request id []) (sent payload))
    → n.publishes on_process ≡ true
    → n.publishes scheduled ≡ true
    → let r = received id (sent payload) in
      Carries n r (outcome n r)
      → request_proxy n.wire service_id (queue_of n t id) (some input)
        ≡ ok (
            if t.arrives (or_ten input.timeout) && n.ticks == 0
            then expected (outcome n r)
            else error_response 502 400)
unfolding request_proxy answer_of send_request waiting
request_proxy-do_request n t id service_id input payload message laws plain has encoded decoded
      taken go carries =
    let r = received id (sent payload) in
    let got : t.decode (new_request id []) message ≡ some r =
      decoded ∙ ap (λ x. some x) (overlay-new_request id payload) in
    let first = λ (subject : Text) (timeout : ℤ).
      queue_of-first n t id (sent payload) r message subject timeout encoded got taken go in
    elim (Bool-cases (t.arrives (or_ten input.timeout))) [
      | inl early ↦ elim (Bool-cases (n.ticks == 0)) [
        | inl quiet ↦
            let (o, (reply, answer)) =
              first_read-expected n t r (outcome n r) laws plain refl carries in
            let none_noted : n.ticks ≡ 0 = ground arith in
            rw (request_proxy, has, first _ _, early, quiet, none_noted, reply, answer) refl
        | inr noted ↦
            let (k, some_noted) = is_suc n.ticks noted in
            rw (request_proxy, has, first _ _, early, noted, some_noted, plain.progress) refl
      ]
      | inr late ↦ rw (request_proxy, has, first _ _, late) refl
    ]
