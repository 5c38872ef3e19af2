-- ===== src/HttpProxy/Client/Answers.antt =====
-- What a request tells: the messages on its reply subject and the statuses of its task.
use focot_services.Prelude.{
  if◌then◌else◌, Bool-cases, ℕ, zero, suc, ◌≡◌, refl, ap, ◌∙◌, inl, inr, true, Option, none, some,
  List, [], ◌∷◌, ◌++◌, arith,
}
use focot_services.HttpProxy.Request.{Request, build_request_options, request_url}
use focot_services.HttpProxy.Packing.{pack_response}
use focot_services.HttpProxy.Client.{
  TaskStatus, scheduled, finished, failed, Call, update, in_progress, nak, term, respond, send,
  add_task, Fetched, not_sent, not_read, fetched, Node, waiting, process_response, on_fetched,
  do_request,
}

-- The calls whose message reaches the reply subject of a request, in their order.
abbrev pub replies : Node → List Call → List Call
replies n [] = []
replies n (in_progress ∷ calls) = in_progress ∷ replies n calls
replies n (nak ∷ calls) = nak ∷ replies n calls
replies n (term ∷ calls) = term ∷ replies n calls
replies n (respond bytes ∷ calls) =
    let rest = replies n calls in if n.responds bytes then respond bytes ∷ rest else rest
replies n (update _ ∷ calls) = replies n calls
replies n (send _ _ _ ∷ calls) = replies n calls
replies n (add_task _ ∷ calls) = replies n calls

-- The statuses that calls try to publish, in their order.
abbrev pub statuses : List Call → List TaskStatus
statuses [] = []
statuses (update status ∷ calls) = status ∷ statuses calls
statuses (in_progress ∷ calls) = statuses calls
statuses (nak ∷ calls) = statuses calls
statuses (term ∷ calls) = statuses calls
statuses (respond _ ∷ calls) = statuses calls
statuses (send _ _ _ ∷ calls) = statuses calls
statuses (add_task _ ∷ calls) = statuses calls

replies-waiting :
    (n : Node) (k : ℕ) (calls : List Call)
    → replies n (waiting k ++ calls) ≡ waiting k ++ replies n calls
unfolding waiting
replies-waiting n zero calls = refl
replies-waiting n (suc k) calls = ap (in_progress ∷◌) (replies-waiting n k calls)

statuses-waiting : (k : ℕ) (calls : List Call) → statuses (waiting k ++ calls) ≡ statuses calls
unfolding waiting
statuses-waiting zero calls = refl
statuses-waiting (suc k) calls = statuses-waiting k calls

-- What comes of the request of a node.
abbrev pub outcome : Node → Request → Fetched
outcome n request = n.fetch request.method (request_url request) (build_request_options request)

-- The bytes with which a response is answered went out.
abbrev pub IsDelivered : Node → Request → Fetched → Type 0
IsDelivered n request (fetched r) =
    (bytes : List ℕ) × ((pack_response n.wire n.gzip_min_length n.node_id request.response_headers r
        ≡ some bytes)
      × (n.responds bytes ≡ true))
IsDelivered n request f = ⊥

-- What a response is answered with, if it is.
abbrev pub packed_answer : Node → Request → Fetched → Option (List ℕ)
packed_answer n request (fetched r) =
    pack_response n.wire n.gzip_min_length n.node_id request.response_headers r
packed_answer n request f = none

-- What the reply subject gets behind the wait, and the status that comes last.
abbrev pub told : Node → Request → Fetched → List Call
told n request not_sent = term ∷ []
told n request not_read = nak ∷ []
told n request (fetched r) = elim (packed_answer n request (fetched r)) [
  | none ↦ []
  | some bytes ↦ if n.responds bytes then respond bytes ∷ [] else []
]

abbrev pub verdict : Node → Request → Fetched → List TaskStatus
verdict n request not_sent = failed ∷ []
verdict n request not_read = failed ∷ []
verdict n request (fetched r) = elim (packed_answer n request (fetched r)) [
  | none ↦ []
  | some bytes ↦ (if n.responds bytes then finished else failed) ∷ []
]

on_fetched-told :
    (n : Node) (request : Request) (f : Fetched)
    → (replies n (on_fetched n request f) ≡ told n request f)
      × (statuses (on_fetched n request f) ≡ verdict n request f)
unfolding on_fetched process_response
on_fetched-told n request not_sent = (refl, refl)
on_fetched-told n request not_read = (refl, refl)
on_fetched-told n request (fetched r) = (ground arith, ground arith)

-- What the reply subject of a request gets, in order: nothing where the status scheduled could not be
-- published, and else one note of progress for each tick of the wait, and then a term for a request that
-- could not be sent, a nak for a response that could not be read, or the packed response, where it could
-- be packed and sent. The statuses that the node tries to publish: scheduled, and where that went out,
-- at last failed where there is no response or it could not be sent, and finished where it was sent;
-- a response that cannot be packed leaves the task with neither.
pub do_request-ends :
    (n : Node) (request : Request)
    → let calls = do_request n request in
      let f = outcome n request in
      (replies n calls
        ≡ (if n.publishes scheduled then waiting n.ticks ++ told n request f else []))
      × (statuses calls ≡ scheduled ∷ (if n.publishes scheduled then verdict n request f else []))
unfolding do_request
do_request-ends n request = elim (Bool-cases (n.publishes scheduled)) [
  | inl go ↦
      let (answers, last) = on_fetched-told n request (outcome n request) in
      rw go (
        replies-waiting n n.ticks (on_fetched n request (outcome n request))
            ∙ ap (waiting n.ticks ++◌) answers,
        ap (scheduled ∷◌)
            (statuses-waiting n.ticks (on_fetched n request (outcome n request)) ∙ last),
      )
  | inr stay ↦ rw stay (refl, refl)
]
