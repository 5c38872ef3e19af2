-- ===== src/HttpProxy/Packing.antt =====
-- client-http-proxy/client.go (`PackResponse`) and client-http-proxy/api (`PrepareUnPackedResponse`,
-- response.go): a response as it goes over the message queue. JSON and gzip are parameters.
pub mod RoundTrip
use focot_services.Prelude.{
  leb, if◌then◌else◌, length, Text, ℕ, Bool, true, false, Option, none, some, List, [],
}
use focot_services.Prelude.Int.{ℤ, pos, negsuc}
use focot_services.Prelude.Results.{Result, ok, err, ◌>>=◌, ◌>>◌, Fault, nil_dereference}

-- `http.Header`; the nil map and the empty map read alike.
abbrev pub Header : Type 0
Header = List (Text × List Text)

pub record ProxyResponse : Type 0 where
  pub status_code : ℤ
  pub body : List ℕ
  pub header : Header

pub record PackedResponse : Type 0 where
  pub is_ok : Bool
  pub node : Text
  pub payload : List ℕ
  pub gzip : Bool

-- What the source reads of a `grequests.Response`.
pub record HttpResponse : Type 0 where
  pub is_ok : Bool
  pub status_code : ℤ
  pub body : List ℕ
  pub header : Header

-- `gzip.NewReader` may fail at the header, and `io.Copy` behind it.
pub data Inflated : Type 0 where
  bad_header broken : Inflated
  inflated : List ℕ → Inflated

-- `json.Marshal`, `json.Unmarshal` at the two types, and the two ways of gzip; `none` is an error.
pub record Wire : Type 0 where
  pub marshal : ProxyResponse → Option (List ℕ)
  pub unmarshal : List ℕ → Option ProxyResponse
  pub marshal_packed : PackedResponse → Option (List ℕ)
  pub unmarshal_packed : List ℕ → Option PackedResponse
  pub deflate : List ℕ → Option (List ℕ)
  pub inflate : List ℕ → Inflated

-- `len(payload) >= cfg.GzipMinLength`
abbrev pub reaches : ℕ → ℤ → Bool
reaches n (pos k) = leb k n
reaches n (negsuc k) = true

-- The payload to send, and the flag.
unfoldable pub compress : Wire → ℤ → List ℕ → Option (List ℕ × Bool)
compress w gzip_min_length payload =
    if reaches (length payload) gzip_min_length
    then elim (w.deflate payload) [ none ↦ none | some bytes ↦ some (bytes, true) ]
    else some (payload, false)

-- `response_headers` is that of the request.
unfoldable pub pack_response : Wire → ℤ → Text → Bool → HttpResponse → Option (List ℕ)
unfolding compress
pack_response w gzip_min_length node response_headers response =
    elim (w.marshal (record {
      status_code = response.status_code;
      body = response.body;
      header = if response_headers then response.header else [];
    })) [
      | none ↦ none
      | some payload ↦ elim (compress w gzip_min_length payload) [
        | none ↦ none
        | some (bytes, flag) ↦
            w.marshal_packed
              (record { is_ok = response.is_ok; node = node; payload = bytes; gzip = flag })
      ]
    ]

-- `PrepareUnPackedResponse`, with `none` for an error. `reader.Close` is deferred before the error
-- of `gzip.NewReader` is tested, and the reader is nil then.
unfoldable pub unpack_response : Wire → PackedResponse → Result Fault (Option ProxyResponse)
unpack_response w p =
    if p.gzip
    then elim (w.inflate p.payload) [
      | bad_header ↦ err nil_dereference
      | broken ↦ ok none
      | inflated payload ↦ ok (w.unmarshal payload)
    ]
    else ok (w.unmarshal p.payload)

-- `SendRequest`: the answer of the queue is an error, or holds nil or a response.
unfoldable pub send_request :
    Wire → Option (Option PackedResponse) → Result Fault (Option ProxyResponse)
unfolding unpack_response
send_request w none = ok none
send_request w (some none) = err nil_dereference
send_request w (some (some p)) = unpack_response w p

-- `SendTypedRequest`: `decode` is `json.Unmarshal` into a pointer, which it may leave nil.
unfoldable pub send_typed_request :
    {T : Type 0}
    → Wire
    → (List ℕ → Option (Option T))
    → Option (Option PackedResponse)
    → Result Fault (Option (Option T))
unfolding send_request
send_typed_request w decode answer = do
  response ← send_request w answer
  ok (elim response [ none ↦ none | some r ↦ decode r.body ])
