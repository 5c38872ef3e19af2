-- ===== src/HttpProxy/Request.antt =====
-- client-http-proxy/api/request.go: requests and their options. An option changes a request, and
-- `NewRequest` applies the options in turn. The number that `snowFlake` draws is a parameter, and so
-- are values of type `any`, cookies among them: they are kept as bytes.
use focot_services.Prelude.{
  Text, codes, ℕ, Bool, true, false, Option, none, some, List, [], ◌∷◌, ◌++◌,
}

abbrev pub TextMap : Type 0
TextMap = List (Text × Text)

pub record Request : Type 0 where
  pub protocol : Text
  pub host : Text
  pub path : Text
  pub method : Text
  pub params : TextMap
  pub form : TextMap
  pub json : Option (List ℕ)
  pub headers : TextMap
  pub cookies : List (List ℕ)
  pub user_agent : Text
  pub response_headers : Bool
  pub request_id : Text

abbrev pub RequestOption : Type 0
RequestOption = Request → Request

unfoldable pub apply_options : List RequestOption → Request → Request
apply_options [] r = r
apply_options (opt ∷ opts) r = apply_options opts (opt r)

-- The fields that are not set are the zero values of Go.
abbrev pub default_request : Text → Request
default_request id = record {
  protocol = codes "https";
  host = [];
  path = [];
  method = codes "GET";
  params = [];
  form = [];
  json = none;
  headers = [];
  cookies = [];
  user_agent = [];
  response_headers = false;
  request_id = id;
}

unfoldable pub new_request : Text → List RequestOption → Request
unfolding apply_options
new_request id opts = apply_options opts (default_request id)

pub with_http_request : RequestOption
with_http_request r = record r { protocol = codes "http" }

pub with_https_request : RequestOption
with_https_request r = record r { protocol = codes "https" }

pub with_get_request : RequestOption
with_get_request r = record r { method = codes "GET" }

pub with_post_request : RequestOption
with_post_request r = record r { method = codes "POST" }

pub with_get_request_params : TextMap → RequestOption
with_get_request_params params r = record r { method = codes "GET"; params = params }

pub with_request_params : TextMap → RequestOption
with_request_params params r = record r { params = params }

pub with_post_request_form : TextMap → RequestOption
with_post_request_form form r = record r { method = codes "POST"; form = form }

pub with_post_request_json : List ℕ → RequestOption
with_post_request_json json r = record r { method = codes "POST"; json = some json }

pub with_request_host : Text → RequestOption
with_request_host host r = record r { host = host }

pub with_request_path : Text → RequestOption
with_request_path path r = record r { path = path }

pub with_header_echo_request : RequestOption
with_header_echo_request r = record r { response_headers = true }

-- What `BuildRequestOptions` hands to the HTTP library.
pub record HttpOptions : Type 0 where
  pub params : TextMap
  pub form : TextMap
  pub json : Option (List ℕ)
  pub headers : TextMap
  pub cookies : List (List ℕ)
  pub user_agent : Text

pub build_request_options : Request → HttpOptions
build_request_options r = record {
  params = r.params;
  form = r.form;
  json = r.json;
  headers = r.headers;
  cookies = r.cookies;
  user_agent = r.user_agent;
}

-- `fmt.Sprintf("%s://%s%s", …)` of client.go
pub request_url : Request → Text
request_url r = r.protocol ++ (codes "://" ++ (r.host ++ r.path))
