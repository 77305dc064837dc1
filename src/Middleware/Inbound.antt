-- ===== src/Middleware/Inbound.antt =====
-- profiler/http/middleware.go: what `MiddlewareWith` records of a request: `sanitizeQuery`, `RequestScheme`,
-- `remoteIP` and the Request that `BeginRequest` gets. The request and its URL are not nil.
use webpprof.Prelude.{
  ℕ, String, Bool, false, Option, none, some, List, [], ◌∷◌, if◌then◌else◌, ℤ, pos,
}
use webpprof.Prelude.Assoc.{Assoc}
use webpprof.Prelude.Text.{Text, codes, text_eq, trim_space, cut}
use webpprof.Redact.{is_sensitive_key}
use webpprof.Contracts.{HttpMessage, Request}
use webpprof.Capture.Context.{Context, tags_from_context}

-- functions of net, net/url, mime and strings: `url.ParseQuery`, `Values.Encode`, the replacement of the
-- escaped "[REDACTED]" by the plain one, `net.SplitHostPort`, `strings.ToLower`, the formatting of a body for its
-- content type, and the Content-Type of headers
pub record HttpLibrary : Type 0 where
  pub parse_query : String → Option (Assoc (List String))
  pub encode : Assoc (List String) → String
  pub unescape_redacted : String → String
  pub split_host_port : String → Option String
  pub to_lower : Text → Text
  pub format_body : List ℕ → String → String
  pub content_type : Assoc (List String) → String

-- the fields of an `http.Request` that are read; `message` is its `SnapshotRequest`
pub record InboundRequest : Type 0 where
  pub method : String
  pub path : String
  pub raw_query : String
  pub url_scheme : String
  pub forwarded_proto : String
  pub over_tls : Bool
  pub protocol : String
  pub host : String
  pub remote_addr : String
  pub content_length : ℤ
  pub message : HttpMessage

unfoldable pub redact_values : Assoc (List String) → Assoc (List String)
redact_values [] = []
redact_values ((key, values) ∷ rest) =
    (key, (if is_sensitive_key (codes key) then "[REDACTED]" ∷ [] else values)) ∷ redact_values rest

unfoldable pub sanitize_query : HttpLibrary → String → String
sanitize_query library raw = elim (library.parse_query raw) [
  | none ↦ "[REDACTED]"
  | some values ↦ library.unescape_redacted (library.encode (redact_values values))
]

unfoldable pub scheme_of : HttpLibrary → Text → Option String
scheme_of library candidate =
    let scheme = library.to_lower (trim_space candidate) in
    if text_eq scheme (codes "http")
    then some "http"
    else if text_eq scheme (codes "https")
    then some "https"
    else none

unfoldable pub request_scheme : HttpLibrary → InboundRequest → String
request_scheme library r =
    let fallback = if r.over_tls then "https" else "http" in
    elim (scheme_of library (codes r.url_scheme)) [
      | some scheme ↦ scheme
      | none ↦ elim (scheme_of library (cut b',' (codes r.forwarded_proto)).0) [
        | some scheme ↦ scheme
        | none ↦ fallback
      ]
    ]

unfoldable pub remote_ip : HttpLibrary → String → String
remote_ip library address = elim (library.split_host_port address) [
  | none ↦ address
  | some host ↦ host
]

abbrev no_message : HttpMessage
no_message = record { headers = []; content_type = ""; body = ""; size = pos 0; truncated = false }

unfoldable pub request_of : HttpLibrary → Context → InboundRequest → Request
request_of library ctx r = record {
  base = record {
    id = "";
    request_id = "";
    parent_id = "";
    origin_request_id = "";
    process = "";
    instance_name = "";
    started_at = 0;
    duration = pos 0;
    tags = tags_from_context ctx;
  };
  method = r.method;
  path = r.path;
  route = "";
  query = sanitize_query library r.raw_query;
  scheme = request_scheme library r;
  protocol = r.protocol;
  host = r.host;
  remote_ip = remote_ip library r.remote_addr;
  status = pos 0;
  request_size = r.content_length;
  response_size = pos 0;
  request_message = r.message;
  response = no_message;
  error = "";
  queries = [];
  emails = [];
  cache = [];
  jobs = [];
  logs = [];
  http_calls = [];
  schedules = [];
  exceptions = [];
  events = [];
  middlewares = [];
}
