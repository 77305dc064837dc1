-- ===== src/Options.antt =====
-- options.go, capture_rules.go: the configuration and the options that change it. A duration is in
-- nanoseconds. A float is a parameter, as is the value that an `any`-typed callback has. The fields
-- that an option only sets to a positive number are natural numbers.
pub mod Patterns
pub mod Settings
pub mod Valid
pub mod Kinds
pub mod Start
pub mod Sampling
pub mod Slots
mod Tests
use webpprof.Prelude.{
  ℕ, ◌+◌, ◌*◌, ◌^◌, String, str_eq, Bool, true, false, not, ◌&&◌, ◌||◌, Option, none, some, List,
  [], ◌∷◌, ◌++◌, ltb, ◌==◌, if◌then◌else◌, ℤ, pos, negsuc,
}
use webpprof.Prelude.Assoc.{Assoc}
use webpprof.Prelude.Text.{Text, codes, text_eq, trim_space, has_prefix}
use webpprof.Entry.{Kind, kind_text, is_kind}
use webpprof.Contracts.{Request, SourceFrame}
use webpprof.Store.{StorageKind}
use webpprof.Dashboard.{DashboardWidget}
use webpprof.Dashboard.Widgets.{default_dashboard}
use webpprof.Options.Patterns.{RequestPattern}

-- what the options read of an `http.Request`: `cookie` is the value of the cookie of a name, if
-- there is one
pub record HttpRequest : Type 0 where
  pub method : Text
  pub path : Text
  pub header : String → String
  pub cookie : String → Option String

abbrev pub RequestFilter : Type 0
RequestFilter = HttpRequest → Bool

-- `sample` is `requestSample`, and `storage_name` is `storage.Name()` of a storage that is not nil
pub record Config (Float : Type 0) : Type 0 where
  pub base_path : Text
  pub token : String
  pub unsafe_no_auth : Bool
  pub retention : ℕ
  pub max_events : ℕ
  pub max_bytes : ℕ
  pub body_limit : ℕ
  pub stream_buffer : ℕ
  pub queue_timeout : ℕ
  pub dashboard_timeout : ℕ
  pub dashboard : List (DashboardWidget Float)
  pub secure_cookie : Bool
  pub allowed_origins : List Text
  pub request_filters : List RequestFilter
  pub retention_filters : List (Request → Bool)
  pub excluded : List RequestPattern
  pub storage_kind : Text
  pub storage_path : Text
  pub storage_name : Option Text
  pub sample : Float
  pub request_limit : ℤ
  pub disabled_kinds : List Kind
  pub callsite_kinds : List Kind
  pub sidebar_kinds : List Kind
  pub source_link : Option (SourceFrame → String)

abbrev pub minutes : ℕ
minutes = 60 * 10 ^ 9

abbrev pub default_sidebar_kinds : List Kind
default_sidebar_kinds =
    Kind.schedule ∷ Kind.callable ∷ Kind.task ∷ Kind.request ∷ Kind.middleware ∷ Kind.query
    ∷ Kind.cache ∷ Kind.job ∷ Kind.email ∷ Kind.log ∷ Kind.http_call ∷ Kind.exception ∷ Kind.event
    ∷ []

-- `defaultConfig`, where `one` is the float 1
abbrev pub default_config : {Float : Type 0} → Float → Config Float
default_config one = record {
  base_path = codes "/debug/webpprof";
  token = "";
  unsafe_no_auth = false;
  retention = 30 * minutes;
  max_events = 10000;
  max_bytes = 64 * 2 ^ 20;
  body_limit = 64 * 2 ^ 10;
  stream_buffer = 256;
  queue_timeout = 1500 * 10 ^ 6;
  dashboard_timeout = 1500 * 10 ^ 6;
  dashboard = default_dashboard;
  secure_cookie = false;
  allowed_origins = [];
  request_filters = [];
  retention_filters = [];
  excluded = [];
  storage_kind = codes "memory";
  storage_path = [];
  storage_name = none;
  sample = one;
  request_limit = negsuc 0;
  disabled_kinds = [];
  callsite_kinds = Kind.query ∷ [];
  sidebar_kinds = default_sidebar_kinds;
  source_link = none;
}

-- a set of kinds
abbrev pub has_kind : Kind → List Kind → Bool
has_kind kind [] = false
has_kind kind (k ∷ kinds) = is_kind k kind || has_kind kind kinds

unfoldable pub add_kind : Kind → List Kind → List Kind
add_kind kind kinds = if has_kind kind kinds then kinds else kind ∷ kinds

unfoldable pub remove_kind : Kind → List Kind → List Kind
remove_kind kind [] = []
remove_kind kind (k ∷ kinds) =
    let rest = remove_kind kind kinds in if is_kind k kind then rest else k ∷ rest
