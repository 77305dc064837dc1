-- ===== src/Options/Settings.antt =====
-- options.go, capture_rules.go, profiler.go: each option as a change of the configuration, and
-- `configFromOptions`. The clamping of a float to 0..1 is a parameter, as are `strings.ToUpper` and
-- what the options of the dashboard do.
use webpprof.Prelude.{
  ℕ, String, str_eq, Bool, true, false, not, ◌&&◌, ◌||◌, Option, none, some, List, [], ◌∷◌, ◌++◌,
  ltb, ◌==◌, if◌then◌else◌, ℤ, pos, negsuc, ltb_ℤ,
}
use webpprof.Prelude.Assoc.{Assoc, lookup}
use webpprof.Prelude.Text.{Text, codes, text_eq, trim_space}
use mathlib.Core.List.{reverse}
use webpprof.Entry.{Kind, kind_text}
use webpprof.Contracts.{Request, SourceFrame}
use webpprof.Capture.{supports_callsite}
use webpprof.Dashboard.Widgets.{DashboardOption, apply_options}
use webpprof.Options.{Config, RequestFilter, default_config, has_kind, add_kind, remove_kind}
use webpprof.Options.Patterns.{parse_request_patterns}

-- `min(1, max(0, rate))`, and what the options use of the libraries
pub record Library (Float : Type 0) : Type 0 where
  pub clamp : Float → Float
  pub to_upper : Text → Text
  pub to_lower : Text → Text
  pub is_word : ℕ → Bool
  pub series_name : ℕ → Text
  pub counter_name : ℕ → Text

-- `value`, if it is positive
abbrev pub or_else : ℤ → ℕ → ℕ
or_else (negsuc n) old = old
or_else (pos n) old = if ltb 0 n then n else old

unfoldable pub supports_sidebar : Kind → Bool
supports_sidebar (Kind.other text) = false
supports_sidebar _ = true

-- the loop of `WithSidebarKinds`
unfoldable pub collect_sidebar : List Kind → List Kind → List Kind
collect_sidebar [] seen = []
collect_sidebar (k ∷ kinds) seen = elim (not (supports_sidebar k) || has_kind k seen) [
  | true ↦ collect_sidebar kinds seen
  | false ↦ k ∷ collect_sidebar kinds (k ∷ seen)
]

-- the loop of `WithCallsiteKinds`
unfoldable pub collect_callsite : List Kind → List Kind → List Kind
collect_callsite [] kept = kept
collect_callsite (k ∷ kinds) kept =
    collect_callsite kinds (if supports_callsite k then add_kind k kept else kept)

-- the loop of `WithDisabledKinds`
unfoldable pub collect_disabled : List Kind → List Kind → List Kind
collect_disabled [] kept = kept
collect_disabled (k ∷ kinds) kept =
    collect_disabled kinds (if str_eq (kind_text k) "" then kept else add_kind k kept)

unfoldable pub has_origin : Text → List Text → Bool
has_origin origin [] = false
has_origin origin (o ∷ origins) = text_eq o origin || has_origin origin origins

-- the loop of `WithAllowedOrigins`
unfoldable pub collect_origins : List Text → List Text → List Text
collect_origins [] kept = kept
collect_origins (o ∷ origins) kept =
    let origin = trim_space o in
    let added = if has_origin origin kept then kept else origin ∷ kept in
    collect_origins origins (if text_eq origin [] then kept else added)

unfoldable pub trim_slashes : Text → Text
trim_slashes [] = []
trim_slashes (c ∷ text) = let rest = trim_slashes text in if c == b'/' then rest else c ∷ text

-- `strings.Trim(path, "/")`
abbrev pub trimmed_path : Text → Text
trimmed_path path = reverse (trim_slashes (reverse (trim_slashes path)))

unfoldable pub has_status : ℤ → List ℤ → Bool
has_status status [] = false
has_status status (s ∷ statuses) =
    (not (ltb_ℤ s status) && not (ltb_ℤ status s)) || has_status status statuses

-- what a map of texts returns
abbrev pub text_or_empty : Option String → String
text_or_empty none = ""
text_or_empty (some text) = text

-- the loop of `WithRequestTags`, over a map
unfoldable pub has_tags : Assoc String → Assoc String → Bool
has_tags [] tags = true
has_tags ((key, value) ∷ expected) tags =
    str_eq (text_or_empty (lookup key tags)) value && has_tags expected tags

-- the filter of `WithBrowserSession`, for a session that is trimmed
unfoldable pub session_filter : Text → RequestFilter
session_filter session request =
    if text_eq session []
    then false
    else if text_eq (codes (request.header "X-Webpprof-Session")) session
    then true
    else elim (request.cookie "webpprof_capture") [
      | none ↦ false
      | some value ↦ text_eq (codes value) session
    ]

-- the calls that make an `Option`; a callback or a storage that is nil is `none`
pub data Setting (Float : Type 0) : Type 0 where
  storage_path : Text → Setting Float
  storage : Option Text → Setting Float
  query_callsite : Bool → Setting Float
  callsite_kinds : List Kind → Setting Float
  source_link : Option (SourceFrame → String) → Setting Float
  request_sample_rate : Float → Setting Float
  disabled_kinds : List Kind → Setting Float
  sidebar_kinds : List Kind → Setting Float
  base_path : Text → Setting Float
  token : String → Setting Float
  unsafe_unauthenticated_access : Setting Float
  retention max_events max_bytes body_limit : ℤ → Setting Float
  stream_buffer queue_stats_timeout dashboard_timeout : ℤ → Setting Float
  dashboard : List (Option (DashboardOption Float)) → Setting Float
  secure_cookie : Bool → Setting Float
  allowed_origins : List Text → Setting Float
  request_filter : Option RequestFilter → Setting Float
  excluded_requests : List Text → Setting Float
  request_retention_filter : Option (Request → Bool) → Setting Float
  http_status_codes : List ℤ → Setting Float
  http_status_at_least : ℤ → Setting Float
  min_request_duration : ℤ → Setting Float
  request_tags : Assoc String → Setting Float
  next_requests : ℤ → Setting Float
  browser_session : Text → Setting Float

module _ {Float : Type 0} where
  unfoldable pub with_storage_path : Text → Config Float → Config Float
  with_storage_path path c =
      let trimmed = trim_space path in
      record c {
        storage_name = none;
        storage_path = trimmed;
        storage_kind = if text_eq trimmed [] then codes "memory" else codes "disk";
      }

  unfoldable pub with_storage : Option Text → Config Float → Config Float
  with_storage none c = record c {
    storage_name = none;
    storage_path = [];
    storage_kind = codes "memory";
  }
  with_storage (some name) c =
      let trimmed = trim_space name in
      record c {
        storage_name = some name;
        storage_path = [];
        storage_kind = if text_eq trimmed [] then codes "custom" else trimmed;
      }

  unfoldable pub with_query_callsite : Bool → Config Float → Config Float
  with_query_callsite true c = record c { callsite_kinds = add_kind Kind.query c.callsite_kinds }
  with_query_callsite false c = record c {
    callsite_kinds = remove_kind Kind.query c.callsite_kinds;
  }

  unfoldable pub with_base_path : Text → Config Float → Config Float
  with_base_path path c =
      let trimmed = trimmed_path path in
      if text_eq trimmed [] then c else record c { base_path = b'/' ∷ trimmed }

  unfoldable pub with_body_limit : ℤ → Config Float → Config Float
  with_body_limit (pos n) c = record c { body_limit = n }
  with_body_limit (negsuc n) c = c

  unfoldable pub with_request_filter : Option RequestFilter → Config Float → Config Float
  with_request_filter none c = c
  with_request_filter (some f) c = record c { request_filters = c.request_filters ++ f ∷ [] }

  unfoldable pub with_request_retention_filter :
      Option (Request → Bool) → Config Float → Config Float
  with_request_retention_filter none c = c
  with_request_retention_filter (some f) c = record c {
    retention_filters = c.retention_filters ++ f ∷ [];
  }

  unfoldable pub with_next_requests : ℤ → Config Float → Config Float
  with_next_requests (pos n) c = record c { request_limit = pos n }
  with_next_requests (negsuc n) c = record c { request_limit = pos 0 }

module _ {Float : Type 0} (library : Library Float) where
  unfoldable pub apply_setting : Setting Float → Config Float → Config Float
  apply_setting (Setting.storage_path path) c = with_storage_path path c
  apply_setting (Setting.storage name) c = with_storage name c
  apply_setting (Setting.query_callsite enabled) c = with_query_callsite enabled c
  apply_setting (Setting.callsite_kinds kinds) c = record c {
    callsite_kinds = collect_callsite kinds [];
  }
  apply_setting (Setting.source_link link) c = record c { source_link = link }
  apply_setting (Setting.request_sample_rate rate) c = record c { sample = library.clamp rate }
  apply_setting (Setting.disabled_kinds kinds) c = record c {
    disabled_kinds = collect_disabled kinds c.disabled_kinds;
  }
  apply_setting (Setting.sidebar_kinds kinds) c = record c {
    sidebar_kinds = collect_sidebar kinds [];
  }
  apply_setting (Setting.base_path path) c = with_base_path path c
  apply_setting (Setting.token secret) c = record c { token = secret }
  apply_setting Setting.unsafe_unauthenticated_access c = record c { unsafe_no_auth = true }
  apply_setting (Setting.retention n) c = record c { retention = or_else n c.retention }
  apply_setting (Setting.max_events n) c = record c { max_events = or_else n c.max_events }
  apply_setting (Setting.max_bytes n) c = record c { max_bytes = or_else n c.max_bytes }
  apply_setting (Setting.body_limit n) c = with_body_limit n c
  apply_setting (Setting.stream_buffer n) c = record c { stream_buffer = or_else n c.stream_buffer }
  apply_setting (Setting.queue_stats_timeout n) c = record c {
    queue_timeout = or_else n c.queue_timeout;
  }
  apply_setting (Setting.dashboard_timeout n) c = record c {
    dashboard_timeout = or_else n c.dashboard_timeout;
  }
  apply_setting (Setting.dashboard options) c = record c {
    dashboard =
        apply_options library.to_lower library.is_word library.series_name library.counter_name
          options [];
  }
  apply_setting (Setting.secure_cookie is_secure) c = record c { secure_cookie = is_secure }
  apply_setting (Setting.allowed_origins origins) c = record c {
    allowed_origins = collect_origins origins c.allowed_origins;
  }
  apply_setting (Setting.request_filter f) c = with_request_filter f c
  apply_setting (Setting.excluded_requests patterns) c = record c {
    excluded = c.excluded ++ parse_request_patterns library.to_upper patterns;
  }
  apply_setting (Setting.request_retention_filter f) c = with_request_retention_filter f c
  apply_setting (Setting.http_status_codes statuses) c =
      with_request_retention_filter (some (λ r. has_status r.status statuses)) c
  apply_setting (Setting.http_status_at_least status) c =
      with_request_retention_filter (some (λ r. not (ltb_ℤ r.status status))) c
  apply_setting (Setting.min_request_duration duration) c =
      with_request_retention_filter (some (λ r. not (ltb_ℤ r.base.duration duration))) c
  apply_setting (Setting.request_tags tags) c =
      with_request_retention_filter (some (λ r. has_tags tags r.base.tags)) c
  apply_setting (Setting.next_requests count) c = with_next_requests count c
  apply_setting (Setting.browser_session session) c =
      with_request_filter (some (session_filter (trim_space session))) c

  -- the loop of `configFromOptions`; a nil option is skipped
  unfoldable pub apply_settings : List (Option (Setting Float)) → Config Float → Config Float
  apply_settings [] c = c
  apply_settings (none ∷ settings) c = apply_settings settings c
  apply_settings (some s ∷ settings) c = apply_settings settings (apply_setting s c)

  abbrev pub config_from_options : Float → List (Option (Setting Float)) → Config Float
  config_from_options one settings = apply_settings settings (default_config one)
