-- ===== src/Options/Valid.antt =====
-- options.go: what holds of a configuration, whatever options it is made from.
use webpprof.Prelude.{
  ℕ, ◌<◌, ◌≡◌, refl, Bool, true, false, Option, none, some, List, [], ◌∷◌, ℤ, pos, negsuc, ◌⊎◌, inl,
  inr, arith, Bool-cases,
}
use webpprof.Prelude.Text.{Text, codes, text_eq, text_eq_sound, trim_space}
use webpprof.Entry.{Kind, kind_text}
use webpprof.Capture.{supports_callsite}
use webpprof.Dashboard.Unique.{IsLayout, dashboard-IsLayout}
use webpprof.Contracts.{Request}
use webpprof.Options.{RequestFilter, Config, default_config, default_sidebar_kinds}
use webpprof.Options.Settings.{
  collect_sidebar, Library, Setting, or_else, apply_setting, apply_settings, config_from_options,
  trimmed_path, supports_sidebar, with_storage_path, with_storage, with_query_callsite,
  with_base_path, with_body_limit, with_request_filter, with_request_retention_filter,
  with_next_requests,
}
use webpprof.Options.Kinds.{
  Callsites, Sidebar, Origins, add_query-Callsites, remove_kind-Callsites,
  collect_callsite-Callsites, collect_sidebar-Sidebar, collect_origins-Origins,
}

-- The limits of the store and the timeouts are positive, the base path is below the root, at most one backend is configured and
-- a journal has a path, the lists of kinds and origins have what their readers expect of them, and the
-- dashboard is a layout.
pub record IsValid {Float : Type 0} (c : Config Float) : Type 0 where
  pub retention : 0 < c.retention
  pub max_events : 0 < c.max_events
  pub max_bytes : 0 < c.max_bytes
  pub stream_buffer : 0 < c.stream_buffer
  pub queue_timeout : 0 < c.queue_timeout
  pub dashboard_timeout : 0 < c.dashboard_timeout
  pub base_path : (path : Text) × (c.base_path ≡ b'/' ∷ path) × (text_eq path [] ≡ false)
  pub one_backend :
      (c.storage_path ≡ []) ⊎ ((c.storage_name ≡ none) × (c.storage_kind ≡ codes "disk"))
  pub callsites : Callsites c.callsite_kinds
  pub sidebar : Sidebar c.sidebar_kinds
  pub origins : Origins c.allowed_origins
  pub layout : IsLayout c.dashboard

or_else-positive : (n : ℤ) (old : ℕ) → 0 < old → 0 < or_else n old
or_else-positive (negsuc n) old h = h
or_else-positive (pos n) old h = ground arith

module _ {Float : Type 0} where
  -- the same as a tuple, of which an option changes one part
  abbrev Parts : Config Float → Type 0
  Parts c =
      ((0 < c.retention)
        × (0 < c.max_events)
        × (0 < c.max_bytes)
        × (0 < c.stream_buffer)
        × (0 < c.queue_timeout)
        × (0 < c.dashboard_timeout))
      × (((path : Text) × (c.base_path ≡ b'/' ∷ path) × (text_eq path [] ≡ false))
          × ((c.storage_path ≡ []) ⊎ ((c.storage_name ≡ none) × (c.storage_kind ≡ codes "disk"))))
      × (Callsites c.callsite_kinds × Sidebar c.sidebar_kinds × Origins c.allowed_origins)
      × IsLayout c.dashboard

  with_storage_path-Parts :
      (path : Text) (c : Config Float) → Parts c → Parts (with_storage_path path c)
  unfolding with_storage_path
  with_storage_path-Parts path c (limits, (root, _), lists, layout) =
      elim (Bool-cases (text_eq (trim_space path) [])) [
        | inl e ↦ (limits, (root, inl (text_eq_sound (trim_space path) [] e)), lists, layout)
        | inr e ↦ (limits, (root, inr (refl, rw e refl)), lists, layout)
      ]

  with_storage-Parts :
      (name : Option Text) (c : Config Float) → Parts c → Parts (with_storage name c)
  unfolding with_storage
  with_storage-Parts none c (limits, (root, _), lists, layout) =
      (limits, (root, inl refl), lists, layout)
  with_storage-Parts (some name) c (limits, (root, _), lists, layout) =
      (limits, (root, inl refl), lists, layout)

  with_base_path-Parts : (path : Text) (c : Config Float) → Parts c → Parts (with_base_path path c)
  unfolding with_base_path
  with_base_path-Parts path c (limits, (root, backend), lists, layout) =
      elim (Bool-cases (text_eq (trimmed_path path) [])) [
        | inl e ↦ rw (with_base_path, e) (limits, (root, backend), lists, layout)
        | inr e ↦
            rw (with_base_path, e) (limits, ((trimmed_path path, refl, e), backend), lists, layout)
      ]

  with_query_callsite-Parts :
      (enabled : Bool) (c : Config Float) → Parts c → Parts (with_query_callsite enabled c)
  unfolding with_query_callsite
  with_query_callsite-Parts true c (limits, paths, (callsites, sidebar, origins), layout) =
      (limits, paths, (add_query-Callsites c.callsite_kinds callsites, sidebar, origins), layout)
  with_query_callsite-Parts false c (limits, paths, (callsites, sidebar, origins), layout) =
      let removed = remove_kind-Callsites Kind.query c.callsite_kinds callsites in
      (limits, paths, (removed, sidebar, origins), layout)

  -- the options that change nothing of the parts on any branch
  with_body_limit-Parts : (n : ℤ) (c : Config Float) → Parts c → Parts (with_body_limit n c)
  unfolding with_body_limit
  with_body_limit-Parts (pos n) c v = v
  with_body_limit-Parts (negsuc n) c v = v

  with_request_filter-Parts :
      (f : Option RequestFilter) (c : Config Float) → Parts c → Parts (with_request_filter f c)
  unfolding with_request_filter
  with_request_filter-Parts none c v = v
  with_request_filter-Parts (some f) c v = v

  with_request_retention_filter-Parts :
      (f : Option (Request → Bool)) (c : Config Float)
      → Parts c
      → Parts (with_request_retention_filter f c)
  unfolding with_request_retention_filter
  with_request_retention_filter-Parts none c v = v
  with_request_retention_filter-Parts (some f) c v = v

  with_next_requests-Parts : (n : ℤ) (c : Config Float) → Parts c → Parts (with_next_requests n c)
  unfolding with_next_requests
  with_next_requests-Parts (pos n) c v = v
  with_next_requests-Parts (negsuc n) c v = v

  module _ (library : Library Float) where
    apply_setting-Parts :
        (s : Setting Float) (c : Config Float) → Parts c → Parts (apply_setting library s c)
    unfolding apply_setting
    apply_setting-Parts (Setting.storage_path path) c v = with_storage_path-Parts path c v
    apply_setting-Parts (Setting.storage name) c v = with_storage-Parts name c v
    apply_setting-Parts (Setting.query_callsite enabled) c v = with_query_callsite-Parts enabled c v
    apply_setting-Parts (Setting.base_path path) c v = with_base_path-Parts path c v
    apply_setting-Parts (Setting.retention n) c ((r, e, b, s, q, d), paths, lists, layout) =
        ((or_else-positive n c.retention r, e, b, s, q, d), paths, lists, layout)
    apply_setting-Parts (Setting.max_events n) c ((r, e, b, s, q, d), paths, lists, layout) =
        ((r, or_else-positive n c.max_events e, b, s, q, d), paths, lists, layout)
    apply_setting-Parts (Setting.max_bytes n) c ((r, e, b, s, q, d), paths, lists, layout) =
        ((r, e, or_else-positive n c.max_bytes b, s, q, d), paths, lists, layout)
    apply_setting-Parts (Setting.stream_buffer n) c ((r, e, b, s, q, d), paths, lists, layout) =
        ((r, e, b, or_else-positive n c.stream_buffer s, q, d), paths, lists, layout)
    apply_setting-Parts (Setting.queue_stats_timeout n) c
          ((r, e, b, s, q, d), paths, lists, layout) =
        ((r, e, b, s, or_else-positive n c.queue_timeout q, d), paths, lists, layout)
    apply_setting-Parts (Setting.dashboard_timeout n) c ((r, e, b, s, q, d), paths, lists, layout) =
        ((r, e, b, s, q, or_else-positive n c.dashboard_timeout d), paths, lists, layout)
    apply_setting-Parts (Setting.callsite_kinds kinds) c
          (limits, paths, (_, sidebar, origins), layout) =
        (limits, paths, (collect_callsite-Callsites kinds [] tt, sidebar, origins), layout)
    apply_setting-Parts (Setting.sidebar_kinds kinds) c
          (limits, paths, (callsites, _, origins), layout) =
        (limits, paths, (callsites, collect_sidebar-Sidebar kinds, origins), layout)
    apply_setting-Parts (Setting.allowed_origins os) c
          (limits, paths, (callsites, sidebar, origins), layout) =
        let collected = collect_origins-Origins os c.allowed_origins origins in
        (limits, paths, (callsites, sidebar, collected), layout)
    apply_setting-Parts (Setting.dashboard options) c (limits, paths, lists, _) =
        let library_layout =
          dashboard-IsLayout library.to_lower library.is_word library.series_name
            library.counter_name options in
        (limits, paths, lists, library_layout.0)
    apply_setting-Parts (Setting.body_limit n) c v = with_body_limit-Parts n c v
    apply_setting-Parts (Setting.request_filter f) c v = with_request_filter-Parts f c v
    apply_setting-Parts (Setting.request_retention_filter f) c v =
        with_request_retention_filter-Parts f c v
    apply_setting-Parts (Setting.http_status_codes statuses) c v =
        with_request_retention_filter-Parts _ c v
    apply_setting-Parts (Setting.http_status_at_least status) c v =
        with_request_retention_filter-Parts _ c v
    apply_setting-Parts (Setting.min_request_duration duration) c v =
        with_request_retention_filter-Parts _ c v
    apply_setting-Parts (Setting.request_tags tags) c v = with_request_retention_filter-Parts _ c v
    apply_setting-Parts (Setting.next_requests count) c v = with_next_requests-Parts count c v
    apply_setting-Parts (Setting.browser_session session) c v = with_request_filter-Parts _ c v
    apply_setting-Parts (Setting.source_link link) c v = v
    apply_setting-Parts (Setting.request_sample_rate rate) c v = v
    apply_setting-Parts (Setting.disabled_kinds kinds) c v = v
    apply_setting-Parts (Setting.token secret) c v = v
    apply_setting-Parts Setting.unsafe_unauthenticated_access c v = v
    apply_setting-Parts (Setting.secure_cookie is_secure) c v = v
    apply_setting-Parts (Setting.excluded_requests patterns) c v = v

    apply_settings-Parts :
        (settings : List (Option (Setting Float))) (c : Config Float)
        → Parts c
        → Parts (apply_settings library settings c)
    unfolding apply_settings
    apply_settings-Parts [] c v = v
    apply_settings-Parts (none ∷ settings) c v = apply_settings-Parts settings c v
    apply_settings-Parts (some s ∷ settings) c v =
        apply_settings-Parts settings (apply_setting library s c) (apply_setting-Parts s c v)

    default_config-Parts : (one : Float) → Parts (default_config one)
    unfolding supports_callsite supports_sidebar kind_text collect_sidebar
    default_config-Parts one = (
      (omega arith, omega arith, omega arith, omega arith, omega arith, omega arith),
      ((codes "debug/webpprof", refl, refl), inl refl),
      ((refl, tt), collect_sidebar-Sidebar default_sidebar_kinds, tt),
      (dashboard-IsLayout library.to_lower library.is_word library.series_name library.counter_name
          []).1,
    )

    -- Whatever options a profiler is made with, its configuration is valid: the retention, the limits of entries, of
    -- bytes and of a stream's channel, and the two timeouts are positive, the base path is below the root, a journal and
    -- an external storage are not configured together, and the kinds, origins and widgets are in order.
    pub config_from_options-IsValid :
        (one : Float) (settings : List (Option (Setting Float)))
        → IsValid (config_from_options library one settings)
    config_from_options-IsValid one settings =
        let ((r, e, b, s, q, d), (root, backend), (callsites, sidebar, origins), layout) =
          apply_settings-Parts settings (default_config one) (default_config-Parts one) in
        record {
          retention = r;
          max_events = e;
          max_bytes = b;
          stream_buffer = s;
          queue_timeout = q;
          dashboard_timeout = d;
          base_path = root;
          one_backend = backend;
          callsites = callsites;
          sidebar = sidebar;
          origins = origins;
          layout = layout;
        }
