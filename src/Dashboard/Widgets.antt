-- ===== src/Dashboard/Widgets.antt =====
-- dashboard.go: the options that add a widget, and the default dashboard.
use webpprof.Prelude.{ℕ, suc, ◌+◌, Bool, Option, none, some, List, [], ◌∷◌, if◌then◌else◌, ℤ, pos}
use webpprof.Prelude.Text.{Text, codes, text_eq, trim_space}
use webpprof.Dashboard.{
  DashboardMetricMode, DashboardMetric, DashboardSeries, DashboardChart, DashboardCounter,
  DashboardCounterGrid, WidgetBody, DashboardWidget, dashboard_span, normalized_dashboard_format,
  dashboard_id, set_widget,
}

pub data Builtin : Type 0 where
  cpu memory requests queries cache goroutines : Builtin
  event_mix queue_health slowest_operations : Builtin

-- the arguments with which a built-in widget is added: its id, kind, title, description and span
abbrev pub builtin_arguments : Builtin → Text × Text × Text × Text × ℤ
builtin_arguments Builtin.cpu =
    (codes "cpu", codes "metric", codes "CPU usage", codes "Process CPU utilization", pos 1)
builtin_arguments Builtin.memory = (
  codes "memory",
  codes "metric",
  codes "Go memory",
  codes "Memory held by the Go runtime",
  pos 1,
)
builtin_arguments Builtin.requests = (
  codes "requests",
  codes "metric",
  codes "HTTP requests",
  codes "Recorded request throughput",
  pos 1,
)
builtin_arguments Builtin.queries = (
  codes "queries",
  codes "metric",
  codes "Database queries",
  codes "Recorded query throughput",
  pos 1,
)
builtin_arguments Builtin.cache = (
  codes "cache",
  codes "metric",
  codes "Cache hit rate",
  codes "Hits across recorded cache operations",
  pos 1,
)
builtin_arguments Builtin.goroutines = (
  codes "goroutines",
  codes "metric",
  codes "Goroutines",
  codes "Current Go goroutine count",
  pos 1,
)
builtin_arguments Builtin.event_mix = (
  codes "event_mix",
  codes "event_mix",
  codes "Event mix",
  codes "Events retained by the profiler",
  pos 2,
)
builtin_arguments Builtin.queue_health = (
  codes "queue_health",
  codes "queue_health",
  codes "Queue health",
  codes "Backlog and worker capacity by queue",
  pos 4,
)
builtin_arguments Builtin.slowest_operations = (
  codes "slowest_operations",
  codes "slowest_operations",
  codes "Slowest operations",
  codes "Requests, queries and HTTP calls",
  pos 4,
)

abbrev pub titled : Text → Text → Text
titled title id = if text_eq (trim_space title) [] then id else title

-- the two tests on the mode
abbrev pub metric_mode : DashboardMetricMode → DashboardMetricMode
metric_mode (DashboardMetricMode.other text) = DashboardMetricMode.value
metric_mode DashboardMetricMode.value = DashboardMetricMode.value
metric_mode DashboardMetricMode.rate = DashboardMetricMode.rate

-- `withBuiltinDashboardWidget`
unfoldable pub with_builtin :
    {Float : Type 0} → Builtin → List (DashboardWidget Float) → List (DashboardWidget Float)
with_builtin b widgets =
    let (id, kind, title, description, span) = builtin_arguments b in
    set_widget
      (record {
        id = id;
        title = title;
        description = description;
        span = dashboard_span span (pos 1);
        body = WidgetBody.builtin id kind;
      })
      widgets

module _ {Float : Type 0} (to_lower : Text → Text) (is_word : ℕ → Bool)
    (series_name counter_name : ℕ → Text) where
  unfoldable pub normalized_metric : DashboardMetric Float → DashboardMetric Float
  normalized_metric m =
      let id = dashboard_id to_lower is_word m.id m.title (codes "metric") in
      record m {
        id = id;
        format = normalized_dashboard_format m.format;
        mode = metric_mode m.mode;
        title = titled m.title id;
      }

  -- the loop of `WithCustomChart`, at an index
  unfoldable pub named_series : ℕ → List (DashboardSeries Float) → List (DashboardSeries Float)
  named_series index [] = []
  named_series index (s ∷ series) =
      record s { id = dashboard_id to_lower is_word s.id s.label (series_name (index + 1)) }
      ∷ named_series (suc index) series

  unfoldable pub normalized_chart : DashboardChart Float → DashboardChart Float
  normalized_chart c =
      let id = dashboard_id to_lower is_word c.id c.title (codes "chart") in
      record c {
        id = id;
        format = normalized_dashboard_format c.format;
        span = dashboard_span c.span (pos 2);
        series = named_series 0 c.series;
        title = titled c.title id;
      }

  -- the loop of `WithCounterGrid`, at an index
  unfoldable pub named_counters : ℕ → List (DashboardCounter Float) → List (DashboardCounter Float)
  named_counters index [] = []
  named_counters index (c ∷ counters) =
      record c {
        id = dashboard_id to_lower is_word c.id c.label (counter_name (index + 1));
        format = normalized_dashboard_format c.format;
      }
      ∷ named_counters (suc index) counters

  unfoldable pub normalized_grid : DashboardCounterGrid Float → DashboardCounterGrid Float
  normalized_grid g =
      let id = dashboard_id to_lower is_word g.id g.title (codes "counter-grid") in
      record g {
        id = id;
        span = dashboard_span g.span (pos 2);
        counters = named_counters 0 g.counters;
        title = titled g.title id;
      }

  unfoldable pub with_custom_metric :
      DashboardMetric Float → List (DashboardWidget Float) → List (DashboardWidget Float)
  with_custom_metric metric widgets =
      let m = normalized_metric metric in
      set_widget
        (record {
          id = m.id;
          title = m.title;
          description = m.description;
          span = pos 1;
          body = WidgetBody.metric m;
        })
        widgets

  unfoldable pub with_custom_chart :
      DashboardChart Float → List (DashboardWidget Float) → List (DashboardWidget Float)
  with_custom_chart chart widgets =
      let c = normalized_chart chart in
      set_widget
        (record {
          id = c.id;
          title = c.title;
          description = c.description;
          span = c.span;
          body = WidgetBody.chart c;
        })
        widgets

  unfoldable pub with_counter_grid :
      DashboardCounterGrid Float → List (DashboardWidget Float) → List (DashboardWidget Float)
  with_counter_grid grid widgets =
      let g = normalized_grid grid in
      set_widget
        (record {
          id = g.id;
          title = g.title;
          description = g.description;
          span = g.span;
          body = WidgetBody.counter_grid g;
        })
        widgets

-- the calls that make a `DashboardOption`
pub data DashboardOption (Float : Type 0) : Type 0 where
  builtin : Builtin → DashboardOption Float
  custom_metric : DashboardMetric Float → DashboardOption Float
  custom_chart : DashboardChart Float → DashboardOption Float
  counter_grid : DashboardCounterGrid Float → DashboardOption Float

module _ {Float : Type 0} (to_lower : Text → Text) (is_word : ℕ → Bool)
    (series_name counter_name : ℕ → Text) where
  unfoldable pub apply_option :
      DashboardOption Float → List (DashboardWidget Float) → List (DashboardWidget Float)
  apply_option (DashboardOption.builtin b) widgets = with_builtin b widgets
  apply_option (DashboardOption.custom_metric m) widgets =
      with_custom_metric to_lower is_word series_name counter_name m widgets
  apply_option (DashboardOption.custom_chart c) widgets =
      with_custom_chart to_lower is_word series_name counter_name c widgets
  apply_option (DashboardOption.counter_grid g) widgets =
      with_counter_grid to_lower is_word series_name counter_name g widgets

  -- the loop of `Dashboard`; a nil option is skipped
  unfoldable pub apply_options :
      List (Option (DashboardOption Float))
      → List (DashboardWidget Float)
      → List (DashboardWidget Float)
  apply_options [] widgets = widgets
  apply_options (none ∷ options) widgets = apply_options options widgets
  apply_options (some o ∷ options) widgets = apply_options options (apply_option o widgets)

abbrev pub default_builtins : List Builtin
default_builtins =
    Builtin.cpu ∷ Builtin.memory ∷ Builtin.requests ∷ Builtin.queries ∷ Builtin.cache
    ∷ Builtin.goroutines ∷ Builtin.event_mix ∷ Builtin.queue_health ∷ Builtin.slowest_operations
    ∷ []

unfoldable pub add_builtins :
    {Float : Type 0} → List Builtin → List (DashboardWidget Float) → List (DashboardWidget Float)
add_builtins [] widgets = widgets
add_builtins (b ∷ builtins) widgets = add_builtins builtins (with_builtin b widgets)

-- `defaultDashboardConfig`
unfoldable pub default_dashboard : {Float : Type 0} → List (DashboardWidget Float)
default_dashboard = add_builtins default_builtins []
