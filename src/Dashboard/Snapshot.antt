-- ===== src/Dashboard/Snapshot.antt =====
-- dashboard.go: `DashboardSnapshot` of a profiler that is not nil. The context with its timeout reaches only
-- the callbacks. The time of the snapshot is left out.
use webpprof.Prelude.{ℕ, suc, Bool, none, some, List, [], ◌∷◌, ◌++◌, if◌then◌else◌, ℤ}
use webpprof.Prelude.Text.{Text, codes}
use webpprof.Dashboard.{
  DashboardFormat, DashboardMetricMode, Outcome, DashboardValueFunc, DashboardMetric,
  DashboardSeries, DashboardCounter, WidgetBody, DashboardWidget,
}

pub record DashboardMetricSnapshot (Float : Type 0) : Type 0 where
  pub value : Float
  pub unit : Text
  pub format : DashboardFormat
  pub mode : DashboardMetricMode
  pub sparkline : Bool
  pub color : Text
  pub error : Text

pub record DashboardSeriesSnapshot (Float : Type 0) : Type 0 where
  pub id : Text
  pub label : Text
  pub color : Text
  pub value : Float
  pub error : Text

pub record DashboardCounterSnapshot (Float : Type 0) : Type 0 where
  pub id : Text
  pub label : Text
  pub unit : Text
  pub format : DashboardFormat
  pub value : Float
  pub error : Text

-- `Builtin`, `Metric`, `Series` with `Unit` and `Format`, or `Counters`
pub data SnapshotBody (Float : Type 0) : Type 0 where
  builtin : Text → Text → SnapshotBody Float
  metric : DashboardMetricSnapshot Float → SnapshotBody Float
  chart : Text → DashboardFormat → List (DashboardSeriesSnapshot Float) → SnapshotBody Float
  counter_grid : List (DashboardCounterSnapshot Float) → SnapshotBody Float

pub record DashboardWidgetSnapshot (Float : Type 0) : Type 0 where
  pub id : Text
  pub title : Text
  pub description : Text
  pub span : ℤ
  pub body : SnapshotBody Float

-- the text of a panic, of which the `recover` makes an error
abbrev pub panic_text : Text → Text
panic_text recovered = codes "dashboard value source panicked: " ++ recovered

module _ {Float : Type 0} (zero_value : Float) (is_finite : Float → Bool) where
  -- `dashboardValue` and `dashboardError`: the value, and the text of the error, which is empty without one
  unfoldable pub checked : Outcome Float → Float × Text
  checked (Outcome.returned value) =
      if is_finite value then (value, []) else (zero_value, codes "dashboard value is not finite")
  checked (Outcome.failed value error) = (value, error)
  checked (Outcome.panicked recovered) = (zero_value, panic_text recovered)

  -- with how many calls came before, and how many came in the end
  unfoldable pub dashboard_value : ℕ → DashboardValueFunc Float → (Float × Text) × ℕ
  dashboard_value calls none = ((zero_value, codes "dashboard value source is nil"), calls)
  dashboard_value calls (some source) = (checked (source calls), suc calls)

  unfoldable pub sample_metric : ℕ → DashboardMetric Float → DashboardMetricSnapshot Float × ℕ
  sample_metric calls m =
      let ((value, error), calls') = dashboard_value calls m.source in
      (
        record {
          value = value;
          unit = m.unit;
          format = m.format;
          mode = m.mode;
          sparkline = m.sparkline;
          color = m.color;
          error = error;
        },
        calls',
      )

  unfoldable pub sample_series :
      ℕ → List (DashboardSeries Float) → List (DashboardSeriesSnapshot Float) × ℕ
  sample_series calls [] = ([], calls)
  sample_series calls (s ∷ series) =
      let ((value, error), calls') = dashboard_value calls s.source in
      let (rest, calls'') = sample_series calls' series in
      (
        record { id = s.id; label = s.label; color = s.color; value = value; error = error } ∷ rest,
        calls'',
      )

  unfoldable pub sample_counters :
      ℕ → List (DashboardCounter Float) → List (DashboardCounterSnapshot Float) × ℕ
  sample_counters calls [] = ([], calls)
  sample_counters calls (c ∷ counters) =
      let ((value, error), calls') = dashboard_value calls c.source in
      let (rest, calls'') = sample_counters calls' counters in
      (
        record {
          id = c.id;
          label = c.label;
          unit = c.unit;
          format = c.format;
          value = value;
          error = error;
        }
            ∷ rest,
        calls'',
      )

  unfoldable pub sample_body : ℕ → WidgetBody Float → SnapshotBody Float × ℕ
  sample_body calls (WidgetBody.builtin name kind) = (SnapshotBody.builtin name kind, calls)
  sample_body calls (WidgetBody.metric m) =
      let (sample, calls') = sample_metric calls m in (SnapshotBody.metric sample, calls')
  sample_body calls (WidgetBody.chart c) =
      let (series, calls') = sample_series calls c.series in
      (SnapshotBody.chart c.unit c.format series, calls')
  sample_body calls (WidgetBody.counter_grid g) =
      let (counters, calls') = sample_counters calls g.counters in
      (SnapshotBody.counter_grid counters, calls')

  unfoldable pub sample_widget : ℕ → DashboardWidget Float → DashboardWidgetSnapshot Float × ℕ
  sample_widget calls w =
      let (body, calls') = sample_body calls w.body in
      (
        record {
          id = w.id;
          title = w.title;
          description = w.description;
          span = w.span;
          body = body;
        },
        calls',
      )

  unfoldable pub dashboard_snapshot :
      ℕ → List (DashboardWidget Float) → List (DashboardWidgetSnapshot Float) × ℕ
  dashboard_snapshot calls [] = ([], calls)
  dashboard_snapshot calls (w ∷ widgets) =
      let (sample, calls') = sample_widget calls w in
      let (rest, calls'') = dashboard_snapshot calls' widgets in (sample ∷ rest, calls'')
