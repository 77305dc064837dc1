-- ===== src/Dashboard.antt =====
-- dashboard.go: the widgets of the dashboard. A text is a list of code points; the value of a callback
-- is a float, whose type and operations are parameters, as are `strings.ToLower`, the test for a
-- letter or a digit, and the printing of a number.
pub mod Widgets
pub mod Unique
pub mod Snapshot
pub mod Finite
mod Tests
use webpprof.Prelude.{
  ℕ, zero, suc, min, max, Bool, true, false, not, ◌&&◌, Option, none, some, List, [], ◌∷◌, ◌++◌,
  ◌==◌, if◌then◌else◌, ℤ, pos, negsuc, leb,
}
use webpprof.Prelude.Text.{Text, codes, text_eq, trim_space}
use mathlib.Core.List.{reverse}

-- `other` holds a text that is none of the constants
pub data DashboardFormat : Type 0 where
  number bytes percent duration : DashboardFormat
  other : Text → DashboardFormat

-- an empty mode is `other` of the empty text
pub data DashboardMetricMode : Type 0 where
  value rate : DashboardMetricMode
  other : Text → DashboardMetricMode

-- what a call of a `DashboardValueFunc` does
pub data Outcome (Float : Type 0) : Type 0 where
  returned : Float → Outcome Float
  failed : Float → Text → Outcome Float
  panicked : Text → Outcome Float

-- a `DashboardValueFunc`, called with the context of the snapshot; `none` is nil. A callback may have any state, so what
-- it does depends on when it is called: on how many calls of callbacks came before.
abbrev pub DashboardValueFunc : Type 0 → Type 0
DashboardValueFunc Float = Option (ℕ → Outcome Float)

pub record DashboardMetric (Float : Type 0) : Type 0 where
  pub id : Text
  pub title : Text
  pub description : Text
  pub unit : Text
  pub format : DashboardFormat
  pub mode : DashboardMetricMode
  pub sparkline : Bool
  pub color : Text
  pub source : DashboardValueFunc Float

pub record DashboardSeries (Float : Type 0) : Type 0 where
  pub id : Text
  pub label : Text
  pub color : Text
  pub source : DashboardValueFunc Float

pub record DashboardChart (Float : Type 0) : Type 0 where
  pub id : Text
  pub title : Text
  pub description : Text
  pub unit : Text
  pub format : DashboardFormat
  pub span : ℤ
  pub series : List (DashboardSeries Float)

pub record DashboardCounter (Float : Type 0) : Type 0 where
  pub id : Text
  pub label : Text
  pub unit : Text
  pub format : DashboardFormat
  pub source : DashboardValueFunc Float

pub record DashboardCounterGrid (Float : Type 0) : Type 0 where
  pub id : Text
  pub title : Text
  pub description : Text
  pub span : ℤ
  pub counters : List (DashboardCounter Float)

-- `Kind` of a widget with what the kind points to; a built-in widget has its name and kind
pub data WidgetBody (Float : Type 0) : Type 0 where
  builtin : Text → Text → WidgetBody Float
  metric : DashboardMetric Float → WidgetBody Float
  chart : DashboardChart Float → WidgetBody Float
  counter_grid : DashboardCounterGrid Float → WidgetBody Float

pub record DashboardWidget (Float : Type 0) : Type 0 where
  pub id : Text
  pub title : Text
  pub description : Text
  pub span : ℤ
  pub body : WidgetBody Float

abbrev pub is_zero : ℤ → Bool
is_zero (pos n) = n == 0
is_zero (negsuc n) = false

-- `min(4, max(1, span))`
abbrev pub clamped : ℤ → ℤ
clamped (pos n) = pos (min 4 (max 1 n))
clamped (negsuc n) = pos 1

unfoldable pub dashboard_span : ℤ → ℤ → ℤ
dashboard_span span fallback = clamped (if is_zero span then fallback else span)

unfoldable pub normalized_dashboard_format : DashboardFormat → DashboardFormat
normalized_dashboard_format DashboardFormat.bytes = DashboardFormat.bytes
normalized_dashboard_format DashboardFormat.percent = DashboardFormat.percent
normalized_dashboard_format DashboardFormat.duration = DashboardFormat.duration
normalized_dashboard_format _ = DashboardFormat.number

module _ (to_lower : Text → Text) (is_word : ℕ → Bool) where
  -- the loop of `dashboardID`; `result` has what was written, the last first
  unfoldable pub write_id : Text → Text → Bool → Text
  write_id [] result previous_separator = result
  write_id (c ∷ text) result previous_separator =
      let dashed = not (text_eq result []) && not previous_separator in
      let written = if is_word c then c ∷ result else if dashed then b'-' ∷ result else result in
      write_id text written
        (if is_word c then false else (if dashed then true else previous_separator))

  unfoldable pub trim_dashes : Text → Text
  trim_dashes [] = []
  trim_dashes (c ∷ text) = let rest = trim_dashes text in if c == b'-' then rest else c ∷ text

  unfoldable pub dashboard_id : Text → Text → Text → Text
  dashboard_id id title fallback =
      let own = trim_space id in
      let value = if text_eq own [] then trim_space title else own in
      let normalized = trim_dashes (reverse (trim_dashes (write_id (to_lower value) [] false))) in
      if text_eq normalized [] then fallback else normalized

module _ {Float : Type 0} where
  -- `set`: a widget of the same id is replaced where it stands
  unfoldable pub set_widget :
      DashboardWidget Float → List (DashboardWidget Float) → List (DashboardWidget Float)
  set_widget widget [] = widget ∷ []
  set_widget widget (w ∷ widgets) =
      let rest = set_widget widget widgets in
      if text_eq w.id widget.id then widget ∷ widgets else w ∷ rest
