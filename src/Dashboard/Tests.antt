-- ===== src/Dashboard/Tests.antt =====
-- Runs of the dashboard, and its theorems at concrete inputs. The floats are natural numbers, of which 0 is
-- taken for an infinite one.
use webpprof.Prelude.{
  ℕ, ◌≡◌, refl, Bool, true, not, ◌==◌, ◌++◌, ℤ, leb, ◌&&◌, ◌||◌, Option, none, some, List, [], ◌∷◌,
  map, pos, ◌+◌,
}
use webpprof.Prelude.Text.{Text, codes, to_lower, trim_space, trim_left, lower}
use webpprof.Dashboard.{
  DashboardFormat, DashboardMetricMode, DashboardMetric, DashboardChart, DashboardWidget, Outcome,
  set_widget, dashboard_id, write_id, trim_dashes, dashboard_span, normalized_dashboard_format,
}
use webpprof.Dashboard.Widgets.{
  Builtin, DashboardOption, with_builtin, apply_options, apply_option, with_custom_metric,
  with_custom_chart, normalized_metric, normalized_chart, named_series, default_dashboard,
}
use webpprof.Dashboard.Unique.{IsLayout, dashboard-IsLayout}
use webpprof.Dashboard.Snapshot.{
  dashboard_snapshot, dashboard_value, sample_widget, sample_body, sample_metric, sample_series,
  checked,
}

program : Unit {0}
unfolding set_widget dashboard_id write_id trim_dashes trim_space trim_left lower dashboard_span
    normalized_dashboard_format with_builtin apply_options apply_option with_custom_metric
    with_custom_chart normalized_metric normalized_chart named_series dashboard_snapshot
    dashboard_value sample_widget sample_body sample_metric sample_series checked
program = tt

abbrev is_word : ℕ → Bool
is_word c = (leb 97 c && leb c 122) || (leb 48 c && leb c 57)

abbrev name : ℕ → Text
name n = codes "series-" ++ ((48 + n) ∷ [])

abbrev jobs : DashboardMetric ℕ
jobs = record {
  id = [];
  title = codes " Jobs (done) ";
  description = [];
  unit = [];
  format = DashboardFormat.other [];
  mode = DashboardMetricMode.other [];
  sparkline = true;
  color = [];
  source = some (λ u. Outcome.returned 7);
}

abbrev errors : DashboardChart ℕ
errors = record {
  id = codes "errors";
  title = [];
  description = [];
  unit = [];
  format = DashboardFormat.percent;
  span = pos 9;
  series =
      record {
        id = [];
        label = codes "A!";
        color = [];
        source = some (λ u. Outcome.panicked (codes "no"));
      }
      ∷ record {
        id = [];
        label = [];
        color = [];
        source = some (λ u. Outcome.failed 0 (codes "down"));
      }
      ∷ [];
}

abbrev options : List (Option (DashboardOption ℕ))
options =
    some (DashboardOption.custom_metric jobs)
    ∷ none
    ∷ some (DashboardOption.builtin Builtin.cpu)
    ∷ some (DashboardOption.custom_chart errors)
    ∷ some (DashboardOption.custom_metric jobs)
    ∷ []

abbrev built : List (DashboardWidget ℕ)
built = apply_options to_lower is_word name name options []

built_lem :
    map {B = Text × ℤ} (λ (w : DashboardWidget ℕ). (w.id, w.span)) built
    ≡ (codes "jobs-done", pos 1) ∷ (codes "cpu", pos 1) ∷ (codes "errors", pos 4) ∷ []
unfolding program
built_lem = refl

dashboard-IsLayout_example : IsLayout built × IsLayout {Float = ℕ} default_dashboard
dashboard-IsLayout_example = dashboard-IsLayout to_lower is_word name name options

abbrev is_finite : ℕ → Bool
is_finite n = not (n == 0)
