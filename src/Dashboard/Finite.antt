-- ===== src/Dashboard/Finite.antt =====
-- dashboard.go: what the values of a snapshot are.
use webpprof.Prelude.{ℕ, suc, ◌+◌, ◌≡◌, Bool, true, false, none, some, List, [], ◌∷◌, ◌⊎◌, ◌++◌}
use webpprof.Prelude.Text.{Text, codes}
use webpprof.Dashboard.{
  Outcome, DashboardValueFunc, DashboardSeries, DashboardCounter, WidgetBody, DashboardWidget,
}
use webpprof.Dashboard.Snapshot.{
  DashboardSeriesSnapshot, DashboardCounterSnapshot, SnapshotBody, DashboardWidgetSnapshot,
}

module _ {Float : Type 0} where
  abbrev pub series_sources : List (DashboardSeries Float) → List (DashboardValueFunc Float)
  series_sources [] = []
  series_sources (s ∷ series) = s.source ∷ series_sources series

  abbrev pub counter_sources : List (DashboardCounter Float) → List (DashboardValueFunc Float)
  counter_sources [] = []
  counter_sources (c ∷ counters) = c.source ∷ counter_sources counters

  abbrev pub body_sources : WidgetBody Float → List (DashboardValueFunc Float)
  body_sources (WidgetBody.builtin name kind) = []
  body_sources (WidgetBody.metric m) = m.source ∷ []
  body_sources (WidgetBody.chart c) = series_sources c.series
  body_sources (WidgetBody.counter_grid g) = counter_sources g.counters

  -- the callbacks of the widgets, in order
  abbrev pub sources : List (DashboardWidget Float) → List (DashboardValueFunc Float)
  sources [] = []
  sources (w ∷ widgets) = body_sources w.body ++ sources widgets

  abbrev pub series_samples : List (DashboardSeriesSnapshot Float) → List (Float × Text)
  series_samples [] = []
  series_samples (s ∷ series) = (s.value, s.error) ∷ series_samples series

  abbrev pub counter_samples : List (DashboardCounterSnapshot Float) → List (Float × Text)
  counter_samples [] = []
  counter_samples (c ∷ counters) = (c.value, c.error) ∷ counter_samples counters

  abbrev pub body_samples : SnapshotBody Float → List (Float × Text)
  body_samples (SnapshotBody.builtin name kind) = []
  body_samples (SnapshotBody.metric m) = (m.value, m.error) ∷ []
  body_samples (SnapshotBody.chart unit format series) = series_samples series
  body_samples (SnapshotBody.counter_grid counters) = counter_samples counters

  -- the values of a snapshot with their errors, in order
  abbrev pub samples : List (DashboardWidgetSnapshot Float) → List (Float × Text)
  samples [] = []
  samples (w ∷ widgets) = body_samples w.body ++ samples widgets

  -- how many of the callbacks are not nil
  abbrev pub callable : List (DashboardValueFunc Float) → ℕ
  callable [] = 0
  callable (none ∷ all) = callable all
  callable (some call ∷ all) = suc (callable all)

module _ {Float : Type 0} (zero_value : Float) (is_finite : Float → Bool) where
  -- what a snapshot shows of an outcome
  abbrev pub Shows : Outcome Float → Float × Text → Type 0
  Shows (Outcome.returned value) (shown, error) =
      ((is_finite value ≡ true) × (shown ≡ value) × (error ≡ []))
      ⊎ ((is_finite value ≡ false)
          × (shown ≡ zero_value)
          × (error ≡ codes "dashboard value is not finite"))
  Shows (Outcome.failed value text) (shown, error) = (shown ≡ value) × (error ≡ text)
  Shows (Outcome.panicked recovered) (shown, error) =
      (shown ≡ zero_value) × (error ≡ codes "dashboard value source panicked: " ++ recovered)

  -- each sample is that of its callback, which is called after those before it
  abbrev pub Sampled : ℕ → List (DashboardValueFunc Float) → List (Float × Text) → Type 0
  Sampled calls [] [] = Unit
  Sampled calls (none ∷ all) ((shown, error) ∷ samples) =
      (shown ≡ zero_value)
      × (error ≡ codes "dashboard value source is nil")
      × Sampled calls all samples
  Sampled calls (some call ∷ all) (sample ∷ samples) =
      Shows (call calls) sample × Sampled (suc calls) all samples
  Sampled calls all samples = ⊥

  -- so many calls later, with these samples
  abbrev Sampling : ℕ → List (DashboardValueFunc Float) → List (Float × Text) → ℕ → Type 0
  Sampling calls all samples calls' = Sampled calls all samples × (calls' ≡ calls + callable all)
