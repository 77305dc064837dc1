-- ===== src/Dashboard/Unique.antt =====
-- dashboard.go: what any sequence of dashboard options keeps.
use mathlib.Core.Path.{subst}
use webpprof.Prelude.{
  ℕ, ◌≤◌, min, max, ◌≡◌, refl, Bool, false, Option, none, some, List, [], ◌∷◌, if◌then◌else◌, ℤ,
  pos, negsuc, All, arith, Bool-cases, inl, inr,
}
use webpprof.Prelude.Text.{Text, text_eq, text_eq_sound}
use webpprof.Dashboard.{DashboardWidget, set_widget, dashboard_span, clamped, is_zero}
use webpprof.Dashboard.Widgets.{
  DashboardOption, Builtin, builtin_arguments, with_builtin, with_custom_metric, with_custom_chart,
  with_counter_grid, apply_option, apply_options, add_builtins, default_dashboard, default_builtins,
  normalized_chart, normalized_grid,
}

differs_sym : (s t : Text) → text_eq s t ≡ false → text_eq t s ≡ false
differs_sym [] [] h = h
differs_sym [] (b ∷ t) h = refl
differs_sym (a ∷ s) [] h = refl
differs_sym (a ∷ s) (b ∷ t) h = ground (arith, differs_sym s t)

module _ {Float : Type 0} where
  abbrev pub Differs : Text → DashboardWidget Float → Type 0
  Differs id w = text_eq w.id id ≡ false

  -- no widget has the id of a later one
  abbrev pub Unique : List (DashboardWidget Float) → Type 0
  Unique [] = Unit
  Unique (w ∷ widgets) = All (Differs w.id) widgets × Unique widgets

  -- its span is from 1 to 4 columns
  abbrev pub Fits : DashboardWidget Float → Type 0
  Fits w = (columns : ℕ) × (w.span ≡ pos columns) × (1 ≤ columns) × (columns ≤ 4)

  pub record IsLayout (widgets : List (DashboardWidget Float)) : Type 0 where
    pub unique : Unique widgets
    pub fits : All Fits widgets

  set_widget-Differs :
      (id : Text) (widget : DashboardWidget Float) (widgets : List (DashboardWidget Float))
      → Differs id widget
      → All (Differs id) widgets
      → All (Differs id) (set_widget widget widgets)
  unfolding set_widget
  set_widget-Differs id widget [] d all = (d, tt)
  set_widget-Differs id widget (w ∷ widgets) d (here, all) =
      elim (Bool-cases (text_eq w.id widget.id)) [
        | inl e ↦ rw (set_widget, e) (d, all)
        | inr e ↦ rw (set_widget, e) (here, set_widget-Differs id widget widgets d all)
      ]

  set_widget-Unique :
      (widget : DashboardWidget Float) (widgets : List (DashboardWidget Float))
      → Unique widgets
      → Unique (set_widget widget widgets)
  unfolding set_widget
  set_widget-Unique widget [] u = (tt, tt)
  set_widget-Unique widget (w ∷ widgets) (here, u) = elim (Bool-cases (text_eq w.id widget.id)) [
    | inl e ↦
        rw (set_widget, e)
          (subst (λ id. All (Differs id) widgets) (text_eq_sound w.id widget.id e) here, u)
    | inr e ↦
        rw (set_widget, e)
          (
            set_widget-Differs w.id widget widgets (differs_sym w.id widget.id e) here,
            set_widget-Unique widget widgets u,
          )
  ]

  set_widget-Fits :
      (widget : DashboardWidget Float) (widgets : List (DashboardWidget Float))
      → Fits widget
      → All Fits widgets
      → All Fits (set_widget widget widgets)
  unfolding set_widget
  set_widget-Fits widget [] f all = (f, tt)
  set_widget-Fits widget (w ∷ widgets) f (here, all) = elim (Bool-cases (text_eq w.id widget.id)) [
    | inl e ↦ rw (set_widget, e) (f, all)
    | inr e ↦ rw (set_widget, e) (here, set_widget-Fits widget widgets f all)
  ]

  set_widget-IsLayout :
      (widget : DashboardWidget Float) (widgets : List (DashboardWidget Float))
      → Fits widget
      → IsLayout widgets
      → IsLayout (set_widget widget widgets)
  set_widget-IsLayout widget widgets f layout = record {
    unique = set_widget-Unique widget widgets layout.unique;
    fits = set_widget-Fits widget widgets f layout.fits;
  }

clamped-bounds :
    (span : ℤ) → (columns : ℕ) × (clamped span ≡ pos columns) × (1 ≤ columns) × (columns ≤ 4)
clamped-bounds (pos n) = (min 4 (max 1 n), refl, omega arith, omega arith)
clamped-bounds (negsuc n) = (1, refl, omega arith, omega arith)

span-bounds :
    (span fallback : ℤ)
    → (columns : ℕ) × (dashboard_span span fallback ≡ pos columns) × (1 ≤ columns) × (columns ≤ 4)
unfolding dashboard_span
span-bounds span fallback = clamped-bounds (if is_zero span then fallback else span)

module _ {Float : Type 0} (to_lower : Text → Text) (is_word : ℕ → Bool)
    (series_name counter_name : ℕ → Text) where
  with_builtin-IsLayout :
      (b : Builtin) (widgets : List (DashboardWidget Float))
      → IsLayout widgets
      → IsLayout (with_builtin b widgets)
  unfolding with_builtin
  with_builtin-IsLayout b widgets layout =
      let span = (builtin_arguments b).4 in
      set_widget-IsLayout _ widgets (span-bounds span (pos 1)) layout

  apply_option-IsLayout :
      (o : DashboardOption Float) (widgets : List (DashboardWidget Float))
      → IsLayout widgets
      → IsLayout (apply_option to_lower is_word series_name counter_name o widgets)
  unfolding apply_option with_custom_metric with_custom_chart with_counter_grid normalized_chart
      normalized_grid
  apply_option-IsLayout (DashboardOption.builtin b) widgets layout =
      with_builtin-IsLayout b widgets layout
  apply_option-IsLayout (DashboardOption.custom_metric m) widgets layout =
      set_widget-IsLayout _ widgets (1, refl, omega arith, omega arith) layout
  apply_option-IsLayout (DashboardOption.custom_chart c) widgets layout =
      set_widget-IsLayout _ widgets (span-bounds c.span (pos 2)) layout
  apply_option-IsLayout (DashboardOption.counter_grid g) widgets layout =
      set_widget-IsLayout _ widgets (span-bounds g.span (pos 2)) layout

  -- Any sequence of dashboard options leaves widgets of different ids, each from 1 to 4 columns wide, if there
  -- are only such widgets before, as there are in the empty dashboard.
  pub apply_options-IsLayout :
      (options : List (Option (DashboardOption Float))) (widgets : List (DashboardWidget Float))
      → IsLayout widgets
      → IsLayout (apply_options to_lower is_word series_name counter_name options widgets)
  unfolding apply_options
  apply_options-IsLayout [] widgets layout = layout
  apply_options-IsLayout (none ∷ options) widgets layout =
      apply_options-IsLayout options widgets layout
  apply_options-IsLayout (some o ∷ options) widgets layout =
      apply_options-IsLayout options
        (apply_option to_lower is_word series_name counter_name o widgets)
        (apply_option-IsLayout o widgets layout)

  add_builtins-IsLayout :
      (bs : List Builtin) (widgets : List (DashboardWidget Float))
      → IsLayout widgets
      → IsLayout (add_builtins bs widgets)
  unfolding add_builtins
  add_builtins-IsLayout [] widgets layout = layout
  add_builtins-IsLayout (b ∷ bs) widgets layout =
      add_builtins-IsLayout bs (with_builtin b widgets) (with_builtin-IsLayout b widgets layout)

  -- A dashboard has widgets of different ids, each from 1 to 4 columns wide, whatever options it is given; so
  -- has the default dashboard.
  pub dashboard-IsLayout :
      (options : List (Option (DashboardOption Float)))
      → IsLayout (apply_options to_lower is_word series_name counter_name options [])
        × IsLayout {Float = Float} default_dashboard
  unfolding default_dashboard
  dashboard-IsLayout options = (
    apply_options-IsLayout options [] (record { unique = tt; fits = tt }),
    add_builtins-IsLayout default_builtins [] (record { unique = tt; fits = tt }),
  )
