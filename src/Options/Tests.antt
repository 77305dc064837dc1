-- ===== src/Options/Tests.antt =====
-- Runs of the options, and their theorems at concrete inputs. The floats are the natural numbers.
use webpprof.Prelude.{
  ℕ, ◌≤◌, ◌≡◌, refl, true, false, Option, none, some, List, [], ◌∷◌, pos, negsuc, min, lookup_at,
}
use webpprof.Prelude.Text.{
  codes, to_lower, trim_space, trim_left, lower, has_suffix, has_prefix, trim_suffix,
}
use webpprof.Entry.{Kind, kind_text}
use webpprof.Capture.{supports_callsite}
use webpprof.Dashboard.Widgets.{Builtin, DashboardOption}
use webpprof.Options.{add_kind, remove_kind}
use webpprof.Options.Patterns.{
  fields, split_fields, parse_fields, parse_request_patterns, matches_path, matches, excludes,
}
use webpprof.Options.Settings.{
  Library, Setting, supports_sidebar, collect_sidebar, collect_callsite, trim_slashes,
  with_storage_path, with_storage, with_base_path, apply_setting, apply_settings,
  config_from_options,
}
use webpprof.Options.Valid.{IsValid, config_from_options-IsValid}
use webpprof.Options.Sampling.{Phase, Calls, advance, step, run, starting}
use webpprof.Options.Slots.{total_taken, run-bounded}

program : Unit {0}
unfolding kind_text supports_callsite lower has_suffix has_prefix trim_suffix trim_space trim_left
    fields split_fields parse_fields parse_request_patterns matches_path matches excludes add_kind
    remove_kind supports_sidebar collect_sidebar collect_callsite trim_slashes with_storage_path
    with_storage with_base_path apply_setting apply_settings advance step run
program = tt

abbrev library : Library ℕ
library = record {
  clamp = min 1;
  to_upper = λ text. text;
  to_lower = to_lower;
  is_word = λ c. true;
  series_name = λ n. [];
  counter_name = λ n. [];
}

abbrev settings : List (Option (Setting ℕ))
settings =
    some (Setting.max_events (pos 2))
    ∷ none
    ∷ some (Setting.max_bytes (negsuc 4))
    ∷ some (Setting.base_path (codes "/profiler/"))
    ∷ some (Setting.sidebar_kinds (Kind.query ∷ Kind.other "x" ∷ Kind.query ∷ Kind.job ∷ []))
    ∷ some (Setting.storage (some (codes " files ")))
    ∷ some (Setting.storage_path (codes " log "))
    ∷ some (Setting.dashboard (some (DashboardOption.builtin Builtin.cpu) ∷ []))
    ∷ []

settings_lem :
    ((config_from_options library 1 settings).base_path ≡ codes "/profiler")
    × ((config_from_options library 1 settings).max_events ≡ 2)
    × ((config_from_options library 1 settings).max_bytes ≡ 67108864)
    × ((config_from_options library 1 settings).storage_path ≡ codes "log")
    × ((config_from_options library 1 settings).sidebar_kinds ≡ Kind.query ∷ Kind.job ∷ [])
unfolding program
settings_lem = (refl, refl, refl, refl, refl)

config_from_options-IsValid_example : IsValid (config_from_options library 1 settings)
config_from_options-IsValid_example = config_from_options-IsValid library 1 settings

excludes_lem :
    (excludes to_lower
        (λ pattern path. none)
        (parse_request_patterns (λ text. text) (codes "GET /health/*" ∷ codes " *.CSS" ∷ []))
        (codes "GET")
        (codes "/health/live")
      ≡ true)
    × (excludes to_lower
          (λ pattern path. none)
          (parse_request_patterns (λ text. text) (codes "GET /health/*" ∷ codes " *.CSS" ∷ []))
          (codes "POST")
          (codes "/health/live")
        ≡ false)
    × (excludes to_lower
          (λ pattern path. none)
          (parse_request_patterns (λ text. text) (codes "GET /health/*" ∷ codes " *.CSS" ∷ []))
          (codes "POST")
          (codes "/a.css")
        ≡ true)
unfolding program
excludes_lem = (refl, refl, refl)

-- three calls for two slots: the second one loses its first race
abbrev schedule : List ℕ
schedule = 0 ∷ 1 ∷ 0 ∷ 1 ∷ 1 ∷ 1 ∷ 2 ∷ []

run-bounded_example :
    (total_taken (run (starting 2 3) schedule).phases ≤ 2)
    × ((i : ℕ)
        → lookup_at (run (starting 2 3) schedule).phases i ≡ some (Phase.returned false)
        → total_taken (run (starting 2 3) schedule).phases ≡ 2)
run-bounded_example = run-bounded 2 3 schedule

abbrev raced : Calls
raced = record { remaining = 1; phases = Phase.loaded 2 ∷ Phase.returned true ∷ [] }
