-- ===== src/Options/Sampling.antt =====
-- profiler.go, capture_rules.go: `ShouldCaptureRequest`, and `takeRequestCaptureSlot` as its atomic
-- steps, which the goroutines that call it interleave. `requestRemaining` is a natural number: it
-- begins at the limit, and only a value above 0 is replaced, by one less.
use webpprof.Prelude.{
  ℕ, ◌-◌, Bool, true, false, not, ◌&&◌, Option, none, some, List, [], ◌∷◌, lookup_at, set, ◌==◌,
  if◌then◌else◌, replicate,
}
use webpprof.Prelude.Text.{Text}
use webpprof.Options.{Config, HttpRequest, RequestFilter}
use webpprof.Options.Patterns.{excludes}

-- the loop over `requestFilters`
unfoldable pub passes_filters : List RequestFilter → HttpRequest → Bool
passes_filters [] request = true
passes_filters (f ∷ filters) request = f request && passes_filters filters request

module _ {Float : Type 0} (to_lower : Text → Text) (path_match : Text → Text → Option Bool)
    (is_positive is_below_one : Float → Bool) where
  -- `ShouldCaptureRequest` up to `takeRequestCaptureSlot`; `fraction` is what is made of the random bytes, and
  -- tells whether it is at least the rate, or `none` where `rand.Read` fails
  unfoldable pub passes_rules : Config Float → (Float → Option Bool) → HttpRequest → Bool
  passes_rules c fraction request =
      if excludes to_lower path_match c.excluded request.method request.path
      then false
      else if not (passes_filters c.request_filters request)
      then false
      else if not (is_positive c.sample)
      then false
      else if is_below_one c.sample
      then elim (fraction c.sample) [ none ↦ false | some at_least ↦ not at_least ]
      else true

-- where a call of `takeRequestCaptureSlot` stands: before `Load`, after it with what it loaded, and
-- returned with the result
pub data Phase : Type 0 where
  loading : Phase
  loaded : ℕ → Phase
  returned : Bool → Phase

-- one atomic step of a call, with the value of `requestRemaining` and the call's next phase
unfoldable pub advance : ℕ → Phase → ℕ × Phase
advance remaining Phase.loading =
    (remaining, if remaining == 0 then Phase.returned false else Phase.loaded remaining)
advance remaining (Phase.loaded n) =
    if remaining == n then (n - 1, Phase.returned true) else (remaining, Phase.loading)
advance remaining (Phase.returned result) = (remaining, Phase.returned result)

-- the calls that run, each in its phase
pub record Calls : Type 0 where
  pub remaining : ℕ
  pub phases : List Phase

-- the call of an index makes a step
unfoldable pub step : Calls → ℕ → Calls
step s i = elim (lookup_at s.phases i) [
  | none ↦ s
  | some phase ↦
      let (remaining, next) = advance s.remaining phase in
      record { remaining = remaining; phases = set s.phases i next }
]

-- the steps of a schedule
unfoldable pub run : Calls → List ℕ → Calls
run s [] = s
run s (i ∷ schedule) = run (step s i) schedule

-- `requestRemaining.Store(c.requestLimit)` for a limit that is not negative, and `n` calls
abbrev pub starting : ℕ → ℕ → Calls
starting limit n = record { remaining = limit; phases = replicate n Phase.loading }
