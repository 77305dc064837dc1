-- ===== src/Analysis/Failures.antt =====
-- analysis.go: `failedOperationFindings`, `slowEventFindings` and the slow operations of
-- `legacyPerformanceFindings`, without the texts of the findings. What `json.Unmarshal` reads of an
-- entry is a parameter, and so is `strings.EqualFold`.
use webpprof.Prelude.{
  ℕ, ◌*◌, ◌^◌, String, str_eq, Bool, true, false, not, ◌&&◌, ◌||◌, Option, none, some, List, [],
  ◌∷◌, ◌++◌, map, leb, if◌then◌else◌, ℤ, pos, negsuc,
}
use webpprof.Prelude.Text.{Text, codes, text_eq, to_lower, trim_space}
use webpprof.Entry.{Entry, Kind}
use webpprof.Contracts.{
  Query, Email, Cache, Job, HttpCall, Schedule, Callable, Task, Exception, Event, Middleware,
  Request,
}
use webpprof.Analysis.{AnalyzedQuery, AnalyzedHttpCall, FindingCode, Severity, Finding, about}
use webpprof.Analysis.CacheUse.{is_one_of}

-- `json.Unmarshal` of an entry's data into each type, `none` on an error
pub record Decoders : Type 0 where
  pub request : String → Option Request
  pub query : String → Option Query
  pub cache : String → Option Cache
  pub event : String → Option Event
  pub middleware : String → Option Middleware
  pub exception : String → Option Exception
  pub job : String → Option Job
  pub email : String → Option Email
  pub http_call : String → Option HttpCall
  pub schedule : String → Option Schedule
  pub callable : String → Option Callable
  pub task : String → Option Task

abbrev pub failed_states : List Text
failed_states = map codes ("failed" ∷ "failure" ∷ "error" ∷ "panicked" ∷ "panic" ∷ "bounced" ∷ [])

unfoldable pub failed_state : String → Bool
failed_state state = is_one_of (to_lower (trim_space (codes state))) failed_states

-- `sql.ErrNoRows.Error()`
unfoldable pub expected_empty_query_result : String → Bool
expected_empty_query_result error =
    text_eq (trim_space (codes error)) (codes "sql: no rows in result set")

abbrev pub is_set : String → Bool
is_set text = not (str_eq text "")

abbrev pub at_least : ℤ → ℕ → Bool
at_least (pos n) limit = leb limit n
at_least (negsuc n) limit = false

-- what was read of an entry, tested
abbrev pub decoded {ℓ} : {A : Type ℓ} → Option A → (A → Bool) → Bool
decoded none test = false
decoded (some a) test = test a

module _ (decode : Decoders) (equal_fold : String → String → Bool) where
  -- the `switch` of `failedOperationFindings`: whether an entry of the kind is a failed operation
  unfoldable pub is_failure : Bool → Kind → String → Bool
  is_failure roots Kind.request payload =
      decoded (decode.request payload) (λ r. is_set r.error || at_least r.status 500)
  is_failure roots Kind.query payload =
      decoded (decode.query payload)
        (λ q. is_set q.error && not (expected_empty_query_result q.error))
  is_failure roots Kind.cache payload = decoded (decode.cache payload) (λ c. is_set c.error)
  is_failure roots Kind.event payload =
      decoded (decode.event payload) (λ e. is_set e.error || failed_state e.status)
  is_failure roots Kind.middleware payload =
      decoded (decode.middleware payload) (λ m. is_set m.error || failed_state m.state)
  is_failure roots Kind.exception payload = decoded (decode.exception payload) (λ e. true)
  is_failure roots Kind.job payload =
      decoded (decode.job payload) (λ j. is_set j.error || failed_state j.state)
  is_failure roots Kind.email payload =
      decoded (decode.email payload)
        (λ e. is_set e.error || (equal_fold e.status "failed" || equal_fold e.status "bounced"))
  is_failure roots Kind.http_call payload =
      decoded (decode.http_call payload) (λ c. is_set c.error || at_least c.status 400)
  is_failure roots Kind.schedule payload =
      roots
      && decoded (decode.schedule payload)
          (λ s. is_set s.error || (is_set s.panic || failed_state s.state))
  is_failure roots Kind.callable payload =
      roots
      && decoded (decode.callable payload)
          (λ c. is_set c.error || (is_set c.panic || failed_state c.state))
  is_failure roots Kind.task payload =
      roots
      && decoded (decode.task payload)
          (λ t. is_set t.error || (is_set t.panic || failed_state t.state))
  is_failure roots Kind.log payload = false
  is_failure roots (Kind.other text) payload = false

  -- the ids of the entries that `failedOperationFindings` points to
  unfoldable pub failed_operations : Bool → List Entry → List String
  failed_operations roots [] = []
  failed_operations roots (e ∷ entries) =
      let rest = failed_operations roots entries in
      if is_failure roots e.kind e.payload then e.id ∷ rest else rest

abbrev pub ms : ℕ
ms = 10 ^ 6

-- the `switch` on the kind of the root, for its duration
unfoldable pub slow_root : Kind → ℤ → String → List Finding
slow_root Kind.request duration id =
    if at_least duration (500 * ms)
    then about FindingCode.slow_request Severity.danger id ∷ []
    else []
slow_root Kind.schedule duration id =
    if at_least duration (500 * ms)
    then about FindingCode.slow_schedule Severity.warning id ∷ []
    else []
slow_root Kind.callable duration id =
    if at_least duration (500 * ms)
    then about FindingCode.slow_callable Severity.warning id ∷ []
    else []
slow_root Kind.task duration id =
    if at_least duration (1000 * ms)
    then about FindingCode.slow_task Severity.warning id ∷ []
    else []
slow_root _ duration id = []

unfoldable pub slow_queries : List AnalyzedQuery → List Finding
slow_queries [] = []
slow_queries (q ∷ queries) =
    let severity =
      if at_least q.entry.duration_ns (500 * ms) then Severity.danger else Severity.warning in
    let rest = slow_queries queries in
    if at_least q.entry.duration_ns (100 * ms)
    then about FindingCode.slow_query severity q.entry.id ∷ rest
    else rest

unfoldable pub slow_calls : List AnalyzedHttpCall → List Finding
slow_calls [] = []
slow_calls (c ∷ calls) =
    let rest = slow_calls calls in
    if at_least c.entry.duration_ns (500 * ms)
    then about FindingCode.slow_http_call Severity.warning c.entry.id ∷ rest
    else rest

-- the first three loops of `legacyPerformanceFindings`
unfoldable pub slow_operations : Entry → List AnalyzedQuery → List AnalyzedHttpCall → List Finding
slow_operations root queries calls =
    slow_root root.kind root.duration_ns root.id ++ (slow_queries queries ++ slow_calls calls)

-- `slowEventFindings`, of the entries of the events
unfoldable pub slow_events : List Entry → List Finding
slow_events [] = []
slow_events (e ∷ events) =
    let rest = slow_events events in
    if at_least e.duration_ns (500 * ms)
    then about FindingCode.slow_event Severity.warning e.id ∷ rest
    else rest
