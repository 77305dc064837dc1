-- ===== src/Analysis/Execution.antt =====
-- analysis.go: `queryPlanFindings`, `legacyPerformanceFindings`, `analyzeExecution` and
-- the analyses of a request and of a schedule, callable or task. Texts of findings are left out.
pub mod Parts
pub mod Groups
pub mod Runs
pub mod Shares
pub mod Entries
use webpprof.Prelude.{
  ℕ, ◌*◌, String, str_eq, Bool, true, false, not, ◌&&◌, ◌||◌, Option, none, some, List, [], ◌∷◌,
  ◌++◌, map, filter, length, ltb, leb, if◌then◌else◌, ℤ, pos, negsuc, pos_part,
}
use webpprof.Prelude.Assoc.{Assoc}
use webpprof.Prelude.Text.{Text, codes, text_eq, trim_space}
use webpprof.Entry.{Entry, Kind, is_kind}
use webpprof.Contracts.{HttpCall, Query, QueryPlan}
use webpprof.Analysis.{
  AnalyzedQuery, AnalyzedCache, AnalyzedHttpCall, AnalyzedMiddleware, FindingCode, Severity,
  Finding, about,
}
use webpprof.Analysis.Share.{prepend, sql_share_finding}
use webpprof.Analysis.Fingerprint.{query_fingerprint}
use webpprof.Analysis.CacheUse.{is_one_of, cache_miss_rate}
use webpprof.Analysis.Calls.{
  entry_happened_before, direct_request_entries, execution_analysis_duration, sequential_calls,
}
use webpprof.Analysis.Repeats.{Pointers, n_plus_one, text_lt}
use webpprof.Analysis.Bursts.{cache_bursts}
use webpprof.Analysis.Failures.{
  Decoders, at_least, failed_operations, slow_operations, slow_events, ms,
}
use webpprof.Analysis.Hierarchy.{Visits, new_analysis_entry_hierarchy}
use webpprof.Analysis.Bottleneck.{slow_middlewares, execution_bottleneck}
use webpprof.Analysis.Plans.{IssueCode, PlanIssue, Patterns, is_code, detect_query_plan_issues}
use webpprof.Analysis.Tools.{Tools, sort_by, about_all, pointed, gather}
use webpprof.Analysis.Sequential.{sequential_http_findings}

module _ (tools : Tools) where
  -- for each issue of a plan, whether it is a large estimate
  unfoldable pub large_estimates : Query → QueryPlan → List Bool
  large_estimates q plan = elim plan.issues [
    | [] ↦
        map (λ (i : PlanIssue). is_code i.code IssueCode.large_estimate)
          (detect_query_plan_issues tools.to_lower tools.patterns (codes q.driver)
            (codes plan.text))
    | i ∷ issues ↦ map (λ i. str_eq i.code "large_estimate") (i ∷ issues)
  ]

  -- whether some issue of a query's plan is visible
  unfoldable pub has_visible_issue : AnalyzedQuery → Bool
  has_visible_issue q = elim q.query.plan [
    | none ↦ false
    | some plan ↦
        let slow = at_least q.entry.duration_ns (100 * ms) in
        let visible = filter (λ large. large || slow) (large_estimates q.query plan) in
        not (text_eq (trim_space (codes plan.text)) []) && ltb 0 (length visible)
  ]

  unfoldable pub query_plan_findings : List AnalyzedQuery → List Finding
  query_plan_findings [] = []
  query_plan_findings (q ∷ queries) =
      let rest = query_plan_findings queries in
      if has_visible_issue q
      then about FindingCode.query_plan_issue Severity.warning q.entry.id ∷ rest
      else rest

  abbrev pub runs_on_its_own : Kind → Bool
  runs_on_its_own Kind.schedule = true
  runs_on_its_own Kind.callable = true
  runs_on_its_own Kind.task = true
  runs_on_its_own _ = false

  -- `cacheMissRateFinding`
  unfoldable pub cache_miss_finding : List AnalyzedCache → List Finding
  cache_miss_finding caches = elim (cache_miss_rate tools.percent caches) [
    | none ↦ []
    | some rate ↦ about_all FindingCode.high_cache_miss_rate Severity.warning rate.missed_ids
  ]

  unfoldable pub legacy_performance_findings :
      Entry
      → List AnalyzedQuery
      → List AnalyzedHttpCall
      → List AnalyzedCache
      → List Entry
      → Bool
      → List Finding
  legacy_performance_findings root queries calls caches entries include_cache_miss_rate =
      slow_operations root queries calls
      ++ (map (about FindingCode.failed_operation Severity.danger)
            (failed_operations tools.decode tools.equal_fold (runs_on_its_own root.kind) entries)
          ++ (if include_cache_miss_rate then cache_miss_finding caches else []))

  -- `httpCallHost`
  unfoldable pub http_call_host : String → Text
  http_call_host url = elim (tools.parse_host url) [ none ↦ [] | some host ↦ tools.to_lower host ]

  -- the cases of the `switch` of the first loop, none where the kind is another or the data does not decode
  abbrev pub query_at : Entry → Option AnalyzedQuery
  query_at e = elim (tools.decode.query e.payload) [
    | none ↦ none
    | some q ↦ some (record { entry = e; query = q; fingerprint = query_fingerprint (codes q.sql) })
  ]

  abbrev pub cache_at : Entry → Option AnalyzedCache
  cache_at e = elim (tools.decode.cache e.payload) [
    | none ↦ none
    | some c ↦ some (record { entry = e; cache = c })
  ]

  abbrev pub call_at : Entry → Option AnalyzedHttpCall
  call_at e = elim (tools.decode.http_call e.payload) [
    | none ↦ none
    | some c ↦ some (record { entry = e; call = c; host = http_call_host c.url })
  ]

  abbrev pub middleware_at : Entry → Option AnalyzedMiddleware
  middleware_at e = elim (tools.decode.middleware e.payload) [
    | none ↦ none
    | some m ↦ some (record { entry = e; middleware = m })
  ]

  abbrev pub event_at : Entry → Option Entry
  event_at e = elim (tools.decode.event e.payload) [ none ↦ none | some event ↦ some e ]

  abbrev pub optional {ℓ} : {A : Type ℓ} → Option A → (A → Finding) → List Finding
  optional none finding = []
  optional (some a) finding = finding a ∷ []

  -- `analyzeExecution`, for the code of its finding on SQL: the duration and the findings
  unfoldable pub analyze_execution : Entry → List Entry → FindingCode → ℕ × List Finding
  analyze_execution root entries sql_dominates =
      let queries = sort_by (λ q. q.entry) (gather Kind.query query_at entries) in
      let caches = sort_by (λ c. c.entry) (gather Kind.cache cache_at entries) in
      let calls = sort_by (λ c. c.entry) (gather Kind.http_call call_at entries) in
      let middlewares = sort_by (λ m. m.entry) (gather Kind.middleware middleware_at entries) in
      let events = sort_by (λ e. e) (gather Kind.event event_at entries) in
      let duration = execution_analysis_duration root entries in
      let hierarchy =
        new_analysis_entry_hierarchy tools.decode tools.walk tools.walk_again entries in
      let (bursts, explained) = cache_bursts tools.equal_fold caches queries in
      (
        duration,
        pointed FindingCode.possible_n_plus_one
              (n_plus_one tools.to_upper tools.to_lower tools.print queries explained)
            ++ (optional (sql_share_finding tools.percent queries root.started_at duration) (λ f.
                  record {
                    code = sql_dominates;
                    severity = Severity.warning;
                    entry_id = f.entry_id;
                    related_entry_ids = f.related_entry_ids;
                  })
                ++ (sequential_http_findings tools calls
                    ++ (pointed FindingCode.cache_miss_query_burst bursts
                        ++ (slow_middlewares tools.explains hierarchy middlewares
                            ++ (slow_events events
                                ++ (optional
                                      (execution_bottleneck tools.explains hierarchy tools.decode
                                        root.id tools.percent entries duration)
                                      (λ e.
                                        about FindingCode.execution_bottleneck Severity.warning
                                          e.id)
                                    ++ (query_plan_findings queries
                                        ++ legacy_performance_findings root queries calls caches
                                            entries (is_empty bursts)))))))),
      )
    where
      is_empty : List Pointers → Bool
      is_empty [] = true
      is_empty (p ∷ ps) = false

-- `analyzeRequest`, on the entries that `requestEntries` returns
unfoldable pub analyze_request : Tools → Entry → List Entry → ℕ × List Finding
analyze_request tools request entries =
    analyze_execution tools request (direct_request_entries request.id entries)
      FindingCode.sql_dominates_request

-- `analyzeSchedule`, `analyzeCallable` and `analyzeTask`, on the entries of the scope
unfoldable pub analyze_schedule : Tools → Entry → List Entry → ℕ × List Finding
analyze_schedule tools schedule entries =
    analyze_execution tools schedule entries FindingCode.sql_dominates_schedule

unfoldable pub analyze_callable : Tools → Entry → List Entry → ℕ × List Finding
analyze_callable tools callable entries =
    analyze_execution tools callable entries FindingCode.sql_dominates_callable

unfoldable pub analyze_task : Tools → Entry → List Entry → ℕ × List Finding
analyze_task tools task entries =
    analyze_execution tools task entries FindingCode.sql_dominates_task
