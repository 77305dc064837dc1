-- ===== src/Analysis/Execution/Entries.antt =====
-- What the findings of an execution point to.
use mathlib.Core.Path.{subst}
use webpprof.Prelude.{
  ℕ, ◌≡◌, refl, sym, String, eq_iff, Bool, true, Option, none, some, List, [], ◌∷◌, ◌++◌, map, All,
  Option-cases, inl, inr, if◌then◌else◌, arith,
}
use webpprof.Entry.{Entry, Kind}
use webpprof.Analysis.{
  AnalyzedQuery, AnalyzedCache, AnalyzedHttpCall, AnalyzedMiddleware, Finding, FindingCode,
  Severity, about,
}
use webpprof.Analysis.Share.{sql_share_finding}
use webpprof.Analysis.Calls.{execution_analysis_duration}
use webpprof.Analysis.Repeats.{Pointers, has_id, n_plus_one}
use webpprof.Analysis.Bursts.{cache_bursts}
use webpprof.Analysis.Failures.{slow_operations, failed_operations, slow_events}
use webpprof.Analysis.Hierarchy.{Visits, new_analysis_entry_hierarchy}
use webpprof.Analysis.Bottleneck.{
  execution_bottleneck, execution_bottleneck-IsFound, slow_middlewares,
}
use webpprof.Analysis.Tools.{Tools, gather, sort_by, ids_of_entries, pointed}
use webpprof.Analysis.Sequential.{sequential_http_findings}
use webpprof.Analysis.Execution.{
  query_at, cache_at, call_at, middleware_at, event_at, optional, analyze_execution,
  legacy_performance_findings, cache_miss_finding, query_plan_findings, runs_on_its_own,
}
use webpprof.Analysis.Execution.Parts.{
  All-both, All-if, Maybe, Points, gather-All, sort_by-All, slow_events-Points,
  slow_middlewares-Points, query_plan_findings-Points, failed_operations-Points,
  slow_operations-Points,
}
use webpprof.Analysis.Execution.Groups.{Pointed, n_plus_one-Pointed, cache_bursts-Pointed}
use webpprof.Analysis.Execution.Runs.{sequential_http_findings-Points}
use webpprof.Analysis.Execution.Shares.{Shares, sql_share_finding-Shares, cache_miss_finding-Points}

read-Maybe {ℓ κ} :
    {A : Type ℓ} {B : Type κ} (Q : B → Type 0) (o : Option A) (f : A → B)
    → ((a : A) → Q (f a))
    → Maybe Q (elim o [ none ↦ none | some a ↦ some (f a) ])
read-Maybe Q none f good = tt
read-Maybe Q (some a) f good = good a

module _ (P : String → Type 0) (tools : Tools) (root : Entry) (entries : List Entry)
    (root_P : P root.id) (entries_P : All (λ e. P e.id) entries) where
  -- the entries of a kind, in the order in which they happened
  sorted-All {ℓ} :
      {A : Type ℓ} (entry : A → Entry) (kind : Kind) (read : Entry → Option A)
      → ((e : Entry) → P e.id → Maybe (λ a. P (entry a).id) (read e))
      → All (λ a. P (entry a).id) (sort_by entry (gather kind read entries))
  sorted-All entry kind read good =
      sort_by-All (λ a. P (entry a).id) entry (gather kind read entries)
        (gather-All (λ a. P (entry a).id) (λ e. P e.id) kind read entries good entries_P)

  pointed-Points :
      (code : FindingCode) (pointers : List Pointers)
      → All (Pointed P) pointers
      → All (Points P) (pointed code pointers)
  pointed-Points code [] all = tt
  pointed-Points code (p ∷ pointers) (here, all) = (here, pointed-Points code pointers all)

  optional-Points {ℓ} :
      {A : Type ℓ} (Q : A → Type 0) (o : Option A) (finding : A → Finding)
      → ((a : A) → Q a → Points P (finding a))
      → Maybe Q o
      → All (Points P) (optional tools o finding)
  optional-Points Q none finding good all = tt
  optional-Points Q (some a) finding good all = (good a all, tt)

  abbrev queries : List AnalyzedQuery
  queries = sort_by (λ q. q.entry) (gather Kind.query (query_at tools) entries)

  queries-All : All (λ q. P q.entry.id) queries
  queries-All =
      sorted-All (λ (q : AnalyzedQuery). q.entry) Kind.query (query_at tools)
        (λ e p. read-Maybe _ (tools.decode.query e.payload) _ (λ q. p))

  abbrev caches : List AnalyzedCache
  caches = sort_by (λ c. c.entry) (gather Kind.cache (cache_at tools) entries)

  caches-All : All (λ c. P c.entry.id) caches
  caches-All =
      sorted-All (λ (c : AnalyzedCache). c.entry) Kind.cache (cache_at tools)
        (λ e p. read-Maybe _ (tools.decode.cache e.payload) _ (λ c. p))

  abbrev calls : List AnalyzedHttpCall
  calls = sort_by (λ c. c.entry) (gather Kind.http_call (call_at tools) entries)

  calls-All : All (λ c. P c.entry.id) calls
  calls-All =
      sorted-All (λ (c : AnalyzedHttpCall). c.entry) Kind.http_call (call_at tools)
        (λ e p. read-Maybe _ (tools.decode.http_call e.payload) _ (λ c. p))

  abbrev middlewares : List AnalyzedMiddleware
  middlewares = sort_by (λ m. m.entry) (gather Kind.middleware (middleware_at tools) entries)

  middlewares-All : All (λ m. P m.entry.id) middlewares
  middlewares-All =
      sorted-All (λ (m : AnalyzedMiddleware). m.entry) Kind.middleware (middleware_at tools)
        (λ e p. read-Maybe _ (tools.decode.middleware e.payload) _ (λ m. p))

  abbrev events : List Entry
  events = sort_by (λ e. e) (gather Kind.event (event_at tools) entries)

  events-All : All (λ e. P e.id) events
  events-All =
      sorted-All (λ e. e) Kind.event (event_at tools)
        (λ e p. read-Maybe _ (tools.decode.event e.payload) _ (λ x. p))

  split-All :
      (before after : List Entry) (e : Entry)
      → All (λ x. P x.id) entries
      → entries ≡ before ++ e ∷ after
      → P e.id
  split-All before after e all split = member before (subst (All (λ x. P x.id)) split all)
    where
      member : (before : List Entry) → All (λ x. P x.id) (before ++ e ∷ after) → P e.id
      member [] all = all.0
      member (b ∷ before) all = member before all.1

  bottleneck-Maybe :
      (h : Visits) (duration : ℕ)
      → tools.percent 0 duration ≡ 0
      → Maybe
          (λ (e : Entry). P e.id)
          (execution_bottleneck tools.explains h tools.decode root.id tools.percent entries
            duration)
  bottleneck-Maybe h duration no_share =
      elim (Option-cases (
        execution_bottleneck tools.explains h tools.decode root.id tools.percent entries
          duration)) [
            | inl nothing ↦ subst (Maybe (λ (e : Entry). P e.id)) (sym nothing) tt
            | inr (e, found) ↦
                let (before, after, split, eligible, same) =
                  (execution_bottleneck-IsFound tools.explains h tools.decode root.id tools.percent
                    entries duration e no_share found).0 in
                subst (Maybe (λ (x : Entry). P x.id)) (sym found)
                  (split-All before after e entries_P split)
          ]

  legacy-Points :
      (include : Bool)
      → All (Points P) (legacy_performance_findings tools root queries calls caches entries include)
  unfolding legacy_performance_findings
  legacy-Points include =
      All-both (Points P) (slow_operations root queries calls) _
        (slow_operations-Points P root queries calls root_P queries-All calls-All)
        (All-both (Points P)
          (map (about FindingCode.failed_operation Severity.danger) (
            failed_operations tools.decode tools.equal_fold (runs_on_its_own tools root.kind)
              entries))
          (if include then cache_miss_finding tools caches else [])
          (failed_operations-Points P tools.decode tools.equal_fold
            (runs_on_its_own tools root.kind) entries entries_P)
          (All-if (Points P) include (cache_miss_finding tools caches) []
            (cache_miss_finding-Points P tools caches caches-All) tt))

  pub analyze_execution-Points :
      (sql_dominates : FindingCode)
      → ((duration : ℕ) → tools.percent 0 duration ≡ 0)
      → All (Points P) (analyze_execution tools root entries sql_dominates).1
  unfolding analyze_execution
  analyze_execution-Points sql_dominates no_share =
      let duration = execution_analysis_duration root entries in
      let h = new_analysis_entry_hierarchy tools.decode tools.walk tools.walk_again entries in
      let (bursts, explained) = cache_bursts tools.equal_fold caches queries in
      let repeats = n_plus_one tools.to_upper tools.to_lower tools.print queries explained in
      All-both (Points P) (pointed FindingCode.possible_n_plus_one repeats) _
        (pointed-Points FindingCode.possible_n_plus_one repeats (
          n_plus_one-Pointed P tools.to_upper tools.to_lower tools.print queries explained
            queries-All))
        (All-both (Points P) _ _
          (optional-Points (Shares P)
            (sql_share_finding tools.percent queries root.started_at duration) _
            (λ f shares. shares)
            (sql_share_finding-Shares P tools.percent queries root.started_at duration queries-All))
          (All-both (Points P) (sequential_http_findings tools calls) _
            (sequential_http_findings-Points P tools calls calls-All)
            (All-both (Points P) (pointed FindingCode.cache_miss_query_burst bursts) _
              (pointed-Points FindingCode.cache_miss_query_burst bursts
                (cache_bursts-Pointed P tools.equal_fold caches queries caches-All queries-All))
              (All-both (Points P) (slow_middlewares tools.explains h middlewares) _
                (slow_middlewares-Points P tools.explains h middlewares middlewares-All)
                (All-both (Points P) (slow_events events) _ (slow_events-Points P events events-All)
                  (All-both (Points P) _ _
                    (optional-Points (λ (e : Entry). P e.id)
                      (execution_bottleneck tools.explains h tools.decode root.id tools.percent
                        entries duration)
                      _ (λ e p. (p, (p, tt))) (bottleneck-Maybe h duration (no_share duration)))
                    (All-both (Points P) (query_plan_findings tools queries) _
                      (query_plan_findings-Points P tools queries queries-All)
                      (legacy-Points _))))))))

-- the id of the root or of one of the entries
abbrev pub IsKnown : Entry → List Entry → String → Type 0
IsKnown root entries id = has_id id (root.id ∷ ids_of_entries entries) ≡ true

IsKnown-later :
    (root : Entry) (e : Entry) (entries : List Entry) (ids : List Entry)
    → All (λ x. IsKnown root entries x.id) ids
    → All (λ x. IsKnown root (e ∷ entries) x.id) ids
unfolding has_id
IsKnown-later root e entries [] all = tt
IsKnown-later root e entries (x ∷ ids) (here, all) =
    (ground (arith, here), IsKnown-later root e entries ids all)

IsKnown-entries :
    (root : Entry) (entries : List Entry) → All (λ e. IsKnown root entries e.id) entries
unfolding has_id
IsKnown-entries root [] = tt
IsKnown-entries root (e ∷ entries) =
    let same = (eq_iff e.id e.id).1 refl in
    (ground (arith, same), IsKnown-later root e entries entries (IsKnown-entries root entries))

-- Each finding of an execution points only to the root and to entries that it was given, of whatever kind the
-- finding is. No time is no share.
pub analyze_execution-IsKnown :
    (tools : Tools) (root : Entry) (entries : List Entry) (sql_dominates : FindingCode)
    → ((duration : ℕ) → tools.percent 0 duration ≡ 0)
    → All (Points (IsKnown root entries)) (analyze_execution tools root entries sql_dominates).1
unfolding has_id
analyze_execution-IsKnown tools root entries sql_dominates no_share =
    let same = (eq_iff root.id root.id).1 refl in
    analyze_execution-Points (IsKnown root entries) tools root entries (ground (arith, same))
      (IsKnown-entries root entries) sql_dominates no_share
