-- ===== src/Analysis/Execution/Parts.antt =====
-- What holds for the ids of all entries holds for those that the simple findings point to.
use webpprof.Prelude.{
  ℕ, ℤ, ◌*◌, String, true, false, if◌then◌else◌, Bool, Option, none, some, List, [], ◌∷◌, ◌++◌, map,
  All,
}
use webpprof.Entry.{Entry, Kind, is_kind}
use webpprof.Analysis.{
  AnalyzedQuery, AnalyzedHttpCall, AnalyzedMiddleware, Finding, FindingCode, Severity, about,
}
use webpprof.Analysis.Failures.{
  Decoders, at_least, is_failure, failed_operations, slow_root, slow_queries, slow_calls,
  slow_events, slow_operations, ms,
}
use webpprof.Analysis.Share.{prepend}
use webpprof.Analysis.Calls.{entry_happened_before}
use webpprof.Analysis.Hierarchy.{Visits}
use webpprof.Analysis.Bottleneck.{slow_middlewares}
use webpprof.Analysis.Tools.{insert_by, sort_by, gather, Tools}
use webpprof.Analysis.Execution.{query_plan_findings, has_visible_issue}

pub All-both {ℓ} :
    {A : Type ℓ} (P : A → Type 0) (xs ys : List A) → All P xs → All P ys → All P (xs ++ ys)
All-both P [] ys all more = more
All-both P (x ∷ xs) ys (here, all) more = (here, All-both P xs ys all more)

-- The list of an `if` whose branches are good.
pub All-if {ℓ} :
    {A : Type ℓ} (P : A → Type 0) (b : Bool) (xs ys : List A)
    → All P xs
    → All P ys
    → All P (if b then xs else ys)
All-if P true xs ys all other = all
All-if P false xs ys all other = other

pub insert_by-All {ℓ} :
    {A : Type ℓ} (P : A → Type 0) (entry : A → Entry) (a : A) (xs : List A)
    → P a
    → All P xs
    → All P (insert_by entry a xs)
unfolding insert_by
insert_by-All P entry a [] p all = (p, tt)
insert_by-All P entry a (b ∷ rest) p (here, all) =
    All-if P (entry_happened_before (entry b) (entry a)) (b ∷ insert_by entry a rest) (a ∷ b ∷ rest)
      (here, insert_by-All P entry a rest p all) (p, (here, all))

pub sort_by-All {ℓ} :
    {A : Type ℓ} (P : A → Type 0) (entry : A → Entry) (xs : List A)
    → All P xs
    → All P (sort_by entry xs)
unfolding sort_by
sort_by-All P entry [] all = tt
sort_by-All P entry (a ∷ xs) (here, all) =
    insert_by-All P entry a (sort_by entry xs) here (sort_by-All P entry xs all)

-- what holds for what may be there
abbrev pub Maybe {ℓ} : {A : Type ℓ} → (A → Type 0) → Option A → Type 0
Maybe P none = Unit
Maybe P (some a) = P a

prepend-All {ℓ} :
    {A : Type ℓ} (P : A → Type 0) (o : Option A) (xs : List A)
    → Maybe P o
    → All P xs
    → All P (prepend o xs)
prepend-All P none xs p all = all
prepend-All P (some a) xs p all = (p, all)

pub gather-All {ℓ} :
    {A : Type ℓ} (P : A → Type 0) (Q : Entry → Type 0) (kind : Kind) (read : Entry → Option A)
    (entries : List Entry)
    → ((e : Entry) → Q e → Maybe P (read e))
    → All Q entries
    → All P (gather kind read entries)
unfolding gather
gather-All P Q kind read [] good all = tt
gather-All P Q kind read (e ∷ entries) good (here, all) =
    let rest = gather-All P Q kind read entries good all in
    All-if P (is_kind kind e.kind) (prepend (read e) (gather kind read entries))
      (gather kind read entries)
      (prepend-All P (read e) (gather kind read entries) (good e here) rest) rest

module _ (P : String → Type 0) where
  -- the ids that a finding points to
  abbrev pub Points : Finding → Type 0
  Points f = P f.entry_id × All P f.related_entry_ids

  pub slow_events-Points :
      (events : List Entry) → All (λ e. P e.id) events → All Points (slow_events events)
  unfolding slow_events
  slow_events-Points [] all = tt
  slow_events-Points (e ∷ events) (here, all) =
      let rest = slow_events-Points events all in
      All-if Points (at_least e.duration_ns (500 * ms))
        (about FindingCode.slow_event Severity.warning e.id ∷ slow_events events)
        (slow_events events) ((here, (here, tt)), rest) rest

  pub slow_queries-Points :
      (queries : List AnalyzedQuery)
      → All (λ q. P q.entry.id) queries
      → All Points (slow_queries queries)
  unfolding slow_queries
  slow_queries-Points [] all = tt
  slow_queries-Points (q ∷ queries) (here, all) =
      let rest = slow_queries-Points queries all in
      All-if Points (at_least q.entry.duration_ns (100 * ms)) _ (slow_queries queries)
        ((here, (here, tt)), rest) rest

  pub slow_calls-Points :
      (calls : List AnalyzedHttpCall)
      → All (λ c. P c.entry.id) calls
      → All Points (slow_calls calls)
  unfolding slow_calls
  slow_calls-Points [] all = tt
  slow_calls-Points (c ∷ calls) (here, all) =
      let rest = slow_calls-Points calls all in
      All-if Points (at_least c.entry.duration_ns (500 * ms)) _ (slow_calls calls)
        ((here, (here, tt)), rest) rest

  pub slow_middlewares-Points :
      (explains : ℕ → ℕ → Bool) (h : Visits) (middlewares : List AnalyzedMiddleware)
      → All (λ m. P m.entry.id) middlewares
      → All Points (slow_middlewares explains h middlewares)
  unfolding slow_middlewares
  slow_middlewares-Points explains h [] all = tt
  slow_middlewares-Points explains h (m ∷ middlewares) (here, all) =
      let rest = slow_middlewares-Points explains h middlewares all in
      All-if Points _ (slow_middlewares explains h middlewares)
        (about FindingCode.slow_middleware Severity.warning m.entry.id
          ∷ slow_middlewares explains h middlewares)
        rest ((here, (here, tt)), rest)

  pub query_plan_findings-Points :
      (tools : Tools) (queries : List AnalyzedQuery)
      → All (λ q. P q.entry.id) queries
      → All Points (query_plan_findings tools queries)
  unfolding query_plan_findings
  query_plan_findings-Points tools [] all = tt
  query_plan_findings-Points tools (q ∷ queries) (here, all) =
      let rest = query_plan_findings-Points tools queries all in
      All-if Points (has_visible_issue tools q) _ (query_plan_findings tools queries)
        ((here, (here, tt)), rest) rest

  failed_ids :
      (decode : Decoders) (equal_fold : String → String → Bool) (roots : Bool)
      (entries : List Entry)
      → All (λ e. P e.id) entries
      → All P (failed_operations decode equal_fold roots entries)
  unfolding failed_operations
  failed_ids decode equal_fold roots [] all = tt
  failed_ids decode equal_fold roots (e ∷ entries) (here, all) =
      let rest = failed_ids decode equal_fold roots entries all in
      All-if P (is_failure decode equal_fold roots e.kind e.payload) _
        (failed_operations decode equal_fold roots entries) (here, rest) rest

  pub failed_operations-Points :
      (decode : Decoders) (equal_fold : String → String → Bool) (roots : Bool)
      (entries : List Entry)
      → All (λ e. P e.id) entries
      → All Points (
          map
            (about FindingCode.failed_operation Severity.danger)
            (failed_operations decode equal_fold roots entries))
  failed_operations-Points decode equal_fold roots entries all =
      about-Points (failed_operations decode equal_fold roots entries)
        (failed_ids decode equal_fold roots entries all)
    where
      about-Points :
          (ids : List String)
          → All P ids
          → All Points (map (about FindingCode.failed_operation Severity.danger) ids)
      about-Points [] all = tt
      about-Points (id ∷ ids) (here, all) = ((here, (here, tt)), about-Points ids all)

  slow_one-Points :
      (b : Bool) (code : FindingCode) (severity : Severity) (id : String)
      → P id
      → All Points (if b then about code severity id ∷ [] else [])
  slow_one-Points true code severity id p = ((p, (p, tt)), tt)
  slow_one-Points false code severity id p = tt

  slow_root-Points :
      (kind : Kind) (duration : ℤ) (id : String) → P id → All Points (slow_root kind duration id)
  unfolding slow_root
  slow_root-Points Kind.request duration id p =
      slow_one-Points (at_least duration (500 * ms)) FindingCode.slow_request Severity.danger id p
  slow_root-Points Kind.schedule duration id p =
      slow_one-Points (at_least duration (500 * ms)) FindingCode.slow_schedule Severity.warning id p
  slow_root-Points Kind.callable duration id p =
      slow_one-Points (at_least duration (500 * ms)) FindingCode.slow_callable Severity.warning id p
  slow_root-Points Kind.task duration id p =
      slow_one-Points (at_least duration (1000 * ms)) FindingCode.slow_task Severity.warning id p
  slow_root-Points _ duration id p = tt

  pub slow_operations-Points :
      (root : Entry) (queries : List AnalyzedQuery) (calls : List AnalyzedHttpCall)
      → P root.id
      → All (λ q. P q.entry.id) queries
      → All (λ c. P c.entry.id) calls
      → All Points (slow_operations root queries calls)
  unfolding slow_operations
  slow_operations-Points root queries calls p qs cs =
      All-both Points (slow_root root.kind root.duration_ns root.id)
        (slow_queries queries ++ slow_calls calls)
        (slow_root-Points root.kind root.duration_ns root.id p)
        (All-both Points (slow_queries queries) (slow_calls calls) (slow_queries-Points queries qs)
          (slow_calls-Points calls cs))
