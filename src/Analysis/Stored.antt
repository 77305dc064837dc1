-- ===== src/Analysis/Stored.antt =====
-- analysis.go: `AnalyzeRequest`, `AnalyzeSchedule`, `AnalyzeCallable` and `AnalyzeTask`, of a profiler with a
-- store. The time of the analysis is left out.
use mathlib.Core.Path.{subst}
use webpprof.Prelude.{
  ℕ, ◌≡◌, refl, sym, ap, String, str_eq, eq_iff, Bool, true, ◌||◌, Option, none, some, List, [],
  ◌∷◌, filter, All, Option-cases, Bool-cases, inl, inr, if◌then◌else◌, arith, some_injective,
}
use webpprof.Entry.{Entry, Kind, is_kind}
use webpprof.Store.{EntryStore, StorageBatch}
use webpprof.Store.Bounds.{cutoff}
use mathlib.Core.Option
use webpprof.Store.Reads.{request_entries, belongs_to}
use webpprof.Store.Query.{scope_entries}
use webpprof.Store.Window.{ids, find, expire}
use webpprof.Store.Holds.{Holds}
use webpprof.Store.Positions.{request_entries_lem}
use webpprof.Analysis.{Finding, FindingCode}
use webpprof.Analysis.Calls.{direct_request_entries}
use webpprof.Analysis.Repeats.{has_id}
use webpprof.Analysis.Tools.{Tools}
use webpprof.Analysis.Execution.{analyze_request, analyze_schedule, analyze_callable, analyze_task}
use webpprof.Analysis.Execution.Parts.{Points, Maybe}
use webpprof.Analysis.Execution.Entries.{analyze_execution-Points}

-- `RequestAnalysis` and its like
pub record ExecutionAnalysis : Type 0 where
  pub root_id : String
  pub duration_ns : ℕ
  pub findings : List Finding

-- an analysis of the entries that were read, if their root is of the kind
unfoldable pub analyzed_as :
    Kind
    → (Entry → List Entry → ℕ × List Finding)
    → Option (Entry × List Entry)
    → Option ExecutionAnalysis
analyzed_as kind analyze none = none
analyzed_as kind analyze (some (root, entries)) =
    let (duration, findings) = analyze root entries in
    if is_kind kind root.kind
    then some (record { root_id = root.id; duration_ns = duration; findings = findings })
    else none

-- with the storage batch of the entries that were read, none where nothing was
abbrev pub Analyzed : Type 0
Analyzed = Option ExecutionAnalysis × Option StorageBatch × EntryStore

unfoldable pub request_analysis : Tools → EntryStore → String → ℕ → Analyzed
request_analysis tools s id now =
    let (found, batch, s') = request_entries s id now in
    if str_eq id ""
    then (none, none, s)
    else (analyzed_as Kind.request (analyze_request tools) found, some batch, s')

-- the three that read the scope of their root
unfoldable pub scope_analysis :
    Kind → (Entry → List Entry → ℕ × List Finding) → EntryStore → String → ℕ → Analyzed
scope_analysis kind analyze s id now =
    let (found, batch, s') = scope_entries s id now in
    if str_eq id "" then (none, none, s) else (analyzed_as kind analyze found, some batch, s')

abbrev pub schedule_analysis : Tools → EntryStore → String → ℕ → Analyzed
schedule_analysis tools = scope_analysis Kind.schedule (analyze_schedule tools)

abbrev pub callable_analysis : Tools → EntryStore → String → ℕ → Analyzed
callable_analysis tools = scope_analysis Kind.callable (analyze_callable tools)

abbrev pub task_analysis : Tools → EntryStore → String → ℕ → Analyzed
task_analysis tools = scope_analysis Kind.task (analyze_task tools)

-- the id of one of the entries
abbrev pub IsIdOf : List Entry → String → Type 0
IsIdOf w id = has_id id (ids w) ≡ true

find-IsIdOf : (id : String) (w : List Entry) (e : Entry) → find id w ≡ some e → IsIdOf w e.id
unfolding find has_id
find-IsIdOf id [] e h = absurd cc
find-IsIdOf id (x ∷ w) e h = elim (Bool-cases (str_eq x.id id)) [
  | inl same ↦
      let is_x : x ≡ e = some_injective (rw (find, same) at h) in
      let own = (eq_iff x.id e.id).1 (ap (λ (y : Entry). y.id) is_x) in ground (arith, own)
  | inr apart ↦ let rest = find-IsIdOf id w e (rw (find, apart) at h) in ground (arith, rest)
]

filter-All {ℓ} :
    {A : Type ℓ} (P : A → Type 0) (f : A → Bool) (xs : List A) → All P xs → All P (filter f xs)
filter-All P f [] all = tt
filter-All P f (x ∷ xs) (here, all) = elim (Bool-cases (f x)) [
  | inl picked ↦ rw picked (here, filter-All P f xs all)
  | inr left ↦ rw left (filter-All P f xs all)
]

later_ids :
    (e : Entry) (w xs : List Entry)
    → All (λ x. IsIdOf w x.id) xs
    → All (λ x. IsIdOf (e ∷ w) x.id) xs
unfolding has_id
later_ids e w [] all = tt
later_ids e w (x ∷ xs) (here, all) = (ground (arith, here), later_ids e w xs all)

own_ids : (w : List Entry) → All (λ e. IsIdOf w e.id) w
unfolding has_id
own_ids [] = tt
own_ids (e ∷ w) =
    let same = (eq_iff e.id e.id).1 refl in (ground (arith, same), later_ids e w w (own_ids w))

analyzed_as-Maybe :
    (P : ExecutionAnalysis → Type 0) (kind : Kind) (analyze : Entry → List Entry → ℕ × List Finding)
    (root : Entry) (entries : List Entry)
    → ((id : String)
        → P (record {
          root_id = id;
          duration_ns = (analyze root entries).0;
          findings = (analyze root entries).1;
        }))
    → Maybe P (analyzed_as kind analyze (some (root, entries)))
unfolding analyzed_as
analyzed_as-Maybe P kind analyze root entries good = elim (Bool-cases (is_kind kind root.kind)) [
  | inl wanted ↦ rw wanted (good root.id)
  | inr other ↦ rw other tt
]

-- the request and its entries are in the window
request-Points :
    (tools : Tools) (u : List Entry) (id : String)
    → ((duration : ℕ) → tools.percent 0 duration ≡ 0)
    → Maybe
        (λ (a : ExecutionAnalysis). All (Points (IsIdOf u)) a.findings)
        (analyzed_as Kind.request
          (analyze_request tools)
          (Option.map (λ r. (r, filter (belongs_to id) u)) (find id u)))
unfolding analyze_request direct_request_entries analyzed_as
request-Points tools u id no_share = elim (Option-cases (find id u)) [
  | inl missing ↦ rw missing tt
  | inr (root, found) ↦
      let entries = filter (belongs_to id) u in
      let of_request = λ (e : Entry). str_eq e.id root.id || str_eq e.request_id root.id in
      rw found (
        analyzed_as-Maybe (λ (a : ExecutionAnalysis). All (Points (IsIdOf u)) a.findings)
          Kind.request (analyze_request tools) root entries
          (λ own.
            analyze_execution-Points (IsIdOf u) tools root (filter of_request entries)
              (find-IsIdOf id u root found)
              (filter-All (λ e. IsIdOf u e.id) of_request entries
                (filter-All (λ e. IsIdOf u e.id) (belongs_to id) u (own_ids u)))
              FindingCode.sql_dominates_request no_share))
]

-- The analysis of a request that is stored points only to entries of the window of the store, without those at its
-- front that were recorded before the cutoff. No time is no share.
pub request_analysis-IsIdOf :
    (tools : Tools) (s : EntryStore) (w : List Entry) (id : String) (now : ℕ)
    (a : ExecutionAnalysis)
    → Holds s w
    → ((duration : ℕ) → tools.percent 0 duration ≡ 0)
    → (request_analysis tools s id now).0 ≡ some a
    → All (Points (IsIdOf (expire (cutoff s now) w))) a.findings
unfolding request_analysis
request_analysis-IsIdOf tools s w id now a h no_share reported = elim (Bool-cases (str_eq id "")) [
  | inl blank ↦ absurd (cc (rw (request_analysis, blank) at reported))
  | inr named ↦
      let P =
        λ (b : ExecutionAnalysis). All (Points (IsIdOf (expire (cutoff s now) w))) b.findings in
      let points =
        subst (λ o. Maybe P (analyzed_as Kind.request (analyze_request tools) o))
          (sym (request_entries_lem s w id now h))
          (request-Points tools (expire (cutoff s now) w) id no_share) in
      subst (Maybe P) (rw (request_analysis, named) at reported) points
]
