-- ===== src/Analysis/Share.antt =====
-- analysis.go: `sqlShareFinding`, the share of an execution's time that its queries cover. The
-- percentage, which the source computes on floats as `math.Round(float64(a) / float64(b) * 100)`, is
-- the parameter `percent a b`; the texts of the finding are left out. `sort.Slice` by the start is an
-- insertion sort.
use webpprof.Prelude.{
  ℕ, ◌+◌, ◌-◌, String, Option, none, some, List, [], ◌∷◌, map, min, max, ltb, leb, ◌==◌, ◌||◌,
  if◌then◌else◌, pos_part,
}
use webpprof.Entry.{Entry, zero_entry}
use webpprof.Analysis.{AnalyzedQuery}

pub record Interval : Type 0 where
  pub start : ℕ
  pub stop : ℕ

-- the interval of a query, cut to the execution
unfoldable pub clip : ℕ → ℕ → Entry → Option Interval
clip started_at duration e =
    let own = pos_part e.duration_ns in
    let finish = e.started_at + own in
    let start =
      if started_at == 0
      then e.started_at
      else if ltb e.started_at started_at
      then started_at
      else e.started_at in
    let stop =
      if started_at == 0
      then finish
      else if ltb (started_at + duration) finish
      then started_at + duration
      else finish in
    if own == 0 || (e.started_at == 0 || leb stop start)
    then none
    else some (record { start = start; stop = stop })

abbrev pub prepend {ℓ} : {A : Type ℓ} → Option A → List A → List A
prepend none xs = xs
prepend (some x) xs = x ∷ xs

-- the first loop: the intervals, the queries that contribute and the slowest of these
unfoldable pub intervals_of : ℕ → ℕ → List AnalyzedQuery → List Interval
intervals_of started_at duration [] = []
intervals_of started_at duration (q ∷ queries) =
    prepend (clip started_at duration q.entry) (intervals_of started_at duration queries)

unfoldable pub contributing : ℕ → ℕ → List AnalyzedQuery → List AnalyzedQuery
contributing started_at duration [] = []
contributing started_at duration (q ∷ queries) =
    let rest = contributing started_at duration queries in
    elim (clip started_at duration q.entry) [ none ↦ rest | some i ↦ q ∷ rest ]

unfoldable pub slowest : Entry → List AnalyzedQuery → Entry
slowest best [] = best
slowest best (q ∷ queries) =
    slowest
      (if ltb (pos_part best.duration_ns) (pos_part q.entry.duration_ns) then q.entry else best)
      queries

unfoldable pub insert_interval : Interval → List Interval → List Interval
insert_interval i [] = i ∷ []
insert_interval i (j ∷ rest) =
    let later = j ∷ insert_interval i rest in if leb i.start j.start then i ∷ j ∷ rest else later

unfoldable pub sort_intervals : List Interval → List Interval
sort_intervals [] = []
sort_intervals (i ∷ rest) = insert_interval i (sort_intervals rest)

-- the second loop, which returns what it adds to `total`
unfoldable pub sweep : ℕ → List Interval → ℕ
sweep covered_until [] = 0
sweep covered_until (i ∷ rest) =
    let overlaps = leb i.start covered_until in
    let added =
      if overlaps
      then (if ltb covered_until i.stop then i.stop - covered_until else 0)
      else i.stop - i.start in
    let until = if overlaps then max covered_until i.stop else i.stop in added + sweep until rest

unfoldable pub covered_time : List Interval → ℕ
covered_time [] = 0
covered_time (i ∷ rest) = i.stop - i.start + sweep i.stop rest

pub record ShareFinding : Type 0 where
  pub percentage : ℕ
  pub total : ℕ
  pub entry_id : String
  pub related_entry_ids : List String

abbrev pub query_entry_ids : List AnalyzedQuery → List String
query_entry_ids = map (λ q. q.entry.id)

unfoldable pub sql_share_finding : (ℕ → ℕ → ℕ) → List AnalyzedQuery → ℕ → ℕ → Option ShareFinding
sql_share_finding percent queries started_at duration =
    let intervals = sort_intervals (intervals_of started_at duration queries) in
    let used = contributing started_at duration queries in
    let total = covered_time intervals in
    let percentage = min (percent total duration) 100 in
    if duration == 0 then none else elim intervals [
      | [] ↦ none
      | i ∷ rest ↦
          if ltb percentage 50
          then none
          else some (record {
            percentage = percentage;
            total = total;
            entry_id = (slowest zero_entry used).id;
            related_entry_ids = query_entry_ids used;
          })
    ]
