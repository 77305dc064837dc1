-- ===== src/Analysis/Calls.antt =====
-- analysis.go: `sequentialHTTPFindings` for the calls of one host, in the order in which they
-- happened, `entryHappenedBefore`, and the helpers on requests and durations.
use webpprof.Prelude.{
  ℕ, zero, suc, ◌+◌, ◌-◌, ◌≡◌, refl, ap, String, str_eq, Bool, true, false, ◌&&◌, ◌||◌, List, [],
  ◌∷◌, ◌++◌, filter, length, ltb, leb, ◌==◌, if◌then◌else◌, pos_part, Bool-cases, inl, inr,
}
use webpprof.Entry.{Entry}

-- 100 ms
abbrev pub max_gap : ℕ
max_gap = 100000000

abbrev pub end_of : Entry → ℕ
end_of e = e.started_at + pos_part e.duration_ns

unfoldable pub entry_happened_before : Entry → Entry → Bool
entry_happened_before left right =
    if left.started_at == right.started_at
    then ltb left.cursor right.cursor
    else ltb left.started_at right.started_at

unfoldable pub direct_request_entries : String → List Entry → List Entry
direct_request_entries request_id =
    filter (λ e. str_eq e.id request_id || str_eq e.request_id request_id)

-- `executionAnalysisDuration`: the loop, from the duration found so far
unfoldable pub longest_span : Entry → ℕ → List Entry → ℕ
longest_span root duration [] = duration
longest_span root duration (e ∷ entries) =
    let skipped = str_eq e.id root.id || (e.started_at == 0 || ltb e.started_at root.started_at) in
    let span = end_of e - root.started_at in
    longest_span root (if skipped then duration else if ltb duration span then span else duration)
      entries

unfoldable pub execution_analysis_duration : Entry → List Entry → ℕ
execution_analysis_duration root entries =
    if root.started_at == 0
    then pos_part root.duration_ns
    else longest_span root (pos_part root.duration_ns) entries

-- whether a call starts after the end of the one before it, and at most `max_gap` later
abbrev pub follows : Entry → Entry → Bool
follows previous e =
    leb (end_of previous) e.started_at && leb (e.started_at - end_of previous) max_gap

-- the inner loop: the calls that continue a run, and what comes after the run
unfoldable pub run_of : Entry → List Entry → List Entry × List Entry
run_of previous [] = ([], [])
run_of previous (e ∷ calls) =
    let (run, rest) = run_of e calls in
    if follows previous e then (e ∷ run, rest) else ([], e ∷ calls)

-- the outer loop, one round for each run; `fuel` is the number of the calls
unfoldable pub best_run : ℕ → List Entry → List Entry → List Entry
best_run zero best calls = best
best_run (suc fuel) best [] = best
best_run (suc fuel) best (e ∷ calls) =
    let (run, rest) = run_of e calls in
    best_run fuel (if ltb (length best) (suc (length run)) then e ∷ run else best) rest

unfoldable pub sequential_calls : List Entry → List Entry
sequential_calls calls = best_run (length calls) [] calls

-- each call follows the one before it
abbrev pub IsChain : List Entry → Type 0
IsChain [] = Unit
IsChain (e ∷ []) = Unit
IsChain (e ∷ f ∷ calls) = (follows e f ≡ true) × IsChain (f ∷ calls)

run_of-IsChain : (e : Entry) (calls : List Entry) → IsChain (e ∷ (run_of e calls).0)
unfolding run_of
run_of-IsChain e [] = tt
run_of-IsChain e (f ∷ calls) = elim (Bool-cases (follows e f)) [
  | inl close ↦ rw close (close, run_of-IsChain f calls)
  | inr apart ↦ rw apart tt
]

run_of-append : (e : Entry) (calls : List Entry) → (run_of e calls).0 ++ (run_of e calls).1 ≡ calls
unfolding run_of
run_of-append e [] = refl
run_of-append e (f ∷ calls) = elim (Bool-cases (follows e f)) [
  | inl close ↦ rw close (ap (◌∷◌ f) (run_of-append f calls))
  | inr apart ↦ rw apart
]

best_run-IsChain :
    (fuel : ℕ) (best calls : List Entry) → IsChain best → IsChain (best_run fuel best calls)
unfolding best_run
best_run-IsChain zero best calls h = h
best_run-IsChain (suc fuel) best [] h = h
best_run-IsChain (suc fuel) best (e ∷ calls) h =
    best_run-IsChain fuel _ (run_of e calls).1
      (better (ltb (length best) (suc (length (run_of e calls).0))))
  where
    better : (b : Bool) → IsChain (if b then e ∷ (run_of e calls).0 else best)
    better true = run_of-IsChain e calls
    better false = h

-- The calls that are reported as sequential follow each other without overlap, each at most 100 ms
-- after the end of the one before it.
sequential_calls-IsChain : (calls : List Entry) → IsChain (sequential_calls calls)
unfolding sequential_calls
sequential_calls-IsChain calls = best_run-IsChain (length calls) [] calls tt
