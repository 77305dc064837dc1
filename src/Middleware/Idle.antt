-- ===== src/Middleware/Idle.antt =====
-- The work of a middleware is the time at which none of its downstream calls runs.
use webpprof.Prelude.{
  ℕ, ◌+◌, ◌-◌, ◌≤◌, ◌<◌, ◌≡◌, refl, ap, ap₂, ◌∙◌, Bool, false, ◌||◌, some, List, [], ◌∷◌, map, All,
  ltb, arith, Bool-cases, inl, inr,
}
use mathlib.Core.Path.{subst}
use webpprof.Analysis.Share.{Interval, sort_intervals}
use webpprof.Analysis.Coverage.{
  covers, is_covered, count, count_congr, StartsFrom, WithinBound, sweep-count,
}
use webpprof.Analysis.Union.{sort-All, sort-Sorted, sort-is_covered}
use webpprof.Middleware.{clamp, no_interval, merge, work_spans}
use webpprof.Middleware.Merging.{gaps-sweep, Ends, IsMerged, merge-IsMerged}

clamp-covers :
    (start finish : ℕ) (i : Interval) (t : ℕ)
    → start ≤ t
    → t < finish
    → covers (clamp start finish i) t ≡ covers i t
unfolding clamp
clamp-covers start finish i t a b = ground arith

clamped-is_covered :
    (start finish : ℕ) (downstream : List Interval) (t : ℕ)
    → start ≤ t
    → t < finish
    → is_covered (map (clamp start finish) downstream) t ≡ is_covered downstream t
unfolding is_covered
clamped-is_covered start finish [] t a b = refl
clamped-is_covered start finish (i ∷ rest) t a b =
    ap₂ ◌||◌ (clamp-covers start finish i t a b) (clamped-is_covered start finish rest t a b)

clamped-Ends :
    (start finish : ℕ) (downstream : List Interval)
    → All (Ends finish) (map (clamp start finish) downstream)
unfolding clamp
clamped-Ends start finish [] = tt
clamped-Ends start finish (i ∷ rest) = (ground arith, clamped-Ends start finish rest)

from_zero : (intervals : List Interval) → All (StartsFrom 0) intervals
from_zero [] = tt
from_zero (i ∷ rest) = (omega arith, from_zero rest)

-- the merged intervals of an invocation
abbrev pub merged_of : List Interval → ℕ → ℕ → List Interval
merged_of downstream start finish =
    merge no_interval (sort_intervals (map (clamp start finish) downstream))

pub merged_of-IsMerged :
    (downstream : List Interval) (start finish : ℕ)
    → IsMerged finish no_interval
        (sort_intervals (map (clamp start finish) downstream))
        (merged_of downstream start finish)
merged_of-IsMerged downstream start finish =
    let clamped = map (clamp start finish) downstream in
    merge-IsMerged finish no_interval (sort_intervals clamped) (inl (refl, refl))
      (from_zero (sort_intervals clamped)) (sort-Sorted clamped)
      (sort-All (Ends finish) clamped (clamped-Ends start finish downstream))

pub merged_of-is_covered :
    (downstream : List Interval) (start finish t : ℕ)
    → start ≤ t
    → t < finish
    → is_covered (merged_of downstream start finish) t ≡ is_covered downstream t
merged_of-is_covered downstream start finish t a b =
    (merged_of-IsMerged downstream start finish).3 t
    ∙ ground arith
    ∙ sort-is_covered (map (clamp start finish) downstream) t
    ∙ clamped-is_covered start finish downstream t a b

gone : (start finish : ℕ) → ltb start finish ≡ false → finish - start ≡ 0
gone start finish nothing = ground arith

count_empty : (f : ℕ → Bool) (from : ℕ) → count f from 0 ≡ 0
unfolding count
count_empty f from = refl

-- The work of an invocation and the number of instants at which some downstream call runs add up to
-- its duration, in whatever order the calls were recorded, however they overlap and wherever they reach
-- outside of it.
pub work_spans-duration :
    (downstream : List Interval) (start finish : ℕ)
    → (work_spans (some downstream) start finish).duration
        + count (is_covered downstream) start (finish - start)
      ≡ finish - start
unfolding work_spans
work_spans-duration downstream start finish = elim (Bool-cases (ltb start finish)) [
  | inl lasts ↦
      let n = finish - start in
      let merged = merged_of downstream start finish in
      let facts = merged_of-IsMerged downstream start finish in
      let within =
        subst (λ b. All (WithinBound b) merged) {x = finish} {y = start + n} (ground arith)
          facts.2 in
      rw lasts (
        omega (
          arith,
          gaps-sweep start finish start merged (ground arith) facts.2,
          sweep-count merged start n facts.1 within,
          count_congr (is_covered merged) (is_covered downstream) start n
              (λ t a b. merged_of-is_covered downstream start finish t a (ground arith)),
        ))
  | inr nothing ↦
      let f = is_covered downstream in
      rw nothing (
        omega (
          arith,
          ap (count f start) {x = finish - start} {y = 0} (ground arith),
          count_empty f start,
          gone start finish nothing,
        ))
]
