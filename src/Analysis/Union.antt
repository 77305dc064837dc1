-- ===== src/Analysis/Union.antt =====
-- The sort of `sqlShareFinding`, and the total of its intervals in any order.
use webpprof.Prelude.{
  ℕ, ◌≤◌, ◌≡◌, refl, ap, ◌∙◌, Bool, true, false, ◌||◌, List, [], ◌∷◌, All, leb, arith, Bool-cases,
  inl, inr,
}
use webpprof.Analysis.Share.{Interval, insert_interval, sort_intervals, covered_time}
use webpprof.Analysis.Coverage.{
  covers, is_covered, count, count_congr, StartsFrom, Sorted, WithinBound, covered_time-ordered,
}

insert-All :
    (P : Interval → Type 0) (i : Interval) (rest : List Interval)
    → P i
    → All P rest
    → All P (insert_interval i rest)
unfolding insert_interval
insert-All P i [] h all = (h, tt)
insert-All P i (j ∷ rest) h all = elim (Bool-cases (leb i.start j.start)) [
  | inl first ↦ rw first (h, all)
  | inr later ↦ rw later (all.0, insert-All P i rest h all.1)
]

pub sort-All :
    (P : Interval → Type 0) (intervals : List Interval)
    → All P intervals
    → All P (sort_intervals intervals)
unfolding sort_intervals
sort-All P [] all = tt
sort-All P (i ∷ rest) all = insert-All P i (sort_intervals rest) all.0 (sort-All P rest all.1)

pub StartsFrom-le :
    (a b : ℕ) (rest : List Interval) → a ≤ b → All (StartsFrom b) rest → All (StartsFrom a) rest
StartsFrom-le a b [] le all = tt
StartsFrom-le a b (i ∷ rest) le all = (omega (arith, all.0), StartsFrom-le a b rest le all.1)

insert-Sorted :
    (i : Interval) (rest : List Interval) → Sorted rest → Sorted (insert_interval i rest)
unfolding insert_interval
insert-Sorted i [] sorted = (tt, tt)
insert-Sorted i (j ∷ rest) sorted = elim (Bool-cases (leb i.start j.start)) [
  | inl first ↦
      rw first ((ground arith, StartsFrom-le i.start j.start rest (ground arith) sorted.0), sorted)
  | inr later ↦ rw later (
    insert-All (StartsFrom j.start) i rest (ground arith) sorted.0,
    insert-Sorted i rest sorted.1,
  )
]

pub sort-Sorted : (intervals : List Interval) → Sorted (sort_intervals intervals)
unfolding sort_intervals
sort-Sorted [] = tt
sort-Sorted (i ∷ rest) = insert-Sorted i (sort_intervals rest) (sort-Sorted rest)

swap_or : (a b c : Bool) → a || (b || c) ≡ b || (a || c)
swap_or true true c = refl
swap_or true false c = refl
swap_or false true c = refl
swap_or false false c = refl

insert-is_covered :
    (i : Interval) (rest : List Interval) (t : ℕ)
    → is_covered (insert_interval i rest) t ≡ covers i t || is_covered rest t
unfolding insert_interval is_covered
insert-is_covered i [] t = refl
insert-is_covered i (j ∷ rest) t = elim (Bool-cases (leb i.start j.start)) [
  | inl first ↦ rw first
  | inr later ↦ rw later (
      ap (λ b. covers j t || b) (insert-is_covered i rest t)
      ∙ swap_or (covers j t) (covers i t) (is_covered rest t))
]

pub sort-is_covered :
    (intervals : List Interval) (t : ℕ)
    → is_covered (sort_intervals intervals) t ≡ is_covered intervals t
unfolding sort_intervals is_covered
sort-is_covered [] t = refl
sort-is_covered (i ∷ rest) t =
    insert-is_covered i (sort_intervals rest) t ∙ ap (λ b. covers i t || b) (sort-is_covered rest t)

-- The total of `sqlShareFinding` is the number of instants at which some of the intervals runs, so
-- time that several queries share counts once. The intervals are not empty, as those that it keeps.
pub covered_time-count :
    (intervals : List Interval) (bound : ℕ)
    → All (WithinBound bound) intervals
    → covered_time (sort_intervals intervals) ≡ count (is_covered intervals) 0 bound
covered_time-count intervals bound within =
    covered_time-ordered (sort_intervals intervals) bound (sort-Sorted intervals)
      (sort-All (WithinBound bound) intervals within)
    ∙ count_congr (is_covered (sort_intervals intervals)) (is_covered intervals) 0 bound
        (λ t a b. sort-is_covered intervals t)
