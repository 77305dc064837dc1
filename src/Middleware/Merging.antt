-- ===== src/Middleware/Merging.antt =====
-- The loops of `workSpans`: what the merged intervals cover, and what stays between them.
use webpprof.Prelude.{
  ℕ, ◌+◌, ◌-◌, ◌≤◌, ◌⊎◌, ◌≡◌, refl, ap, false, ◌||◌, List, [], ◌∷◌, All, ltb, leb, max, arith,
  if◌then◌else◌, Bool-cases, inl, inr, ◌==◌,
}
use webpprof.Analysis.Share.{Interval, sweep}
use webpprof.Analysis.Coverage.{covers, is_covered, StartsFrom, Sorted, WithinBound}
use webpprof.Analysis.Union.{StartsFrom-le}
use webpprof.Middleware.{absorb, merge, gaps}

-- The work and the time of the merged intervals fill the rest of the invocation.
pub gaps-sweep :
    (start finish cursor : ℕ) (merged : List Interval)
    → cursor ≤ finish
    → All (WithinBound finish) merged
    → (gaps start finish cursor merged).duration + sweep cursor merged ≡ finish - cursor
unfolding gaps sweep
gaps-sweep start finish cursor [] le within = ground arith
gaps-sweep start finish cursor (i ∷ rest) le within =
    let until = if ltb cursor i.stop then i.stop else cursor in
    elim (Bool-cases (ltb cursor i.stop)) [
      | inl longer ↦ ground (
        arith,
        within.0,
        gaps-sweep start finish i.stop rest within.0.1 within.1,
        ap (λ k. sweep k rest) {x = max cursor i.stop} {y = i.stop} (ground arith),
      )
      | inr inner ↦ ground (
        arith,
        within.0,
        gaps-sweep start finish cursor rest le within.1,
        ap (λ k. sweep k rest) {x = max cursor i.stop} {y = cursor} (ground arith),
      )
    ]

abbrev pub Ends : ℕ → Interval → Type 0
Ends finish i = i.stop ≤ finish

-- `current` is the zero interval, or one that was taken
abbrev pub IsCurrent : ℕ → Interval → Type 0
IsCurrent finish current = ((current.start ≡ 0) × (current.stop ≡ 0)) ⊎ WithinBound finish current

-- what the loop makes of the rest of the intervals
abbrev pub IsMerged : ℕ → Interval → List Interval → List Interval → Type 0
IsMerged finish current rest merged =
    All (StartsFrom current.start) merged
    × Sorted merged
    × All (WithinBound finish) merged
    × ((t : ℕ) → is_covered merged t ≡ covers current t || is_covered rest t)

runs : {finish : ℕ} {i : Interval} → WithinBound finish i → (i.stop == 0) ≡ false
runs {finish} {i} within = ground (arith, within)

current_runs :
    (finish : ℕ) (current : Interval)
    → IsCurrent finish current
    → (current.stop == 0) ≡ false
    → WithinBound finish current
current_runs finish current (inl zero) running = absurd (ground (arith, zero))
current_runs finish current (inr within) running = within

pub merge-IsMerged :
    (finish : ℕ) (current : Interval) (rest : List Interval)
    → IsCurrent finish current
    → All (StartsFrom current.start) rest
    → Sorted rest
    → All (Ends finish) rest
    → IsMerged finish current rest (merge current rest)
unfolding merge is_covered absorb
merge-IsMerged finish current [] (inl zero) later sorted ends =
    rw (zero.1) (tt, tt, tt, λ t. ground (arith, zero))
merge-IsMerged finish current [] (inr within) later sorted ends =
    rw (runs within) ((omega arith, tt), (tt, tt), (within, tt), λ t. refl)
merge-IsMerged finish current (i ∷ rest) h later sorted ends =
    elim (Bool-cases (leb i.stop i.start)) [
      | inl empty ↦
          let ih = merge-IsMerged finish current rest h later.1 sorted.1 ends.1 in
          rw empty (ih.0, ih.1, ih.2, λ t. ground (arith, ih.3 t, empty))
      | inr taken ↦ elim (Bool-cases (current.stop == 0)) [
        | inl zero ↦
            let ih =
              merge-IsMerged finish i rest (inr (ground arith, ends.0)) sorted.0 sorted.1 ends.1 in
            rw (taken, zero)
              (
                StartsFrom-le current.start i.start (merge i rest) later.0 ih.0,
                ih.1,
                ih.2,
                λ t. ground (arith, ih.3 t, zero),
              )
        | inr running ↦ elim (Bool-cases (leb i.start current.stop)) [
          | inl joined ↦ elim (Bool-cases (ltb current.stop i.stop)) [
            | inl longer ↦
                let both : Interval = record current { stop = i.stop } in
                let ih =
                  merge-IsMerged finish both rest (inr (ground (arith, h), ends.0)) later.1 sorted.1
                    ends.1 in
                rw (taken, running, joined, longer)
                  (ih.0, ih.1, ih.2, λ t. ground (arith, ih.3 t, h, later.0))
            | inr inner ↦
                let ih = merge-IsMerged finish current rest h later.1 sorted.1 ends.1 in
                rw (taken, running, joined, inner)
                  (ih.0, ih.1, ih.2, λ t. ground (arith, ih.3 t, later.0))
          ]
          | inr apart ↦
              let ih =
                merge-IsMerged finish i rest (inr (ground arith, ends.0)) sorted.0 sorted.1
                  ends.1 in
              rw (taken, running, apart)
                (
                  (omega arith, StartsFrom-le current.start i.start (merge i rest) later.0 ih.0),
                  (StartsFrom-le current.start i.start (merge i rest) later.0 ih.0, ih.1),
                  (current_runs finish current h running, ih.2),
                  λ t. ap (λ b. covers current t || b) (ih.3 t),
                )
        ]
      ]
    ]
