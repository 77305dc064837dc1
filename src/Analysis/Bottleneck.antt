-- ===== src/Analysis/Bottleneck.antt =====
-- analysis.go: `slowMiddlewareFindings` and `executionBottleneckFinding`. The rounded share of a duration on
-- floats is the parameter `percent`; the texts of the findings are left out.
use mathlib.Core.Path.{subst}
use webpprof.Prelude.{
  ℕ, ◌*◌, ◌≤◌, ◌≡◌, refl, sym, ap, String, str_eq, Bool, true, false, not, ◌&&◌, ◌||◌, Option, none,
  some, List, [], ◌∷◌, ◌++◌, ltb, leb, min, ◌==◌, if◌then◌else◌, ◌⊎◌, inl, inr, arith, All,
  Bool-cases, some_injective,
}
use webpprof.Entry.{Entry, zero_entry}
use webpprof.Analysis.{AnalyzedMiddleware, FindingCode, Severity, Finding, about}
use webpprof.Analysis.Failures.{Decoders, ms}
use webpprof.Analysis.Hierarchy.{
  Visits, middleware_work_duration, bottleneck_minimum, entry_bottleneck_duration,
  has_explaining_descendant,
}

abbrev pub has_work_duration : AnalyzedMiddleware → Bool
has_work_duration m = elim m.middleware.work_duration [ none ↦ false | some work ↦ true ]

module _ (explains : ℕ → ℕ → Bool) (h : Visits) where
  unfoldable pub slow_middlewares : List AnalyzedMiddleware → List Finding
  slow_middlewares [] = []
  slow_middlewares (m ∷ middlewares) =
      let rest = slow_middlewares middlewares in
      let duration = middleware_work_duration m.middleware m.entry.duration_ns in
      let explained =
        not (has_work_duration m)
        && has_explaining_descendant explains h.max_descendant m.entry.id duration in
      if ltb duration (100 * ms) || explained
      then rest
      else about FindingCode.slow_middleware Severity.warning m.entry.id ∷ rest

  module _ (decode : Decoders) (root_id : String) where
    -- an entry that the loop does not pass over, whatever was found before
    unfoldable pub is_eligible : Entry → Bool
    is_eligible e =
        let duration = entry_bottleneck_duration decode e in
        not (str_eq e.id root_id)
        && (not (ltb duration (bottleneck_minimum e.kind))
            && not (has_explaining_descendant explains h.max_qualifying e.id duration))

    -- the loop, from the bottleneck found so far and its duration
    unfoldable pub longest_from : Entry → ℕ → List Entry → Entry × ℕ
    longest_from bottleneck found [] = (bottleneck, found)
    longest_from bottleneck found (e ∷ entries) =
        let duration = entry_bottleneck_duration decode e in
        let better = not (leb duration found) && is_eligible e in
        longest_from (if better then e else bottleneck) (if better then duration else found) entries

    unfoldable pub execution_bottleneck : (ℕ → ℕ → ℕ) → List Entry → ℕ → Option Entry
    execution_bottleneck percent entries execution_duration =
        let (bottleneck, duration) = longest_from zero_entry 0 entries in
        if execution_duration == 0
        then none
        else if ltb (min (percent duration execution_duration) 100) 50
        then none
        else some bottleneck

    -- nothing eligible is longer
    abbrev pub AtMost : ℕ → List Entry → Type 0
    AtMost n = All (λ f. is_eligible f ≡ true → entry_bottleneck_duration decode f ≤ n)

    -- an eligible entry of the list with the duration
    abbrev pub IsFound : List Entry → Entry → ℕ → Type 0
    IsFound entries e n =
        (before : List Entry) × (after : List Entry) × (entries ≡ before ++ e ∷ after)
        × (is_eligible e ≡ true)
        × (entry_bottleneck_duration decode e ≡ n)

    module _ (bottleneck : Entry) (found : ℕ) (e : Entry) (entries : List Entry) where
      better_step :
          (not (leb (entry_bottleneck_duration decode e) found) && is_eligible e) ≡ true
          → longest_from bottleneck found (e ∷ entries)
            ≡ longest_from e (entry_bottleneck_duration decode e) entries
      unfolding longest_from
      better_step better = rw (longest_from, better) refl

      worse_step :
          (not (leb (entry_bottleneck_duration decode e) found) && is_eligible e) ≡ false
          → longest_from bottleneck found (e ∷ entries) ≡ longest_from bottleneck found entries
      unfolding longest_from
      worse_step worse = rw (longest_from, worse) refl

    longest_from-AtMost :
        (bottleneck : Entry) (found : ℕ) (entries : List Entry)
        → (found ≤ (longest_from bottleneck found entries).1)
          × AtMost (longest_from bottleneck found entries).1 entries
    unfolding longest_from
    longest_from-AtMost bottleneck found [] = (omega arith, tt)
    longest_from-AtMost bottleneck found (e ∷ entries) =
        let duration = entry_bottleneck_duration decode e in
        elim (Bool-cases (not (leb duration found) && is_eligible e)) [
          | inl better ↦
              let ih = longest_from-AtMost e duration entries in
              subst (λ r. (found ≤ r.1) × AtMost r.1 (e ∷ entries))
                (sym (better_step bottleneck found e entries better))
                (ground (arith, ih.0, better), ((λ eligible. ih.0), ih.1))
          | inr worse ↦
              let ih = longest_from-AtMost bottleneck found entries in
              subst (λ r. (found ≤ r.1) × AtMost r.1 (e ∷ entries))
                (sym (worse_step bottleneck found e entries worse))
                (ih.0, ((λ eligible. ground (arith, ih.0, worse, eligible)), ih.1))
        ]

    IsFound-later :
        {entries : List Entry} {b : Entry} {n : ℕ} (e : Entry)
        → IsFound entries b n
        → IsFound (e ∷ entries) b n
    IsFound-later e (before, after, split, eligible, same) =
        (e ∷ before, after, ap (λ rest. e ∷ rest) split, eligible, same)

    longest_from-IsFound :
        (bottleneck : Entry) (found : ℕ) (entries : List Entry)
        → (longest_from bottleneck found entries ≡ (bottleneck, found))
          ⊎ IsFound entries
              (longest_from bottleneck found entries).0
              (longest_from bottleneck found entries).1
    unfolding longest_from
    longest_from-IsFound bottleneck found [] = inl refl
    longest_from-IsFound bottleneck found (e ∷ entries) =
        let duration = entry_bottleneck_duration decode e in
        elim (Bool-cases (not (leb duration found) && is_eligible e)) [
          | inl better ↦
              rw (longest_from, better)
                (elim (longest_from-IsFound e duration entries) [
                  | inl same ↦ inr (
                      subst (λ r. IsFound (e ∷ entries) r.0 r.1) (sym same)
                        ([], entries, refl, ground (arith, better), refl))
                  | inr later ↦ inr (IsFound-later e later)
                ])
          | inr worse ↦
              rw (longest_from, worse)
                (elim (longest_from-IsFound bottleneck found entries) [
                  | inl same ↦ inl same
                  | inr later ↦ inr (IsFound-later e later)
                ])
        ]

    reported :
        (idle low : Bool) (b e : Entry)
        → (if idle then none else if low then none else some b) ≡ some e
        → (low ≡ false) × (b ≡ e)
    reported true low b e h = absurd cc
    reported false true b e h = absurd cc
    reported false false b e h = (refl, some_injective h)

    -- The bottleneck of an execution is an entry of it other than the root, which reaches the minimum of its kind
    -- and is not explained by one below it, and no other such entry takes longer. No time is no share.
    pub execution_bottleneck-IsFound :
        (percent : ℕ → ℕ → ℕ) (entries : List Entry) (execution_duration : ℕ) (e : Entry)
        → percent 0 execution_duration ≡ 0
        → execution_bottleneck percent entries execution_duration ≡ some e
        → IsFound entries e (entry_bottleneck_duration decode e)
          × AtMost (entry_bottleneck_duration decode e) entries
    unfolding execution_bottleneck
    execution_bottleneck-IsFound percent entries execution_duration e no_share h =
        let (b, n) = longest_from zero_entry 0 entries in
        let (share, same) =
          reported (execution_duration == 0) (ltb (min (percent n execution_duration) 100) 50) b e
            h in
        elim (longest_from-IsFound zero_entry 0 entries) [
          | inl nothing ↦
              absurd
                (ground (arith, share, no_share, ap (λ r. percent r.1 execution_duration) nothing))
          | inr found ↦
              let n_is : entry_bottleneck_duration decode b ≡ n = found.4 in
              let longest = (longest_from-AtMost zero_entry 0 entries).1 in
              subst
                (λ x.
                  IsFound entries x (entry_bottleneck_duration decode x)
                  × AtMost (entry_bottleneck_duration decode x) entries)
                same
                (subst (λ k. IsFound entries b k × AtMost k entries) (sym n_is) (found, longest))
        ]
