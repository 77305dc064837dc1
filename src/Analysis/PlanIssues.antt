-- ===== src/Analysis/PlanIssues.antt =====
-- query_plan.go: the issues of a plan are different.
use webpprof.Prelude.{
  ◌≡◌, refl, Bool, true, false, ◌||◌, Option, none, some, List, [], ◌∷◌, ◌++◌, leb, ℤ, pos, negsuc,
  All, Bool-cases, inl, inr, arith,
}
use webpprof.Prelude.Text.{Text, codes, text_eq, trim_space, contains}
use webpprof.Options.Patterns.{fields}
use webpprof.Analysis.Plans.{
  PlanIssue, Driver, Patterns, same_key, is_seen, add_issue, add_when, add_scan, full_scan_issue,
  sort_issue, estimate_issue, trim_plan_identifier, add_large_plan_estimate, sqlite_line,
  postgres_line, mysql_line, field_value, plan_line, plan_lines, driver_of, split_lines,
  detect_query_plan_issues,
}

-- no issue has the key of a later one
abbrev pub Distinct : List PlanIssue → Type 0
Distinct [] = Unit
Distinct (i ∷ issues) = All (λ j. same_key i j ≡ false) issues × Distinct issues

append-All :
    (i x : PlanIssue) (issues : List PlanIssue)
    → All (λ j. same_key i j ≡ false) issues
    → same_key i x ≡ false
    → All (λ j. same_key i j ≡ false) (issues ++ x ∷ [])
append-All i x [] all h = (h, tt)
append-All i x (j ∷ issues) (here, all) h = (here, append-All i x issues all h)

or_false : (a b : Bool) → (a || b) ≡ false → (a ≡ false) × (b ≡ false)
or_false true b h = absurd (ground arith)
or_false false b h = (refl, h)

append-Distinct :
    (x : PlanIssue) (issues : List PlanIssue)
    → is_seen x issues ≡ false
    → Distinct issues
    → Distinct (issues ++ x ∷ [])
unfolding is_seen
append-Distinct x [] h d = (tt, tt)
append-Distinct x (i ∷ issues) h (here, d) =
    let (other, rest) = or_false (same_key i x) (is_seen x issues) h in
    (append-All i x issues here other, append-Distinct x issues rest d)

add_issue-Distinct :
    (x : PlanIssue) (issues : List PlanIssue) → Distinct issues → Distinct (add_issue x issues)
unfolding add_issue
add_issue-Distinct x issues d = elim (Bool-cases (is_seen x issues)) [
  | inl e ↦ rw (add_issue, e) d
  | inr e ↦ rw (add_issue, e) (append-Distinct x issues e d)
]

add_when-Distinct :
    (b : Bool) (x : PlanIssue) (issues : List PlanIssue)
    → Distinct issues
    → Distinct (add_when b x issues)
add_when-Distinct true x issues d = add_issue-Distinct x issues d
add_when-Distinct false x issues d = d

add_scan-Distinct :
    (b : Bool) (found : Option Text) (line : Text) (issues : List PlanIssue)
    → Distinct issues
    → Distinct (add_scan b found line issues)
add_scan-Distinct b none line issues d = d
add_scan-Distinct b (some relation) line issues d =
    add_when-Distinct b (full_scan_issue (trim_plan_identifier relation) line) issues d

estimate-Distinct :
    (rows : List (Option ℤ)) (line : Text) (issues : List PlanIssue)
    → Distinct issues
    → Distinct (add_large_plan_estimate rows line issues)
unfolding add_large_plan_estimate
estimate-Distinct [] line issues d = d
estimate-Distinct (none ∷ rows) line issues d = estimate-Distinct rows line issues d
estimate-Distinct (some (negsuc n) ∷ rows) line issues d = estimate-Distinct rows line issues d
estimate-Distinct (some (pos n) ∷ rows) line issues d =
    estimate-Distinct rows line (add_when (leb 10000 n) (estimate_issue n line) issues)
      (add_when-Distinct (leb 10000 n) (estimate_issue n line) issues d)

module _ (to_lower : Text → Text) (patterns : Patterns) where
  plan_line-Distinct :
      (driver : Driver) (line : Text) (issues : List PlanIssue)
      → Distinct issues
      → Distinct (plan_line to_lower patterns driver line issues)
  unfolding plan_line sqlite_line postgres_line mysql_line
  plan_line-Distinct Driver.sqlite line issues d =
      add_when-Distinct _ (sort_issue line) _
        (add_scan-Distinct _ (patterns.sqlite_scan line) line issues d)
  plan_line-Distinct Driver.postgres line issues d =
      estimate-Distinct (patterns.postgres_rows line) line _ (
        add_when-Distinct _ (sort_issue line) _
          (add_scan-Distinct true (patterns.postgres_sequential_scan line) line issues d))
  plan_line-Distinct Driver.mysql line issues d =
      let lower = to_lower line in
      let sorts =
        contains lower (codes "using filesort") || contains lower (codes "using temporary") in
      let scan = full_scan_issue (field_value to_lower patterns (fields line)) line in
      let scanned = add_when (contains lower (codes "type=all")) scan issues in
      estimate-Distinct (patterns.mysql_rows line) line (add_when sorts (sort_issue line) scanned) (
        add_when-Distinct sorts (sort_issue line) scanned
          (add_when-Distinct (contains lower (codes "type=all")) scan issues d))
  plan_line-Distinct Driver.other line issues d = d

  plan_lines-Distinct :
      (driver : Driver) (lines : List Text) (issues : List PlanIssue)
      → Distinct issues
      → Distinct (plan_lines to_lower patterns driver lines issues)
  unfolding plan_lines
  plan_lines-Distinct driver [] issues d = d
  plan_lines-Distinct driver (raw ∷ lines) issues d =
      elim (Bool-cases (text_eq (trim_space raw) [])) [
        | inl e ↦ rw (plan_lines, e) (plan_lines-Distinct driver lines issues d)
        | inr e ↦
            rw (plan_lines, e)
              (plan_lines-Distinct driver lines
                (plan_line to_lower patterns driver (trim_space raw) issues)
                (plan_line-Distinct driver (trim_space raw) issues d))
      ]

  -- The issues that are found in a plan are different: no two full scans or sorts have the same relation and line, and no
  -- two estimates the same number of rows.
  pub detect_query_plan_issues-Distinct :
      (driver_name plan : Text)
      → Distinct (detect_query_plan_issues to_lower patterns driver_name plan)
  unfolding detect_query_plan_issues
  detect_query_plan_issues-Distinct driver_name plan =
      plan_lines-Distinct (driver_of (to_lower (trim_space driver_name)))
        ((split_lines plan).0 ∷ (split_lines plan).1) [] tt
