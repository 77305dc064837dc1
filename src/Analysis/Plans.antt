-- ===== src/Analysis/Plans.antt =====
-- query_plan.go, analysis.go: `DetectQueryPlanIssues` and `queryPlanFindings`. The four regular expressions,
-- `strings.ToLower` and the parsing of a number are parameters; texts are lists of code points. The key of `seen` is
-- the pair or triple that the source joins with NUL.
use webpprof.Prelude.{
  ℕ, Bool, true, false, not, ◌&&◌, ◌||◌, Option, none, some, List, [], ◌∷◌, ◌++◌, leb, ◌==◌,
  if◌then◌else◌, ℤ, pos, negsuc,
}
use mathlib.Core.List.{reverse}
use webpprof.Prelude.Text.{Text, codes, text_eq, trim_space, contains, has_prefix}
use webpprof.Options.Patterns.{fields}

pub data IssueCode : Type 0 where
  full_scan temporary_sort large_estimate : IssueCode

pub record PlanIssue : Type 0 where
  pub code : IssueCode
  pub relation : Text
  pub estimated_rows : ℕ
  pub detail : Text

abbrev pub is_code : IssueCode → IssueCode → Bool
is_code IssueCode.full_scan IssueCode.full_scan = true
is_code IssueCode.temporary_sort IssueCode.temporary_sort = true
is_code IssueCode.large_estimate IssueCode.large_estimate = true
is_code _ _ = false

-- what `seen` compares of two issues
abbrev pub same_key : PlanIssue → PlanIssue → Bool
same_key i j = is_code i.code j.code && (elim i.code as (λ c. Bool) [
  | IssueCode.large_estimate ↦ i.estimated_rows == j.estimated_rows
  | _ ↦ text_eq i.relation j.relation && text_eq i.detail j.detail
])

unfoldable pub is_seen : PlanIssue → List PlanIssue → Bool
is_seen i [] = false
is_seen i (j ∷ issues) = same_key j i || is_seen i issues

-- `add`, and the end of the loop of `addLargePlanEstimate`
unfoldable pub add_issue : PlanIssue → List PlanIssue → List PlanIssue
add_issue i issues = if is_seen i issues then issues else issues ++ i ∷ []

abbrev pub add_when : Bool → PlanIssue → List PlanIssue → List PlanIssue
add_when true i issues = add_issue i issues
add_when false i issues = issues

abbrev pub full_scan_issue : Text → Text → PlanIssue
full_scan_issue relation line = record {
  code = IssueCode.full_scan;
  relation = relation;
  estimated_rows = 0;
  detail = line;
}

abbrev pub sort_issue : Text → PlanIssue
sort_issue line = record {
  code = IssueCode.temporary_sort;
  relation = [];
  estimated_rows = 0;
  detail = line;
}

abbrev pub estimate_issue : ℕ → Text → PlanIssue
estimate_issue rows line = record {
  code = IssueCode.large_estimate;
  relation = [];
  estimated_rows = rows;
  detail = line;
}

abbrev pub is_quote : ℕ → Bool
is_quote c = c == b'`' || c == b'"'

unfoldable pub trim_quotes : Text → Text
trim_quotes [] = []
trim_quotes (c ∷ text) = let rest = trim_quotes text in if is_quote c then rest else c ∷ text

-- `trimPlanIdentifier`
unfoldable pub trim_plan_identifier : Text → Text
trim_plan_identifier value = reverse (trim_quotes (reverse (trim_quotes value)))

abbrev pub drop_text : Text → Text → Text
drop_text [] text = text
drop_text (p ∷ prefix) [] = []
drop_text (p ∷ prefix) (c ∷ text) = drop_text prefix text

-- the drivers that the `switch` knows
pub data Driver : Type 0 where
  sqlite postgres mysql other : Driver

unfoldable pub driver_of : Text → Driver
driver_of name =
    if text_eq name (codes "sqlite") || text_eq name (codes "sqlite3")
    then Driver.sqlite
    else if text_eq name (codes "postgres")
        || (text_eq name (codes "postgresql") || text_eq name (codes "pgx"))
    then Driver.postgres
    else if text_eq name (codes "mysql") || text_eq name (codes "mariadb")
    then Driver.mysql
    else Driver.other

-- `strings.Split(text, "\n")`
unfoldable pub split_lines : Text → Text × List Text
split_lines [] = ([], [])
split_lines (c ∷ text) =
    let (line, lines) = split_lines text in
    if c == 10 then ([], line ∷ lines) else (c ∷ line, lines)

-- what the regular expressions find in a line: the relation that is scanned, and the numbers of rows, each
-- `none` where `strconv.ParseInt` fails
pub record Patterns : Type 0 where
  pub sqlite_scan : Text → Option Text
  pub postgres_sequential_scan : Text → Option Text
  pub postgres_rows : Text → List (Option ℤ)
  pub mysql_rows : Text → List (Option ℤ)

-- `addLargePlanEstimate`
unfoldable pub add_large_plan_estimate : List (Option ℤ) → Text → List PlanIssue → List PlanIssue
add_large_plan_estimate [] line issues = issues
add_large_plan_estimate (none ∷ rows) line issues = add_large_plan_estimate rows line issues
add_large_plan_estimate (some (negsuc n) ∷ rows) line issues =
    add_large_plan_estimate rows line issues
add_large_plan_estimate (some (pos n) ∷ rows) line issues =
    add_large_plan_estimate rows line (add_when (leb 10000 n) (estimate_issue n line) issues)

abbrev pub add_scan : Bool → Option Text → Text → List PlanIssue → List PlanIssue
add_scan wanted none line issues = issues
add_scan wanted (some relation) line issues =
    add_when wanted (full_scan_issue (trim_plan_identifier relation) line) issues

module _ (to_lower : Text → Text) (patterns : Patterns) where
  -- the loop of `planField` for `table`
  unfoldable pub field_value : List Text → Text
  field_value [] = []
  field_value (f ∷ fs) =
      let rest = field_value fs in
      if has_prefix (to_lower f) (codes "table=")
      then trim_plan_identifier (drop_text (codes "table=") f)
      else rest

  unfoldable pub sqlite_line : Text → List PlanIssue → List PlanIssue
  sqlite_line line issues =
      let lower = to_lower line in
      let indexed =
        contains lower (codes "using index") || contains lower (codes "using covering index") in
      add_when (contains lower (codes "use temp b-tree")) (sort_issue line)
        (add_scan (not indexed) (patterns.sqlite_scan line) line issues)

  unfoldable pub postgres_line : Text → List PlanIssue → List PlanIssue
  postgres_line line issues =
      let lower = to_lower line in
      let on_disk =
        contains lower (codes "sort method:")
        && (contains lower (codes "disk") || contains lower (codes "external")) in
      add_large_plan_estimate (patterns.postgres_rows line) line (
        add_when on_disk (sort_issue line)
          (add_scan true (patterns.postgres_sequential_scan line) line issues))

  unfoldable pub mysql_line : Text → List PlanIssue → List PlanIssue
  mysql_line line issues =
      let lower = to_lower line in
      let sorts =
        contains lower (codes "using filesort") || contains lower (codes "using temporary") in
      add_large_plan_estimate (patterns.mysql_rows line) line (
        add_when sorts (sort_issue line) (
          add_when (contains lower (codes "type=all"))
            (full_scan_issue (field_value (fields line)) line) issues))

  -- the body of the loop, for a line that is trimmed
  unfoldable pub plan_line : Driver → Text → List PlanIssue → List PlanIssue
  plan_line Driver.sqlite line issues = sqlite_line line issues
  plan_line Driver.postgres line issues = postgres_line line issues
  plan_line Driver.mysql line issues = mysql_line line issues
  plan_line Driver.other line issues = issues

  unfoldable pub plan_lines : Driver → List Text → List PlanIssue → List PlanIssue
  plan_lines driver [] issues = issues
  plan_lines driver (raw ∷ lines) issues =
      let line = trim_space raw in
      plan_lines driver lines (if text_eq line [] then issues else plan_line driver line issues)

  unfoldable pub detect_query_plan_issues : Text → Text → List PlanIssue
  detect_query_plan_issues driver_name plan =
      let (first, lines) = split_lines plan in
      plan_lines (driver_of (to_lower (trim_space driver_name))) (first ∷ lines) []
