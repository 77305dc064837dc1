-- ===== src/Analysis/FindingTests.antt =====
-- Runs of the findings on repeated queries and query plans, and their theorems at concrete inputs.
use webpprof.Prelude.{
  ◌≤◌, length, if◌then◌else◌, ℕ, ◌*◌, ◌≡◌, refl, List, [], ◌∷◌, String, Bool, true, false, none,
  some, ℤ, pos, All,
}
use webpprof.Prelude.Text.{
  Text, codes, to_lower, trim_space, trim_left, lower, contains, has_prefix,
}
use webpprof.Entry.{Kind, zero_entry}
use webpprof.Contracts.{Meta}
use webpprof.Options.Patterns.{fields, split_fields}
use webpprof.Analysis.{AnalyzedQuery, AnalyzedCache}
use webpprof.Analysis.CacheUse.{cache_read_operation, cache_resolution_after, names_read, is_one_of}
use webpprof.Analysis.Repeats.{
  has_id, add_to_group, insert_group, sort_groups, query_n_plus_one_group, group_queries,
  n_plus_one, queries_from, repeated_from,
}
use webpprof.Analysis.Bursts.{Apart, query_ids, explained_by, cache_bursts, n_plus_one-Separate}
use webpprof.Analysis.Plans.{
  IssueCode, Patterns, is_seen, add_issue, trim_quotes, trim_plan_identifier, driver_of,
  split_lines, add_large_plan_estimate, sqlite_line, plan_line, plan_lines,
  detect_query_plan_issues,
}
use webpprof.Analysis.PlanIssues.{Distinct, detect_query_plan_issues-Distinct}

program : Unit {0}
unfolding fields split_fields has_id add_to_group insert_group sort_groups query_n_plus_one_group
    group_queries n_plus_one queries_from repeated_from explained_by cache_bursts
    cache_read_operation cache_resolution_after names_read is_one_of trim_space trim_left lower
    has_prefix contains is_seen add_issue trim_quotes trim_plan_identifier driver_of split_lines
    add_large_plan_estimate sqlite_line plan_line plan_lines detect_query_plan_issues
program = tt

abbrev no_meta : Meta
no_meta = record {
  id = "";
  request_id = "";
  parent_id = "";
  origin_request_id = "";
  process = "";
  instance_name = "";
  started_at = 0;
  duration = pos 0;
  tags = [];
}

-- a query of the id at a time
abbrev at : String → ℕ → AnalyzedQuery
at id time = record {
  entry = record zero_entry { id = id; kind = Kind.query; started_at = time; duration_ns = pos 1 };
  query = record {
    base = no_meta;
    connection = "";
    driver = "";
    database = "";
    operation = "select";
    sql = "select 1";
    rows_affected = none;
    callsite = [];
    plan = none;
    error = "";
  };
  fingerprint = codes "select ?";
}

abbrev to_upper : Text → Text
to_upper text = codes "SELECT"

abbrev print : ℤ → Text
print n = []

abbrev queries : List AnalyzedQuery
queries =
    at "a" 5
    ∷ at "b" 15
    ∷ at "c" 25
    ∷ at "d" (10 * 100000000)
    ∷ at "e" (20 * 100000000)
    ∷ at "f" (30 * 100000000)
    ∷ []

abbrev miss : AnalyzedCache
miss = record {
  entry = record zero_entry { id = "m"; kind = Kind.cache; started_at = 4 };
  cache = record {
    base = no_meta;
    store = "";
    operation = "get";
    key = "user";
    hit = false;
    ttl = pos 0;
    size = pos 0;
    value = "";
    truncated = false;
    callsite = [];
    error = "";
  };
}

abbrev same_store : String → String → Bool
same_store s t = true

-- the miss explains the first three queries, so only the others are repeated
repeats_lem :
    (cache_bursts same_store (miss ∷ []) queries ≡ (
      record { entry_id = "m"; related_entry_ids = "m" ∷ "a" ∷ "b" ∷ "c" ∷ [] } ∷ [],
      "a" ∷ "b" ∷ "c" ∷ [],
    ))
    × (n_plus_one to_upper to_lower print queries ("a" ∷ "b" ∷ "c" ∷ [])
        ≡ record { entry_id = "d"; related_entry_ids = "d" ∷ "e" ∷ "f" ∷ [] } ∷ [])
unfolding program
repeats_lem = (refl, refl)

n_plus_one-Separate_example :
    let (bursts, explained) = cache_bursts same_store (miss ∷ []) queries in
    All
      (λ p.
        (3 ≤ length p.related_entry_ids)
        × All (λ b. Apart p.related_entry_ids (query_ids b)) bursts)
      (n_plus_one to_upper to_lower print queries explained)
n_plus_one-Separate_example =
    n_plus_one-Separate to_upper to_lower print same_store (miss ∷ []) queries

abbrev patterns : Patterns
patterns = record {
  sqlite_scan = λ line. if has_prefix line (codes "SCAN ") then some (codes "\"users\"") else none;
  postgres_sequential_scan = λ line. none;
  postgres_rows = λ line. [];
  mysql_rows = λ line. [];
}

abbrev plan : Text
plan = codes "SCAN users\n\n SCAN users\nUSE TEMP B-TREE FOR ORDER BY"

plan_lem :
    detect_query_plan_issues to_lower patterns (codes "SQLite") plan
    ≡ record {
      code = IssueCode.full_scan;
      relation = codes "users";
      estimated_rows = 0;
      detail = codes "SCAN users";
    }
      ∷ record {
        code = IssueCode.temporary_sort;
        relation = [];
        estimated_rows = 0;
        detail = codes "USE TEMP B-TREE FOR ORDER BY";
      }
      ∷ []
unfolding program
plan_lem = refl

detect_query_plan_issues-Distinct_example :
    Distinct (detect_query_plan_issues to_lower patterns (codes "SQLite") plan)
detect_query_plan_issues-Distinct_example =
    detect_query_plan_issues-Distinct to_lower patterns (codes "SQLite") plan
