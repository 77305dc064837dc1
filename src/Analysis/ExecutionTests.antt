-- ===== src/Analysis/ExecutionTests.antt =====
-- Runs of the analysis of an execution, and its theorems at concrete inputs.
use mathlib.Core.List.{reverse}
use native.Mathlib.Nat.{zero-div}
use webpprof.Prelude.{
  ℕ, ◌*◌, ◌/◌, ◌≤◌, ◌≡◌, refl, ap, ◌∙◌, String, str_eq, Bool, true, false, Option, none, some, List,
  [], ◌∷◌, ◌++◌, map, All, leb, ltb, inl, inr, arith, pos, ℤ, if◌then◌else◌,
}
use webpprof.Prelude.Assoc.{Assoc, lookup, insert, value_at}
use webpprof.Prelude.Text.{Text, codes, to_lower}
use webpprof.Contracts.{Meta, Query}
use webpprof.Order.{at, grow, push_back, new_entry_order, front}
use webpprof.Store.{purge_expired, purge_loop, storage_batch, has_backend}
use webpprof.Store.Reads.{request_entries, collect, belongs_to}
use webpprof.Store.Bounds.{cutoff}
use webpprof.Store.Window.{expire}
use webpprof.Entry.{Entry, Kind, zero_entry, kind_text}
use webpprof.Store.Samples.{request, query, window, busy, busy-Holds}
use webpprof.Analysis.{Finding, FindingCode, Severity, about}
use webpprof.Analysis.Repeats.{has_id}
use webpprof.Analysis.Failures.{Decoders}
use webpprof.Analysis.Hierarchy.{
  duration_of, entries_by_id, is_child, visit_children, subtree_maximum, visit_all,
  new_analysis_entry_hierarchy, entry_bottleneck_duration, bottleneck_candidate, bottleneck_minimum,
  has_explaining_descendant,
}
use webpprof.Analysis.Hierarchy.Greatest.{IsGreatest, Below}
use webpprof.Analysis.Hierarchy.Search.{own_of, qualifying_of}
use webpprof.Analysis.Hierarchy.Ranked.{IsWalk, IsRanked, new_analysis_entry_hierarchy-IsGreatest}
use webpprof.Analysis.Bottleneck.{
  is_eligible, longest_from, execution_bottleneck, IsFound, AtMost, execution_bottleneck-IsFound,
}
use webpprof.Analysis.Tools.{Tools}
use webpprof.Analysis.Execution.{analyze_execution, analyze_request}
use webpprof.Analysis.Execution.Parts.{Points}
use webpprof.Analysis.Execution.Entries.{IsKnown, analyze_execution-IsKnown}
use webpprof.Analysis.Stored.{
  ExecutionAnalysis, IsIdOf, request_analysis, analyzed_as, request_analysis-IsIdOf,
}

program : Unit {0}
unfolding lookup insert value_at entries_by_id is_child visit_children subtree_maximum visit_all
    new_analysis_entry_hierarchy entry_bottleneck_duration bottleneck_candidate bottleneck_minimum
    has_explaining_descendant is_eligible longest_from execution_bottleneck
program = tt

abbrev no_data : Decoders
no_data = record {
  request = λ data_text. none;
  query = λ data_text. none;
  cache = λ data_text. none;
  event = λ data_text. none;
  middleware = λ data_text. none;
  exception = λ data_text. none;
  job = λ data_text. none;
  email = λ data_text. none;
  http_call = λ data_text. none;
  schedule = λ data_text. none;
  callable = λ data_text. none;
  task = λ data_text. none;
}

abbrev keys : Assoc Entry → List String
keys = map (λ pair. pair.0)

keys-IsWalk : IsWalk keys
unfolding has_id lookup
keys-IsWalk [] id = refl
keys-IsWalk (pair ∷ rest) id = ground (arith, keys-IsWalk rest id)

-- an event in the request, with a query of its own
abbrev event : Entry
event = record zero_entry {
  cursor = 3;
  id = "e";
  kind = Kind.event;
  parent_id = "r";
  started_at = 15;
  duration_ns = pos 550000000;
}

abbrev inner : Entry
inner = record zero_entry {
  cursor = 4;
  id = "i";
  kind = Kind.query;
  parent_id = "e";
  started_at = 16;
  duration_ns = pos 60000000;
}

abbrev nested : List Entry
nested = request ∷ query ∷ event ∷ inner ∷ []

abbrev rank : String → ℕ
rank id = if str_eq id "r" then 2 else if str_eq id "e" then 1 else 0

nested-IsRanked : IsRanked rank nested
nested-IsRanked = (inl refl, (inr (omega arith), (inr (omega arith), (inr (omega arith), tt))))

new_analysis_entry_hierarchy-IsGreatest_example :
    let h = new_analysis_entry_hierarchy no_data keys keys nested in
    IsGreatest
      (λ d. Below (entries_by_id [] nested) d "r")
      (own_of no_data (entries_by_id [] nested))
      (duration_of "r" h.max_descendant)
    × IsGreatest
        (λ d. Below (entries_by_id [] nested) d "r")
        (qualifying_of no_data (entries_by_id [] nested))
        (duration_of "r" h.max_qualifying)
unfolding program
new_analysis_entry_hierarchy-IsGreatest_example =
    new_analysis_entry_hierarchy-IsGreatest no_data keys keys nested rank keys-IsWalk keys-IsWalk
      nested-IsRanked "r" refl

hierarchy_test :
    let h = new_analysis_entry_hierarchy no_data keys keys nested in
    (duration_of "r" h.max_descendant ≡ 550000000) × (duration_of "e" h.max_descendant ≡ 60000000)
unfolding program
hierarchy_test = (refl, refl)

-- shares in whole numbers, rounded down
abbrev percent : ℕ → ℕ → ℕ
percent part whole = part * 100 / whole

abbrev explains : ℕ → ℕ → Bool
explains part whole = leb 50 (percent part whole)

no_share : (duration : ℕ) → percent 0 duration ≡ 0
no_share duration = ap (λ n. n / duration) {x = 0 * 100} {y = 0} refl ∙ zero-div duration

execution_bottleneck-IsFound_example :
    IsFound explains
      (new_analysis_entry_hierarchy no_data keys keys nested)
      no_data
      "r"
      nested
      event
      550000000
    × AtMost explains
        (new_analysis_entry_hierarchy no_data keys keys nested)
        no_data
        "r"
        550000000
        nested
unfolding program
execution_bottleneck-IsFound_example =
    execution_bottleneck-IsFound explains (new_analysis_entry_hierarchy no_data keys keys nested)
      no_data "r" percent nested 600000000 event refl refl

abbrev no_meta : Meta
no_meta = record {
  id = "";
  request_id = "";
  parent_id = "";
  origin_request_id = "";
  process = "";
  instance_name = "";
  started_at = 0;
  duration = pos 0;
  tags = [];
}

abbrev select : Query
select = record {
  base = no_meta;
  connection = "";
  driver = "";
  database = "";
  operation = "select";
  sql = "select 1";
  rows_affected = none;
  callsite = [];
  plan = none;
  error = "";
}

abbrev tools : Tools
tools = record {
  decode = record no_data { query = λ data_text. some select };
  to_upper = λ text. codes "SELECT";
  to_lower = to_lower;
  equal_fold = str_eq;
  print = λ n. [];
  parse_host = λ url. none;
  patterns = record {
    sqlite_scan = λ line. none;
    postgres_sequential_scan = λ line. none;
    postgres_rows = λ line. [];
    mysql_rows = λ line. [];
  };
  percent = percent;
  explains = explains;
  walk = keys;
  walk_again = keys;
}

analyze_execution-IsKnown_example :
    All
      (Points (IsKnown request nested))
      (analyze_execution tools request nested FindingCode.sql_dominates_request).1
analyze_execution-IsKnown_example =
    analyze_execution-IsKnown tools request nested FindingCode.sql_dominates_request no_share

-- the analysis of the request of the sample store
abbrev analysis : ExecutionAnalysis
analysis = record {
  root_id = "r";
  duration_ns = (analyze_request tools request window).0;
  findings = (analyze_request tools request window).1;
}

request_analysis-IsIdOf_example :
    All (Points (IsIdOf (expire (cutoff busy 30) window))) (analyze_request tools request window).1
unfolding at grow push_back new_entry_order front purge_expired purge_loop storage_batch has_backend
    request_entries collect belongs_to lookup request_analysis analyzed_as kind_text
request_analysis-IsIdOf_example =
    request_analysis-IsIdOf tools busy window "r" 30 analysis busy-Holds no_share refl

findings_test :
    map (λ (f : Finding). f.code) (analyze_request tools request window).1
    ≡ FindingCode.sql_dominates_request ∷ FindingCode.execution_bottleneck
      ∷ FindingCode.slow_request ∷ FindingCode.slow_query ∷ []
unfolding program webpprof.Analysis.Execution.analyze_request
    webpprof.Analysis.Execution.analyze_execution webpprof.Analysis.Tools.sort_by
    webpprof.Analysis.Tools.insert_by webpprof.Analysis.Tools.gather
    webpprof.Analysis.Sequential.sequential_http_findings webpprof.Analysis.Sequential.host_findings
    webpprof.Analysis.Sequential.calls_by_host webpprof.Analysis.Execution.query_plan_findings
    webpprof.Analysis.Execution.has_visible_issue
    webpprof.Analysis.Execution.legacy_performance_findings
    webpprof.Analysis.Execution.cache_miss_finding webpprof.Analysis.Repeats.n_plus_one
    webpprof.Analysis.Repeats.sort_groups webpprof.Analysis.Repeats.insert_group
    webpprof.Analysis.Repeats.group_queries webpprof.Analysis.Repeats.add_to_group
    webpprof.Analysis.Repeats.query_n_plus_one_group webpprof.Analysis.Repeats.queries_from
    webpprof.Analysis.Repeats.repeated_from webpprof.Analysis.Repeats.has_id
    webpprof.Analysis.Bursts.cache_bursts webpprof.Analysis.Bursts.explained_by
    webpprof.Analysis.Share.sql_share_finding webpprof.Analysis.Share.intervals_of
    webpprof.Analysis.Share.contributing webpprof.Analysis.Share.clip
    webpprof.Analysis.Share.slowest webpprof.Analysis.Share.sort_intervals
    webpprof.Analysis.Share.insert_interval webpprof.Analysis.Share.covered_time
    webpprof.Analysis.Share.sweep webpprof.Analysis.Calls.direct_request_entries
    webpprof.Analysis.Calls.execution_analysis_duration webpprof.Analysis.Calls.longest_span
    webpprof.Analysis.Calls.entry_happened_before webpprof.Analysis.Failures.failed_operations
    webpprof.Analysis.Failures.is_failure webpprof.Analysis.Failures.slow_operations
    webpprof.Analysis.Failures.slow_root webpprof.Analysis.Failures.slow_queries
    webpprof.Analysis.Failures.slow_calls webpprof.Analysis.Failures.slow_events
    webpprof.Analysis.Failures.expected_empty_query_result
    webpprof.Analysis.CacheUse.cache_miss_rate webpprof.Analysis.CacheUse.counts_as_read
    webpprof.Analysis.Fingerprint.query_fingerprint webpprof.Analysis.Fingerprint.scan
    webpprof.Analysis.Fingerprint.scan_in webpprof.Analysis.Fingerprint.scan_plain
    webpprof.Analysis.Fingerprint.is_sql_number_start webpprof.Analysis.Fingerprint.byte_is_letter
    webpprof.Analysis.Fingerprint.byte_is_space webpprof.Analysis.Fingerprint.byte_lower
    webpprof.Analysis.Bottleneck.slow_middlewares webpprof.Entry.kind_text
    webpprof.Prelude.Text.trim_space webpprof.Prelude.Text.trim_left
    webpprof.Prelude.Text.trim_suffix webpprof.Prelude.Text.has_suffix
    webpprof.Prelude.Text.has_prefix webpprof.Prelude.Text.lower
findings_test = refl

-- With a cycle of parent ids the order of the walk shows.
abbrev cycle : List Entry
cycle = record query { id = "a"; parent_id = "b" } ∷ record query { id = "b"; parent_id = "a" } ∷ []

cycle_test :
    (duration_of "a" (new_analysis_entry_hierarchy no_data keys keys cycle).max_descendant
      ≡ 400000000)
    × (duration_of "a"
          (new_analysis_entry_hierarchy no_data keys (λ m. reverse (keys m)) cycle).max_descendant
        ≡ 0)
unfolding program
cycle_test = (refl, refl)
