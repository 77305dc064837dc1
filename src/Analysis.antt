-- ===== src/Analysis.antt =====
-- analysis.go: the automatic findings of an execution. A time is a number of nanoseconds, 0 the zero
-- time.
pub mod Share
pub mod Coverage
pub mod Union
pub mod Fingerprint
pub mod Literals
pub mod CacheUse
pub mod Calls
pub mod Repeats
pub mod Bursts
pub mod Failures
pub mod Hierarchy
pub mod Bottleneck
pub mod Plans
pub mod Tools
pub mod Sequential
pub mod Execution
pub mod Stored
pub mod PlanIssues
mod Tests
mod FindingTests
mod ExecutionTests
use webpprof.Prelude.{String, List, [], ◌∷◌}
use webpprof.Prelude.Text.{Text}
use webpprof.Entry.{Entry}
use webpprof.Contracts.{Query, Cache, HttpCall, Middleware}

pub record AnalyzedQuery : Type 0 where
  pub entry : Entry
  pub query : Query
  pub fingerprint : Text

pub record AnalyzedCache : Type 0 where
  pub entry : Entry
  pub cache : Cache

pub record AnalyzedHttpCall : Type 0 where
  pub entry : Entry
  pub call : HttpCall
  pub host : Text

pub record AnalyzedMiddleware : Type 0 where
  pub entry : Entry
  pub middleware : Middleware

pub data FindingCode : Type 0 where
  possible_n_plus_one : FindingCode
  sql_dominates_request sql_dominates_schedule sql_dominates_callable sql_dominates_task :
      FindingCode
  sequential_http_calls cache_miss_query_burst : FindingCode
  slow_middleware slow_request slow_schedule slow_callable slow_task : FindingCode
  slow_query slow_http_call slow_event : FindingCode
  execution_bottleneck query_plan_issue failed_operation high_cache_miss_rate : FindingCode

pub data Severity : Type 0 where
  info warning danger : Severity

-- a finding without its texts
pub record Finding : Type 0 where
  pub code : FindingCode
  pub severity : Severity
  pub entry_id : String
  pub related_entry_ids : List String

-- a finding about one entry
abbrev pub about : FindingCode → Severity → String → Finding
about code severity id = record {
  code = code;
  severity = severity;
  entry_id = id;
  related_entry_ids = id ∷ [];
}
