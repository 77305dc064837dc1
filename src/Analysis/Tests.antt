-- ===== src/Analysis/Tests.antt =====
-- Runs of the analysis, and its theorems at concrete inputs.
use webpprof.Prelude.{ℕ, ◌≡◌, refl, List, [], ◌∷◌, ◌++◌, false, arith, pos, String, ◌*◌}
use webpprof.Prelude.Text.{codes, trim_space, trim_left, trim_suffix, lower, has_prefix}
use webpprof.Entry.{Entry, Kind, zero_entry}
use webpprof.Contracts.{Meta}
use webpprof.Analysis.{AnalyzedCache}
use webpprof.Analysis.Share.{Interval, sort_intervals, insert_interval, covered_time, sweep}
use webpprof.Analysis.Coverage.{count, is_covered}
use webpprof.Analysis.Union.{covered_time-count}
use webpprof.Analysis.Fingerprint.{
  query_fingerprint, scan, scan_in, scan_plain, is_sql_number_start, byte_is_letter, byte_is_space,
  byte_lower,
}
use webpprof.Analysis.Literals.{scanned, query_fingerprint_same}
use webpprof.Analysis.CacheUse.{
  MissRate, cache_miss_rate, counts_as_read, cache_read_operation, cache_write_operation,
  names_read, is_one_of,
}
use webpprof.Analysis.Calls.{sequential_calls, best_run, run_of}

program : Unit {0}
unfolding sort_intervals insert_interval covered_time sweep count is_covered query_fingerprint scan
    scan_in scan_plain is_sql_number_start byte_is_letter byte_is_space byte_lower trim_space
    trim_left trim_suffix lower has_prefix scanned cache_miss_rate counts_as_read
    cache_read_operation cache_write_operation names_read is_one_of sequential_calls best_run run_of
program = tt

abbrev overlapping : List Interval
overlapping =
    record { start = 4; stop = 9 }
    ∷ record { start = 1; stop = 5 }
    ∷ record { start = 12; stop = 14 }
    ∷ []

overlapping_lem : covered_time (sort_intervals overlapping) ≡ 10
unfolding program
overlapping_lem = refl

covered_time-count_example :
    covered_time (sort_intervals overlapping) ≡ count (is_covered overlapping) 0 14
covered_time-count_example =
    covered_time-count overlapping 14
      ((omega arith, omega arith), ((omega arith, omega arith), ((omega arith, omega arith), tt)))

fingerprint_lem :
    query_fingerprint (codes "SELECT  a1 FROM t\tWHERE b='it''s' AND c=12.5;")
    ≡ codes "select a1 from t where b=? and c=?"
unfolding program
fingerprint_lem = refl

query_fingerprint_same_example :
    query_fingerprint (codes "a=" ++ (39 ∷ codes "x" ++ 39 ∷ codes " b"))
    ≡ query_fingerprint (codes "a=" ++ (39 ∷ codes "yz" ++ 39 ∷ codes " b"))
unfolding program
query_fingerprint_same_example =
    query_fingerprint_same (codes "a=") (codes "x") (codes "yz") (codes " b") refl (refl, tt)
      (refl, (refl, tt))

abbrev no_meta : Meta
no_meta = record {
  id = "";
  request_id = "";
  parent_id = "";
  origin_request_id = "";
  process = "";
  instance_name = "";
  started_at = 0;
  duration = pos 0;
  tags = [];
}

abbrev miss : String → AnalyzedCache
miss id = record {
  entry = record zero_entry { id = id; kind = Kind.cache };
  cache = record {
    base = no_meta;
    store = "";
    operation = "get";
    key = "k";
    hit = false;
    ttl = pos 0;
    size = pos 0;
    value = "";
    truncated = false;
    callsite = [];
    error = "";
  };
}

abbrev misses : List AnalyzedCache
misses = miss "a" ∷ miss "b" ∷ miss "c" ∷ miss "d" ∷ miss "e" ∷ []

abbrev share : ℕ → ℕ → ℕ
share a b = a * 20

abbrev five : MissRate
five = record { percentage = 100; missed_ids = "a" ∷ "b" ∷ "c" ∷ "d" ∷ "e" ∷ []; reads = 5 }

abbrev call : String → ℕ → ℕ → Entry
call id at long = record zero_entry { id = id; started_at = at; duration_ns = pos long }

abbrev calls : List Entry
calls = call "a" 10 5 ∷ call "b" 20 5 ∷ call "c" 22 9 ∷ call "d" 40 1 ∷ call "e" 41 2 ∷ []

calls_lem : sequential_calls calls ≡ call "c" 22 9 ∷ call "d" 40 1 ∷ call "e" 41 2 ∷ []
unfolding program
calls_lem = refl
