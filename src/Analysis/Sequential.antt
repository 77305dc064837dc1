-- ===== src/Analysis/Sequential.antt =====
-- analysis.go: `sequentialHTTPFindings`, the calls that a host gets one after another.
use webpprof.Prelude.{
  String, str_eq, Bool, not, ◌&&◌, List, [], ◌∷◌, ◌++◌, map, length, ltb, if◌then◌else◌,
}
use webpprof.Prelude.Text.{Text, codes, text_eq, trim_space}
use webpprof.Analysis.{AnalyzedHttpCall, FindingCode, Severity, Finding}
use webpprof.Analysis.CacheUse.{is_one_of}
use webpprof.Analysis.Calls.{sequential_calls}
use webpprof.Analysis.Repeats.{text_lt}
use webpprof.Analysis.Failures.{at_least}
use webpprof.Analysis.Tools.{Tools, sort_by, about_all, is_positive, entries_of, ids_of_entries}

-- a `map` from hosts to calls, in the order of `slices.Sort` on the hosts
pub record HostCalls : Type 0 where
  pub host : Text
  pub calls : List AnalyzedHttpCall

-- `byHost[host] = append(byHost[host], call)`
unfoldable pub add_call : AnalyzedHttpCall → List HostCalls → List HostCalls
add_call c [] = record { host = c.host; calls = c ∷ [] } ∷ []
add_call c (h ∷ hosts) =
    let later = h ∷ add_call c hosts in
    if text_eq h.host c.host
    then record h { calls = h.calls ++ c ∷ [] } ∷ hosts
    else if text_lt c.host h.host
    then record { host = c.host; calls = c ∷ [] } ∷ h ∷ hosts
    else later

-- the finding of one host
unfoldable pub host_finding : HostCalls → List Finding
host_finding h =
    let best = sequential_calls (sort_by (λ e. e) (entries_of h.calls)) in
    if ltb (length best) 3
    then []
    else about_all FindingCode.sequential_http_calls Severity.info (ids_of_entries best)

unfoldable pub host_findings : List HostCalls → List Finding
host_findings [] = []
host_findings (h ∷ hosts) = host_finding h ++ host_findings hosts

module _ (tools : Tools) where
  unfoldable pub safe_concurrent_http_method : String → Bool
  safe_concurrent_http_method method =
      is_one_of (tools.to_upper (trim_space (codes method)))
        (map codes ("GET" ∷ "HEAD" ∷ "OPTIONS" ∷ []))

  -- a call that the first loop keeps
  unfoldable pub is_sequential_candidate : AnalyzedHttpCall → Bool
  is_sequential_candidate c =
      not (text_eq c.host [])
      && (safe_concurrent_http_method c.call.method
          && (is_positive c.entry.duration_ns
              && (str_eq c.call.error "" && not (at_least c.call.status 400))))

  unfoldable pub calls_by_host : List AnalyzedHttpCall → List HostCalls → List HostCalls
  calls_by_host [] hosts = hosts
  calls_by_host (c ∷ calls) hosts =
      calls_by_host calls (if is_sequential_candidate c then add_call c hosts else hosts)

  unfoldable pub sequential_http_findings : List AnalyzedHttpCall → List Finding
  sequential_http_findings calls = host_findings (calls_by_host calls [])
