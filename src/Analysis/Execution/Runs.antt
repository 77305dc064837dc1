-- ===== src/Analysis/Execution/Runs.antt =====
-- What holds for the ids of all queries, calls and cache operations holds for those that the findings on
-- shares, rates and runs point to.
use webpprof.Prelude.{
  ℕ, zero, suc, String, List, [], ◌∷◌, ◌++◌, length, ltb, All, Bool-cases, inl, inr,
}
use webpprof.Prelude.Text.{text_eq}
use webpprof.Entry.{Entry}
use webpprof.Analysis.{AnalyzedHttpCall, FindingCode, Severity}
use webpprof.Analysis.Calls.{follows, run_of, best_run, sequential_calls}
use webpprof.Analysis.Repeats.{text_lt}
use webpprof.Analysis.Tools.{Tools, entries_of, ids_of_entries, about_all, sort_by}
use webpprof.Analysis.Sequential.{
  HostCalls, add_call, host_finding, host_findings, is_sequential_candidate, calls_by_host,
  sequential_http_findings,
}
use webpprof.Analysis.Execution.Parts.{All-both, All-if, Points, sort_by-All}

module _ (P : String → Type 0) where
  pub about_all-Points :
      (code : FindingCode) (severity : Severity) (ids : List String)
      → All P ids
      → All (Points P) (about_all code severity ids)
  about_all-Points code severity [] all = tt
  about_all-Points code severity (id ∷ ids) (here, all) = ((here, (here, all)), tt)

  -- runs of calls
  abbrev OfEntry : Entry → Type 0
  OfEntry e = P e.id

  ids_of_entries-All : (entries : List Entry) → All OfEntry entries → All P (ids_of_entries entries)
  ids_of_entries-All [] all = tt
  ids_of_entries-All (e ∷ entries) (here, all) = (here, ids_of_entries-All entries all)

  run_of-All :
      (previous : Entry) (calls : List Entry)
      → All OfEntry calls
      → All OfEntry (run_of previous calls).0 × All OfEntry (run_of previous calls).1
  unfolding run_of
  run_of-All previous [] all = (tt, tt)
  run_of-All previous (e ∷ calls) (here, all) =
      let rest = run_of-All e calls all in
      elim (Bool-cases (follows previous e)) [
        | inl close ↦ rw (run_of, close) ((here, rest.0), rest.1)
        | inr apart ↦ rw (run_of, apart) (tt, (here, all))
      ]

  best_run-All :
      (fuel : ℕ) (best calls : List Entry)
      → All OfEntry best
      → All OfEntry calls
      → All OfEntry (best_run fuel best calls)
  unfolding best_run
  best_run-All zero best calls good all = good
  best_run-All (suc fuel) best [] good all = good
  best_run-All (suc fuel) best (e ∷ calls) good (here, all) =
      let parts = run_of-All e calls all in
      best_run-All fuel _ (run_of e calls).1
        (All-if OfEntry (ltb (length best) (suc (length (run_of e calls).0)))
          (e ∷ (run_of e calls).0) best (here, parts.0) good)
        parts.1

  abbrev OfHost : HostCalls → Type 0
  OfHost h = All (λ (c : AnalyzedHttpCall). P c.entry.id) h.calls

  entries_of-All :
      (calls : List AnalyzedHttpCall)
      → All (λ c. P c.entry.id) calls
      → All OfEntry (entries_of calls)
  entries_of-All [] all = tt
  entries_of-All (c ∷ calls) (here, all) = (here, entries_of-All calls all)

  host_finding-Points : (h : HostCalls) → OfHost h → All (Points P) (host_finding h)
  unfolding host_finding sequential_calls
  host_finding-Points h all =
      let sorted = sort_by (λ e. e) (entries_of h.calls) in
      let best = sequential_calls sorted in
      All-if (Points P) (ltb (length best) 3) []
        (about_all FindingCode.sequential_http_calls Severity.info (ids_of_entries best)) tt
        (about_all-Points FindingCode.sequential_http_calls Severity.info (ids_of_entries best) (
          ids_of_entries-All best (
            best_run-All (length sorted) [] sorted tt
              (sort_by-All OfEntry (λ e. e) (entries_of h.calls) (entries_of-All h.calls all)))))

  host_findings-Points :
      (hosts : List HostCalls) → All OfHost hosts → All (Points P) (host_findings hosts)
  unfolding host_findings
  host_findings-Points [] all = tt
  host_findings-Points (h ∷ hosts) (here, all) =
      All-both (Points P) (host_finding h) (host_findings hosts) (host_finding-Points h here)
        (host_findings-Points hosts all)

  snoc-All {ℓ} :
      {A : Type ℓ} (Q : A → Type 0) (xs : List A) (y : A) → All Q xs → Q y → All Q (xs ++ y ∷ [])
  snoc-All Q xs y all q = All-both Q xs (y ∷ []) all (q, tt)

  add_call-All :
      (c : AnalyzedHttpCall) (hosts : List HostCalls)
      → P c.entry.id
      → All OfHost hosts
      → All OfHost (add_call c hosts)
  unfolding add_call
  add_call-All c [] p all = ((p, tt), tt)
  add_call-All c (h ∷ hosts) p (here, all) =
      let fresh : HostCalls = record { host = c.host; calls = c ∷ [] } in
      All-if OfHost (text_eq h.host c.host) (record h { calls = h.calls ++ c ∷ [] } ∷ hosts) _
        (snoc-All (λ (d : AnalyzedHttpCall). P d.entry.id) h.calls c here p, all)
        (All-if OfHost (text_lt c.host h.host) (fresh ∷ h ∷ hosts) (h ∷ add_call c hosts)
          ((p, tt), (here, all)) (here, add_call-All c hosts p all))

  module _ (tools : Tools) where
    calls_by_host-All :
        (calls : List AnalyzedHttpCall) (hosts : List HostCalls)
        → All (λ c. P c.entry.id) calls
        → All OfHost hosts
        → All OfHost (calls_by_host tools calls hosts)
    unfolding calls_by_host
    calls_by_host-All [] hosts cs all = all
    calls_by_host-All (c ∷ calls) hosts (here, cs) all = calls_by_host-All calls _ cs (
        All-if OfHost (is_sequential_candidate tools c) (add_call c hosts) hosts
          (add_call-All c hosts here all) all)

    pub sequential_http_findings-Points :
        (calls : List AnalyzedHttpCall)
        → All (λ c. P c.entry.id) calls
        → All (Points P) (sequential_http_findings tools calls)
    unfolding sequential_http_findings
    sequential_http_findings-Points calls cs =
        host_findings-Points (calls_by_host tools calls []) (calls_by_host-All calls [] cs tt)
