-- ===== src/Analysis/Execution/Shares.antt =====
-- What holds for the ids of all queries and cache operations holds for those that the share of SQL and the rate
-- of misses point to.
use webpprof.Prelude.{
  ℕ, ◌<◌, ◌≡◌, refl, ap, ◌∙◌, String, Bool, true, false, none, some, List, [], ◌∷◌, map, filter,
  ltb, All, Bool-cases, Option-cases, inl, inr, arith, if◌then◌else◌, pos_part, ◌==◌,
}
use webpprof.Entry.{Entry, zero_entry}
use webpprof.Analysis.{AnalyzedQuery, AnalyzedCache, FindingCode, Severity}
use webpprof.Analysis.Share.{
  Interval, clip, intervals_of, contributing, slowest, sort_intervals, ShareFinding,
  sql_share_finding, query_entry_ids,
}
use webpprof.Analysis.CacheUse.{MissRate, cache_miss_rate, counts_as_read, missed}
use webpprof.Analysis.Tools.{Tools, about_all}
use webpprof.Analysis.Execution.{cache_miss_finding}
use webpprof.Analysis.Execution.Parts.{Maybe, Points}
use webpprof.Analysis.Execution.Runs.{about_all-Points}

clip-positive :
    (started duration : ℕ) (e : Entry) (i : Interval)
    → clip started duration e ≡ some i
    → 0 < pos_part e.duration_ns
unfolding clip
clip-positive started duration e i h = elim (Bool-cases (pos_part e.duration_ns == 0)) [
  | inl instant ↦ absurd (cc (rw (clip, instant) at h))
  | inr positive ↦ ground (arith, positive)
]

-- no query contributes where there is no interval
nothing-contributes :
    (started duration : ℕ) (queries : List AnalyzedQuery)
    → contributing started duration queries ≡ []
    → intervals_of started duration queries ≡ []
unfolding contributing intervals_of
nothing-contributes started duration [] h = refl
nothing-contributes started duration (q ∷ queries) h =
    elim (Option-cases (clip started duration q.entry)) [
      | inl left_out ↦
          rw (intervals_of, left_out)
            (nothing-contributes started duration queries (rw (contributing, left_out) at h))
      | inr (i, cut) ↦ absurd (cc (rw (contributing, cut) at h))
    ]

sort_nothing : sort_intervals [] ≡ []
unfolding sort_intervals
sort_nothing = refl

module _ (P : String → Type 0) where
  -- a query that contributes
  abbrev Runs : AnalyzedQuery → Type 0
  Runs q = P q.entry.id × (0 < pos_part q.entry.duration_ns)

  contributing-Runs :
      (started duration : ℕ) (queries : List AnalyzedQuery)
      → All (λ q. P q.entry.id) queries
      → All Runs (contributing started duration queries)
  unfolding contributing
  contributing-Runs started duration [] all = tt
  contributing-Runs started duration (q ∷ queries) (here, all) =
      let rest = contributing-Runs started duration queries all in
      elim (Option-cases (clip started duration q.entry)) [
        | inl left_out ↦ rw (contributing, left_out) rest
        | inr (i, cut) ↦
            rw (contributing, cut) ((here, clip-positive started duration q.entry i cut), rest)
      ]

  slowest-All :
      (best : Entry) (queries : List AnalyzedQuery)
      → P best.id
      → All Runs queries
      → P (slowest best queries).id
  unfolding slowest
  slowest-All best [] p all = p
  slowest-All best (q ∷ queries) p (here, all) =
      elim (Bool-cases (ltb (pos_part best.duration_ns) (pos_part q.entry.duration_ns))) [
        | inl longer ↦ rw (slowest, longer) (slowest-All q.entry queries here.0 all)
        | inr other ↦ rw (slowest, other) (slowest-All best queries p all)
      ]

  slowest-first :
      (q : AnalyzedQuery) (queries : List AnalyzedQuery)
      → Runs q
      → All Runs queries
      → P (slowest zero_entry (q ∷ queries)).id
  unfolding slowest
  slowest-first q queries here all =
      let longer : ltb 0 (pos_part q.entry.duration_ns) ≡ true = ground (arith, here.1) in
      rw (slowest, longer) (slowest-All q.entry queries here.0 all)

  query_entry_ids-All :
      (queries : List AnalyzedQuery) → All Runs queries → All P (query_entry_ids queries)
  query_entry_ids-All [] all = tt
  query_entry_ids-All (q ∷ queries) (here, all) = (here.0, query_entry_ids-All queries all)

  abbrev pub Shares : ShareFinding → Type 0
  Shares f = P f.entry_id × All P f.related_entry_ids

  share_of :
      (idle low : Bool) (percentage total : ℕ) (intervals : List Interval)
      (used : List AnalyzedQuery)
      → (used ≡ [] → intervals ≡ [])
      → All Runs used
      → Maybe Shares (
          if idle then none else elim intervals [
            | [] ↦ none
            | i ∷ rest ↦
                if low
                then none
                else some (record {
                  percentage = percentage;
                  total = total;
                  entry_id = (slowest zero_entry used).id;
                  related_entry_ids = query_entry_ids used;
                })
          ])
  share_of true low percentage total intervals used nonempty all = tt
  share_of false low percentage total [] used nonempty all = tt
  share_of false true percentage total (i ∷ rest) used nonempty all = tt
  share_of false false percentage total (i ∷ rest) [] nonempty all = absurd (cc (nonempty refl))
  share_of false false percentage total (i ∷ rest) (q ∷ used) nonempty all =
      (slowest-first q used all.0 all.1, query_entry_ids-All (q ∷ used) all)

  pub sql_share_finding-Shares :
      (percent : ℕ → ℕ → ℕ) (queries : List AnalyzedQuery) (started duration : ℕ)
      → All (λ q. P q.entry.id) queries
      → Maybe Shares (sql_share_finding percent queries started duration)
  unfolding sql_share_finding
  sql_share_finding-Shares percent queries started duration all =
      let used = contributing started duration queries in
      share_of _ _ _ _ (sort_intervals (intervals_of started duration queries)) used
        (λ empty.
          ap sort_intervals (nothing-contributes started duration queries empty) ∙ sort_nothing)
        (contributing-Runs started duration queries all)

  missed_ids-All :
      (f g : AnalyzedCache → Bool) (caches : List AnalyzedCache)
      → All (λ c. P c.entry.id) caches
      → All P (map (λ (c : AnalyzedCache). c.entry.id) (filter f (filter g caches)))
  missed_ids-All f g [] all = tt
  missed_ids-All f g (c ∷ caches) (here, all) =
      let rest = missed_ids-All f g caches all in
      elim (Bool-cases (g c)) [
        | inl read ↦ elim (Bool-cases (f c)) [
          | inl miss ↦ rw (read, miss) (here, rest)
          | inr hit ↦ rw (read, hit) rest
        ]
        | inr other ↦ rw other rest
      ]

  rate_of :
      (low : Bool) (rate : MissRate)
      → All P rate.missed_ids
      → All (Points P) (elim (if low then none else some rate) [
        | none ↦ []
        | some r ↦ about_all FindingCode.high_cache_miss_rate Severity.warning r.missed_ids
      ])
  rate_of true rate all = tt
  rate_of false rate all =
      about_all-Points P FindingCode.high_cache_miss_rate Severity.warning rate.missed_ids all

  pub cache_miss_finding-Points :
      (tools : Tools) (caches : List AnalyzedCache)
      → All (λ c. P c.entry.id) caches
      → All (Points P) (cache_miss_finding tools caches)
  unfolding cache_miss_finding cache_miss_rate
  cache_miss_finding-Points tools caches all =
      rate_of _ _ (missed_ids-All missed counts_as_read caches all)
