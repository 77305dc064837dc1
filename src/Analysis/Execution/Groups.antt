-- ===== src/Analysis/Execution/Groups.antt =====
-- What holds for the ids of all queries and cache operations holds for those that the findings on groups of
-- them point to.
use webpprof.Prelude.{
  ℕ, ◌≡◌, String, Bool, true, false, ◌||◌, Option, none, some, List, [], ◌∷◌, ◌++◌, map, filter,
  length, leb, ltb, All, Bool-cases, inl, inr, ℤ, arith, if◌then◌else◌,
}
use webpprof.Prelude.Text.{Text, text_eq}
use webpprof.Entry.{Entry}
use webpprof.Analysis.{AnalyzedQuery, AnalyzedCache}
use webpprof.Analysis.CacheUse.{cache_resolution_after}
use webpprof.Analysis.Repeats.{
  Pointers, Group, ids_of, has_id, add_to_group, sort_groups, group_queries, n_plus_one, points_to,
  queries_from, repeated_from, query_n_plus_one_group,
}
use webpprof.Analysis.Bursts.{
  All-append, All-filter, sort_groups-All, explained_by, add_burst, cache_bursts, is_miss,
}
use webpprof.Analysis.Execution.Parts.{All-if, Maybe}

module _ (P : String → Type 0) where
  abbrev pub OfQuery : AnalyzedQuery → Type 0
  OfQuery q = P q.entry.id

  abbrev pub Pointed : Pointers → Type 0
  Pointed p = P p.entry_id × All P p.related_entry_ids

  ids_of-All : (queries : List AnalyzedQuery) → All OfQuery queries → All P (ids_of queries)
  ids_of-All [] all = tt
  ids_of-All (q ∷ queries) (here, all) = (here, ids_of-All queries all)

  add_to_group-All :
      (key : Text) (q : AnalyzedQuery) (groups : List Group)
      → OfQuery q
      → All (λ g. All OfQuery g.queries) groups
      → All (λ g. All OfQuery g.queries) (add_to_group key q groups)
  unfolding add_to_group
  add_to_group-All key q [] p all = ((p, tt), tt)
  add_to_group-All key q (g ∷ groups) p (here, all) =
      All-if (λ h. All OfQuery h.queries) (text_eq g.key key)
        (record g { queries = g.queries ++ q ∷ [] } ∷ groups) (g ∷ add_to_group key q groups)
        (All-append OfQuery g.queries q here p, all) (here, add_to_group-All key q groups p all)

  points_to-Pointed :
      (g : Group)
      → All OfQuery g.queries × (leb 3 (length g.queries) ≡ true)
      → Pointed (points_to g.queries)
  points_to-Pointed g (all, many) = pointed_at g.queries all many
    where
      pointed_at :
          (queries : List AnalyzedQuery)
          → All OfQuery queries
          → leb 3 (length queries) ≡ true
          → Pointed (points_to queries)
      pointed_at [] all many = absurd (ground (arith, many))
      pointed_at (q ∷ queries) (here, all) many = (here, (here, ids_of-All queries all))

  map-Pointed :
      (groups : List Group)
      → All (λ g. All OfQuery g.queries × (leb 3 (length g.queries) ≡ true)) groups
      → All Pointed (map (λ g. points_to g.queries) groups)
  map-Pointed [] all = tt
  map-Pointed (g ∷ groups) (here, all) = (points_to-Pointed g here, map-Pointed groups all)

  module _ (to_upper to_lower : Text → Text) (print : ℤ → Text) where
    group_queries-All :
        (excluded : List String) (queries : List AnalyzedQuery) (groups : List Group)
        → All OfQuery queries
        → All (λ g. All OfQuery g.queries) groups
        → All
            (λ g. All OfQuery g.queries)
            (group_queries to_upper to_lower print excluded queries groups)
    unfolding group_queries
    group_queries-All excluded [] groups qs all = all
    group_queries-All excluded (q ∷ queries) groups (here, qs) all =
        let key = query_n_plus_one_group to_upper to_lower print q in
        group_queries-All excluded queries _ qs (
          All-if (λ g. All OfQuery g.queries) (text_eq key [] || has_id q.entry.id excluded) groups
            (add_to_group key q groups) all (add_to_group-All key q groups here all))

    pub n_plus_one-Pointed :
        (queries : List AnalyzedQuery) (excluded : List String)
        → All OfQuery queries
        → All Pointed (n_plus_one to_upper to_lower print queries excluded)
    unfolding n_plus_one
    n_plus_one-Pointed queries excluded qs =
        let grouped = group_queries to_upper to_lower print excluded queries [] in
        let many = filter (λ g. leb 3 (length g.queries)) grouped in
        map-Pointed (sort_groups many) (
          sort_groups-All (λ g. All OfQuery g.queries × (leb 3 (length g.queries) ≡ true)) many
            (All-filter (λ g. All OfQuery g.queries) (λ g. leb 3 (length g.queries)) grouped
              (group_queries-All excluded queries [] qs tt)))

  Maybe-if {ℓ} :
      {A : Type ℓ} (Q : A → Type 0) (b : Bool) (x y : Option A)
      → Maybe Q x
      → Maybe Q y
      → Maybe Q (if b then x else y)
  Maybe-if Q true x y p q = p
  Maybe-if Q false x y p q = q

  add_found :
      (q : AnalyzedQuery) (rest : Option (List AnalyzedQuery))
      → OfQuery q
      → Maybe (All OfQuery) rest
      → Maybe (All OfQuery) (elim rest [ none ↦ none | some found ↦ some (q ∷ found) ])
  add_found q none p all = tt
  add_found q (some found) p all = (p, all)

  repeated_from-All :
      (resolved : Option ℕ) (claimed : List String) (fingerprint : Text) (previous : Option Entry)
      (queries : List AnalyzedQuery)
      → All OfQuery queries
      → Maybe (All OfQuery) (repeated_from resolved claimed fingerprint previous queries)
  unfolding repeated_from
  repeated_from-All resolved claimed fingerprint previous [] all = tt
  repeated_from-All resolved claimed fingerprint previous (q ∷ queries) (here, all) =
      let rest = repeated_from resolved claimed fingerprint (some q.entry) queries in
      Maybe-if (All OfQuery) _ (some []) _ tt (
        Maybe-if (All OfQuery) (has_id q.entry.id claimed) none
          (elim rest [ none ↦ none | some found ↦ some (q ∷ found) ]) tt
          (add_found q rest here
            (repeated_from-All resolved claimed fingerprint (some q.entry) queries all)))

  queries_from-All :
      (at : ℕ) (queries : List AnalyzedQuery)
      → All OfQuery queries
      → All OfQuery (queries_from at queries)
  unfolding queries_from
  queries_from-All at [] all = tt
  queries_from-All at (q ∷ queries) (here, all) =
      All-if OfQuery (ltb q.entry.started_at at) (queries_from at queries) (q ∷ queries)
        (queries_from-All at queries all) (here, all)

  burst_of :
      (found : Option (List AnalyzedQuery))
      → Maybe (All OfQuery) found
      → All OfQuery
          (elim found [ none ↦ [] | some queries ↦ if leb 3 (length queries) then queries else [] ])
  burst_of none all = tt
  burst_of (some queries) all = All-if OfQuery (leb 3 (length queries)) queries [] all tt

  module _ (equal_fold : String → String → Bool) where
    explained_by-All :
        (c : AnalyzedCache) (later : List AnalyzedCache) (claimed : List String)
        (queries : List AnalyzedQuery)
        → All OfQuery queries
        → All OfQuery (explained_by equal_fold c later claimed queries)
    unfolding explained_by
    explained_by-All c later claimed [] all = tt
    explained_by-All c later claimed (q ∷ queries) all =
        let resolved = cache_resolution_after equal_fold c.cache later in
        All-if OfQuery _ [] _ tt (
          burst_of (repeated_from resolved claimed q.fingerprint none (q ∷ queries))
            (repeated_from-All resolved claimed q.fingerprint none (q ∷ queries) all))

    add_burst-Pointed :
        (c : AnalyzedCache) (queries : List AnalyzedQuery) (result : List Pointers × List String)
        → P c.entry.id
        → All OfQuery queries
        → All Pointed result.0
        → All Pointed (add_burst equal_fold c queries result).0
    add_burst-Pointed c [] result p qs all = all
    add_burst-Pointed c (q ∷ queries) (findings, claimed) p qs all =
        ((p, (p, ids_of-All (q ∷ queries) qs)), all)

    pub cache_bursts-Pointed :
        (caches : List AnalyzedCache) (queries : List AnalyzedQuery)
        → All (λ c. P c.entry.id) caches
        → All OfQuery queries
        → All Pointed (cache_bursts equal_fold caches queries).0
    unfolding cache_bursts
    cache_bursts-Pointed [] queries cs qs = tt
    cache_bursts-Pointed (c ∷ later) queries (here, cs) qs =
        let result = cache_bursts equal_fold later queries in
        let all = cache_bursts-Pointed later queries cs qs in
        let from = queries_from c.entry.started_at queries in
        let found = explained_by equal_fold c later result.1 from in
        elim (Bool-cases (is_miss c.cache)) [
          | inl miss ↦
              rw (cache_bursts, miss)
                (add_burst-Pointed c found result here
                  (explained_by-All c later result.1 from
                    (queries_from-All c.entry.started_at queries qs))
                  all)
          | inr other ↦ rw (cache_bursts, other) all
        ]
