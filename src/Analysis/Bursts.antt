-- ===== src/Analysis/Bursts.antt =====
-- analysis.go: `cacheMissQueryFindings`, and how it and `nPlusOneFindings` share the queries.
use webpprof.Prelude.{
  eq_iff, str_eq-true, ◌⊎◌, All-map, suc, ◌-◌, ◌≤◌, ◌≡◌, refl, String, str_eq, Bool, true, false,
  not, ◌&&◌, ◌||◌, none, some, List, [], ◌∷◌, ◌++◌, filter, length, ltb, leb, if◌then◌else◌, ℤ, map,
  All, Bool-cases, inl, inr, arith, leb→le, ap,
}
use webpprof.Prelude.Text.{Text, codes, text_eq, trim_space}
use webpprof.Contracts.{Cache}
use webpprof.Analysis.{AnalyzedQuery, AnalyzedCache}
use webpprof.Analysis.CacheUse.{cache_read_operation, cache_resolution_after}
use webpprof.Analysis.Calls.{max_gap}
use webpprof.Analysis.Repeats.{
  Pointers, Group, ids_of, has_id, add_to_group, insert_group, sort_groups, precedes, group_queries,
  n_plus_one, points_to, queries_from, repeated_from, query_n_plus_one_group,
}

-- a miss that a burst may follow
abbrev pub is_miss : Cache → Bool
is_miss c =
    cache_read_operation c.operation
    && (not c.hit && (str_eq c.error "" && not (text_eq (trim_space (codes c.key)) [])))

module _ (equal_fold : String → String → Bool) where
  -- the queries that a miss explains, for the operations after it and the queries that are claimed
  unfoldable pub explained_by :
      AnalyzedCache → List AnalyzedCache → List String → List AnalyzedQuery → List AnalyzedQuery
  explained_by c later claimed [] = []
  explained_by c later claimed (q ∷ queries) =
      let resolved = cache_resolution_after equal_fold c.cache later in
      let repeated = repeated_from resolved claimed q.fingerprint none (q ∷ queries) in
      let too_late = ltb max_gap (q.entry.started_at - c.entry.started_at) in
      if text_eq q.fingerprint [] || too_late
      then []
      else elim repeated [ none ↦ [] | some found ↦ if leb 3 (length found) then found else [] ]

  -- one round: the findings and the ids that are claimed
  abbrev pub add_burst :
      AnalyzedCache → List AnalyzedQuery → List Pointers × List String → List Pointers × List String
  add_burst c [] result = result
  add_burst c (q ∷ queries) (findings, claimed) = (
    record { entry_id = c.entry.id; related_entry_ids = c.entry.id ∷ ids_of (q ∷ queries) }
        ∷ findings,
    ids_of (q ∷ queries) ++ claimed,
  )

  -- `cacheMissQueryFindings`, which goes through the operations from the last to the first
  unfoldable pub cache_bursts :
      List AnalyzedCache → List AnalyzedQuery → List Pointers × List String
  cache_bursts [] queries = ([], [])
  cache_bursts (c ∷ later) queries =
      let result = cache_bursts later queries in
      let from = queries_from c.entry.started_at queries in
      if is_miss c.cache then add_burst c (explained_by c later result.1 from) result else result

-- no query of the group is excluded
abbrev Allowed : List String → Group → Type 0
Allowed excluded g = All (λ q. has_id q.entry.id excluded ≡ false) g.queries

pub All-append {ℓ} :
    {A : Type ℓ} (P : A → Type 0) (xs : List A) (y : A) → All P xs → P y → All P (xs ++ y ∷ [])
All-append P [] y all p = (p, tt)
All-append P (x ∷ xs) y (here, all) p = (here, All-append P xs y all p)

pub All-filter {ℓ} :
    {A : Type ℓ} (P : A → Type 0) (f : A → Bool) (xs : List A)
    → All P xs
    → All (λ x. P x × (f x ≡ true)) (filter f xs)
All-filter P f [] all = tt
All-filter P f (x ∷ xs) (here, all) = elim (Bool-cases (f x)) [
  | inl e ↦ rw e ((here, e), All-filter P f xs all)
  | inr e ↦ rw e (All-filter P f xs all)
]

add_to_group-Allowed :
    (excluded : List String) (key : Text) (q : AnalyzedQuery) (groups : List Group)
    → has_id q.entry.id excluded ≡ false
    → All (Allowed excluded) groups
    → All (Allowed excluded) (add_to_group key q groups)
unfolding add_to_group
add_to_group-Allowed excluded key q [] h all = ((h, tt), tt)
add_to_group-Allowed excluded key q (g ∷ groups) h (here, all) =
    elim (Bool-cases (text_eq g.key key)) [
      | inl e ↦
          rw (add_to_group, e)
            (All-append (λ x. has_id x.entry.id excluded ≡ false) g.queries q here h, all)
      | inr e ↦ rw (add_to_group, e) (here, add_to_group-Allowed excluded key q groups h all)
    ]

pub insert_group-All :
    (P : Group → Type 0) (g : Group) (groups : List Group)
    → P g
    → All P groups
    → All P (insert_group g groups)
unfolding insert_group
insert_group-All P g [] p all = (p, tt)
insert_group-All P g (h ∷ groups) p (here, all) = elim (Bool-cases (precedes h g)) [
  | inl e ↦ rw (insert_group, e) (here, insert_group-All P g groups p all)
  | inr e ↦ rw (insert_group, e) (p, (here, all))
]

pub sort_groups-All :
    (P : Group → Type 0) (groups : List Group) → All P groups → All P (sort_groups groups)
unfolding sort_groups
sort_groups-All P [] all = tt
sort_groups-All P (g ∷ groups) (here, all) =
    insert_group-All P g (sort_groups groups) here (sort_groups-All P groups all)

-- a finding of the code that names at least three queries, none of them excluded
abbrev Separate : List String → Pointers → Type 0
Separate excluded p =
    (3 ≤ length p.related_entry_ids) × All (λ id. has_id id excluded ≡ false) p.related_entry_ids

length-ids_of : (queries : List AnalyzedQuery) → length (ids_of queries) ≡ length queries
length-ids_of [] = refl
length-ids_of (q ∷ queries) = ap suc (length-ids_of queries)

ids_of-Allowed :
    (excluded : List String) (queries : List AnalyzedQuery)
    → All (λ q. has_id q.entry.id excluded ≡ false) queries
    → All (λ id. has_id id excluded ≡ false) (ids_of queries)
ids_of-Allowed excluded [] all = tt
ids_of-Allowed excluded (q ∷ queries) (here, all) = (here, ids_of-Allowed excluded queries all)

points_to-Separate :
    (excluded : List String) (groups : List Group)
    → All (λ g. Allowed excluded g × (leb 3 (length g.queries) ≡ true)) groups
    → All (Separate excluded) (map (λ g. points_to g.queries) groups)
points_to-Separate excluded [] all = tt
points_to-Separate excluded (g ∷ groups) ((allowed, many), all) = (
  (
    omega (arith, leb→le 3 (length g.queries) many, length-ids_of g.queries),
    ids_of-Allowed excluded g.queries allowed,
  ),
  points_to-Separate excluded groups all,
)

-- the queries that a finding of `cacheMissQueryFindings` names, without its cache operation
abbrev pub query_ids : Pointers → List String
query_ids p = after_first p.related_entry_ids
  where
    after_first : List String → List String
    after_first [] = []
    after_first (id ∷ ids) = ids

-- no id is in both
abbrev pub Apart : List String → List String → Type 0
Apart ids others = All (λ id. has_id id others ≡ false) ids

abbrev Claims : List String → Pointers → Type 0
Claims claimed b = All (λ id. has_id id claimed ≡ true) (query_ids b)

has_id-append :
    (id : String) (xs ys : List String)
    → (has_id id xs ≡ true) ⊎ (has_id id ys ≡ true)
    → has_id id (xs ++ ys) ≡ true
unfolding has_id
has_id-append id [] ys (inl h) = absurd (ground arith)
has_id-append id [] ys (inr h) = h
has_id-append id (x ∷ xs) ys h = elim (Bool-cases (str_eq x id)) [
  | inl e ↦ rw e refl
  | inr e ↦ elim h [
    | inl here ↦ rw e (has_id-append id xs ys (inl (rw (has_id, e) at here)))
    | inr there ↦ rw e (has_id-append id xs ys (inr there))
  ]
]

has_id_self : (xs : List String) → All (λ id. has_id id xs ≡ true) xs
unfolding has_id
has_id_self [] = tt
has_id_self (x ∷ xs) = (
  rw (str_eq-true x x refl) refl,
  All-map (λ id h. has_id-append id (x ∷ []) xs (inr h)) xs (has_id_self xs),
)

add_burst-claimed :
    (equal_fold : String → String → Bool) (c : AnalyzedCache) (found : List AnalyzedQuery)
    (findings : List Pointers) (claimed : List String)
    → All (Claims claimed) findings
    → let result = add_burst equal_fold c found (findings, claimed) in
      All (Claims result.1) result.0
add_burst-claimed equal_fold c [] findings claimed all = all
add_burst-claimed equal_fold c (q ∷ found) findings claimed all =
    let ids = ids_of (q ∷ found) in
    (
      All-map (λ id h. has_id-append id ids claimed (inl h)) ids (has_id_self ids),
      All-map
          (λ b claims. All-map (λ id h. has_id-append id ids claimed (inr h)) (query_ids b) claims)
          findings all,
    )

-- every query that a burst names is claimed
cache_bursts-claimed :
    (equal_fold : String → String → Bool) (caches : List AnalyzedCache)
    (queries : List AnalyzedQuery)
    → let result = cache_bursts equal_fold caches queries in All (Claims result.1) result.0
unfolding cache_bursts
cache_bursts-claimed equal_fold [] queries = tt
cache_bursts-claimed equal_fold (c ∷ later) queries =
    let result = cache_bursts equal_fold later queries in
    let found =
      explained_by equal_fold c later result.1 (queries_from c.entry.started_at queries) in
    let before = cache_bursts-claimed equal_fold later queries in
    elim (Bool-cases (is_miss c.cache)) [
      | inl e ↦ rw e (add_burst-claimed equal_fold c found result.0 result.1 before)
      | inr e ↦ rw e before
    ]

Apart-claimed :
    (claimed ids others : List String)
    → Apart ids claimed
    → All (λ id. has_id id claimed ≡ true) others
    → Apart ids others
unfolding has_id
Apart-claimed claimed ids others apart claims =
    All-map (λ id free. not_among id free others claims) ids apart
  where
    not_among :
        (id : String)
        → has_id id claimed ≡ false
        → (others : List String) → All (λ x. has_id x claimed ≡ true) others
        → has_id id others ≡ false
    not_among id free [] all = refl
    not_among id free (x ∷ others) (here, all) = elim (Bool-cases (str_eq x id)) [
      | inl e ↦
          let same = (eq_iff x id).0 e in
          let taken : has_id id claimed ≡ true = rw same at here in absurd (ground arith)
      | inr e ↦ rw e (not_among id free others all)
    ]

module _ (to_upper to_lower : Text → Text) (print : ℤ → Text) where
  group_queries-Allowed :
      (excluded : List String) (queries : List AnalyzedQuery) (groups : List Group)
      → All (Allowed excluded) groups
      → All (Allowed excluded) (group_queries to_upper to_lower print excluded queries groups)
  unfolding group_queries
  group_queries-Allowed excluded [] groups all = all
  group_queries-Allowed excluded (q ∷ queries) groups all =
      elim (Bool-cases (text_eq (query_n_plus_one_group to_upper to_lower print q) [])) [
        | inl blank ↦ rw (group_queries, blank) (group_queries-Allowed excluded queries groups all)
        | inr key ↦ elim (Bool-cases (has_id q.entry.id excluded)) [
          | inl skip ↦
              rw (group_queries, key, skip) (group_queries-Allowed excluded queries groups all)
          | inr keep ↦
              rw (group_queries, key, keep)
                (group_queries-Allowed excluded queries
                  (add_to_group (query_n_plus_one_group to_upper to_lower print q) q groups)
                  (add_to_group-Allowed excluded (query_n_plus_one_group to_upper to_lower print q)
                    q groups keep all))
        ]
      ]

  n_plus_one-Allowed :
      (queries : List AnalyzedQuery) (excluded : List String)
      → All (Separate excluded) (n_plus_one to_upper to_lower print queries excluded)
  unfolding n_plus_one
  n_plus_one-Allowed queries excluded =
      let grouped = group_queries to_upper to_lower print excluded queries [] in
      points_to-Separate excluded (sort_groups (filter (λ g. leb 3 (length g.queries)) grouped)) (
        sort_groups-All (λ g. Allowed excluded g × (leb 3 (length g.queries) ≡ true))
          (filter (λ g. leb 3 (length g.queries)) grouped)
          (All-filter (Allowed excluded) (λ g. leb 3 (length g.queries)) grouped
            (group_queries-Allowed excluded queries [] tt)))

  -- A finding of `nPlusOneFindings` names at least three queries, and none that a finding of
  -- `cacheMissQueryFindings` names after its cache operation, whatever the caches and queries of the execution are.
  pub n_plus_one-Separate :
      (equal_fold : String → String → Bool) (caches : List AnalyzedCache)
      (queries : List AnalyzedQuery)
      → let (bursts, explained) = cache_bursts equal_fold caches queries in
        All
          (λ p.
            (3 ≤ length p.related_entry_ids)
            × All (λ b. Apart p.related_entry_ids (query_ids b)) bursts)
          (n_plus_one to_upper to_lower print queries explained)
  n_plus_one-Separate equal_fold caches queries =
      let (bursts, explained) = cache_bursts equal_fold caches queries in
      All-map
        (λ p separate. (
          separate.0,
          All-map
              (λ b claimed.
                Apart-claimed explained p.related_entry_ids (query_ids b) separate.1 claimed)
              bursts (cache_bursts-claimed equal_fold caches queries),
        ))
        (n_plus_one to_upper to_lower print queries explained)
        (n_plus_one-Allowed queries explained)
