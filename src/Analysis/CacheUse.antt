-- ===== src/Analysis/CacheUse.antt =====
-- analysis.go: which cache operations read and write, `cacheResolutionAfter` and the rate of misses.
-- `strings.EqualFold` on store names, and the percentage, are parameters; the texts of the finding
-- are left out.
use webpprof.Prelude.{
  ℕ, ◌≡◌, refl, ap, ◌∙◌, sym, String, str_eq, Bool, true, false, not, ◌&&◌, ◌||◌, Option, none,
  some, List, [], ◌∷◌, map, filter, length, ltb, if◌then◌else◌, All, Bool-cases, inl, inr, suc,
}
use webpprof.Prelude.Text.{Text, codes, text_eq, text_eq_sound, to_lower, trim_space, has_prefix}
use webpprof.Contracts.{Cache}
use webpprof.Analysis.{AnalyzedCache}

unfoldable pub is_one_of : Text → List Text → Bool
is_one_of name [] = false
is_one_of name (n ∷ names) = text_eq name n || is_one_of name names

abbrev pub read_names : List Text
read_names = map codes (
    "get" ∷ "mget" ∷ "hget" ∷ "hmget" ∷ "hgetall" ∷ "has" ∷ "exists" ∷ "hexists" ∷ "pull"
    ∷ "remember" ∷ "remember_forever" ∷ "lock_get" ∷ [])

abbrev pub write_names : List Text
write_names = map codes (
    "put" ∷ "set" ∷ "setex" ∷ "psetex" ∷ "setnx" ∷ "mset" ∷ "hset" ∷ "hmset" ∷ "add" ∷ "forever"
    ∷ "increment" ∷ "decrement" ∷ "incr" ∷ "decr" ∷ "incrby" ∷ "decrby" ∷ "getset" ∷ [])

abbrev pub operation_name : String → Text
operation_name operation = to_lower (trim_space (codes operation))

unfoldable pub names_read : Text → Bool
names_read name = text_eq name [] || has_prefix name (codes "get_") || is_one_of name read_names

unfoldable pub cache_read_operation : String → Bool
cache_read_operation operation = names_read (operation_name operation)

unfoldable pub cache_write_operation : String → Bool
cache_write_operation operation = is_one_of (operation_name operation) write_names

module _ (equal_fold : String → String → Bool) where
  unfoldable pub same_cache_resource : Cache → Cache → Bool
  same_cache_resource left right =
      not (text_eq (trim_space (codes left.key)) [])
      && (str_eq left.key right.key
          && (str_eq left.store "" || (str_eq right.store "" || equal_fold left.store right.store)))

  -- whether a later operation settles a miss
  unfoldable pub resolves : Cache → Cache → Bool
  resolves miss candidate =
      same_cache_resource miss candidate
      && (str_eq candidate.error ""
          && (cache_write_operation candidate.operation
              || (cache_read_operation candidate.operation && candidate.hit)))

  -- `cacheResolutionAfter`, on the operations after the miss
  unfoldable pub cache_resolution_after : Cache → List AnalyzedCache → Option ℕ
  cache_resolution_after miss [] = none
  cache_resolution_after miss (c ∷ later) =
      if resolves miss c.cache then some c.entry.started_at else cache_resolution_after miss later

unfoldable pub counts_as_read : AnalyzedCache → Bool
counts_as_read c = cache_read_operation c.cache.operation && str_eq c.cache.error ""

abbrev pub missed : AnalyzedCache → Bool
missed c = not c.cache.hit

pub record MissRate : Type 0 where
  pub percentage : ℕ
  pub missed_ids : List String
  pub reads : ℕ

-- `cacheMissRateFinding`; the finding's `EntryID` is `misses[0]`
unfoldable pub cache_miss_rate : (ℕ → ℕ → ℕ) → List AnalyzedCache → Option MissRate
cache_miss_rate percent caches =
    let reads = filter counts_as_read caches in
    let misses = map (λ (c : AnalyzedCache). c.entry.id) (filter missed reads) in
    let percentage = percent (length misses) (length reads) in
    if ltb (length reads) 5 || ltb percentage 50
    then none
    else some (record { percentage = percentage; missed_ids = misses; reads = length reads })

one_of_All :
    (p : Text → Bool) (name : Text) (names : List Text)
    → All (λ n. p n ≡ false) names
    → is_one_of name names ≡ true
    → p name ≡ false
unfolding is_one_of
one_of_All p name [] all h = cc
one_of_All p name (n ∷ names) all h = elim (Bool-cases (text_eq name n)) [
  | inl same ↦ ap p (text_eq_sound name n same) ∙ all.0
  | inr other ↦ one_of_All p name names all.1 (rw other at h)
]

writes_no_read : All (λ n. names_read n ≡ false) write_names
unfolding names_read is_one_of has_prefix
writes_no_read = (
  refl,
  (
    refl,
    (
      refl,
      (
        refl,
        (
          refl,
          (
            refl,
            (
              refl,
              (refl, (refl, (refl, (refl, (refl, (refl, (refl, (refl, (refl, (refl, tt)))))))))),
            ),
          ),
        ),
      ),
    ),
  ),
)

-- No operation counts as a write and as a read, so a write settles a miss whether it hit or not, and
-- is never counted among the reads.
pub cache_write-not_read :
    (operation : String)
    → cache_write_operation operation ≡ true
    → cache_read_operation operation ≡ false
unfolding cache_write_operation cache_read_operation
cache_write-not_read operation h =
    one_of_All names_read (operation_name operation) write_names writes_no_read h

has_miss :
    (misses : List String) (percent : ℕ → ℕ → ℕ) (reads : ℕ) (few : Bool) (found : MissRate)
    → percent 0 reads ≡ 0
    → (let percentage = percent (length misses) reads in
        if few || ltb percentage 50
        then none
        else some (record { percentage = percentage; missed_ids = misses; reads = reads }))
      ≡ some found
    → (id : String) × (rest : List String) × (found.missed_ids ≡ id ∷ rest)
has_miss [] percent reads few found none_missed h = absurd (elim (Bool-cases few) [
  | inl short ↦ cc (rw short at h)
  | inr enough ↦ cc (rw (enough, none_missed) at h)
])
has_miss (id ∷ rest) percent reads few found none_missed h =
    elim (Bool-cases (few || ltb (percent (suc (length rest)) reads) 50)) [
      | inl low ↦ absurd (cc (rw low at h))
      | inr high ↦
          (id, rest, sym (ap (λ o. elim o [ none ↦ [] | some f ↦ f.missed_ids ]) (rw high at h)))
    ]

-- A reported rate has a miss to point at: `misses[0]` is not out of range. The percentage of no
-- misses is 0.
cache_miss_rate-has_miss :
    (percent : ℕ → ℕ → ℕ) (caches : List AnalyzedCache) (found : MissRate)
    → ((n : ℕ) → percent 0 n ≡ 0)
    → cache_miss_rate percent caches ≡ some found
    → (id : String) × (rest : List String) × (found.missed_ids ≡ id ∷ rest)
unfolding cache_miss_rate
cache_miss_rate-has_miss percent caches found zero_percent h =
    has_miss
      (map (λ (c : AnalyzedCache). c.entry.id) (filter missed (filter counts_as_read caches)))
      percent (length (filter counts_as_read caches))
      (ltb (length (filter counts_as_read caches)) 5) found
      (zero_percent (length (filter counts_as_read caches))) h
