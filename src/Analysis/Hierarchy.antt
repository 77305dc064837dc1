-- ===== src/Analysis/Hierarchy.antt =====
-- analysis.go: `newAnalysisEntryHierarchy`, `hasExplainingDescendant` and the durations that count for a
-- bottleneck. A `map` is a list of pairs; what a `range` over it yields, the keys in any order, is the
-- parameter `walk`, one for each of the two loops. The test of a share on floats,
-- `float64(descendant)/float64(duration)*100 >= 50`, is the parameter `explains descendant duration`.
pub mod Greatest
pub mod Search
pub mod Depth
pub mod Maximum
pub mod Ranked
use webpprof.Prelude.{
  ℕ, zero, suc, ◌-◌, ◌*◌, ◌^◌, String, str_eq, Bool, true, false, not, ◌&&◌, Option, none, some,
  List, [], ◌∷◌, filter, length, max, leb, ◌==◌, if◌then◌else◌, ℤ, pos_part,
}
use webpprof.Prelude.Assoc.{Assoc, lookup, insert, value_at}
use webpprof.Entry.{Entry, Kind, zero_entry}
use webpprof.Contracts.{Middleware}
use webpprof.Analysis.Failures.{Decoders, ms}

abbrev pub or_own : Option ℤ → ℤ → ℤ
or_own none fallback = fallback
or_own (some work) fallback = work

unfoldable pub middleware_work_duration : Middleware → ℤ → ℕ
middleware_work_duration m fallback = pos_part (or_own m.work_duration fallback)

unfoldable pub bottleneck_candidate : Kind → Bool
bottleneck_candidate Kind.query = true
bottleneck_candidate Kind.cache = true
bottleneck_candidate Kind.http_call = true
bottleneck_candidate Kind.middleware = true
bottleneck_candidate Kind.event = true
bottleneck_candidate Kind.job = true
bottleneck_candidate Kind.email = true
bottleneck_candidate _ = false

unfoldable pub bottleneck_minimum : Kind → ℕ
bottleneck_minimum Kind.query = 50 * ms
bottleneck_minimum Kind.cache = 50 * ms
bottleneck_minimum Kind.middleware = 100 * ms
bottleneck_minimum Kind.http_call = 500 * ms
bottleneck_minimum Kind.event = 500 * ms
bottleneck_minimum Kind.job = 500 * ms
bottleneck_minimum Kind.email = 500 * ms
bottleneck_minimum _ = 2 ^ 63 - 1

abbrev pub has {ℓ} : {V : Type ℓ} → String → Assoc V → Bool
has key pairs = elim (lookup key pairs) [ none ↦ false | some v ↦ true ]

abbrev pub entry_at : String → Assoc Entry → Entry
entry_at id by_id = value_at zero_entry id by_id

-- the first loop
unfoldable pub entries_by_id : Assoc Entry → List Entry → Assoc Entry
entries_by_id by_id [] = by_id
entries_by_id by_id (e ∷ entries) =
    entries_by_id (if str_eq e.id "" then by_id else insert e.id e by_id) entries

-- whether `children[parent]` gets the id
unfoldable pub is_child : Assoc Entry → String → String → Bool
is_child by_id child parent = elim (lookup child by_id) [
  | none ↦ false
  | some e ↦ not (str_eq e.parent_id "") && (has e.parent_id by_id && str_eq e.parent_id parent)
]

-- `children[parent]`, of the keys in the order of the loop
abbrev pub children_of : Assoc Entry → List String → String → List String
children_of by_id keys parent = filter (λ id. is_child by_id id parent) keys

pub record SubtreeDurations : Type 0 where
  pub all : ℕ
  pub qualifying : ℕ

abbrev pub no_durations : SubtreeDurations
no_durations = record { all = 0; qualifying = 0 }

-- the values 0, 1 and 2 of `state`
pub data Status : Type 0 where
  unvisited visiting visited : Status

-- what the closure `subtreeMaximum` reads and writes
pub record Visits : Type 0 where
  pub state : Assoc Status
  pub memo : Assoc SubtreeDurations
  pub max_descendant : Assoc ℕ
  pub max_qualifying : Assoc ℕ

abbrev pub no_visits : Visits
no_visits = record { state = []; memo = []; max_descendant = []; max_qualifying = [] }

abbrev pub status : String → Visits → Status
status id v = value_at Status.unvisited id v.state

abbrev pub memo_of : String → Visits → SubtreeDurations
memo_of id v = value_at no_durations id v.memo

abbrev pub duration_of : String → Assoc ℕ → ℕ
duration_of id durations = value_at 0 id durations

abbrev pub larger : SubtreeDurations → SubtreeDurations → SubtreeDurations
larger a b = record { all = max a.all b.all; qualifying = max a.qualifying b.qualifying }

-- the loop over the children
unfoldable pub visit_children :
    (String → Visits → SubtreeDurations × Visits)
    → List String
    → SubtreeDurations
    → Visits
    → SubtreeDurations × Visits
visit_children visit [] found v = (found, v)
visit_children visit (child ∷ children) found v =
    let (d, later) = visit child v in visit_children visit children (larger found d) later

module _ (decode : Decoders) where
  unfoldable pub entry_bottleneck_duration : Entry → ℕ
  entry_bottleneck_duration e = work e.kind (decode.middleware e.payload)
    where
      work : Kind → Option Middleware → ℕ
      work Kind.middleware (some m) = middleware_work_duration m e.duration_ns
      work _ _ = pos_part e.duration_ns

  abbrev pub own_duration : Entry → ℕ
  own_duration e = if bottleneck_candidate e.kind then entry_bottleneck_duration e else 0

  module _ (by_id : Assoc Entry) (keys : List String) where
    -- `subtreeMaximum`; each call that goes deeper has marked another key
    unfoldable pub subtree_maximum : ℕ → String → Visits → SubtreeDurations × Visits
    subtree_maximum zero id v = (no_durations, v)
    subtree_maximum (suc fuel) id v = elim (status id v) [
      | Status.visiting ↦ (no_durations, v)
      | Status.visited ↦ (memo_of id v, v)
      | Status.unvisited ↦
          let e = entry_at id by_id in
          let own = own_duration e in
          let (below, w) =
            visit_children (subtree_maximum fuel) (children_of by_id keys id) no_durations
              (record v { state = insert id Status.visiting v.state }) in
          let result : SubtreeDurations = record {
            all = max own below.all;
            qualifying =
                if leb (bottleneck_minimum e.kind) own
                then max own below.qualifying
                else below.qualifying;
          } in
          (
            result,
            record {
              state = insert id Status.visited w.state;
              memo = insert id result w.memo;
              max_descendant = insert id below.all w.max_descendant;
              max_qualifying = insert id below.qualifying w.max_qualifying;
            },
          )
    ]

    -- the last loop
    unfoldable pub visit_all : ℕ → List String → Visits → Visits
    visit_all fuel [] v = v
    visit_all fuel (id ∷ ids) v = visit_all fuel ids (subtree_maximum fuel id v).1

  -- the two maps of the hierarchy are the last two of the visits
  unfoldable pub new_analysis_entry_hierarchy :
      (Assoc Entry → List String) → (Assoc Entry → List String) → List Entry → Visits
  new_analysis_entry_hierarchy walk walk_again entries =
      let by_id = entries_by_id [] entries in
      visit_all by_id (walk by_id) (length by_id) (walk_again by_id) no_visits

-- `hasExplainingDescendant` and `hasQualifyingExplainingDescendant`, each with its map
unfoldable pub has_explaining_descendant : (ℕ → ℕ → Bool) → Assoc ℕ → String → ℕ → Bool
has_explaining_descendant explains durations id duration =
    let descendant = duration_of id durations in
    not (str_eq id "")
    && (not (duration == 0) && (not (descendant == 0) && explains descendant duration))
