-- ===== src/Analysis/Hierarchy/Ranked.antt =====
-- The hierarchy of entries whose parent ids have no cycle.
use mathlib.Core.Path.{subst}
use webpprof.Prelude.{
  ℕ, ◌<◌, ◌≡◌, ◌≢◌, refl, sym, ap, ◌∙◌, String, str_eq, eq_iff, true, false, none, some, List, [],
  ◌∷◌, ◌⊎◌, inl, inr, length, arith, Bool-cases, Option-cases, some_injective, All,
}
use webpprof.Prelude.Assoc.{Assoc, lookup, insert, value_at}
use webpprof.Entry.{Entry}
use webpprof.Analysis.Repeats.{has_id}
use webpprof.Analysis.Failures.{Decoders}
use webpprof.Analysis.Hierarchy.{
  is_child, has, Status, Visits, no_visits, status, duration_of, entries_by_id, subtree_maximum,
  visit_all, new_analysis_entry_hierarchy,
}
use webpprof.Analysis.Hierarchy.Greatest.{IsGreatest, Below}
use webpprof.Analysis.Hierarchy.Search.{own_of, qualifying_of, Good, Follows}
use webpprof.Analysis.Hierarchy.Maximum.{subtree_maximum-Finds}
use webpprof.Analysis.Hierarchy.Depth.{position, position_lt, position-lt_length}

-- each entry has a smaller rank than its parent
abbrev pub IsRanked : (String → ℕ) → List Entry → Type 0
IsRanked rank = All (λ e. (e.parent_id ≡ "") ⊎ (rank e.id < rank e.parent_id))

insert-All :
    (P : String × Entry → Type 0) (key : String) (e : Entry) (pairs : Assoc Entry)
    → All P pairs
    → P (key, e)
    → All P (insert key e pairs)
unfolding insert
insert-All P key e [] all p = (p, tt)
insert-All P key e (pair ∷ rest) all p = elim (Bool-cases (str_eq pair.0 key)) [
  | inl same ↦ rw same (p, all.1)
  | inr apart ↦ rw apart (all.0, insert-All P key e rest all.1 p)
]

-- what is in a map comes from an entry with the key as its id
entries_by_id-All :
    (P : String × Entry → Type 0) (by_id : Assoc Entry) (entries : List Entry)
    → All P by_id
    → All (λ e. P (e.id, e)) entries
    → All P (entries_by_id by_id entries)
unfolding entries_by_id
entries_by_id-All P by_id [] all new = all
entries_by_id-All P by_id (e ∷ entries) all new = elim (Bool-cases (str_eq e.id "")) [
  | inl blank ↦ rw (entries_by_id, blank) (entries_by_id-All P by_id entries all new.1)
  | inr named ↦
      rw (entries_by_id, named)
        (entries_by_id-All P (insert e.id e by_id) entries (insert-All P e.id e by_id all new.0)
          new.1)
]

lookup-All :
    (P : String × Entry → Type 0) (key : String) (e : Entry) (pairs : Assoc Entry)
    → All P pairs
    → lookup key pairs ≡ some e
    → P (key, e)
unfolding lookup
lookup-All P key e [] all h = absurd cc
lookup-All P key e (pair ∷ rest) all h = elim (Bool-cases (str_eq pair.0 key)) [
  | inl same ↦ subst P (cc ((eq_iff pair.0 key).0 same, some_injective (rw same at h))) all.0
  | inr apart ↦ lookup-All P key e rest all.1 (rw apart at h)
]

-- what `is_child` says
is_child-parent :
    (by_id : Assoc Entry) (c p : String)
    → is_child by_id c p ≡ true
    → (e : Entry) × (lookup c by_id ≡ some e) × (str_eq e.parent_id "" ≡ false) × (e.parent_id ≡ p)
unfolding is_child
is_child-parent by_id c p h = elim (Option-cases (lookup c by_id)) [
  | inl missing ↦ absurd (cc (rw (is_child, missing) at h))
  | inr (e, found) ↦
      let tests = rw (is_child, found) at h in
      (e, found, ground (arith, tests), (eq_iff e.parent_id p).0 (ground (arith, tests)))
]

is_child-lt :
    (rank : String → ℕ) (entries : List Entry) (c p : String)
    → IsRanked rank entries
    → is_child (entries_by_id [] entries) c p ≡ true
    → (rank c < rank p) × (has c (entries_by_id [] entries) ≡ true)
is_child-lt rank entries c p ranked h =
    let by_id = entries_by_id [] entries in
    let (e, found, named, parent) = is_child-parent by_id c p h in
    let all =
      entries_by_id-All (λ pair. (pair.1.parent_id ≡ "") ⊎ (rank pair.0 < rank pair.1.parent_id)) []
        entries tt ranked in
    let below =
      lookup-All (λ pair. (pair.1.parent_id ≡ "") ⊎ (rank pair.0 < rank pair.1.parent_id)) c e by_id
        all found in
    (
      elim below [
        | inl blank ↦ absurd (cc (named, (eq_iff e.parent_id "").1 blank))
        | inr less ↦ omega (arith, less, ap rank parent)
      ],
      ap (λ o. elim o [ none ↦ false | some v ↦ true ]) found,
    )

nothing_visited : (x : String) → status x no_visits ≡ Status.unvisited
unfolding value_at lookup
nothing_visited x = refl

-- what a `range` over a map yields
abbrev pub IsWalk : (Assoc Entry → List String) → Type 0
IsWalk walk = (m : Assoc Entry) (id : String) → has_id id (walk m) ≡ has id m

listed_All :
    (P : String → Type 0) (ids : List String)
    → ((id : String) → has_id id ids ≡ true → P id)
    → All P ids
unfolding has_id
listed_All P [] h = tt
listed_All P (id ∷ ids) h =
    let same = (eq_iff id id).1 refl in
    (h id (ground (arith, same)), listed_All P ids (λ x listed. h x (ground (arith, listed))))

listed-All :
    (P : String → Type 0) (id : String) (ids : List String)
    → All P ids
    → has_id id ids ≡ true
    → P id
unfolding has_id
listed-All P id [] all h = absurd cc
listed-All P id (x ∷ ids) all h = elim (Bool-cases (str_eq x id)) [
  | inl same ↦ subst P ((eq_iff x id).0 same) all.0
  | inr apart ↦ listed-All P id ids all.1 (rw apart at h)
]

module _ (decode : Decoders) (walk walk_again : Assoc Entry → List String) (entries : List Entry)
    (rank : String → ℕ) (walks : IsWalk walk) (walks_again : IsWalk walk_again)
    (ranked : IsRanked rank entries) where
  abbrev by_id : Assoc Entry
  by_id = entries_by_id [] entries

  abbrev depth : String → ℕ
  depth id = position rank (rank id) by_id

  abbrev IsIdle : Visits → Type 0
  IsIdle v = (x : String) → status x v ≢ Status.visiting

  visit_all-visited :
      (ids : List String) (v : Visits)
      → All (λ id. depth id < length by_id) ids
      → Good decode by_id v
      → IsIdle v
      → (let w = visit_all decode by_id (walk by_id) (length by_id) ids v in
          Follows decode by_id v w × All (λ id. status id w ≡ Status.visited) ids)
  unfolding visit_all
  visit_all-visited [] v enough good idle = ((good, λ x h. h, λ x h. h), tt)
  visit_all-visited (id ∷ ids) v enough good idle =
      let step =
        subtree_maximum-Finds decode by_id (walk by_id) depth
          (λ c p h.
            let facts = is_child-lt rank entries c p ranked h in
            position_lt rank c (rank p) by_id facts.1 facts.0)
          (λ c p h. walks by_id c ∙ (is_child-lt rank entries c p ranked h).1) (length by_id) id v
          enough.0 good (λ x h. absurd (idle x h)) in
      let w = (subtree_maximum decode by_id (walk by_id) (length by_id) id v).1 in
      let rest = visit_all-visited ids w enough.1 step.0.0 (λ x h. idle x (step.0.1 x h)) in
      (
        (rest.0.0, λ x h. step.0.1 x (rest.0.1 x h), λ x h. rest.0.2 x (step.0.2 x h)),
        (rest.0.2 id step.2, rest.1),
      )

  -- The hierarchy has, for each id of an entry, the greatest duration of the bottleneck candidates below it,
  -- and the greatest of those that reach the minimum of their kind, or 0 if there are none: in whatever order the
  -- maps are walked, if the parent ids have no cycle.
  pub new_analysis_entry_hierarchy-IsGreatest :
      (id : String)
      → has id by_id ≡ true
      → (let h = new_analysis_entry_hierarchy decode walk walk_again entries in
          IsGreatest (λ d. Below by_id d id) (own_of decode by_id) (duration_of id h.max_descendant)
          × IsGreatest
              (λ d. Below by_id d id)
              (qualifying_of decode by_id)
              (duration_of id h.max_qualifying))
  unfolding new_analysis_entry_hierarchy
  new_analysis_entry_hierarchy-IsGreatest id found =
      let ids = walk_again by_id in
      let all =
        visit_all-visited ids no_visits
          (listed_All (λ x. depth x < length by_id) ids
            (λ x h. position-lt_length rank x by_id (sym (walks_again by_id x) ∙ h)))
          (λ x h. absurd (cc (nothing_visited x, h))) (λ x h. cc (nothing_visited x, h)) in
      let visited =
        listed-All
          (λ x.
            status x (visit_all decode by_id (walk by_id) (length by_id) ids no_visits)
            ≡ Status.visited)
          id ids all.1 (walks_again by_id id ∙ found) in
      let done = all.0.0 id visited in (done.1, done.2)
