-- ===== src/Analysis/Hierarchy/Maximum.antt =====
-- The durations that `subtreeMaximum` records are the greatest ones below each key, where the parent ids
-- have no cycle.
use mathlib.Core.Path.{subst}
use webpprof.Prelude.{
  ℕ, zero, suc, ◌≤◌, ◌<◌, ◌≡◌, refl, sym, ap, String, Bool, true, false, List, [], ◌∷◌, ◌⊎◌, inl,
  inr, max, leb, if◌then◌else◌, arith, All,
}
use webpprof.Prelude.Assoc.{Assoc}
use webpprof.Entry.{Entry}
use webpprof.Analysis.Repeats.{has_id}
use webpprof.Analysis.Failures.{Decoders}
use webpprof.Analysis.Hierarchy.{
  is_child, children_of, SubtreeDurations, no_durations, Status, Visits, status, larger,
  visit_children, own_duration, entry_at, subtree_maximum, bottleneck_minimum,
}
use webpprof.Analysis.Hierarchy.Greatest.{
  IsGreatest, Below, From, IsGreatest-none, IsGreatest-one, IsGreatest-max, IsGreatest-iff, Among,
  Among-filter, filter-All,
}
use webpprof.Analysis.Hierarchy.Search.{
  own_of, qualifying_of, AreGreatest, Good, Follows, opened, opened-Good, opened-visiting,
  closed-visited, closed-Follows,
}

module _ (decode : Decoders) (by_id : Assoc Entry) (keys : List String) (rank : String → ℕ)
    (drop : (c p : String) → is_child by_id c p ≡ true → rank c < rank p)
    (is_key : (c p : String) → is_child by_id c p ≡ true → has_id c keys ≡ true) where
  abbrev Greatest : (String → Type 0) → SubtreeDurations → Type 0
  Greatest = AreGreatest decode by_id

  -- every key that is being visited lies above the id
  abbrev pub IsUnder : String → Visits → Type 0
  IsUnder id v = (x : String) → status x v ≡ Status.visiting → rank id < rank x

  -- what a call of `subtreeMaximum` leaves
  abbrev pub Finds : String → Visits → SubtreeDurations × Visits → Type 0
  Finds id v (found, w) =
      Follows decode by_id v w × Greatest (From by_id id) found × (status id w ≡ Status.visited)

  Follows-trans :
      (u v w : Visits)
      → Follows decode by_id u v
      → Follows decode by_id v w
      → Follows decode by_id u w
  Follows-trans u v w f g = (g.0, λ x h. f.1 x (g.1 x h), λ x h. g.2 x (f.2 x h))

  Greatest-iff :
      {P Q : String → Type 0} (d : SubtreeDurations)
      → ((x : String) → P x → Q x)
      → ((x : String) → Q x → P x)
      → Greatest P d
      → Greatest Q d
  Greatest-iff d to from greatest = (
    IsGreatest-iff (own_of decode by_id) d.all to from greatest.0,
    IsGreatest-iff (qualifying_of decode by_id) d.qualifying to from greatest.1,
  )

  Greatest-larger :
      {P Q : String → Type 0} (c d : SubtreeDurations)
      → Greatest P c
      → Greatest Q d
      → Greatest (λ x. P x ⊎ Q x) (larger c d)
  Greatest-larger c d g h = (
    IsGreatest-max (own_of decode by_id) c.all d.all g.0 h.0,
    IsGreatest-max (qualifying_of decode by_id) c.qualifying d.qualifying g.1 h.1,
  )

  visit_children-Follows :
      (visit : String → Visits → SubtreeDurations × Visits) (p : String) (children : List String)
      (P : String → Type 0) (found : SubtreeDurations) (v : Visits)
      → ((c : String) (u : Visits)
          → is_child by_id c p ≡ true
          → Good decode by_id u
          → IsUnder c u
          → Finds c u (visit c u))
      → All (λ c. is_child by_id c p ≡ true) children
      → Good decode by_id v
      → ((x : String) → status x v ≡ Status.visiting → rank p ≤ rank x)
      → Greatest P found
      → Follows decode by_id v (visit_children visit children found v).1
        × Greatest
            (λ d. P d ⊎ Among (λ c. From by_id c d) children)
            (visit_children visit children found v).0
  unfolding visit_children
  visit_children-Follows visit p [] P found v spec all good above greatest = (
    (good, λ x h. h, λ x h. h),
    Greatest-iff found (λ x h. inl h) (λ x h. elim h [ inl in_p ↦ in_p | inr none ↦ absurd none ])
        greatest,
  )
  visit_children-Follows visit p (c ∷ children) P found v spec all good above greatest =
      let step = spec c v all.0 good (λ x h. omega (arith, drop c p all.0, above x h)) in
      let next = visit c v in
      let rest =
        visit_children-Follows visit p children (λ d. P d ⊎ From by_id c d) (larger found next.0)
          next.1 spec all.1 step.0.0 (λ x h. above x (step.0.1 x h))
          (Greatest-larger found next.0 greatest step.1) in
      (
        Follows-trans v next.1 (visit_children visit children (larger found next.0) next.1).1 step.0
            rest.0,
        Greatest-iff (visit_children visit children (larger found next.0) next.1).0
            (λ x h. elim h [
              | inl (inl in_p) ↦ inl in_p
              | inl (inr below) ↦ inr (inl below)
              | inr among ↦ inr (inr among)
            ])
            (λ x h. elim h [
              | inl in_p ↦ inl (inl in_p)
              | inr (inl below) ↦ inl (inr below)
              | inr (inr among) ↦ inr among
            ])
            rest.1,
      )

  Among-Below :
      (id d : String) (children : List String)
      → All (λ c. is_child by_id c id ≡ true) children
      → Among (λ c. From by_id c d) children
      → Below by_id d id
  Among-Below id d [] all h = absurd h
  Among-Below id d (c ∷ children) all (inl (inl same)) =
      Below.child (subst (λ k. is_child by_id k id ≡ true) (sym same) all.0)
  Among-Below id d (c ∷ children) all (inl (inr below)) = Below.deeper below all.0
  Among-Below id d (c ∷ children) all (inr among) = Among-Below id d children all.1 among

  Below-Among :
      (id d : String) → Below by_id d id → Among (λ c. From by_id c d) (children_of by_id keys id)
  Below-Among id d (Below.child h) =
      Among-filter (λ c. From by_id c d) (λ c. is_child by_id c id) d keys (is_key d id h) h
        (inl refl)
  Below-Among id d (Below.deeper {c = c} below h) =
      Among-filter (λ c. From by_id c d) (λ c. is_child by_id c id) c keys (is_key c id h) h
        (inr below)

  -- what an id and the entries below it come to
  abbrev total : String → SubtreeDurations → SubtreeDurations
  total id below =
      let e = entry_at id by_id in
      let own = own_duration decode e in
      record {
        all = max own below.all;
        qualifying =
            if leb (bottleneck_minimum e.kind) own
            then max own below.qualifying
            else below.qualifying;
      }

  qualifying-max :
      (b : Bool) (own below : ℕ)
      → (if b then max own below else below) ≡ max (if b then own else 0) below
  qualifying-max true own below = refl
  qualifying-max false own below = omega arith

  total-Greatest :
      (id : String) (below : SubtreeDurations)
      → Greatest (λ d. Below by_id d id) below
      → Greatest (From by_id id) (total id below)
  total-Greatest id below greatest = (
    IsGreatest-max (own_of decode by_id) (own_of decode by_id id) below.all
        (IsGreatest-one (own_of decode by_id) id) greatest.0,
    subst (IsGreatest (From by_id id) (qualifying_of decode by_id))
        (sym (
          qualifying-max
            (leb (bottleneck_minimum (entry_at id by_id).kind) (own_of decode by_id id))
            (own_of decode by_id id) below.qualifying))
        (IsGreatest-max (qualifying_of decode by_id) (qualifying_of decode by_id id)
          below.qualifying (IsGreatest-one (qualifying_of decode by_id) id) greatest.1),
  )

  Status-cases :
      (s : Status) → (s ≡ Status.unvisited) ⊎ (s ≡ Status.visiting) ⊎ (s ≡ Status.visited)
  Status-cases Status.unvisited = inl refl
  Status-cases Status.visiting = inr (inl refl)
  Status-cases Status.visited = inr (inr refl)

  none_Greatest : Greatest (λ d. ⊥) no_durations
  none_Greatest =
      (IsGreatest-none (own_of decode by_id), IsGreatest-none (qualifying_of decode by_id))

  pub subtree_maximum-Finds :
      (fuel : ℕ) (id : String) (v : Visits)
      → rank id < fuel
      → Good decode by_id v
      → IsUnder id v
      → Finds id v (subtree_maximum decode by_id keys fuel id v)
  unfolding subtree_maximum
  subtree_maximum-Finds zero id v enough good under = absurd (omega arith)
  subtree_maximum-Finds (suc fuel) id v enough good under = elim (Status-cases (status id v)) [
    | inl new ↦
        let children = children_of by_id keys id in
        let all = filter-All (λ c. is_child by_id c id) keys in
        let found =
          visit_children-Follows (subtree_maximum decode by_id keys fuel) id children (λ d. ⊥)
            no_durations (opened decode by_id id v)
            (λ c u h g un. subtree_maximum-Finds fuel c u (omega (arith, drop c id h)) g un) all
            (opened-Good decode by_id id v good)
            (λ x h. elim (opened-visiting decode by_id id v x h) [
              | inl same ↦ omega (arith, ap rank same)
              | inr before ↦ omega (arith, under x before)
            ])
            none_Greatest in
        let (below, w) =
          visit_children (subtree_maximum decode by_id keys fuel) children no_durations
            (opened decode by_id id v) in
        let greatest =
          Greatest-iff below
            (λ d h. elim h [
              | inl none ↦ absurd none
              | inr among ↦ Among-Below id d children all among
            ])
            (λ d h. inr (Below-Among id d h)) found.1 in
        let own = total-Greatest id below greatest in
        rw (subtree_maximum, new)
          (
            closed-Follows decode by_id id (total id below) below w v own greatest new found.0,
            own,
            closed-visited decode by_id id (total id below) below w,
          )
    | inr (inl active) ↦ absurd (omega (arith, under id active))
    | inr (inr done) ↦
        rw (subtree_maximum, done) ((good, λ x h. h, λ x h. h), (good id done).0, done)
  ]
