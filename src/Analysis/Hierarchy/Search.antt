-- ===== src/Analysis/Hierarchy/Search.antt =====
-- The invariant of `subtreeMaximum`, and that each of its steps keeps it.
use mathlib.Core.Path.{subst}
use webpprof.Prelude.{
  ℕ, ◌≡◌, ◌≢◌, refl, sym, ap, ◌∙◌, String, str_eq, eq_iff, true, false, ◌⊎◌, inl, inr, leb,
  if◌then◌else◌, Bool-cases,
}
use webpprof.Prelude.Assoc.{Assoc, insert, value_at-insert_same, value_at-insert_other}
use webpprof.Entry.{Entry}
use webpprof.Analysis.Failures.{Decoders}
use webpprof.Analysis.Hierarchy.{
  SubtreeDurations, no_durations, Status, Visits, status, memo_of, duration_of, own_duration,
  entry_at, bottleneck_minimum,
}
use webpprof.Analysis.Hierarchy.Greatest.{IsGreatest, Below, From}

visiting-ne_visited : Status.visiting ≢ Status.visited
visiting-ne_visited h = cc

unvisited-ne_visited : Status.unvisited ≢ Status.visited
unvisited-ne_visited h = cc

module _ (decode : Decoders) (by_id : Assoc Entry) where
  -- the durations that the two maps of the hierarchy are about
  abbrev pub own_of : String → ℕ
  own_of id = own_duration decode (entry_at id by_id)

  abbrev pub qualifying_of : String → ℕ
  qualifying_of id =
      if leb (bottleneck_minimum (entry_at id by_id).kind) (own_of id) then own_of id else 0

  abbrev pub AreGreatest : (String → Type 0) → SubtreeDurations → Type 0
  AreGreatest P d = IsGreatest P own_of d.all × IsGreatest P qualifying_of d.qualifying

  -- a key that was visited has its maxima
  abbrev pub IsDone : Visits → String → Type 0
  IsDone v id =
      AreGreatest (From by_id id) (memo_of id v)
      × IsGreatest (λ d. Below by_id d id) own_of (duration_of id v.max_descendant)
      × IsGreatest (λ d. Below by_id d id) qualifying_of (duration_of id v.max_qualifying)

  abbrev pub Good : Visits → Type 0
  Good v = (id : String) → status id v ≡ Status.visited → IsDone v id

  -- what a call makes of the visits: it marks no key as being visited, and leaves none unvisited that was
  abbrev pub Follows : Visits → Visits → Type 0
  Follows v w =
      Good w
      × ((id : String) → status id w ≡ Status.visiting → status id v ≡ Status.visiting)
      × ((id : String) → status id v ≡ Status.visited → status id w ≡ Status.visited)

  module _ (id : String) (v : Visits) where
    -- the visits once the key is marked
    abbrev pub opened : Visits
    opened = record v { state = insert id Status.visiting v.state }

    opened_other : (x : String) → str_eq id x ≡ false → status x opened ≡ status x v
    opened_other x = value_at-insert_other Status.unvisited id x Status.visiting v.state

    opened_same : (x : String) → str_eq id x ≡ true → status x opened ≡ Status.visiting
    opened_same x = value_at-insert_same Status.unvisited id x Status.visiting v.state

    pub opened-Good : Good v → Good opened
    opened-Good good x h = elim (Bool-cases (str_eq id x)) [
      | inl same ↦ absurd (visiting-ne_visited (sym (opened_same x same) ∙ h))
      | inr apart ↦ good x (sym (opened_other x apart) ∙ h)
    ]

    pub opened-visiting :
        (x : String) → status x opened ≡ Status.visiting → (x ≡ id) ⊎ (status x v ≡ Status.visiting)
    opened-visiting x h = elim (Bool-cases (str_eq id x)) [
      | inl same ↦ inl (sym ((eq_iff id x).0 same))
      | inr apart ↦ inr (sym (opened_other x apart) ∙ h)
    ]

    pub opened-visited :
        (x : String)
        → status id v ≡ Status.unvisited
        → status x v ≡ Status.visited
        → status x opened ≡ Status.visited
    opened-visited x new h = elim (Bool-cases (str_eq id x)) [
      | inl same ↦
          absurd (unvisited-ne_visited (sym new ∙ ap (λ k. status k v) ((eq_iff id x).0 same) ∙ h))
      | inr apart ↦ opened_other x apart ∙ h
    ]

  -- Closing a key, with what the children give.
  module _ (id : String) (result below : SubtreeDurations) (w : Visits) where
    abbrev pub closed : Visits
    closed = record {
      state = insert id Status.visited w.state;
      memo = insert id result w.memo;
      max_descendant = insert id below.all w.max_descendant;
      max_qualifying = insert id below.qualifying w.max_qualifying;
    }

    pub closed-visited : status id closed ≡ Status.visited
    closed-visited =
        value_at-insert_same Status.unvisited id id Status.visited w.state ((eq_iff id id).1 refl)

    closed_other : (x : String) → str_eq id x ≡ false → status x closed ≡ status x w
    closed_other x = value_at-insert_other Status.unvisited id x Status.visited w.state

    closed-IsDone :
        AreGreatest (From by_id id) result
        → AreGreatest (λ d. Below by_id d id) below
        → IsDone closed id
    closed-IsDone all rest =
        let same = (eq_iff id id).1 refl in
        (
          subst (AreGreatest (From by_id id))
              (sym (value_at-insert_same no_durations id id result w.memo same)) all,
          subst (IsGreatest (λ d. Below by_id d id) own_of)
              (sym (value_at-insert_same 0 id id below.all w.max_descendant same)) rest.0,
          subst (IsGreatest (λ d. Below by_id d id) qualifying_of)
              (sym (value_at-insert_same 0 id id below.qualifying w.max_qualifying same)) rest.1,
        )

    closed-IsDone_other : (x : String) → str_eq id x ≡ false → IsDone w x → IsDone closed x
    closed-IsDone_other x apart done = (
      subst (AreGreatest (From by_id x))
          (sym (value_at-insert_other no_durations id x result w.memo apart)) done.0,
      subst (IsGreatest (λ d. Below by_id d x) own_of)
          (sym (value_at-insert_other 0 id x below.all w.max_descendant apart)) done.1,
      subst (IsGreatest (λ d. Below by_id d x) qualifying_of)
          (sym (value_at-insert_other 0 id x below.qualifying w.max_qualifying apart)) done.2,
    )

    pub closed-Good :
        AreGreatest (From by_id id) result
        → AreGreatest (λ d. Below by_id d id) below
        → Good w
        → Good closed
    closed-Good all rest good x h = elim (Bool-cases (str_eq id x)) [
      | inl same ↦ subst (IsDone closed) ((eq_iff id x).0 same) (closed-IsDone all rest)
      | inr apart ↦ closed-IsDone_other x apart (good x (sym (closed_other x apart) ∙ h))
    ]

    pub closed-Follows :
        (v : Visits)
        → AreGreatest (From by_id id) result
        → AreGreatest (λ d. Below by_id d id) below
        → status id v ≡ Status.unvisited
        → Follows (opened id v) w
        → Follows v closed
    closed-Follows v all rest new follows = (
      closed-Good all rest follows.0,
      λ x h. elim (Bool-cases (str_eq id x)) [
        | inl same ↦ absurd (
            visiting-ne_visited
              (sym h ∙ ap (λ k. status k closed) (sym ((eq_iff id x).0 same)) ∙ closed-visited))
        | inr apart ↦ elim (opened-visiting id v x (follows.1 x (sym (closed_other x apart) ∙ h))) [
          | inl same ↦ absurd (cc (apart, (eq_iff id x).1 (sym same)))
          | inr before ↦ before
        ]
      ],
      λ x h. elim (Bool-cases (str_eq id x)) [
        | inl same ↦
            subst (λ k. status k closed ≡ Status.visited) ((eq_iff id x).0 same) closed-visited
        | inr apart ↦ closed_other x apart ∙ follows.2 x (opened-visited id v x new h)
      ],
    )
