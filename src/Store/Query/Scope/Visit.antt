-- ===== src/Store/Query/Scope/Visit.antt =====
-- store.go: `scopeIDsLocked` finds the entries below the root, and stops.
use mathlib.Core.Path.{subst}
use webpprof.Prelude.{
  ℕ, zero, suc, ◌+◌, ◌≤◌, ◌≡◌, refl, sym, ap, String, true, false, none, some, List, [], ◌∷◌,
  length, arith, Bool-cases, inl, inr, ◌⊎◌, ◌↔◌,
}
use webpprof.Prelude.Assoc.{Assoc}
use webpprof.Prelude.Text.{Text, codes, text_eq}
use webpprof.Entry.{Entry}
use webpprof.Store.{EntryStore}
use webpprof.Prelude.Text.{trim_space}
use webpprof.Store.Query.{scope_ids, is_one_of, children_of, visit_children, visit}
use webpprof.Store.Query.Scope.{
  In, Reached, In-cons, In-empty, In-head, In-later, entry_ids, children_of-entry_ids, fresh,
  fresh-taken,
}

module _ (entries : Assoc Entry) (root : Text) where
  -- what holds between two rounds: `ids` are reached, what waits on the stack is among them, the children
  -- of the others are too, and the rounds that are left are enough
  record Visiting (ids stack : List Text) (fuel : ℕ) : Type 0 where
    has_root : In root ids
    reached : (id : Text) → In id ids → Reached entries root id
    waiting : (id : Text) → In id stack → In id ids
    closed :
        (parent child : Text)
        → In parent ids
        → In child (children_of parent entries)
        → In parent stack ⊎ In child ids
    enough : length stack + fresh ids (entry_ids entries) ≤ fuel

  -- within a round: `children` are what is left of the children of `current`
  record Expanding (current : Text) (children ids stack : List Text) (fuel : ℕ) : Type 0 where
    has_root : In root ids
    reached : (id : Text) → In id ids → Reached entries root id
    waiting : (id : Text) → In id stack → In id ids
    closed :
        (parent child : Text)
        → In parent ids
        → In child (children_of parent entries)
        → (In parent stack ⊎ In child ids) ⊎ ((parent ≡ current) × In child children)
    left : (child : Text) → In child children → In child (children_of current entries)
    found : In current ids
    enough : length stack + fresh ids (entry_ids entries) ≤ fuel

  module _ (current child : Text) (children ids stack : List Text) (fuel : ℕ)
      (v : Expanding current (child ∷ children) ids stack fuel) where
    -- a child that was found before
    skip : In child ids → Expanding current children ids stack fuel
    skip seen = record {
      has_root = v.has_root;
      reached = v.reached;
      waiting = v.waiting;
      closed = λ p c hp hc. elim (v.closed p c hp hc) [
        | inl done ↦ inl done
        | inr (same, among) ↦ elim (In-cons c child children among) [
          | inl e ↦ inl (inr (subst (λ x. In x ids) (sym e) seen))
          | inr later ↦ inr (same, later)
        ]
      ];
      left = λ c hc. v.left c (In-later c child children hc);
      found = v.found;
      enough = v.enough;
    }

    -- a new child is pushed
    push :
        is_one_of child ids ≡ false → Expanding current children (child ∷ ids) (child ∷ stack) fuel
    push new = record {
      has_root = In-later root child ids v.has_root;
      reached = λ id h. elim (In-cons id child ids h) [
        | inl e ↦
            subst (Reached entries root) (sym e)
              (Reached.below (v.reached current v.found) (v.left child (In-head child children)))
        | inr old ↦ v.reached id old
      ];
      waiting = λ id h. elim (In-cons id child stack h) [
        | inl e ↦ subst (λ x. In x (child ∷ ids)) (sym e) (In-head child ids)
        | inr old ↦ In-later id child ids (v.waiting id old)
      ];
      closed = λ p c hp hc. elim (In-cons p child ids hp) [
        | inl e ↦ inl (inl (subst (λ x. In x (child ∷ stack)) (sym e) (In-head child stack)))
        | inr old ↦ elim (v.closed p c old hc) [
          | inl (inl waits) ↦ inl (inl (In-later p child stack waits))
          | inl (inr found) ↦ inl (inr (In-later c child ids found))
          | inr (same, among) ↦ elim (In-cons c child children among) [
            | inl e ↦ inl (inr (subst (λ x. In x (child ∷ ids)) (sym e) (In-head child ids)))
            | inr later ↦ inr (same, later)
          ]
        ]
      ];
      left = λ c hc. v.left c (In-later c child children hc);
      found = In-later current child ids v.found;
      enough =
          let is_entry =
            children_of-entry_ids current child entries (v.left child (In-head child children)) in
          omega (arith, fresh-taken ids (entry_ids entries) child is_entry new, v.enough);
    }

  expand-Visiting :
      (current : Text) (children ids stack : List Text) (fuel : ℕ)
      → Expanding current children ids stack fuel
      → Visiting (visit_children children ids stack).0 (visit_children children ids stack).1 fuel
  unfolding visit_children
  expand-Visiting current [] ids stack fuel v = record {
    has_root = v.has_root;
    reached = v.reached;
    waiting = v.waiting;
    closed = λ p c hp hc. elim (v.closed p c hp hc) [
      | inl done ↦ done
      | inr (same, none_left) ↦ absurd (In-empty c none_left)
    ];
    enough = v.enough;
  }
  expand-Visiting current (child ∷ children) ids stack fuel v =
      elim (Bool-cases (is_one_of child ids)) [
        | inl seen ↦
            rw (visit_children, seen)
              (expand-Visiting current children ids stack fuel
                (skip current child children ids stack fuel v seen))
        | inr new ↦
            rw (visit_children, new)
              (expand-Visiting current children (child ∷ ids) (child ∷ stack) fuel
                (push current child children ids stack fuel v new))
      ]

  pop-Expanding :
      (current : Text) (ids stack : List Text) (fuel : ℕ)
      → Visiting ids (current ∷ stack) (suc fuel)
      → Expanding current (children_of current entries) ids stack fuel
  pop-Expanding current ids stack fuel v = record {
    has_root = v.has_root;
    reached = v.reached;
    waiting = λ id h. v.waiting id (In-later id current stack h);
    closed = λ p c hp hc. elim (v.closed p c hp hc) [
      | inl waits ↦ elim (In-cons p current stack waits) [
        | inl e ↦ inr (e, subst (λ x. In c (children_of x entries)) e hc)
        | inr later ↦ inl (inl later)
      ]
      | inr found ↦ inl (inr found)
    ];
    left = λ c hc. hc;
    found = v.waiting current (In-head current stack);
    enough = omega (arith, v.enough);
  }

  -- what holds of the ids in the end
  record Found (ids : List Text) : Type 0 where
    has_root : In root ids
    reached : (id : Text) → In id ids → Reached entries root id
    closed :
        (parent child : Text) → In parent ids → In child (children_of parent entries) → In child ids

  empty-Found : (ids : List Text) (fuel : ℕ) → Visiting ids [] fuel → Found ids
  empty-Found ids fuel v = record {
    has_root = v.has_root;
    reached = v.reached;
    closed = λ p c hp hc. elim (v.closed p c hp hc) [
      | inl waits ↦ absurd (In-empty p waits)
      | inr found ↦ found
    ];
  }

  visit-Found :
      (fuel : ℕ) (ids stack : List Text)
      → Visiting ids stack fuel
      → Found (visit fuel entries ids stack)
  unfolding visit
  visit-Found zero ids [] v = empty-Found ids 0 v
  visit-Found zero ids (current ∷ stack) v = absurd (omega (arith, v.enough))
  visit-Found (suc fuel) ids [] v = empty-Found ids (suc fuel) v
  visit-Found (suc fuel) ids (current ∷ stack) v =
      visit-Found fuel (visit_children (children_of current entries) ids stack).0
        (visit_children (children_of current entries) ids stack).1
        (expand-Visiting current (children_of current entries) ids stack fuel
          (pop-Expanding current ids stack fuel v))

  fresh-le : (ids xs : List Text) → fresh ids xs ≤ length xs
  fresh-le ids [] = omega arith
  fresh-le ids (x ∷ xs) = elim (Bool-cases (is_one_of x ids)) [
    | inl e ↦ rw e (omega (arith, fresh-le ids xs))
    | inr e ↦ rw e (omega (arith, fresh-le ids xs))
  ]

  length-entry_ids : (es : Assoc Entry) → length (entry_ids es) ≡ length es
  length-entry_ids [] = refl
  length-entry_ids ((key, e) ∷ es) = ap suc (length-entry_ids es)

  root-Visiting : Visiting (root ∷ []) (root ∷ []) (suc (length entries))
  root-Visiting = record {
    has_root = In-head root [];
    reached = λ id h. elim (In-cons id root [] h) [
      | inl e ↦ subst (Reached entries root) (sym e) Reached.here
      | inr none_left ↦ absurd (In-empty id none_left)
    ];
    waiting = λ id h. h;
    closed = λ p c hp hc. inl hp;
    enough = omega (arith, fresh-le (root ∷ []) (entry_ids entries), length-entry_ids entries);
  }

  Found-complete : (ids : List Text) → Found ids → (id : Text) → Reached entries root id → In id ids
  Found-complete ids f id Reached.here = f.has_root
  Found-complete ids f id (Reached.below {parent} {child} r h) =
      f.closed parent child (Found-complete ids f parent r) h

  visited_iff :
      (id : Text)
      → In id (visit (suc (length entries)) entries (root ∷ []) (root ∷ []))
        ↔ Reached entries root id
  visited_iff id =
      let f = visit-Found (suc (length entries)) (root ∷ []) (root ∷ []) root-Visiting in
      (λ h. f.reached id h, λ r. Found-complete _ f id r)

-- For a root that is not blank, `scopeIDsLocked` returns the root and exactly the ids that are reached from it by
-- going from an entry to its children, however the parent ids loop; as many rounds as there are entries, and one, are enough
-- to take every id off the stack. For a blank root it returns nil.
pub scope_ids-Reached :
    (s : EntryStore) (root : String)
    → ((text_eq (trim_space (codes root)) [] ≡ true) × (scope_ids s root ≡ none))
      ⊎ ((ids : List Text) × (scope_ids s root ≡ some ids)
          × ((id : Text) → In id ids ↔ Reached s.entries (trim_space (codes root)) id))
unfolding scope_ids
scope_ids-Reached s root = elim (Bool-cases (text_eq (trim_space (codes root)) [])) [
  | inl blank ↦ inl (blank, rw (scope_ids, blank) refl)
  | inr other ↦ inr (_, rw (scope_ids, other) refl, visited_iff s.entries (trim_space (codes root)))
]
