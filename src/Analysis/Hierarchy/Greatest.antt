-- ===== src/Analysis/Hierarchy/Greatest.antt =====
-- What the hierarchy of an analysis is about: the entries below an entry, and the greatest of their durations.
use mathlib.Core.Path.{subst}
use webpprof.Prelude.{
  ℕ, ◌≤◌, ◌≡◌, refl, sym, ap, ◌∙◌, String, str_eq, eq_iff, Bool, true, List, [], ◌∷◌, filter, All,
  ◌⊎◌, inl, inr, max, leb, Bool-cases, arith,
}
use webpprof.Prelude.Assoc.{Assoc}
use webpprof.Entry.{Entry}
use webpprof.Analysis.Repeats.{has_id}
use webpprof.Analysis.Hierarchy.{is_child}

-- `v` is the greatest weight of what satisfies `P`, or 0 if there is none
abbrev pub IsGreatest : (String → Type 0) → (String → ℕ) → ℕ → Type 0
IsGreatest P w v = ((d : String) → P d → w d ≤ v) × ((v ≡ 0) ⊎ ((d : String) × P d × (w d ≡ v)))

-- the entries below an id: its children, and what is below these
pub data Below (by_id : Assoc Entry) : String → String → Type 0 where
  child : {c p : String} → is_child by_id c p ≡ true → Below by_id c p
  deeper : {d c p : String} → Below by_id d c → is_child by_id c p ≡ true → Below by_id d p

-- an entry or one below it
abbrev pub From : Assoc Entry → String → String → Type 0
From by_id id d = (d ≡ id) ⊎ Below by_id d id

pub IsGreatest-none : (w : String → ℕ) → IsGreatest (λ d. ⊥) w 0
IsGreatest-none w = ((λ d h. absurd h), inl refl)

pub IsGreatest-one : (w : String → ℕ) (id : String) → IsGreatest (λ d. d ≡ id) w (w id)
IsGreatest-one w id = ((λ d same. omega (arith, ap w same)), inr (id, refl, refl))

-- The greatest of two greatest weights.
pub IsGreatest-max :
    {P Q : String → Type 0} (w : String → ℕ) (u v : ℕ)
    → IsGreatest P w u
    → IsGreatest Q w v
    → IsGreatest (λ d. P d ⊎ Q d) w (max u v)
IsGreatest-max w u v p q = (
  λ d h. elim h [ inl in_p ↦ omega (arith, p.0 d in_p) | inr in_q ↦ omega (arith, q.0 d in_q) ],
  elim (Bool-cases (leb u v)) [
    | inl le ↦ elim q.1 [
      | inl nothing ↦ inl (ground (arith, nothing, le))
      | inr (d, h, same) ↦ inr (d, inr h, ground (arith, same, le))
    ]
    | inr more ↦ elim p.1 [
      | inl nothing ↦ inl (ground (arith, nothing, more))
      | inr (d, h, same) ↦ inr (d, inl h, ground (arith, same, more))
    ]
  ],
)

pub IsGreatest-iff :
    {P Q : String → Type 0} (w : String → ℕ) (v : ℕ)
    → ((d : String) → P d → Q d)
    → ((d : String) → Q d → P d)
    → IsGreatest P w v
    → IsGreatest Q w v
IsGreatest-iff w v to from greatest = (
  λ d h. greatest.0 d (from d h),
  elim greatest.1 [ inl nothing ↦ inl nothing | inr (d, h, same) ↦ inr (d, to d h, same) ],
)

-- some id of the list has the property
abbrev pub Among : (String → Type 0) → List String → Type 0
Among Q [] = ⊥
Among Q (id ∷ ids) = Q id ⊎ Among Q ids

pub Among-filter :
    (Q : String → Type 0) (f : String → Bool) (id : String) (keys : List String)
    → has_id id keys ≡ true
    → f id ≡ true
    → Q id
    → Among Q (filter f keys)
unfolding has_id
Among-filter Q f id [] h chosen q = absurd (cc)
Among-filter Q f id (key ∷ keys) h chosen q = elim (Bool-cases (str_eq key id)) [
  | inl same ↦
      let is_id = (eq_iff key id).0 same in
      let picked : f key ≡ true = ap f is_id ∙ chosen in rw picked (inl (subst Q (sym is_id) q))
  | inr apart ↦
      let rest = Among-filter Q f id keys (rw apart at h) chosen q in
      elim (Bool-cases (f key)) [ inl picked ↦ rw picked (inr rest) | inr left ↦ rw left rest ]
]

pub filter-All : (f : String → Bool) (keys : List String) → All (λ id. f id ≡ true) (filter f keys)
filter-All f [] = tt
filter-All f (key ∷ keys) = elim (Bool-cases (f key)) [
  | inl picked ↦ rw picked (picked, filter-All f keys)
  | inr left ↦ rw left (filter-All f keys)
]
