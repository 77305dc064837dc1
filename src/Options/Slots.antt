-- ===== src/Options/Slots.antt =====
-- capture_rules.go: how many requests the limit lets through.
use webpprof.Prelude.{
  ℕ, zero, suc, ◌+◌, ◌-◌, ◌≤◌, ◌<◌, ◌≡◌, refl, Bool, true, false, some, List, [], ◌∷◌, All,
  lookup_at, set, ◌==◌, arith, ap, sym, ◌∙◌, replicate, inl, inr, ◌⊎◌, Option-cases, Bool-cases,
  some_injective, ap₂, lookup_at-set_self, ==_iff,
}
use webpprof.Options.Sampling.{Phase, Calls, advance, step, run, starting}

-- 1 for a call that took a slot
abbrev pub taken : Phase → ℕ
taken (Phase.returned true) = 1
taken _ = 0

abbrev pub total_taken : List Phase → ℕ
total_taken [] = 0
total_taken (p ∷ phases) = taken p + total_taken phases

-- a value that was loaded is not 0, and no call is refused while there is a slot
abbrev pub Fair : ℕ → Phase → Type 0
Fair remaining Phase.loading = Unit
Fair remaining (Phase.loaded n) = 0 < n
Fair remaining (Phase.returned true) = Unit
Fair remaining (Phase.returned false) = remaining ≡ 0

pub record IsBalanced (limit : ℕ) (s : Calls) : Type 0 where
  pub balance : s.remaining + total_taken s.phases ≡ limit
  pub fair : All (Fair s.remaining) s.phases

total_taken-set :
    (phases : List Phase) (i : ℕ) (p q : Phase)
    → lookup_at phases i ≡ some p
    → total_taken (set phases i q) + taken p ≡ total_taken phases + taken q
total_taken-set [] i p q h = cc
total_taken-set (x ∷ phases) zero p q h = rw (some_injective h) (omega arith)
total_taken-set (x ∷ phases) (suc i) p q h = omega (arith, total_taken-set phases i p q h)

Fair-at :
    (n : ℕ) (phases : List Phase) (i : ℕ) (p : Phase)
    → All (Fair n) phases
    → lookup_at phases i ≡ some p
    → Fair n p
Fair-at n [] i p all h = cc
Fair-at n (x ∷ phases) zero p (here, all) h = rw (sym (some_injective h)) here
Fair-at n (x ∷ phases) (suc i) p (here, all) h = Fair-at n phases i p all h

Fair-set :
    (n : ℕ) (phases : List Phase) (i : ℕ) (q : Phase)
    → All (Fair n) phases
    → Fair n q
    → All (Fair n) (set phases i q)
Fair-set n [] i q all f = tt
Fair-set n (x ∷ phases) zero q (here, all) f = (f, all)
Fair-set n (x ∷ phases) (suc i) q (here, all) f = (here, Fair-set n phases i q all f)

Fair-drop : (n m : ℕ) (p : Phase) → 0 < n → Fair n p → Fair m p
Fair-drop n m Phase.loading pos f = tt
Fair-drop n m (Phase.loaded k) pos f = f
Fair-drop n m (Phase.returned true) pos f = tt
Fair-drop n m (Phase.returned false) pos f = absurd (omega arith)

All-Fair-drop : (n m : ℕ) (phases : List Phase) → 0 < n → All (Fair n) phases → All (Fair m) phases
All-Fair-drop n m [] pos all = tt
All-Fair-drop n m (p ∷ phases) pos (here, all) =
    (Fair-drop n m p pos here, All-Fair-drop n m phases pos all)

module _ (limit : ℕ) (s : Calls) (i : ℕ) (b : IsBalanced limit s) where
  -- a step to a phase that takes no slot
  stay-IsBalanced :
      (p q : Phase)
      → lookup_at s.phases i ≡ some p
      → taken p ≡ taken q
      → Fair s.remaining q
      → IsBalanced limit (record { remaining = s.remaining; phases = set s.phases i q })
  stay-IsBalanced p q h same f = record {
    balance = omega (arith, total_taken-set s.phases i p q h, b.balance);
    fair = Fair-set s.remaining s.phases i q b.fair f;
  }

  take-IsBalanced :
      (n : ℕ)
      → lookup_at s.phases i ≡ some (Phase.loaded n)
      → s.remaining ≡ n
      → IsBalanced limit
          (record { remaining = n - 1; phases = set s.phases i (Phase.returned true) })
  take-IsBalanced n h same =
      let positive = Fair-at s.remaining s.phases i (Phase.loaded n) b.fair h in
      record {
        balance =
            omega (
              arith,
              total_taken-set s.phases i (Phase.loaded n) (Phase.returned true) h,
              b.balance,
            );
        fair =
            Fair-set (n - 1) s.phases i (Phase.returned true)
              (All-Fair-drop s.remaining (n - 1) s.phases (omega arith) b.fair) tt;
      }

  step-IsBalanced : IsBalanced limit (step s i)
  unfolding step advance
  step-IsBalanced = elim (Option-cases (lookup_at s.phases i)) [
    | inl e ↦ rw (step, e) b
    | inr (Phase.loading, e) ↦ elim (Bool-cases (s.remaining == 0)) [
      | inl z ↦
          rw (step, advance, e, z)
            (stay-IsBalanced Phase.loading (Phase.returned false) e refl
              ((==_iff s.remaining 0).0 z))
      | inr z ↦
          rw (step, advance, e, z)
            (stay-IsBalanced Phase.loading (Phase.loaded s.remaining) e refl (ground arith))
    ]
    | inr (Phase.loaded n, e) ↦ elim (Bool-cases (s.remaining == n)) [
      | inl z ↦ rw (step, advance, e, z) (take-IsBalanced n e ((==_iff s.remaining n).0 z))
      | inr z ↦ rw (step, advance, e, z) (stay-IsBalanced (Phase.loaded n) Phase.loading e refl tt)
    ]
    | inr (Phase.returned r, e) ↦
        rw (step, advance, e)
          (stay-IsBalanced (Phase.returned r) (Phase.returned r) e refl
            (Fair-at s.remaining s.phases i (Phase.returned r) b.fair e))
  ]

run-IsBalanced :
    (limit : ℕ) (s : Calls) (schedule : List ℕ)
    → IsBalanced limit s
    → IsBalanced limit (run s schedule)
unfolding run
run-IsBalanced limit s [] b = b
run-IsBalanced limit s (i ∷ schedule) b =
    run-IsBalanced limit (step s i) schedule (step-IsBalanced limit s i b)

starting-taken : (n : ℕ) → total_taken (replicate n Phase.loading) ≡ 0
starting-taken zero = refl
starting-taken (suc n) = omega (arith, starting-taken n)

starting-Fair : (limit n : ℕ) → All (Fair limit) (replicate n Phase.loading)
starting-Fair limit zero = tt
starting-Fair limit (suc n) = (tt, starting-Fair limit n)

-- However the atomic steps of concurrent calls interleave, at most as many of them take a slot as the limit allows, and a
-- call is refused only after all slots were taken.
pub run-bounded :
    (limit n : ℕ) (schedule : List ℕ)
    → let s = run (starting limit n) schedule in
      (total_taken s.phases ≤ limit)
      × ((i : ℕ)
          → lookup_at s.phases i ≡ some (Phase.returned false)
          → total_taken s.phases ≡ limit)
run-bounded limit n schedule =
    let s = run (starting limit n) schedule in
    let b =
      run-IsBalanced limit (starting limit n) schedule
        (record { balance = omega (arith, starting-taken n); fair = starting-Fair limit n }) in
    (
      omega (arith, b.balance),
      λ i h.
          omega (arith, b.balance, Fair-at s.remaining s.phases i (Phase.returned false) b.fair h),
    )

step-at :
    (s : Calls) (i : ℕ) (p : Phase)
    → lookup_at s.phases i ≡ some p
    → ((step s i).remaining ≡ (advance s.remaining p).0)
      × (lookup_at (step s i).phases i ≡ some (advance s.remaining p).1)
unfolding step
step-at s i p h =
    (rw (step, h) refl, rw (step, h) (lookup_at-set_self s.phases i (advance s.remaining p).1 h))

abbrev alone : ℕ × Phase → ℕ × Phase
alone (remaining, p) = advance remaining p

from_loaded : (n : ℕ) → alone (n, Phase.loaded n) ≡ (n - 1, Phase.returned true)
unfolding advance
from_loaded n = let e = (==_iff n n).1 refl in rw (advance, e) refl

from_loading :
    (n : ℕ)
    → (alone (n, Phase.loading) ≡ (n, Phase.returned false))
      ⊎ (alone (n, Phase.loading) ≡ (n, Phase.loaded n))
unfolding advance
from_loading n = elim (Bool-cases (n == 0)) [
  | inl e ↦ inl (rw (advance, e) refl)
  | inr e ↦ inr (rw (advance, e) refl)
]

from_other :
    (n k : ℕ)
    → (alone (n, Phase.loaded k) ≡ (n - 1, Phase.returned true))
      ⊎ (alone (n, Phase.loaded k) ≡ (n, Phase.loading))
unfolding advance
from_other n k = elim (Bool-cases (n == k)) [
  | inl e ↦ inl (rw (advance, e) (ap (λ m. (m - 1, Phase.returned true)) (sym ((==_iff n k).0 e))))
  | inr e ↦ inr (rw (advance, e) refl)
]

-- from `loading`, two steps are enough
alone_twice :
    (n : ℕ) → (result : Bool) × ((alone (alone (n, Phase.loading))).1 ≡ Phase.returned result)
unfolding advance
alone_twice n = elim (from_loading n) [
  | inl e ↦ (false, ap (λ s. (alone s).1) e)
  | inr e ↦ (true, ap (λ s. (alone s).1) e ∙ ap (λ s. s.1) (from_loaded n))
]

returned-stays :
    (s : ℕ × Phase) (result : Bool)
    → s.1 ≡ Phase.returned result
    → (alone s).1 ≡ Phase.returned result
unfolding advance
returned-stays (n, p) result h = ap (λ q. (advance n q).1) h

alone-returns :
    (n : ℕ) (p : Phase)
    → (result : Bool) × ((alone (alone (alone (n, p)))).1 ≡ Phase.returned result)
unfolding advance
alone-returns n Phase.loading =
    let (result, e) = alone_twice n in
    (result, returned-stays (alone (alone (n, Phase.loading))) result e)
alone-returns n (Phase.loaded k) = elim (from_other n k) [
  | inl e ↦ (true, ap (λ s. (alone (alone s)).1) e)
  | inr e ↦ let (result, q) = alone_twice n in (result, ap (λ s. (alone (alone s)).1) e ∙ q)
]
alone-returns n (Phase.returned r) = (r, refl)

-- A call that runs alone for three steps returns, whatever the others have left.
run-returns :
    (s : Calls) (i : ℕ) (p : Phase)
    → lookup_at s.phases i ≡ some p
    → (result : Bool) × (lookup_at (run s (i ∷ i ∷ i ∷ [])).phases i ≡ some (Phase.returned result))
unfolding run
run-returns s i p h =
    let (r1, p1) = advance s.remaining p in
    let (c1, e1) = step-at s i p h in
    let (c2, e2) = step-at (step s i) i _ e1 in
    let (c3, e3) = step-at (step (step s i) i) i _ e2 in
    let (result, q) = alone-returns s.remaining p in
    (
      result,
      e3
          ∙ ap₂ (λ r q. some (advance r q).1) (c2 ∙ ap (λ r. (advance r p1).0) c1)
              (ap (λ r. (advance r p1).1) c1)
          ∙ ap some q,
    )
