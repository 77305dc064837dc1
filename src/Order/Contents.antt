-- ===== src/Order/Contents.antt =====
-- What a valid deque holds after `pushBack`, `popFront`, `grow` and `reset`.
use native.Mathlib.Nat.{mod-eq_of_lt}
use webpprof.Prelude.{
  ℕ, zero, suc, ◌+◌, ◌*◌, ◌≤◌, ◌<◌, max, String, ◌≡◌, refl, sym, ap, ◌∙◌, inl, inr, length, get_or,
  set, arith, length-set, length-replicate, get_or-set_self, get_or-set_ne, List, [], ◌∷◌, ltb,
  false, Bool-cases, lt→ltb, tabulate, replicate, tabulate_congr, get_or-tabulate, length-tabulate,
}
use webpprof.Order.{EntryOrder, slot, at, grow, copy_slots}
use webpprof.Order.Inv.{IsValid}

abbrev pub contents : EntryOrder → List String
contents d = tabulate (slot d) 0 d.count

pub at-lt : (d : EntryOrder) (i : ℕ) → i < d.count → at d i ≡ slot d i
unfolding at
at-lt d i h = rw (lt→ltb i d.count h)

-- `at` reads the element at an index, and "" past the last.
pub at-contents : (d : EntryOrder) (i : ℕ) → at d i ≡ get_or (contents d) i ""
unfolding at
at-contents d i = elim (Bool-cases (ltb i d.count)) [
  | inl h ↦
      rw h
        (sym (get_or-tabulate (slot d) 0 d.count i "" (ground arith) ∙ ap (slot d) (omega arith)))
  | inr h ↦
      rw h (sym (past (contents d) i (omega (arith, length-tabulate (slot d) 0 d.count, not_lt h))))
]
  where
    not_lt : ltb i d.count ≡ false → d.count ≤ i
    not_lt h = ground arith

    past : (xs : List String) (k : ℕ) → length xs ≤ k → get_or xs k "" ≡ ""
    past [] k h = refl
    past (x ∷ xs) zero h = absurd (omega arith)
    past (x ∷ xs) (suc k) h = past xs k (omega arith)

-- The loop of `grow` leaves the cells before `index` alone and fills those from there on.
length-copy_slots :
    (d : EntryOrder) (n i : ℕ) (vs : List String) → length (copy_slots d n i vs) ≡ length vs
unfolding copy_slots
length-copy_slots d zero i vs = refl
length-copy_slots d (suc n) i vs =
    length-copy_slots d n (i + 1) (set vs i (at d i)) ∙ length-set vs i (at d i)

copy_slots-before :
    (d : EntryOrder) (n i j : ℕ) (vs : List String)
    → j < i
    → get_or (copy_slots d n i vs) j "" ≡ get_or vs j ""
unfolding copy_slots
copy_slots-before d zero i j vs h = refl
copy_slots-before d (suc n) i j vs h =
    copy_slots-before d n (i + 1) j (set vs i (at d i)) (omega arith)
    ∙ get_or-set_ne vs i j (at d i) "" (omega arith)

copy_slots-within :
    (d : EntryOrder) (n i k : ℕ) (vs : List String)
    → i + n ≤ length vs
    → k < n
    → get_or (copy_slots d n i vs) (i + k) "" ≡ at d (i + k)
unfolding copy_slots
copy_slots-within d zero i k vs h hk = absurd (omega arith)
copy_slots-within d (suc n) i zero vs h hk =
    ap (λ j. get_or (copy_slots d n (i + 1) (set vs i (at d i))) j "") (omega arith)
    ∙ copy_slots-before d n (i + 1) i (set vs i (at d i)) (omega arith)
    ∙ get_or-set_self vs i (at d i) "" (omega arith)
    ∙ ap (at d) (omega arith)
copy_slots-within d (suc n) i (suc k) vs h hk =
    ap (λ j. get_or (copy_slots d n (i + 1) (set vs i (at d i))) j "") (omega arith)
    ∙ copy_slots-within d n (i + 1) k (set vs i (at d i)) (omega (arith, length-set vs i (at d i)))
        (omega arith)
    ∙ ap (at d) (omega arith)

length-grow : (d : EntryOrder) → length (grow d).values ≡ max 4 (length d.values * 2)
unfolding grow
length-grow d =
    length-copy_slots d d.count 0 (replicate (max 4 (length d.values * 2)) "")
    ∙ length-replicate (max 4 (length d.values * 2)) ""

pub count-grow : (d : EntryOrder) → (grow d).count ≡ d.count
unfolding grow
count-grow d = refl

head-grow : (d : EntryOrder) → (grow d).head ≡ 0
unfolding grow
head-grow d = refl

slot-grow : (d : EntryOrder) (i : ℕ) → IsValid d → i < d.count → slot (grow d) i ≡ slot d i
unfolding grow
slot-grow d i v h =
    ap (λ k. get_or (grow d).values k "") (mod-eq_of_lt {n = 0 + i} (omega (arith, length-grow d)))
    ∙ copy_slots-within d d.count 0 i (replicate (max 4 (length d.values * 2)) "")
        (omega (arith, length-replicate {A = String} (max 4 (length d.values * 2)) "")) h
    ∙ ap (at d) (omega arith)
    ∙ at-lt d i h

pub contents-grow : (d : EntryOrder) → IsValid d → contents (grow d) ≡ contents d
contents-grow d v =
    ap (tabulate (slot (grow d)) 0) (count-grow d)
    ∙ tabulate_congr (slot (grow d)) (slot d) 0 d.count (λ k a b. slot-grow d k v (omega arith))

-- After `grow` there is room for one more element.
pub record HasRoom (d : EntryOrder) : Type 0 where
  pub room : d.count < length d.values
  pub head_in : d.head < length d.values

pub grow-HasRoom : (d : EntryOrder) → IsValid d → HasRoom (grow d)
grow-HasRoom d v = omega (arith, length-grow d, count-grow d, head-grow d, v.fits)
