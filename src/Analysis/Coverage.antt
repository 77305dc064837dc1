-- ===== src/Analysis/Coverage.antt =====
-- The time that `sqlShareFinding` adds up is the time at which some query ran.
use webpprof.Prelude.{
  ℕ, zero, suc, ◌+◌, ◌-◌, ◌≤◌, ◌<◌, ◌≡◌, refl, sym, ap, ap₂, ◌∙◌, Bool, true, false, ◌&&◌, ◌||◌,
  List, [], ◌∷◌, All, ltb, leb, max, arith, if◌then◌else◌, Bool-cases, inl, inr,
}
use mathlib.Core.Path.{subst}
use webpprof.Analysis.Share.{Interval, sweep, covered_time}

-- whether some interval covers the instant
abbrev pub covers : Interval → ℕ → Bool
covers i t = leb i.start t && ltb t i.stop

unfoldable pub is_covered : List Interval → ℕ → Bool
is_covered [] t = false
is_covered (i ∷ rest) t = covers i t || is_covered rest t

-- how many of the `n` instants from `from` on pass the test
unfoldable pub count : (ℕ → Bool) → ℕ → ℕ → ℕ
count f from zero = 0
count f from (suc n) = (if f from then 1 else 0) + count f (suc from) n

pub count_congr :
    (f g : ℕ → Bool) (from n : ℕ)
    → ((t : ℕ) → from ≤ t → t < from + n → f t ≡ g t)
    → count f from n ≡ count g from n
unfolding count
count_congr f g from zero h = refl
count_congr f g from (suc n) h =
    ap₂ (λ b m. (if b then 1 else 0) + m) (h from (omega arith) (omega arith))
      (count_congr f g (suc from) n (λ t a b. h t (omega arith) (omega arith)))

-- The count over two ranges in a row.
count-append :
    (f : ℕ → Bool) (from m n : ℕ) → count f from (m + n) ≡ count f from m + count f (from + m) n
unfolding count
count-append f from zero n =
    ap (count f from) {x = 0 + n} {y = n} (omega arith)
    ∙ ap (λ k. count f k n) {x = from} {y = from + 0} (omega arith)
    ∙ omega arith
count-append f from (suc m) n =
    ap (count f from) {x = suc m + n} {y = suc (m + n)} (omega arith)
    ∙ omega (
      arith,
      count-append f (suc from) m n,
      ap (λ k. count f k n) {x = suc from + m} {y = from + suc m} (omega arith),
    )

count_all :
    (f : ℕ → Bool) (from n : ℕ)
    → ((t : ℕ) → from ≤ t → t < from + n → f t ≡ true)
    → count f from n ≡ n
unfolding count
count_all f from zero h = refl
count_all f from (suc n) h =
    rw (h from (omega arith) (omega arith))
      (omega (arith, count_all f (suc from) n (λ t a b. h t (omega arith) (omega arith))))

count_none :
    (f : ℕ → Bool) (from n : ℕ)
    → ((t : ℕ) → from ≤ t → t < from + n → f t ≡ false)
    → count f from n ≡ 0
unfolding count
count_none f from zero h = refl
count_none f from (suc n) h =
    rw (h from (omega arith) (omega arith))
      (omega (arith, count_none f (suc from) n (λ t a b. h t (omega arith) (omega arith))))

-- in the order of the starts, and none of them empty
abbrev pub StartsFrom : ℕ → Interval → Type 0
StartsFrom a i = a ≤ i.start

abbrev pub Sorted : List Interval → Type 0
Sorted [] = Unit
Sorted (i ∷ rest) = All (StartsFrom i.start) rest × Sorted rest

abbrev pub WithinBound : ℕ → Interval → Type 0
WithinBound bound i = (i.start < i.stop) × (i.stop ≤ bound)

-- before the first start nothing is covered
pub uncovered :
    (rest : List Interval) (a t : ℕ) → All (StartsFrom a) rest → t < a → is_covered rest t ≡ false
unfolding is_covered
uncovered [] a t h less = refl
uncovered (i ∷ rest) a t h less = ground (arith, h.0, uncovered rest a t h.1 less)

-- after the end of an interval the others cover what is covered
past_stop :
    (i : Interval) (rest : List Interval) (from n : ℕ)
    → i.stop ≤ from
    → count (is_covered (i ∷ rest)) from n ≡ count (is_covered rest) from n
unfolding is_covered
past_stop i rest from n le =
    count_congr (is_covered (i ∷ rest)) (is_covered rest) from n (λ t a b. ground (arith, le))

-- from an instant within an interval on, all is covered up to its end
block :
    (i : Interval) (rest : List Interval) (from n : ℕ)
    → i.start ≤ from
    → from ≤ i.stop
    → i.stop ≤ from + n
    → count (is_covered (i ∷ rest)) from n
      ≡ i.stop - from + count (is_covered rest) i.stop (from + n - i.stop)
unfolding is_covered
block i rest from n a b c =
    let f = is_covered (i ∷ rest) in
    let own = i.stop - from in
    let others = from + n - i.stop in
    ap (count f from) {x = n} {y = own + others} (omega arith)
    ∙ count-append f from own others
    ∙ ap₂ ◌+◌ (count_all f from own (λ t d e. ground arith)) (
        ap (λ k. count f k others) {x = from + own} {y = i.stop} (omega arith)
        ∙ past_stop i rest i.stop others (omega arith))

-- before the start of the first interval nothing is covered
skip :
    (i : Interval) (rest : List Interval) (from n : ℕ)
    → All (StartsFrom i.start) rest
    → from ≤ i.start
    → i.start ≤ from + n
    → count (is_covered (i ∷ rest)) from n
      ≡ count (is_covered (i ∷ rest)) i.start (from + n - i.start)
unfolding is_covered
skip i rest from n later a b =
    let f = is_covered (i ∷ rest) in
    let before = i.start - from in
    let others = from + n - i.start in
    ap (count f from) {x = n} {y = before + others} (omega arith)
    ∙ count-append f from before others
    ∙ ap₂ ◌+◌
        (count_none f from before
          (λ t d e. ground (arith, uncovered rest i.start t later (omega arith))))
        (ap (λ k. count f k others) {x = from + before} {y = i.start} (omega arith))
    ∙ omega arith

pub rebound :
    (from n : ℕ) (i : Interval) (rest : List Interval)
    → All (WithinBound (from + n)) rest
    → i.stop ≤ from + n
    → All (WithinBound (i.stop + (from + n - i.stop))) rest
rebound from n i rest h le = subst (λ b. All (WithinBound b) rest) (omega arith) h

-- The loop adds the instants from `until` on that some of the intervals covers.
pub sweep-count :
    (rest : List Interval) (until n : ℕ)
    → Sorted rest
    → All (WithinBound (until + n)) rest
    → sweep until rest ≡ count (is_covered rest) until n
unfolding sweep is_covered
sweep-count [] until n sorted within = sym (count_none (λ t. false) until n (λ t a b. refl))
sweep-count (i ∷ rest) until n sorted within = elim (Bool-cases (leb i.start until)) [
  | inl overlaps ↦ elim (Bool-cases (ltb until i.stop)) [
    | inl longer ↦ ground (
      arith,
      sweep-count rest i.stop (until + n - i.stop) sorted.1
          (rebound until n i rest within.1 within.0.1),
      block i rest until n (ground arith) (ground arith) within.0.1,
      ap (λ k. sweep k rest) {x = max until i.stop} {y = i.stop} (ground arith),
    )
    | inr inner ↦ ground (
      arith,
      sweep-count rest until n sorted.1 within.1,
      past_stop i rest until n (ground arith),
      ap (λ k. sweep k rest) {x = max until i.stop} {y = until} (ground arith),
    )
  ]
  | inr gap ↦ ground (
    arith,
    sweep-count rest i.stop (until + n - i.stop) sorted.1
        (rebound until n i rest within.1 within.0.1),
    skip i rest until n sorted.0 (ground arith) (ground arith),
    block i rest i.start (until + n - i.start) (omega arith) (ground arith) (ground arith),
  )
]

pub covered_time-ordered :
    (intervals : List Interval) (bound : ℕ)
    → Sorted intervals
    → All (WithinBound bound) intervals
    → covered_time intervals ≡ count (is_covered intervals) 0 bound
unfolding covered_time is_covered
covered_time-ordered [] bound sorted within = sym (count_none (λ t. false) 0 bound (λ t a b. refl))
covered_time-ordered (i ∷ rest) bound sorted within =
    let start = i.start in
    omega (
      arith,
      sweep-count rest i.stop (bound - i.stop) sorted.1
          (subst (λ b. All (WithinBound b) rest) (omega (arith, within.0.1)) within.1),
      skip i rest 0 bound sorted.0 (omega arith) (omega (arith, within.0)),
      block i rest i.start (0 + bound - i.start) (omega arith) (omega (arith, within.0))
          (omega (arith, within.0)),
      ap (count (is_covered rest) i.stop) {x = i.start + (0 + bound - i.start) - i.stop}
          {y = bound - i.stop} (omega (arith, within.0)),
    )
