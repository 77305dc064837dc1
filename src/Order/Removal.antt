-- ===== src/Order/Removal.antt =====
-- `remove` of `entryOrder` takes the first occurrence of an id out of the middle.
use native.Mathlib.Decide.{dec_lt}
use webpprof.Prelude.{
  ℕ, zero, suc, ◌+◌, ◌-◌, ◌%◌, ◌≤◌, ◌<◌, String, ◌≡◌, ◌≢◌, refl, sym, ap, ap₂, ◌∙◌, inl, inr,
  length, get_or, set, arith, length-set, ◌∷◌, ltb, ◌==◌, some, none, Bool-cases, true, false,
  tabulate, tabulate_congr, tabulate_shift, if◌then◌else◌, lt→ltb, ltb→lt, str_eq, Option,
}
use webpprof.Order.{EntryOrder, slot, cell, at, find_index, shift_down, remove_at, remove}
use webpprof.Order.Fifo
use webpprof.Order.Inv.{IsValid, head-lt-length, slot-set_self, slot-set_ne}
use webpprof.Order.Contents.{contents, at-lt}

-- the element that index `k` holds once index `j` is gone
abbrev closed_up : EntryOrder → ℕ → ℕ → String
closed_up d j k = if ltb k j then slot d k else slot d (suc k)

-- How a search for `id` from index `i` on ends, beside what `Fifo.erase` does there.
data Search (d : EntryOrder) (id : String) (n i : ℕ) (found : Option ℕ) : Type 0 where
  absent :
      found ≡ none
      → Fifo.erase id (tabulate (slot d) i n) ≡ (false, tabulate (slot d) i n)
      → Search d id n i found
  present :
      (j : ℕ)
      → found ≡ some j
      → i ≤ j
      → j < i + n
      → Fifo.erase id (tabulate (slot d) i n) ≡ (true, tabulate (closed_up d j) i (n - 1))
      → Search d id n i found

closed_up-from : (d : EntryOrder) (i k : ℕ) → slot d (suc i + k) ≡ closed_up d i (i + k)
closed_up-from d i k = elim (Bool-cases (ltb (i + k) i)) [
  | inl e ↦ absurd (below e)
  | inr e ↦ rw e (ap (slot d) (omega arith))
]
  where
    below : ltb (i + k) i ≡ true → ⊥
    below e = ground arith

closed_up-cons :
    (d : EntryOrder) (n i j : ℕ)
    → i < j
    → j < suc i + n
    → slot d i ∷ tabulate (closed_up d j) (suc i) (n - 1) ≡ tabulate (closed_up d j) i (suc n - 1)
closed_up-cons d zero i j lt le = absurd (omega arith)
closed_up-cons d (suc n) i j lt le =
    ap (λ x. x ∷ tabulate (closed_up d j) (suc i) (suc n - 1)) (rw (lt→ltb i j lt))
    ∙ ap (tabulate (closed_up d j) i) {x = suc (suc n - 1)} (omega arith)

find_index-Search :
    (d : EntryOrder) (id : String) (n i : ℕ)
    → i + n ≤ d.count
    → Search d id n i (find_index d id n i)
unfolding find_index Fifo.erase
find_index-Search d id zero i h = absent refl refl
find_index-Search d id (suc n) i h =
    rw (at-lt d i (omega arith)) elim (Bool-cases (str_eq (slot d i) id)) [
      | inl e ↦ present i (rw e) (omega arith) (omega arith) (
          rw e (
            ap (λ xs. (true, xs))
              (tabulate_shift (slot d) (closed_up d i) (suc i) i n (λ k hk. closed_up-from d i k)
                ∙ ap (tabulate (closed_up d i) i) (omega arith))))
      | inr e ↦ elim (find_index-Search d id n (suc i) (omega arith)) [
        | absent f er ↦ absent (rw (e, f)) (rw (e, er))
        | present j f le lt er ↦ present j (rw (e, f)) (omega arith) (omega arith) (
            rw (e, er) (ap (λ xs. (true, xs)) (closed_up-cons d n i j (omega arith) (omega arith))))
      ]
    ]

module _ (d : EntryOrder) (current : ℕ) where
  abbrev moved : EntryOrder
  moved = record d { values = set d.values (cell d current) (at d (current + 1)) }

  moved-fits :
      d.head < length d.values
      → d.count ≤ length d.values
      → (moved.head < length moved.values) × (moved.count ≤ length moved.values)
  moved-fits h f = omega (arith, length-set d.values (cell d current) (at d (current + 1)))

-- The inner loop moves `k` elements, from index `c` on, one place towards the front.
pub record Shifted (d e : EntryOrder) (c k : ℕ) : Type 0 where
  pub size : length e.values ≡ length d.values
  pub head : e.head ≡ d.head
  pub count : e.count ≡ d.count
  pub before : (m : ℕ) → m < c → m < length d.values → slot e m ≡ slot d m
  pub after : (m : ℕ) → c ≤ m → m < c + k → slot e m ≡ slot d (suc m)

Shifted-step :
    (d e : EntryOrder) (c k : ℕ)
    → d.head < length d.values
    → d.count ≤ length d.values
    → c + suc k < d.count
    → Shifted (moved d c) e (c + 1) k
    → Shifted d e c (suc k)
Shifted-step d e c k h f lt rest = record {
  size = rest.size ∙ length-set d.values (cell d c) (at d (c + 1));
  head = rest.head;
  count = rest.count;
  before = λ m p q.
      rest.before m (omega arith)
        (omega (arith, moved-fits d c h f, length-set d.values (cell d c) (at d (c + 1))))
      ∙ other m q (omega arith);
  after = λ m p q. elim (dec_lt c m) [
    | yes past ↦
        rest.after m (omega arith) (omega arith) ∙ other (suc m) (omega arith) (omega arith)
    | no ge ↦
        rest.before m (omega arith) (omega (arith, length-set d.values (cell d c) (at d (c + 1))))
        ∙ ap (slot (moved d c)) {y = c} (omega arith)
        ∙ slot-set_self d c (at d (c + 1)) h
        ∙ at-lt d (c + 1) (omega arith)
        ∙ ap (slot d) (omega arith)
  ];
}
  where
    other : (m : ℕ) → m < length d.values → c ≢ m → slot (moved d c) m ≡ slot d m
    other m p ne = slot-set_ne d c (at d (c + 1)) h m (omega arith) p ne

shift_down-Shifted :
    (k c : ℕ) (d : EntryOrder)
    → d.head < length d.values
    → d.count ≤ length d.values
    → c + k < d.count
    → Shifted d (shift_down k c d) c k
unfolding shift_down
shift_down-Shifted zero c d h f lt = record {
  size = refl;
  head = refl;
  count = refl;
  before = λ m p q. refl;
  after = λ m p q. absurd (omega arith);
}
shift_down-Shifted (suc k) c d h f lt =
    let fits = moved-fits d c h f in
    Shifted-step d (shift_down k (c + 1) (moved d c)) c k h f lt
      (shift_down-Shifted k (c + 1) (moved d c) fits.0 fits.1 (omega arith))

module _ (d : EntryOrder) (j : ℕ) (v : IsValid d) (lt : j < d.count) where
  abbrev shifted : EntryOrder
  shifted = shift_down (d.count - 1 - j) j d

  has_cell : d.head < length d.values
  has_cell = head-lt-length v (omega (arith, v.fits))

  shifted-Shifted : Shifted d shifted j (d.count - 1 - j)
  shifted-Shifted = shift_down-Shifted (d.count - 1 - j) j d has_cell v.fits (omega arith)

  -- the cell that is blanked, seen from the shifted deque
  cell-shifted : cell d (d.count - 1) ≡ cell shifted (d.count - 1)
  cell-shifted =
      ap₂ (λ h n. (h + (d.count - 1)) % n) (sym shifted-Shifted.head) (sym shifted-Shifted.size)

  slot-shifted : (m : ℕ) → m < d.count - 1 → slot shifted m ≡ closed_up d j m
  slot-shifted m p = elim (Bool-cases (ltb m j)) [
    | inl e ↦ rw e (shifted-Shifted.before m (ltb→lt m j e) (omega (arith, v.fits)))
    | inr e ↦ rw e (shifted-Shifted.after m (not_before e) (omega arith))
  ]
    where
      not_before : ltb m j ≡ false → j ≤ m
      not_before e = ground arith

  slot-remove_at : (m : ℕ) → m < d.count - 1 → slot (remove_at d j) m ≡ closed_up d j m
  unfolding remove_at
  slot-remove_at m p =
      ap₂ (λ h c. get_or (set shifted.values c "") ((h + m) % length (set shifted.values c "")) "")
        (head_kept ∙ sym shifted-Shifted.head) cell-shifted
      ∙ slot-set_ne shifted (d.count - 1) "" (omega (arith, shifted-Shifted, has_cell)) m
          (omega (arith, shifted-Shifted, v.fits)) (omega (arith, shifted-Shifted, v.fits))
          (omega arith)
      ∙ slot-shifted m p
    where
      head_kept : (if d.count - 1 == 0 then 0 else d.head) ≡ d.head
      head_kept = ground arith

  length-remove_at : length (remove_at d j).values ≡ length d.values
  unfolding remove_at
  length-remove_at = length-set shifted.values (cell d (d.count - 1)) "" ∙ shifted-Shifted.size

  contents-remove_at : contents (remove_at d j) ≡ tabulate (closed_up d j) 0 (d.count - 1)
  unfolding remove_at
  contents-remove_at =
      tabulate_congr (slot (remove_at d j)) (closed_up d j) 0 (d.count - 1)
        (λ m p q. slot-remove_at m (omega arith))

  remove_at-IsValid : IsValid (remove_at d j)
  unfolding remove_at
  remove_at-IsValid = record {
    fits = omega (arith, length-remove_at, v.fits);
    head_in = elim (Bool-cases (d.count - 1 == 0)) [
      | inl e ↦ inr (rw e)
      | inr e ↦ inl (rw e (omega (arith, length-remove_at, has_cell)))
    ];
  }

-- `remove` of a valid deque says whether the id was there, takes its first occurrence out, keeps
-- the other ids in order, and keeps the invariant.
pub remove_lem :
    (d : EntryOrder) (id : String)
    → IsValid d
    → ((remove d id).0 ≡ (Fifo.erase id (contents d)).0)
      × (contents (remove d id).1 ≡ (Fifo.erase id (contents d)).1)
      × IsValid (remove d id).1
unfolding remove
remove_lem d id v = elim (find_index-Search d id d.count 0 (omega arith)) [
  | absent f e ↦ rw (f, remove, e) (refl, refl, v)
  | present j f le lt e ↦
      rw (f, remove, e)
        (refl, contents-remove_at d j v (omega arith), remove_at-IsValid d j v (omega arith))
]
