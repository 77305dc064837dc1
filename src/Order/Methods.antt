-- ===== src/Order/Methods.antt =====
-- Each method of `entryOrder` keeps the invariant and does to the contents what a queue does.
use native.Mathlib.Nat.{mod-add-mod, mod-eq_of_lt}
use webpprof.Prelude.{
  ℕ, zero, suc, ◌+◌, ◌%◌, ◌<◌, String, ◌≡◌, ◌≢◌, refl, sym, ap, ap₂, ◌∙◌, inl, inr, length, get_or,
  get_or-set_ne, set, arith, length-set, List, [], ◌∷◌, ◌++◌, ◌==◌, some, none, Bool-cases,
  tabulate, tabulate_congr, tabulate-suc, tabulate_shift, if◌then◌else◌,
}
use webpprof.Order.{
  EntryOrder, slot, cell, front, grow, push_back, pop_front, reset, new_entry_order,
}
use webpprof.Order.Fifo
use webpprof.Order.Inv.{IsValid, head-lt-length, slot-set_self, slot-set_ne, cell_injective}
use webpprof.Order.Contents.{contents, contents-grow, HasRoom, grow-HasRoom, count-grow}

-- the deque that `pushBack` writes into
abbrev with_room : EntryOrder → EntryOrder
with_room d = if d.count == length d.values then grow d else d

with_room-HasRoom : (d : EntryOrder) → IsValid d → HasRoom (with_room d)
with_room-HasRoom d v = elim (Bool-cases (d.count == length d.values)) [
  | inl e ↦ rw e (grow-HasRoom d v)
  | inr e ↦ rw e (record { room = ground arith; head_in = head-lt-length v (ground arith) })
]

contents-with_room :
    (d : EntryOrder)
    → IsValid d
    → (contents (with_room d) ≡ contents d) × ((with_room d).count ≡ d.count)
contents-with_room d v = elim (Bool-cases (d.count == length d.values)) [
  | inl e ↦ rw e (contents-grow d v, count-grow d)
  | inr e ↦ rw e (refl, refl)
]

module _ (d : EntryOrder) (x : String) (h : HasRoom d) where
  abbrev pushed : EntryOrder
  pushed = record d { values = set d.values (cell d d.count) x; count = d.count + 1 }

  contents-pushed : contents pushed ≡ contents d ++ x ∷ []
  contents-pushed =
      ap (tabulate (slot pushed) 0) {y = suc d.count} (omega arith)
      ∙ tabulate-suc (slot pushed) 0 d.count
      ∙ ap₂ (λ xs y. xs ++ y ∷ [])
          (tabulate_congr (slot pushed) (slot d) 0 d.count (λ k a b.
            slot-set_ne d d.count x h.head_in k h.room (omega (arith, h.room)) (omega arith)))
          (ap (slot pushed) {y = d.count} (omega arith) ∙ slot-set_self d d.count x h.head_in)

  pushed-IsValid : IsValid pushed
  pushed-IsValid = record {
    fits = omega (arith, length-set d.values (cell d d.count) x, h.room);
    head_in = inl (omega (arith, length-set d.values (cell d d.count) x, h.head_in));
  }

-- `pushBack` appends the id, growing the slice where it is full.
pub contents-push_back :
    (d : EntryOrder) (x : String) → IsValid d → contents (push_back d x) ≡ contents d ++ x ∷ []
unfolding push_back
contents-push_back d x v =
    contents-pushed (with_room d) x (with_room-HasRoom d v)
    ∙ ap (λ xs. xs ++ x ∷ []) (contents-with_room d v).0

pub push_back-IsValid : (d : EntryOrder) (x : String) → IsValid d → IsValid (push_back d x)
unfolding push_back
push_back-IsValid d x v = pushed-IsValid (with_room d) x (with_room-HasRoom d v)

-- `popFront` where there is an element
module _ (d : EntryOrder) (n : ℕ) (v : IsValid d) (c : d.count ≡ suc n) where
  has_cell : d.head < length d.values
  has_cell = head-lt-length v (omega (arith, v.fits))

  abbrev blanked : List String
  blanked = set d.values d.head ""

  slot-popped :
      (k : ℕ)
      → k < n
      → get_or blanked (((d.head + 1) % length d.values + k) % length blanked) "" ≡ slot d (suc k)
  slot-popped k hk =
      ap (λ i. get_or blanked (((d.head + 1) % length d.values + k) % i) "")
        (length-set d.values d.head "")
      ∙ ap (λ i. get_or blanked i "")
          (mod-add-mod (d.head + 1) (length d.values) k
            ∙ ap (λ i. i % length d.values) (omega arith))
      ∙ get_or-set_ne d.values d.head (cell d (suc k)) "" "" apart
    where
      apart : d.head ≢ cell d (suc k)
      apart e = omega (
        arith,
        v.fits,
        cell_injective d.head 0 (suc k) (length d.values) has_cell (omega (arith, v.fits))
            (omega (arith, v.fits)) (at_zero ∙ e),
      )
        where
          at_zero : (d.head + 0) % length d.values ≡ d.head
          at_zero = ap (λ i. i % length d.values) (omega arith) ∙ mod-eq_of_lt has_cell

  abbrev popped : EntryOrder
  popped = record {
    values = blanked;
    head = if n == 0 then 0 else (d.head + 1) % length d.values;
    count = n;
  }

  pub pop_front-popped : pop_front d ≡ (some (get_or d.values d.head ""), popped)
  unfolding pop_front
  pop_front-popped = ground arith

  slot_zero : slot d 0 ≡ get_or d.values d.head ""
  slot_zero =
      ap (λ i. get_or d.values i "")
        (ap (λ i. i % length d.values) (omega arith) ∙ mod-eq_of_lt has_cell)

  popped-IsValid : IsValid popped
  popped-IsValid = record {
    fits = omega (arith, length-set d.values d.head "", v.fits);
    head_in = elim (Bool-cases (n == 0)) [
      | inl e ↦ inr (rw e)
      | inr e ↦ inl (rw e (omega (arith, length-set d.values d.head "", has_cell)))
    ];
  }

-- the elements after the first
contents-popped :
    (d : EntryOrder) (n : ℕ) (v : IsValid d) (c : d.count ≡ suc n)
    → contents (popped d n v c) ≡ tabulate (slot d) 1 n
contents-popped d zero v c = refl
contents-popped d (suc n) v c =
    tabulate_shift (slot (popped d (suc n) v c)) (slot d) 0 1 (suc n) (λ k h.
      ap (slot (popped d (suc n) v c)) {y = k} (omega arith)
      ∙ ap (λ i. get_or values ((i + k) % length values) "") head-popped
      ∙ slot-popped d (suc n) v c k h
      ∙ ap (slot d) {y = 1 + k} (omega arith))
  where
    values : List String
    values = set d.values d.head ""

    head-popped : (popped d (suc n) v c).head ≡ (d.head + 1) % length d.values
    head-popped = ground arith

contents-suc :
    (d : EntryOrder) (n : ℕ) → d.count ≡ suc n → contents d ≡ slot d 0 ∷ tabulate (slot d) 1 n
contents-suc d n c = ap (tabulate (slot d) 0) c

pop_front-none : (d : EntryOrder) → d.count ≡ 0 → pop_front d ≡ (none, d)
unfolding pop_front
pop_front-none d c = ground arith

-- `popFront` of a valid deque takes the oldest id, keeps the others in order, and keeps the
-- invariant.
pub pop_front_lem :
    (d : EntryOrder)
    → IsValid d
    → ((pop_front d).0 ≡ (Fifo.pop (contents d)).0)
      × (contents (pop_front d).1 ≡ (Fifo.pop (contents d)).1)
      × IsValid (pop_front d).1
unfolding Fifo.pop
pop_front_lem d v = go d.count refl
  where
    go :
        (n : ℕ)
        → d.count ≡ n
        → ((pop_front d).0 ≡ (Fifo.pop (contents d)).0)
          × (contents (pop_front d).1 ≡ (Fifo.pop (contents d)).1)
          × IsValid (pop_front d).1
    go zero c = rw (pop_front-none d c, ap (tabulate (slot d) 0) c) (refl, refl, v)
    go (suc n) c =
        rw (pop_front-popped d n v c, contents-suc d n c)
          (ap some (sym (slot_zero d n v c)), contents-popped d n v c, popped-IsValid d n v c)

-- `front` shows the oldest id.
pub front_lem : (d : EntryOrder) → IsValid d → front d ≡ Fifo.first (contents d)
unfolding front Fifo.first
front_lem d v = go d.count refl
  where
    go : (n : ℕ) → d.count ≡ n → front d ≡ Fifo.first (contents d)
    go zero c = rw (ap (tabulate (slot d) 0) c) (ground arith)
    go (suc n) c = rw (contents-suc d n c, slot_zero d n v c) (ground arith)

pub contents-reset : (d : EntryOrder) → contents (reset d) ≡ []
unfolding reset
contents-reset d = refl

pub reset-IsValid : (d : EntryOrder) → IsValid (reset d)
unfolding reset
reset-IsValid d = record { fits = omega arith; head_in = inr refl }

pub contents-new_entry_order : (capacity : ℕ) → contents (new_entry_order capacity) ≡ []
unfolding new_entry_order
contents-new_entry_order capacity = refl

pub new_entry_order-IsValid : (capacity : ℕ) → IsValid (new_entry_order capacity)
unfolding new_entry_order
new_entry_order-IsValid capacity = record { fits = omega arith; head_in = inr refl }
