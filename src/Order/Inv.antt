-- ===== src/Order/Inv.antt =====
-- The representation invariant of `entryOrder`, and how a write changes the slots.
use native.Mathlib.Nat.{mod-eq_of_lt, mod-eq-sub-mod}
use native.Mathlib.Decide.{dec_lt}
use webpprof.Prelude.{
  ℕ, ◌+◌, ◌-◌, ◌%◌, ◌≤◌, ◌<◌, String, ◌≡◌, ◌≢◌, ap, ◌∙◌, inl, inr, ◌⊎◌, length, get_or, set, arith,
  length-set, get_or-set_self, get_or-set_ne,
}
use webpprof.Order.{EntryOrder, slot, cell}

-- What every method keeps: the elements fit into the slice, and `head` is one of its cells, or 0
-- where the slice is empty.
pub record IsValid (d : EntryOrder) : Type 0 where
  pub fits : d.count ≤ length d.values
  pub head_in : (d.head < length d.values) ⊎ (d.head ≡ 0)

-- `head` is a cell as soon as there is one.
pub head-lt-length : {d : EntryOrder} → IsValid d → 0 < length d.values → d.head < length d.values
head-lt-length v h = ground (arith, v.head_in)

mod_cases : (n m : ℕ) → n < m + m → ((n < m) × (n % m ≡ n)) ⊎ ((m ≤ n) × (n % m ≡ n - m))
mod_cases n m h = elim (dec_lt n m) [
  | yes p ↦ inl (p, mod-eq_of_lt p)
  | no p ↦ inr (
    omega arith,
    mod-eq-sub-mod {n = n} {m = m} (omega arith) ∙ mod-eq_of_lt {n = n - m} {m = m} (omega arith),
  )
]

-- Indices below the size of the slice go to different cells.
pub cell_injective :
    (head i j size : ℕ)
    → head < size
    → i < size
    → j < size
    → (head + i) % size ≡ (head + j) % size
    → i ≡ j
cell_injective head i j size h hi hj e =
    ground (arith, mod_cases (head + i) size (omega arith), mod_cases (head + j) size (omega arith))

module _ (d : EntryOrder) (i : ℕ) (x : String) (head_in : d.head < length d.values) where
  abbrev written : EntryOrder
  written = record d { values = set d.values (cell d i) x }

  cell-lt-length : cell d i < length d.values
  cell-lt-length = omega arith

  -- A write to the cell of index `i` changes that slot,
  pub slot-set_self : slot written i ≡ x
  slot-set_self =
      ap (λ n. get_or (set d.values (cell d i) x) ((d.head + i) % n) "")
        (length-set d.values (cell d i) x)
      ∙ get_or-set_self d.values (cell d i) x "" cell-lt-length

  -- and no other.
  pub slot-set_ne :
      (j : ℕ) → i < length d.values → j < length d.values → i ≢ j → slot written j ≡ slot d j
  slot-set_ne j hi hj ne =
      ap (λ n. get_or (set d.values (cell d i) x) ((d.head + j) % n) "")
        (length-set d.values (cell d i) x)
      ∙ get_or-set_ne d.values (cell d i) (cell d j) x ""
          (λ e. ne (cell_injective d.head i j (length d.values) head_in hi hj e))
