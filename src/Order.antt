-- ===== src/Order.antt =====
-- store_order.go: `entryOrder`, a FIFO of entry ids kept in a circular slice. A method that mutates
-- the deque returns the new deque beside its result; a result with an `ok` flag is an `Option`.
-- `int` is not given a width: `head` and `count` stay below twice the length of the slice.
pub mod Inv
pub mod Fifo
pub mod Contents
pub mod Methods
pub mod Removal
pub mod Refine
mod Tests
use webpprof.Prelude.{
  ℕ, zero, suc, ◌+◌, ◌-◌, ◌*◌, ◌%◌, max, String, str_eq, Bool, true, false, Option, none, some,
  List, length, get_or, set, replicate, ltb, ◌==◌, if◌then◌else◌,
}

pub record EntryOrder : Type 0 where
  pub values : List String
  pub head : ℕ
  pub count : ℕ

-- `newEntryOrder`; a negative capacity, which the source sets to 0, is the argument 0
unfoldable pub new_entry_order : ℕ → EntryOrder
new_entry_order capacity = record { values = replicate capacity ""; head = 0; count = 0 }

-- the slice cell that holds the element at `index`, and what it holds
abbrev pub cell : EntryOrder → ℕ → ℕ
cell d index = (d.head + index) % length d.values

abbrev pub slot : EntryOrder → ℕ → String
slot d index = get_or d.values (cell d index) ""

unfoldable pub at : EntryOrder → ℕ → String
at d index = if ltb index d.count then slot d index else ""

unfoldable pub front : EntryOrder → Option String
front d = if d.count == 0 then none else some (get_or d.values d.head "")

-- the copying loop of `grow`: `rounds` iterations, from `index` on
copy_slots : EntryOrder → ℕ → ℕ → List String → List String
copy_slots d zero index values = values
copy_slots d (suc rounds) index values =
    copy_slots d rounds (index + 1) (set values index (at d index))

unfoldable pub grow : EntryOrder → EntryOrder
unfolding copy_slots
grow d =
    let capacity = max 4 (length d.values * 2) in
    record d { values = copy_slots d d.count 0 (replicate capacity ""); head = 0 }

unfoldable pub push_back : EntryOrder → String → EntryOrder
push_back d id =
    let room = if d.count == length d.values then grow d else d in
    record room { values = set room.values (cell room room.count) id; count = room.count + 1 }

unfoldable pub pop_front : EntryOrder → Option String × EntryOrder
pop_front d =
    if d.count == 0
    then (none, d)
    else let head = (d.head + 1) % length d.values in
      let count = d.count - 1 in
      (
        some (get_or d.values d.head ""),
        record {
          values = set d.values d.head "";
          head = if count == 0 then 0 else head;
          count = count;
        },
      )

-- the outer loop of `remove`, up to the index that holds `id`
find_index : EntryOrder → String → ℕ → ℕ → Option ℕ
find_index d id zero index = none
find_index d id (suc rounds) index =
    let rest = find_index d id rounds (suc index) in
    if str_eq (at d index) id then some index else rest

-- the inner loop of `remove`: each element moves one place towards the front
shift_down : ℕ → ℕ → EntryOrder → EntryOrder
shift_down zero current d = d
shift_down (suc rounds) current d =
    shift_down rounds (current + 1)
      (record d { values = set d.values (cell d current) (at d (current + 1)) })

remove_at : EntryOrder → ℕ → EntryOrder
unfolding shift_down
remove_at d index =
    let shifted = shift_down (d.count - 1 - index) index d in
    let count = d.count - 1 in
    record {
      values = set shifted.values (cell d (d.count - 1)) "";
      head = if count == 0 then 0 else d.head;
      count = count;
    }

unfoldable pub remove : EntryOrder → String → Bool × EntryOrder
unfolding find_index remove_at
remove d id = elim (find_index d id d.count 0) [
  | none ↦ (false, d)
  | some index ↦ (true, remove_at d index)
]

unfoldable pub reset : EntryOrder → EntryOrder
reset d = record { values = replicate (length d.values) ""; head = 0; count = 0 }
