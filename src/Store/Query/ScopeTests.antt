-- ===== src/Store/Query/ScopeTests.antt =====
-- Runs of a scope, and its theorem at a concrete input.
use webpprof.Prelude.{◌≡◌, refl, ◌⊎◌, ◌↔◌, true, false, none, some, List, [], ◌∷◌, String}
use webpprof.Prelude.Text.{Text, codes, text_eq, trim_space, trim_left}
use webpprof.Entry.{Entry, zero_entry}
use webpprof.Order.{new_entry_order}
use webpprof.Store.{EntryStore, StorageKind}
use webpprof.Store.Query.{scope_ids, visit, visit_children, children_of, is_one_of}
use webpprof.Store.Query.Scope.{In, Reached}
use webpprof.Store.Query.Scope.Visit.{scope_ids-Reached}

program : Unit {0}
unfolding scope_ids visit visit_children children_of is_one_of trim_space trim_left
program = tt

abbrev child : String → String → String × Entry
child id parent = (id, record zero_entry { id = id; parent_id = parent })

-- "b" and "c" are each other's parents
abbrev looped : EntryStore
looped = record {
  entries = child "a" "" ∷ child "b" "c" ∷ child "c" "b" ∷ child "d" "b" ∷ child "e" "a" ∷ [];
  order = new_entry_order 8;
  bytes = 0;
  next_cursor = 5;
  dropped = 0;
  evicted = 0;
  retention = 100;
  max_events = 8;
  max_bytes = 5000;
  stream_buffer = 1;
  subscribers = [];
  closed_channels = [];
  next_subscriber = 0;
  is_closed = false;
  storage_kind = StorageKind.memory;
  storage_file = false;
  storage = false;
  storage_issued = 0;
}

looped_lem : scope_ids looped " b " ≡ some (codes "d" ∷ codes "c" ∷ codes "b" ∷ [])
unfolding program
looped_lem = refl

scope_ids-Reached_example :
    ((text_eq (trim_space (codes "b")) [] ≡ true) × (scope_ids looped "b" ≡ none))
    ⊎ ((ids : List Text) × (scope_ids looped "b" ≡ some ids)
        × ((id : Text) → In id ids ↔ Reached looped.entries (trim_space (codes "b")) id))
scope_ids-Reached_example = scope_ids-Reached looped "b"
