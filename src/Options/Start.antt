-- ===== src/Options/Start.antt =====
-- store.go, profiler.go: `newEntryStore`, up to `openStorage`, and `newProfilerWithConfig`. The store's copies
-- of settings that only `stats` reads are left out.
use webpprof.Prelude.{
  ◌^◌, ◌<◌, refl, Bool, true, false, Option, none, some, List, [], if◌then◌else◌, arith,
}
use webpprof.Prelude.Text.{Text, codes, text_eq}
use webpprof.Order.{new_entry_order}
use webpprof.Order.Methods.{new_entry_order-IsValid, contents-new_entry_order}
use webpprof.Prelude.Assoc.{lookup}
use webpprof.Store.{EntryStore, StorageKind}
use webpprof.Store.Window.{find, total}
use webpprof.Store.Bounds.{IsWithin}
use webpprof.Options.{Config}
use webpprof.Options.Settings.{Library, Setting, config_from_options}
use webpprof.Options.Valid.{config_from_options-IsValid}

-- the comparisons with `storageKindMemory` and `storageKindJournal`
unfoldable pub storage_kind_of : Text → StorageKind
storage_kind_of kind =
    if text_eq kind (codes "memory")
    then StorageKind.memory
    else if text_eq kind (codes "disk")
    then StorageKind.journal
    else StorageKind.named kind

abbrev pub is_some {ℓ} : {A : Type ℓ} → Option A → Bool
is_some none = false
is_some (some a) = true

unfoldable pub new_entry_store : {Float : Type 0} → Config Float → EntryStore
new_entry_store c = record {
  entries = [];
  order = new_entry_order c.max_events;
  bytes = 0;
  next_cursor = 0;
  dropped = 0;
  evicted = 0;
  retention = c.retention;
  max_events = c.max_events;
  max_bytes = c.max_bytes;
  stream_buffer = c.stream_buffer;
  subscribers = [];
  closed_channels = [];
  next_subscriber = 0;
  is_closed = false;
  storage_kind = storage_kind_of c.storage_kind;
  storage_file = false;
  storage = is_some c.storage_name;
  storage_issued = 0;
}

-- The store of a new profiler is empty and within its limits, of which at least one entry is allowed, whatever options
-- it is made with, if its limit of bytes is below 2 ^ 62.
pub new_entry_store-IsWithin :
    {Float : Type 0} (library : Library Float) (one : Float)
    (settings : List (Option (Setting Float)))
    → (config_from_options library one settings).max_bytes < 2 ^ 62
    → IsWithin (new_entry_store (config_from_options library one settings)) []
unfolding new_entry_store find total lookup
new_entry_store-IsWithin library one settings small =
    let c = config_from_options library one settings in
    let v = config_from_options-IsValid library one settings in
    record {
      holds = record {
        order_valid = new_entry_order-IsValid c.max_events;
        order_ids = contents-new_entry_order c.max_events;
        distinct = tt;
        found = λ k. refl;
        bytes = refl;
      };
      events = omega arith;
      bytes = omega arith;
      some_event = v.max_events;
      small = small;
    }
