-- ===== src/Store.antt =====
-- store.go: `entryStore`, the bounded window of recorded entries, and the operations that change
-- it. What a method does between `mu.Lock` and `mu.Unlock` is one function: it takes the state and
-- the time of its `time.Now()`, and returns its results, the storage batch that it hands to
-- `persist`, and the new state. Reads are in Store/Reads.antt and Store/Query.antt, subscriptions in
-- Store/Streams.antt and the start from storage in Store/Replay.antt.
mod State
pub mod Window
pub mod Holds
pub mod Evict
pub mod Attach
pub mod Frame
pub mod Put
pub mod Bounds
pub mod Reads
pub mod Positions
pub mod Retention
pub mod Replay
pub mod Query
pub mod Streams
pub mod Persist
pub mod Journal
pub mod Samples
mod Tests
pub use State.*
use webpprof.Prelude.{
  ℕ, zero, suc, ◌+◌, ◌-◌, ◌%◌, ◌^◌, String, Bool, true, false, not, ◌&&◌, ◌||◌, Option, none, some,
  List, [], ◌∷◌, ◌++◌, length, ltb, leb, ◌==◌, if◌then◌else◌, add64, sub64, lt64, int64_mod,
}
use webpprof.Prelude.Assoc.{Assoc, lookup, insert, delete}
use webpprof.Order
use webpprof.Order.{EntryOrder}
use webpprof.Entry.{Entry, zero_entry, entry_size}

-- `n++` on a `uint64`
abbrev pub next : ℕ → ℕ
next n = (n + 1) % int64_mod

-- `s.entries[id]`, where the flag is not asked for
abbrev pub entry_at : EntryStore → String → Entry
entry_at s id = elim (lookup id s.entries) [ none ↦ zero_entry | some e ↦ e ]

-- `select { case subscriber <- message: default: delete; close }` for each subscriber: those that
-- stay,
unfoldable pub delivered : ℕ → StreamMessage → List Subscriber → List Subscriber
delivered size m [] = []
delivered size m ((id, buffer) ∷ rest) =
    let others = delivered size m rest in
    if ltb (length buffer) size then (id, buffer ++ m ∷ []) ∷ others else others

-- and those that are closed
unfoldable pub cut_off : ℕ → List Subscriber → List Subscriber
cut_off size [] = []
cut_off size ((id, buffer) ∷ rest) =
    let others = cut_off size rest in
    if ltb (length buffer) size then others else (id, buffer) ∷ others

unfoldable pub broadcast : EntryStore → StreamMessage → EntryStore
broadcast s m = record s {
  subscribers = delivered s.stream_buffer m s.subscribers;
  closed_channels = cut_off s.stream_buffer s.subscribers ++ s.closed_channels;
}

-- whether `storageBatchLocked` has a backend to write to
unfoldable pub has_backend : EntryStore → Bool
has_backend s = elim s.storage_kind [
  | memory ↦ false
  | journal ↦ s.storage_file
  | named _ ↦ s.storage
]

unfoldable pub storage_batch : EntryStore → List StoreJournalRecord → StorageBatch × EntryStore
storage_batch s [] = (no_batch, s)
storage_batch s (r ∷ records) =
    if has_backend s
    then (
      record { sequence = next s.storage_issued; records = r ∷ records },
      record s { storage_issued = next s.storage_issued },
    )
    else (no_batch, s)

-- the end of `removeOldestLocked`, from the result of `popFront` on
unfoldable pub forget :
    EntryStore → Option String × EntryOrder → Option StoreJournalRecord × EntryStore
forget s (none, order) = (none, record s { order = order })
forget s (some id, order) = elim (lookup id s.entries) [
  | none ↦ (none, record s { order = order })
  | some e ↦ (
    some (delete_record id),
    record s { entries = delete id s.entries; order = order; bytes = sub64 s.bytes (entry_size e) },
  )
]

unfoldable pub remove_oldest : EntryStore → Option StoreJournalRecord × EntryStore
remove_oldest s = forget s (Order.pop_front s.order)

abbrev pub prepend {ℓ} : {A : Type ℓ} → Option A → List A → List A
prepend none xs = xs
prepend (some x) xs = x ∷ xs

-- one round of the loops below: the oldest entry goes, and `evicted` counts it
unfoldable pub evict_one : EntryStore → Option StoreJournalRecord × EntryStore
evict_one s = let (r, s') = remove_oldest s in (r, record s' { evicted = next s'.evicted })

-- `purgeExpiredLocked` from the computed `cutoff` on. The fuel is the number of ids in the order,
-- one of which goes in each round. A cutoff before the zero time is the zero time, before which no
-- entry is recorded either.
unfoldable pub purge_loop : ℕ → ℕ → EntryStore → List StoreJournalRecord × EntryStore
purge_loop zero cutoff s = ([], s)
purge_loop (suc fuel) cutoff s =
    let (r, s') = evict_one s in
    let rest = purge_loop fuel cutoff s' in
    elim (Order.front s.order) [
      | none ↦ ([], s)
      | some id ↦
          if ltb (entry_at s id).recorded_at cutoff then (prepend r rest.0, rest.1) else ([], s)
    ]

unfoldable pub purge_expired : EntryStore → ℕ → List StoreJournalRecord × EntryStore
purge_expired s now = purge_loop s.order.count (now - s.retention) s

-- the test of the loop of `evictLocked`, with the one that breaks out of it
unfoldable pub over_limit : EntryStore → Bool
over_limit s =
    (ltb s.max_events s.order.count || lt64 s.max_bytes s.bytes) && not (s.order.count == 0)

unfoldable pub evict_loop : ℕ → EntryStore → List StoreJournalRecord × EntryStore
evict_loop zero s = ([], s)
evict_loop (suc fuel) s =
    let (r, s') = evict_one s in
    let rest = evict_loop fuel s' in if over_limit s then (prepend r rest.0, rest.1) else ([], s)

unfoldable pub evict : EntryStore → List StoreJournalRecord × EntryStore
evict s = evict_loop s.order.count s

-- `if previous, ok := s.entries[entry.ID]; ok { … }`; the flag tells whether there was one
unfoldable pub detach : EntryStore → String → Bool × EntryStore
detach s id = elim (lookup id s.entries) [
  | none ↦ (false, s)
  | some previous ↦ (
    true,
    record s { bytes = sub64 s.bytes (entry_size previous); order = (Order.remove s.order id).1 },
  )
]

-- `s.entries[entry.ID] = entry; s.order.pushBack(entry.ID); s.bytes += size`
unfoldable pub attach : EntryStore → Entry → EntryStore
attach s e = record s {
  entries = insert e.id e s.entries;
  order = Order.push_back s.order e.id;
  bytes = add64 s.bytes (entry_size e);
}

-- `put` after the purge, for an entry that is too large
unfoldable pub reject : EntryStore → List StoreJournalRecord → Bool × StorageBatch × EntryStore
reject s records =
    let count = next s.dropped in
    let (batch, s') =
      storage_batch (broadcast (record s { dropped = count }) (StreamMessage.dropped count))
        records in
    (false, batch, s')

-- `put` from `s.nextCursor++` on
unfoldable pub store_detached :
    Bool → EntryStore → Entry → List StoreJournalRecord → Bool × StorageBatch × EntryStore
store_detached is_update s entry records =
    let cursor = next s.next_cursor in
    let e = record entry { cursor = cursor } in
    let (evicted, s') = evict (attach (record s { next_cursor = cursor }) e) in
    let message = if is_update then StreamMessage.updated e else StreamMessage.created e in
    let (batch, s'') =
      storage_batch (broadcast s' message) ((records ++ evicted) ++ put_record e cursor ∷ []) in
    (true, batch, s'')

-- `put` after the purge, for an entry that fits
unfoldable pub store :
    EntryStore → Entry → List StoreJournalRecord → Bool × StorageBatch × EntryStore
store s entry records =
    let (is_update, s') = detach s entry.id in store_detached is_update s' entry records

unfoldable pub put : EntryStore → Entry → ℕ → Bool × StorageBatch × EntryStore
put s entry now =
    if s.is_closed
    then (false, no_batch, s)
    else let (records, s1) = purge_expired s now in
      if ltb s1.max_bytes (entry_size entry) then reject s1 records else store s1 entry records

unfoldable pub clear : EntryStore → StorageBatch × EntryStore
clear s =
    let cursor = next s.next_cursor in
    let emptied = record s {
      entries = [];
      order = Order.reset s.order;
      bytes = 0;
      next_cursor = cursor;
    } in
    storage_batch (broadcast emptied (StreamMessage.cleared cursor))
      (record { operation = Operation.clear; entry = none; cursor = cursor } ∷ [])
