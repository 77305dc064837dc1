-- ===== src/Store/Replay.antt =====
-- store.go: how a store starts from what its storage holds: `replayRecord`, `openExternalStorage` and
-- `openJournalStorage` without the file operations, and the records of `compactJournal`.
pub mod Apply
pub mod Recovery
pub mod Session
use webpprof.Prelude.{
  ℕ, String, str_eq, Option, none, some, List, [], ◌∷◌, ◌++◌, map, ltb, if◌then◌else◌, sub64,
}
use webpprof.Prelude.Assoc.{lookup, delete}
use webpprof.Order
use webpprof.Entry.{Entry, entry_size}
use webpprof.Store.{
  EntryStore, Operation, StoreJournalRecord, put_record, detach, attach, purge_expired, evict,
}
use webpprof.Store.Reads.{collect}
use webpprof.Prelude.{true}

-- `removeMemoryLocked`
unfoldable pub remove_memory : EntryStore → String → EntryStore
remove_memory s id = elim (lookup id s.entries) [
  | none ↦ s
  | some e ↦ record s {
    entries = delete id s.entries;
    bytes = sub64 s.bytes (entry_size e);
    order = (Order.remove s.order id).1;
  }
]

-- the `clear` of `replayRecord`, which keeps `next_cursor`
unfoldable pub replay_clear : EntryStore → EntryStore
replay_clear s = record s { entries = []; order = Order.reset s.order; bytes = 0 }

-- the end of `replayRecord`, for a `put` with an entry that has an id
unfoldable pub replay_put : EntryStore → Entry → EntryStore
replay_put s e =
    let s' = attach (detach s e.id).1 e in
    record s' { next_cursor = if ltb s'.next_cursor e.cursor then e.cursor else s'.next_cursor }

unfoldable pub replay_operation : EntryStore → Operation → Option Entry → EntryStore
replay_operation s Operation.clear entry = replay_clear s
replay_operation s Operation.delete none = s
replay_operation s Operation.delete (some e) = remove_memory s e.id
replay_operation s Operation.put none = s
replay_operation s Operation.put (some e) = if str_eq e.id "" then s else replay_put s e
replay_operation s (Operation.other text) entry = s

unfoldable pub replay_record : EntryStore → StoreJournalRecord → EntryStore
replay_record s r = replay_operation s r.operation r.entry

unfoldable pub replay : EntryStore → List StoreJournalRecord → EntryStore
replay s [] = s
replay s (r ∷ records) = replay (replay_record s r) records

-- `openExternalStorage` on what `Load` returned; the records go to `persistRecord`
unfoldable pub open_external :
    EntryStore → List Entry → ℕ → ℕ → List StoreJournalRecord × EntryStore
open_external s entries cursor now =
    let s1 = replay s (map (λ e. put_record e 0) entries) in
    let s2 = record s1 {
      next_cursor = if ltb s1.next_cursor cursor then cursor else s1.next_cursor;
    } in
    let (purged, s3) = purge_expired s2 now in
    let (evicted, s4) = evict s3 in (purged ++ evicted, s4)

-- `openJournalStorage` on the records that the decoder read before its first error
unfoldable pub open_journal : EntryStore → List StoreJournalRecord → ℕ → EntryStore
open_journal s records now = (evict (purge_expired (replay s records) now).1).1

-- what `compactJournal` writes
unfoldable pub compacted : EntryStore → List StoreJournalRecord
compacted s = map (λ e. put_record e 0) (collect s (λ e. true) s.order.count 0)
