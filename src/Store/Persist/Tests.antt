-- ===== src/Store/Persist/Tests.antt =====
-- Runs of `persist`, and its theorems at concrete inputs. The backend is the list of the cursors that it was given.
use webpprof.Prelude.{
  ap, sym, some_injective, ◌*◌, ◌^◌, ℕ, zero, suc, ◌≤◌, ◌<◌, ◌≡◌, refl, true, false, none, some,
  List, [], ◌∷◌, ◌++◌, lookup_at, take, tabulate,
}
use webpprof.Entry.{zero_entry}
use webpprof.Order.{new_entry_order}
use webpprof.Store.{
  EntryStore, StorageKind, StoreJournalRecord, StorageBatch, put_record, delete_record,
}
use webpprof.Store.Journal.{Journal, Remainder, CompactOutcome, persist_journal}
use webpprof.Store.Persist.{
  Written, Caller, persist_all, set_storage_error, advance, step, run, starting, may_close,
}
use webpprof.Store.Persist.InOrder.{AreIssued, written, run-in_order}
use webpprof.Store.Persist.Completion.{run-completes}

program : Unit {0}
unfolding persist_all set_storage_error advance step run
program = tt

abbrev append : List ℕ → StoreJournalRecord → Written (List ℕ)
append b r = (none, b ++ r.cursor ∷ [])

abbrev batch : ℕ → StorageBatch
batch n = record { sequence = n; records = put_record zero_entry n ∷ [] }

abbrev batches : List StorageBatch
batches = batch 1 ∷ batch 2 ∷ batch 3 ∷ []

issued : AreIssued batches
issued zero b h = ap (λ (x : StorageBatch). x.sequence) (sym (some_injective h))
issued (suc zero) b h = ap (λ (x : StorageBatch). x.sequence) (sym (some_injective h))
issued (suc (suc zero)) b h = ap (λ (x : StorageBatch). x.sequence) (sym (some_injective h))
issued (suc (suc (suc i))) b h = cc

-- the third and the second call wait for the first
abbrev schedule : List ℕ
schedule = 2 ∷ 1 ∷ 0 ∷ 2 ∷ 1 ∷ 0 ∷ []

schedule_lem : (run append (starting [] batches) schedule).backend ≡ 1 ∷ 2 ∷ []
unfolding program
schedule_lem = refl

run-in_order_example :
    let s = run append (starting [] batches) schedule in
    (s.storage_done ≤ 3)
    × (s.backend ≡ written append [] (take s.storage_done batches))
    × ((i : ℕ) → lookup_at s.callers i ≡ some Caller.returned → i < s.storage_done)
run-in_order_example = run-in_order append [] batches schedule issued

run-completes_example :
    let s = run append (starting [] batches) schedule in
    let t = run append s (tabulate (λ k. k) 0 3) in
    (t.backend ≡ written append [] batches) × (may_close t 3 ≡ true)
run-completes_example = run-completes append [] batches issued schedule

abbrev store : EntryStore
store = record {
  entries = [];
  order = new_entry_order 2;
  bytes = 0;
  next_cursor = 0;
  dropped = 0;
  evicted = 0;
  retention = 100;
  max_events = 2;
  max_bytes = 1000;
  stream_buffer = 1;
  subscribers = [];
  closed_channels = [];
  next_subscriber = 1;
  is_closed = false;
  storage_kind = StorageKind.journal;
  storage_file = true;
  storage = false;
  storage_issued = 0;
}

abbrev journal : Journal
journal = record {
  file = delete_record "a" ∷ [];
  is_torn = false;
  has_file = true;
  is_open = true;
  storage_bytes = 2 * 2 ^ 20;
}

abbrev full_disk : CompactOutcome
full_disk = record {
  open_temporary = none;
  encode = some "no space left on device";
  sync = none;
  close_temporary = none;
  close_file = none;
  rename = none;
  reopen = none;
  size = none;
}

-- a write that fails in the middle of a record
abbrev short_write : Journal
short_write =
    (persist_journal store (record journal { storage_bytes = 0 }) (delete_record "b") none
      (record { written = 20; error = some ("no space left on device", Remainder.part) }) full_disk
      full_disk).1

-- After it, a record is appended without an error, and is not read again.
short_write_lem :
    let (error, j) =
      persist_journal store short_write
        (delete_record "c")
        none
        (record { written = 90; error = none })
        full_disk
        full_disk in
    (error ≡ none) × (j.file ≡ delete_record "a" ∷ [])
unfolding program persist_journal webpprof.Store.Journal.append_journal
    webpprof.Store.Journal.append_line
short_write_lem = (refl, refl)
