-- ===== src/Store/Persist.antt =====
-- store.go: `persist`, `persistRecord` of an external storage, `setStorageError` and the wait of
-- `close`, as steps that goroutines interleave. What a goroutine does while it holds `storageMu` is one
-- step; `storageCond.Wait` is a step that changes nothing. The backend is a parameter.
pub mod InOrder
pub mod Completion
mod Tests
use webpprof.Prelude.{
  ℕ, zero, suc, ◌+◌, String, str_eq, Bool, true, false, Option, none, some, List, [], ◌∷◌, ◌++◌,
  ◌==◌, leb, set, lookup_at, if◌then◌else◌, map,
}
use webpprof.Entry.{Entry}
use webpprof.Store.{Operation, StoreJournalRecord, StorageBatch}

-- the texts of the errors that `errors.Join` has joined, of which there is none without an error
abbrev pub Errors : Type 0
Errors = List String

-- the state after a write, with the error of the write
abbrev pub Written : Type 0 → Type 0
Written Backend = Option String × Backend

-- `EntryStorage`, as far as `persistRecord` calls it
pub record ExternalStorage (Backend : Type 0) : Type 0 where
  pub put : Backend → Entry → ℕ → Written Backend
  pub delete : Backend → String → Written Backend
  pub clear : Backend → ℕ → Written Backend

-- the `switch` of `persistRecord` on an external storage
unfoldable pub persist_external :
    {Backend : Type 0} → ExternalStorage Backend → Backend → StoreJournalRecord → Written Backend
persist_external storage b r = persist_operation storage b r.operation r.entry r.cursor
  where
    persist_operation :
        {Backend : Type 0}
        → ExternalStorage Backend
        → Backend
        → Operation
        → Option Entry
        → ℕ
        → Written Backend
    persist_operation storage b Operation.put none cursor = (none, b)
    persist_operation storage b Operation.put (some e) cursor = storage.put b e cursor
    persist_operation storage b Operation.delete none cursor = (none, b)
    persist_operation storage b Operation.delete (some e) cursor = storage.delete b e.id
    persist_operation storage b Operation.clear entry cursor = storage.clear b cursor
    persist_operation storage b (Operation.other text) entry cursor = (none, b)

-- a goroutine that calls `persist`: before it has written, before `setStorageError`, and after
pub data Caller : Type 0 where
  holding : StorageBatch → Caller
  reporting : Errors → Caller
  returned : Caller

pub record Persisting (Backend : Type 0) : Type 0 where
  pub storage_done : ℕ
  pub backend : Backend
  pub storage_error : Option Errors
  pub callers : List Caller

module _ {Backend : Type 0} (persist_record : Backend → StoreJournalRecord → Written Backend) where
  -- the loop of `persist`, which goes on after an error
  unfoldable pub persist_all : Backend → List StoreJournalRecord → Errors × Backend
  persist_all b [] = ([], b)
  persist_all b (r ∷ records) =
      let (error, b') = persist_record b r in
      let (errors, b'') = persist_all b' records in
      (elim error [ none ↦ errors | some e ↦ e ∷ errors ], b'')

  -- `setStorageError`, which keeps the first error
  unfoldable pub set_storage_error : Option Errors → Errors → Option Errors
  set_storage_error old [] = old
  set_storage_error none (e ∷ errors) = some (e ∷ errors)
  set_storage_error (some first) (e ∷ errors) = some first

  -- the next step of the caller of an index
  unfoldable pub advance : Persisting Backend → ℕ → Caller → Persisting Backend
  advance s i (Caller.holding batch) =
      let (errors, backend) = persist_all s.backend batch.records in
      if batch.sequence == 0
      then record s { callers = set s.callers i Caller.returned }
      else if batch.sequence == suc s.storage_done
      then record s {
        storage_done = batch.sequence;
        backend = backend;
        callers = set s.callers i (Caller.reporting errors);
      }
      else s
  advance s i (Caller.reporting errors) = record s {
    storage_error = set_storage_error s.storage_error errors;
    callers = set s.callers i Caller.returned;
  }
  advance s i Caller.returned = s

  unfoldable pub step : Persisting Backend → ℕ → Persisting Backend
  step s i = elim (lookup_at s.callers i) [ none ↦ s | some caller ↦ advance s i caller ]

  unfoldable pub run : Persisting Backend → List ℕ → Persisting Backend
  run s [] = s
  run s (i ∷ schedule) = run (step s i) schedule

-- the goroutines that were handed the batches
abbrev pub starting : {Backend : Type 0} → Backend → List StorageBatch → Persisting Backend
starting backend batches = record {
  storage_done = 0;
  backend = backend;
  storage_error = none;
  callers = map Caller.holding batches;
}

-- whether `close` is past its wait for the batches that were issued
abbrev pub may_close : {Backend : Type 0} → Persisting Backend → ℕ → Bool
may_close s issued = leb issued s.storage_done
