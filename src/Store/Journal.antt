-- ===== src/Store/Journal.antt =====
-- store.go: the journal file: `appendJournal`, `compactJournal` and `persistRecord` of a journal. What a call
-- of the file system returns is a parameter: `none`, or the text of its error. The journal is the list of
-- the records that a decoder reads from the start of its file. Where a failed write has left a part of a
-- record, the journal is torn: the decoder stops there, and what is appended later is not in the list.
use webpprof.Prelude.{
  ◌%◌, int64_mod, add64, lt64, ℕ, ◌*◌, ◌^◌, String, Bool, true, false, Option, none, some, List, [],
  ◌∷◌, ◌++◌, if◌then◌else◌, ◌≡◌, ◌⊎◌,
}
use webpprof.Store.{EntryStore, Operation, StoreJournalRecord}
use webpprof.Store.Replay.{compacted}

-- `storageFile` is nil without `has_file`; a file that was closed takes no more records
pub record Journal : Type 0 where
  pub file : List StoreJournalRecord
  pub is_torn : Bool
  pub has_file : Bool
  pub is_open : Bool
  pub storage_bytes : ℕ

pub record CompactOutcome : Type 0 where
  pub open_temporary : Option String
  pub encode : Option String
  pub sync : Option String
  pub close_temporary : Option String
  pub close_file : Option String
  pub rename : Option String
  pub reopen : Option String
  pub size : Option ℕ

-- what a write that fails leaves in the file of the document of a record
pub data Remainder : Type 0 where
  nothing part whole : Remainder

-- `file.Write` of a line: how many bytes are written, and the error with what it leaves
pub record WriteOutcome : Type 0 where
  pub written : ℕ
  pub error : Option (String × Remainder)

-- `if err != nil { return err }`: what is left on an error, or what comes after
abbrev pub or_fail : Option String → Journal → Option String × Journal → Option String × Journal
or_fail (some e) failed rest = (some e, failed)
or_fail none failed rest = rest

abbrev pub size_or : Option ℕ → ℕ → ℕ
size_or none old = old
size_or (some n) old = n

-- the end of `compactJournal`, from `storageFile.Close` on
unfoldable pub replace_file : EntryStore → Journal → CompactOutcome → Option String × Journal
replace_file s j io =
    or_fail io.close_file (record j { is_open = false })
      (or_fail io.rename (record j { is_open = false })
        (or_fail io.reopen
          (record j { file = compacted s; is_torn = false; has_file = false; is_open = false })
          (
            none,
            record j {
              file = compacted s;
              is_torn = false;
              has_file = true;
              is_open = true;
              storage_bytes = size_or io.size j.storage_bytes;
            },
          )))

unfoldable pub compact_journal : EntryStore → Journal → CompactOutcome → Option String × Journal
compact_journal s j io =
    if j.has_file
    then or_fail io.open_temporary j (
        or_fail io.encode j
          (or_fail io.sync j (or_fail io.close_temporary j (replace_file s j io))))
    else (none, j)

-- `max` of two `int64`
abbrev pub max64 : ℕ → ℕ → ℕ
max64 a b = if lt64 a b then b else a

abbrev pub threshold : EntryStore → ℕ
threshold s = max64 ((s.max_bytes * 2) % int64_mod) (2 ^ 20)

-- the file after a write that left so much of a record
abbrev pub after_write : Journal → StoreJournalRecord → Remainder → Journal
after_write j r Remainder.nothing = j
after_write j r Remainder.part = record j { is_torn = true }
after_write j r Remainder.whole = record j { file = if j.is_torn then j.file else j.file ++ r ∷ [] }

-- the end of `appendJournal`, for a record that was encoded; `s` is the store at the time of a compaction
unfoldable pub append_line :
    EntryStore
    → Journal
    → StoreJournalRecord
    → WriteOutcome
    → CompactOutcome
    → Option String × Journal
append_line s j r line io =
    let counted = record j { storage_bytes = add64 j.storage_bytes line.written } in
    let longer = after_write counted r Remainder.whole in
    let compacting = compact_journal s longer io in
    elim line.error [
      | some (error, left) ↦ (some error, after_write counted r left)
      | none ↦ if lt64 (threshold s) counted.storage_bytes then compacting else (none, longer)
    ]

-- `appendJournal`; `marshal` is the error of `json.Marshal`
unfoldable pub append_journal :
    EntryStore
    → Journal
    → StoreJournalRecord
    → Option String
    → WriteOutcome
    → CompactOutcome
    → Option String × Journal
append_journal s j r marshal line io =
    if j.has_file then or_fail marshal j (append_line s j r line io) else (none, j)

abbrev pub is_clear : Operation → Bool
is_clear Operation.clear = true
is_clear Operation.put = false
is_clear Operation.delete = false
is_clear (Operation.other text) = false

-- `persistRecord` of a journal; the second compaction is that of a `clear`
unfoldable pub persist_journal :
    EntryStore
    → Journal
    → StoreJournalRecord
    → Option String
    → WriteOutcome
    → CompactOutcome
    → CompactOutcome
    → Option String × Journal
persist_journal s j r marshal line io again =
    let (error, j') = append_journal s j r marshal line io in
    or_fail error j' (if is_clear r.operation then compact_journal s j' again else (none, j'))

-- what a call may leave of the file: what was in it, or what was in it in the end, or the window of the
-- store; without an error one of the last two, and no part of a record
pub record Kept (s : EntryStore) (before after : List StoreJournalRecord)
    (result : Option String × Journal) : Type 0 where
  pub file : (result.1.file ≡ before) ⊎ ((result.1.file ≡ after) ⊎ (result.1.file ≡ compacted s))
  pub success :
      result.0 ≡ none
      → ((result.1.file ≡ after) ⊎ (result.1.file ≡ compacted s)) × (result.1.is_torn ≡ false)
