-- ===== src/Store/State.antt =====
-- store.go: the state of `entryStore`, and what it writes to its subscribers and its storage.
use webpprof.Prelude.{ℕ, String, Bool, Option, some, List, []}
use webpprof.Prelude.Assoc.{Assoc}
use webpprof.Prelude.Text.{Text}
use webpprof.Order.{EntryOrder}
use webpprof.Entry.{Entry, zero_entry}

-- the messages that the store itself sends; an event's `Cursor` is that of its entry
pub data StreamMessage : Type 0 where
  created updated : Entry → StreamMessage
  cleared : ℕ → StreamMessage
  dropped : ℕ → StreamMessage

-- a subscriber's id, and what its channel holds
abbrev pub Subscriber : Type 0
Subscriber = ℕ × List StreamMessage

pub data StorageKind : Type 0 where
  memory journal : StorageKind
  named : Text → StorageKind

pub data Operation : Type 0 where
  put delete clear : Operation
  other : String → Operation

pub record StoreJournalRecord : Type 0 where
  pub operation : Operation
  pub entry : Option Entry
  pub cursor : ℕ

pub record StorageBatch : Type 0 where
  pub sequence : ℕ
  pub records : List StoreJournalRecord

abbrev pub no_batch : StorageBatch
no_batch = record { sequence = 0; records = [] }

-- `storage_file` and `storage` tell whether the fields are not nil. `closed_channels` are the
-- channels that the store has closed, with what their readers can still take.
pub record EntryStore : Type 0 where
  pub entries : Assoc Entry
  pub order : EntryOrder
  pub bytes : ℕ
  pub next_cursor : ℕ
  pub dropped : ℕ
  pub evicted : ℕ
  pub retention : ℕ
  pub max_events : ℕ
  pub max_bytes : ℕ
  pub stream_buffer : ℕ
  pub subscribers : List Subscriber
  pub closed_channels : List Subscriber
  pub next_subscriber : ℕ
  pub is_closed : Bool
  pub storage_kind : StorageKind
  pub storage_file : Bool
  pub storage : Bool
  pub storage_issued : ℕ

abbrev pub delete_record : String → StoreJournalRecord
delete_record id = record {
  operation = Operation.delete;
  entry = some (record zero_entry { id = id });
  cursor = 0;
}

abbrev pub put_record : Entry → ℕ → StoreJournalRecord
put_record e cursor = record { operation = Operation.put; entry = some e; cursor = cursor }
