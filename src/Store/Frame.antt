-- ===== src/Store/Frame.antt =====
-- What `broadcastLocked`, `storageBatchLocked` and the eviction loops leave alone.
use webpprof.Prelude.{
  ℕ, ◌≡◌, refl, ap, ◌∙◌, List, [], ◌∷◌, Bool-cases, inl, inr, if◌then◌else◌, arith,
}
use webpprof.Order.{EntryOrder}
use webpprof.Entry.{Entry}
use webpprof.Store.{
  EntryStore, StreamMessage, StoreJournalRecord, has_backend, storage_batch, broadcast, next,
  attach,
}
use webpprof.Store.Evict.{Evicted}
use webpprof.Store.Holds.{Holds}

-- the same settings and cursor: all that later operations read, but the window and the subscribers
pub record SameSettings (s t : EntryStore) : Type 0 where
  pub retention : t.retention ≡ s.retention
  pub max_events : t.max_events ≡ s.max_events
  pub max_bytes : t.max_bytes ≡ s.max_bytes
  pub is_closed : t.is_closed ≡ s.is_closed
  pub backend : has_backend t ≡ has_backend s

pub SameSettings-refl : (s : EntryStore) → SameSettings s s
SameSettings-refl s = record {
  retention = refl;
  max_events = refl;
  max_bytes = refl;
  is_closed = refl;
  backend = refl;
}

pub SameSettings-trans :
    {s t u : EntryStore} → SameSettings s t → SameSettings t u → SameSettings s u
SameSettings-trans a b = record {
  retention = b.retention ∙ a.retention;
  max_events = b.max_events ∙ a.max_events;
  max_bytes = b.max_bytes ∙ a.max_bytes;
  is_closed = b.is_closed ∙ a.is_closed;
  backend = b.backend ∙ a.backend;
}

-- A store with the same map, order and byte count holds the same window.
pub record SameWindow (s t : EntryStore) : Type 0 where
  pub entries : t.entries ≡ s.entries
  pub order : t.order ≡ s.order
  pub bytes : t.bytes ≡ s.bytes
  pub cursor : t.next_cursor ≡ s.next_cursor

pub SameWindow-refl : (s : EntryStore) → SameWindow s s
SameWindow-refl s = record { entries = refl; order = refl; bytes = refl; cursor = refl }

pub SameWindow-trans : {s t u : EntryStore} → SameWindow s t → SameWindow t u → SameWindow s u
SameWindow-trans a b = record {
  entries = b.entries ∙ a.entries;
  order = b.order ∙ a.order;
  bytes = b.bytes ∙ a.bytes;
  cursor = b.cursor ∙ a.cursor;
}

pub SameWindow-Holds : {s t : EntryStore} {w : List Entry} → SameWindow s t → Holds s w → Holds t w
SameWindow-Holds {s} {t} {w} e h = record {
  order_valid = rw e.order h.order_valid;
  order_ids = rw e.order h.order_ids;
  distinct = h.distinct;
  found = λ k. rw e.entries (h.found k);
  bytes = e.bytes ∙ h.bytes;
}

pub broadcast-same :
    (s : EntryStore) (m : StreamMessage)
    → SameWindow s (broadcast s m) × SameSettings s (broadcast s m)
unfolding broadcast has_backend
broadcast-same s m = (
  record { entries = refl; order = refl; bytes = refl; cursor = refl },
  record {
    retention = refl;
    max_events = refl;
    max_bytes = refl;
    is_closed = refl;
    backend = refl;
  },
)

-- `storageBatchLocked` hands the records over as they are, if there is a backend.
pub record Batched (s : EntryStore) (records : List StoreJournalRecord) : Type 0 where
  pub handed : (storage_batch s records).0.records ≡ (if has_backend s then records else [])
  pub window : SameWindow s (storage_batch s records).1
  pub settings : SameSettings s (storage_batch s records).1

issued-same :
    (s : EntryStore) (n : ℕ)
    → SameWindow s (record s { storage_issued = n })
      × SameSettings s (record s { storage_issued = n })
unfolding has_backend
issued-same s n = (
  record { entries = refl; order = refl; bytes = refl; cursor = refl },
  record {
    retention = refl;
    max_events = refl;
    max_bytes = refl;
    is_closed = refl;
    backend = refl;
  },
)

pub storage_batch-Batched : (s : EntryStore) (records : List StoreJournalRecord) → Batched s records
unfolding storage_batch
storage_batch-Batched s [] = record {
  handed = ground arith;
  window = SameWindow-refl s;
  settings = SameSettings-refl s;
}
storage_batch-Batched s (r ∷ records) = elim (Bool-cases (has_backend s)) [
  | inl e ↦ record {
    handed = ground arith;
    window = rw (e, storage_batch) (issued-same s (next s.storage_issued)).0;
    settings = rw (e, storage_batch) (issued-same s (next s.storage_issued)).1;
  }
  | inr e ↦ record {
    handed = ground arith;
    window = rw (e, storage_batch) (SameWindow-refl s);
    settings = rw (e, storage_batch) (SameSettings-refl s);
  }
]

pub Evicted-SameSettings :
    {s : EntryStore} {gone rest : List Entry} {r : List StoreJournalRecord × EntryStore}
    → Evicted s gone rest r
    → SameSettings s r.1
unfolding has_backend
Evicted-SameSettings v = record {
  retention = ap (λ t. t.retention) v.frame;
  max_events = ap (λ t. t.max_events) v.frame;
  max_bytes = ap (λ t. t.max_bytes) v.frame;
  is_closed = ap (λ t. t.is_closed) v.frame;
  backend = ap has_backend v.frame;
}

pub order_same :
    (s : EntryStore) (o : EntryOrder) (n : ℕ) → SameSettings s (record s { order = o; bytes = n })
unfolding has_backend
order_same s o n = record {
  retention = refl;
  max_events = refl;
  max_bytes = refl;
  is_closed = refl;
  backend = refl;
}

-- `attach` changes the window only.
pub attach-same :
    (s : EntryStore) (e : Entry) (n : ℕ)
    → SameSettings s (attach (record s { next_cursor = n }) e)
      × ((attach (record s { next_cursor = n }) e).next_cursor ≡ n)
unfolding has_backend attach
attach-same s e n = (
  record {
    retention = refl;
    max_events = refl;
    max_bytes = refl;
    is_closed = refl;
    backend = refl;
  },
  refl,
)

pub Evicted-cursor :
    {s : EntryStore} {gone rest : List Entry} {r : List StoreJournalRecord × EntryStore}
    → Evicted s gone rest r
    → r.1.next_cursor ≡ s.next_cursor
Evicted-cursor v = ap (λ t. t.next_cursor) v.frame

pub dropped-same :
    (s : EntryStore) (n : ℕ)
    → SameWindow s (record s { dropped = n }) × SameSettings s (record s { dropped = n })
unfolding has_backend
dropped-same s n = (
  record { entries = refl; order = refl; bytes = refl; cursor = refl },
  record {
    retention = refl;
    max_events = refl;
    max_bytes = refl;
    is_closed = refl;
    backend = refl;
  },
)
