-- ===== src/Store/Put.antt =====
-- `put` on a store that holds a window: the entry is refused, or it becomes the newest of a window
-- that is cut to its limits.
use webpprof.Prelude.{
  ℕ, ◌+◌, ◌<◌, ◌≡◌, refl, ap, ◌∙◌, Bool, true, List, [], ◌∷◌, ◌++◌, arith, int64_limit,
  if◌then◌else◌,
}
use mathlib.Core.Path.{subst}
use webpprof.Entry.{Entry, entry_size}
use webpprof.Store.{
  EntryStore, StreamMessage, StorageBatch, StoreJournalRecord, put_record, next, detach, attach,
  evict, broadcast, storage_batch, has_backend, store, store_detached,
}
use webpprof.Store.Window.{trim, total, without, surplus, with_entry}
use webpprof.Store.Frame.{attach-same, Evicted-cursor}
use webpprof.Store.Window.Laws.{total-append, total-without-le}
use webpprof.Store.Holds.{Holds}
use webpprof.Store.Evict.{evict-Evicted, delete_records}
use webpprof.Store.Attach.{Detached, attach-Holds, detach-Detached}
use webpprof.Store.Frame.{
  SameSettings, SameSettings-trans, SameWindow-Holds, SameWindow-trans, broadcast-same,
  storage_batch-Batched, Evicted-SameSettings,
}

-- the entry with the cursor that `put` gives it
abbrev pub stamped : EntryStore → Entry → Entry
stamped s e = record e { cursor = next s.next_cursor }

-- the records of a `put` that evicts `gone`
abbrev pub put_records : List Entry → Entry → List StoreJournalRecord
put_records gone e = delete_records gone ++ put_record e e.cursor ∷ []

-- What a `put` that stores `e` leaves: the window `w`, the next cursor, and the records for the
-- backend, if there is one.
pub record Stored (s : EntryStore) (e : Entry) (w : List Entry) (records : List StoreJournalRecord)
    (result : Bool × StorageBatch × EntryStore) : Type 0 where
  pub accepted : result.0 ≡ true
  pub holds : Holds result.2 w
  pub cursor : result.2.next_cursor ≡ e.cursor
  pub batch : result.1.records ≡ (if has_backend s then records else [])
  pub settings : SameSettings s result.2

-- the end of `put`: the message and the batch
abbrev finish :
    EntryStore → StreamMessage → List StoreJournalRecord → Bool × StorageBatch × EntryStore
finish t m records = let (batch, u) = storage_batch (broadcast t m) records in (true, batch, u)

finish-Stored :
    (s t : EntryStore) (e : Entry) (w : List Entry) (m : StreamMessage)
    (records : List StoreJournalRecord)
    → Holds t w
    → t.next_cursor ≡ e.cursor
    → SameSettings s t
    → Stored s e w records (finish t m records)
finish-Stored s t e w m records h c same =
    let sent = broadcast-same t m in
    let b = storage_batch-Batched (broadcast t m) records in
    let window = SameWindow-trans sent.0 b.window in
    record {
      accepted = refl;
      holds = SameWindow-Holds window h;
      cursor = window.cursor ∙ c;
      batch = b.handed ∙ ap (λ o. if o then records else []) (sent.1.backend ∙ same.backend);
      settings = SameSettings-trans same (SameSettings-trans sent.1 b.settings);
    }

-- what is stored, before the eviction
abbrev pub extended : Entry → List Entry → List Entry
extended e w = without e.id w ++ e ∷ []

-- the same with the limits of the store that it began with
Stored-limits :
    (s : EntryStore) (e : Entry) (v : List Entry) (records evicted last : List StoreJournalRecord)
    {me mb : ℕ} {r : Bool × StorageBatch × EntryStore}
    → me ≡ s.max_events
    → mb ≡ s.max_bytes
    → evicted ≡ delete_records (surplus me mb v)
    → Stored s e (trim me mb v) ((records ++ evicted) ++ last) r
    → Stored s e
        (trim s.max_events s.max_bytes v)
        ((records ++ delete_records (surplus s.max_events s.max_bytes v)) ++ last)
        r
Stored-limits s e v records evicted last p q d h = rw (d, p, q) at h

module _ (s : EntryStore) (w : List Entry) (entry : Entry) (h : Holds s w)
    (fits : total w + entry_size entry < int64_limit) (limit : s.max_bytes < int64_limit)
    (records : List StoreJournalRecord) where
  total-extended : (c : ℕ) → total (extended (record entry { cursor = c }) w) < int64_limit
  unfolding total entry_size
  total-extended c = omega (
    arith,
    fits,
    total-append (without entry.id w) (record entry { cursor = c } ∷ []),
    total-without-le entry.id w,
  )

  limit_of : (t : EntryStore) → t.max_bytes ≡ s.max_bytes → t.max_bytes < int64_limit
  limit_of t e = omega (arith, limit)

  -- what `put` leaves when the cursor stood at `c`
  abbrev pub StoredAt : ℕ → Bool × StorageBatch × EntryStore → Type 0
  StoredAt c result =
      let e = record entry { cursor = next c } in
      Stored s e (with_entry s.max_events s.max_bytes e w)
        ((records ++ delete_records (surplus s.max_events s.max_bytes (extended e w)))
          ++ put_record e e.cursor ∷ [])
        result

  store_detached-Stored :
      (is_update : Bool) (t : EntryStore)
      → Detached s w entry.id t
      → StoredAt t.next_cursor (store_detached is_update t entry records)
  unfolding store_detached
  store_detached-Stored is_update t d =
      let cursor = next t.next_cursor in
      let e = stamped t entry in
      let a = attach (record t { next_cursor = cursor }) e in
      let same = attach-same t e cursor in
      let v =
        evict-Evicted a (extended e w) (attach-Holds s t w e cursor h d) (total-extended cursor)
          (limit_of a (same.0.max_bytes ∙ d.settings.max_bytes)) in
      let settings =
        SameSettings-trans (SameSettings-trans d.settings same.0) (Evicted-SameSettings v) in
      Stored-limits s e (extended e w) records (evict a).0 (put_record e cursor ∷ [])
        (same.0.max_events ∙ d.settings.max_events) (same.0.max_bytes ∙ d.settings.max_bytes)
        v.records
        (finish-Stored s (evict a).1 e (trim a.max_events a.max_bytes (extended e w))
          (if is_update then StreamMessage.updated e else StreamMessage.created e)
          ((records ++ (evict a).0) ++ put_record e cursor ∷ []) v.holds (Evicted-cursor v ∙ same.1)
          settings)

  pub store-Stored : StoredAt s.next_cursor (store s entry records)
  unfolding store
  store-Stored =
      let d = detach-Detached s w entry.id h in
      subst (λ c. StoredAt c (store s entry records)) d.cursor
        (store_detached-Stored (detach s entry.id).0 (detach s entry.id).1 d)
