-- ===== src/Store/Bounds.antt =====
-- The bounds of the store, and `put` as a whole: purge, refusal, replacement and eviction.
use mathlib.Core.Path.{subst₂, subst₃}
use webpprof.Prelude.{
  ℕ, ◌-◌, ◌^◌, ◌≤◌, ◌<◌, ◌≡◌, refl, sym, ap, ◌∙◌, Bool, false, List, [], ◌∷◌, ◌++◌, length, arith,
  if◌then◌else◌, lt→ltb, ltb,
}
use webpprof.Prelude.{ap₂}
use webpprof.Store.{has_backend}
use webpprof.Entry.{Entry, entry_size}
use webpprof.Store.{
  EntryStore, StreamMessage, StorageBatch, StoreJournalRecord, put_record, next, store, reject, put,
  purge_expired, broadcast,
}
use webpprof.Store.Window.{total, expired, expire, surplus, with_entry}
use webpprof.Store.Window.Laws.{total-expire-le}
use webpprof.Store.Holds.{Holds}
use webpprof.Store.Evict.{Evicted, purge_expired-Evicted, delete_records}
use webpprof.Store.Frame.{
  dropped-same, SameSettings, SameSettings-trans, SameWindow-Holds, SameWindow-trans,
  broadcast-same, storage_batch-Batched, Evicted-SameSettings, Evicted-cursor,
}
use webpprof.Store.Put.{Stored, stamped, extended, store-Stored}

-- The store holds the window `w`, within its limits. The limits are those that the options allow,
-- and `max_bytes` is small enough for the sum of two sizes to be an `int64`.
pub record IsWithin (s : EntryStore) (w : List Entry) : Type 0 where
  pub holds : Holds s w
  pub events : length w ≤ s.max_events
  pub bytes : total w ≤ s.max_bytes
  pub some_event : 0 < s.max_events
  pub small : s.max_bytes < 2 ^ 62

abbrev pub cutoff : EntryStore → ℕ → ℕ
cutoff s now = now - s.retention

Stored-settings :
    {s t : EntryStore} {e : Entry} {w : List Entry} (records : List StoreJournalRecord)
    {r : Bool × StorageBatch × EntryStore}
    → SameSettings s t
    → Stored t e w records r
    → Stored s e w records r
Stored-settings records same v = record {
  accepted = v.accepted;
  holds = v.holds;
  cursor = v.cursor;
  batch = v.batch ∙ ap (λ o. if o then records else []) same.backend;
  settings = SameSettings-trans same v.settings;
}

rejected :
    (s : EntryStore) (w : List Entry) (records : List StoreJournalRecord)
    → Holds s w
    → ((reject s records).0 ≡ false)
      × Holds (reject s records).2 w
      × SameSettings s (reject s records).2
      × ((reject s records).2.next_cursor ≡ s.next_cursor)
      × ((reject s records).1.records ≡ (if has_backend s then records else []))
unfolding reject
rejected s w records h =
    let counted = record s { dropped = next s.dropped } in
    let m = StreamMessage.dropped (next s.dropped) in
    let sent = broadcast-same counted m in
    let b = storage_batch-Batched (broadcast counted m) records in
    let window =
      SameWindow-trans (dropped-same s (next s.dropped)).0 (SameWindow-trans sent.0 b.window) in
    (
      refl,
      SameWindow-Holds window h,
      SameSettings-trans (dropped-same s (next s.dropped)).1 (SameSettings-trans sent.1 b.settings),
      window.cursor,
      b.handed
          ∙ ap (λ o. if o then records else [])
              (sent.1.backend ∙ (dropped-same s (next s.dropped)).1.backend),
    )

module _ (s : EntryStore) (w : List Entry) (entry : Entry) (now : ℕ) (v : IsWithin s w)
    (opened : s.is_closed ≡ false) where
  abbrev live : List Entry
  live = expire (cutoff s now) w

  abbrev purged : EntryStore
  purged = (purge_expired s now).1

  purge : Evicted s (expired (cutoff s now) w) live (purge_expired s now)
  purge = purge_expired-Evicted s w now v.holds

  same : SameSettings s purged
  same = Evicted-SameSettings purge

  total-live : total live ≤ s.max_bytes
  total-live = omega (arith, total-expire-le (cutoff s now) w, v.bytes)

  -- what a `put` leaves that began with the cursor and the limits given
  abbrev StoredWith :
      List StoreJournalRecord → Bool × StorageBatch × EntryStore → ℕ → ℕ → ℕ → Type 0
  StoredWith records result c me mb =
      let e = record entry { cursor = next c } in
      Stored s e (with_entry me mb e live)
        ((records ++ delete_records (surplus me mb (extended e live)))
          ++ put_record e e.cursor ∷ [])
        result

  put-purged : put s entry now ≡ (
      if ltb purged.max_bytes (entry_size entry)
      then reject purged (purge_expired s now).0
      else store purged entry (purge_expired s now).0)
  unfolding put
  put-purged = simp opened

  too_large : ltb purged.max_bytes (entry_size entry) ≡ ltb s.max_bytes (entry_size entry)
  too_large = ap (λ n. ltb n (entry_size entry)) same.max_bytes

  put-store :
      entry_size entry ≤ s.max_bytes → put s entry now ≡ store purged entry (purge_expired s now).0
  put-store fits =
      put-purged
      ∙ ap
          (λ b.
            if b
            then reject purged (purge_expired s now).0
            else store purged entry (purge_expired s now).0)
          (too_large ∙ small_enough)
    where
      small_enough : ltb s.max_bytes (entry_size entry) ≡ false
      small_enough = ground arith

  -- `put` on an open store, of an entry that is no larger than `max_bytes`, stores it with the next cursor, as the
  -- newest of the window; first the entries at the front that were recorded before the cutoff go, up to one that was
  -- not, then an earlier version of the entry, then as many of the oldest entries as the limits require. The batch names
  -- these evictions and the entry, in this order.
  pub put-Stored :
      entry_size entry ≤ s.max_bytes
      → let e = stamped s entry in
        Stored s e
          (with_entry s.max_events s.max_bytes e live)
          ((delete_records (expired (cutoff s now) w)
              ++ delete_records (surplus s.max_events s.max_bytes (extended e live)))
            ++ put_record e e.cursor ∷ [])
          (put s entry now)
  put-Stored fits =
      let st =
        store-Stored purged live entry purge.holds (omega (arith, total-live, v.small))
          (omega (arith, same.max_bytes, v.small)) (purge_expired s now).0 in
      let start =
        subst₃ (StoredWith (purge_expired s now).0 (store purged entry (purge_expired s now).0))
          (Evicted-cursor purge) same.max_events same.max_bytes (Stored-settings _ same st) in
      subst₂ (λ records result. StoredWith records result s.next_cursor s.max_events s.max_bytes)
        purge.records (sym (put-store fits)) start

  -- `put` of an entry that is larger than `max_bytes` stores nothing and takes no cursor; the
  -- entries at the front that were recorded before the cutoff go, and the batch names them.
  pub put-rejected :
      s.max_bytes < entry_size entry
      → ((put s entry now).0 ≡ false)
        × Holds (put s entry now).2 live
        × SameSettings s (put s entry now).2
        × ((put s entry now).2.next_cursor ≡ s.next_cursor)
        × ((put s entry now).1.records
            ≡ (if has_backend s then delete_records (expired (cutoff s now) w) else []))
  put-rejected big =
      rw (put-purged, too_large, lt→ltb s.max_bytes (entry_size entry) big)
        (let r = rejected purged live (purge_expired s now).0 purge.holds in
          (
            r.0,
            r.1,
            SameSettings-trans same r.2,
            r.3 ∙ Evicted-cursor purge,
            r.4 ∙ ap₂ (λ o x. if o then x else []) same.backend purge.records,
          ))
