-- ===== src/Store/Replay/Session.antt =====
-- Sequences of calls on a store with a backend, and the start of another store from what they wrote.
use webpprof.Prelude.{
  ℕ, String, str_eq, List, [], ◌∷◌, ◌++◌, All, ◌≡◌, refl, sym, ap, ap₂, ◌∙◌, arith, if◌then◌else◌,
  Bool-cases, inl, inr, true, false, ltb, none,
}
use mathlib.Core.Path.{subst}
use webpprof.Entry.{Entry, entry_size}
use webpprof.Store.{
  EntryStore, StreamMessage, StorageBatch, StoreJournalRecord, put as put_entry,
  clear as clear_entries, has_backend, next, broadcast, put_record,
}
use webpprof.Store.Window.{expired, expire, surplus, with_entry, without, total}
use webpprof.Store.Window.Trim.{exceeds-alone}
use webpprof.Store.Holds.{Holds}
use webpprof.Store.Evict.{delete_records, purge_expired-Evicted, Evicted}
use webpprof.Store.Frame.{
  SameSettings, SameSettings-trans, SameWindow-Holds, broadcast-same, storage_batch-Batched,
  Evicted-SameSettings, SameWindow-trans,
}
use webpprof.Store.Put.{stamped}
use webpprof.Store.Bounds.{IsWithin, cutoff, put-Stored, put-rejected}
use webpprof.Store.Retention.{stored-IsWithin, live-IsWithin}
use webpprof.Store.{purge_expired, Operation}
use webpprof.Store.Reads.{get as get_entry}
use webpprof.Store.Replay.{replay, replay_clear}
use webpprof.Store.Replay.Apply.{apply, replay-Holds, replay_clear-Holds, cursor-Holds}
use webpprof.Store.Replay.Recovery.{apply-append, apply-expired, apply-put_records}

-- the calls that change a store; each read of the store has the effect of `get`
pub data Call : Type 0 where
  put : Entry → ℕ → Call
  clear : Call
  get : String → ℕ → Call

-- the batch that a call hands to `persist`, and the state that it leaves
unfoldable pub step : EntryStore → Call → StorageBatch × EntryStore
step s (Call.put e now) = let r = put_entry s e now in (r.1, r.2)
step s Call.clear = clear_entries s
step s (Call.get id now) = let r = get_entry s id now in (r.1, r.2)

-- all records that a sequence of calls hands over, and the last state
unfoldable pub run : EntryStore → List Call → List StoreJournalRecord × EntryStore
run s [] = ([], s)
run s (c ∷ calls) =
    let (batch, s') = step s c in
    let (records, s'') = run s' calls in (batch.records ++ records, s'')

-- an entry with an id; the profiler gives every entry one
abbrev pub IsNamed : Call → Type 0
IsNamed (Call.put e now) = str_eq e.id "" ≡ false
IsNamed Call.clear = Unit
IsNamed (Call.get id now) = Unit

-- an open store within its limits that holds `w` and has a backend
pub record IsLive (s : EntryStore) (w : List Entry) : Type 0 where
  pub within : IsWithin s w
  pub opened : s.is_closed ≡ false
  pub backend : has_backend s ≡ true

-- a call has made the window `v` of `w`, and its records make it again
record Logged (s : EntryStore) (w : List Entry) (r : StorageBatch × EntryStore) : Type 0 where
  window : List Entry
  live : IsLive r.1 window
  same : apply r.0.records w ≡ window

put-Logged :
    (s : EntryStore) (w : List Entry) (entry : Entry) (now : ℕ)
    → IsLive s w
    → str_eq entry.id "" ≡ false
    → Logged s w ((put_entry s entry now).1, (put_entry s entry now).2)
unfolding entry_size
put-Logged s w entry now v named = elim (Bool-cases (ltb s.max_bytes (entry_size entry))) [
  | inl big ↦
      let r = put-rejected s w entry now v.within v.opened (ground arith) in
      record {
        window = live;
        live = record {
          within = live-IsWithin now v.within r.2 r.1;
          opened = r.2.is_closed ∙ v.opened;
          backend = r.2.backend ∙ v.backend;
        };
        same = ap (λ x. apply x w) (r.4 ∙ handed gone) ∙ purged;
      }
  | inr fits ↦
      let r = put-Stored s w entry now v.within v.opened (ground arith) in
      let over =
        delete_records (surplus s.max_events s.max_bytes (without entry.id live ++ e ∷ [])) in
      let last = put_record e e.cursor ∷ [] in
      record {
        window = with_entry s.max_events s.max_bytes e live;
        live = record {
          within = stored-IsWithin e live v.within r.settings r.holds;
          opened = r.settings.is_closed ∙ v.opened;
          backend = r.settings.backend ∙ v.backend;
        };
        same =
            ap (λ x. apply x w) (r.batch ∙ handed ((gone ++ over) ++ last))
            ∙ apply-append (gone ++ over) last w
            ∙ ap (apply last) (apply-append gone over w ∙ ap (apply over) purged)
            ∙ sym (apply-append over last live)
            ∙ apply-put_records s.max_events s.max_bytes e
                (exceeds-alone s.max_events s.max_bytes e v.within.some_event (ground arith)) live
                e.cursor before.holds.distinct named;
      }
]
  where
    e : Entry
    e = stamped s entry

    live : List Entry
    live = expire (cutoff s now) w

    gone : List StoreJournalRecord
    gone = delete_records (expired (cutoff s now) w)

    before : Evicted s (expired (cutoff s now) w) live (purge_expired s now)
    before = purge_expired-Evicted s w now v.within.holds

    purged : apply gone w ≡ live
    purged = apply-expired (cutoff s now) w v.within.holds.distinct

    handed : (x : List StoreJournalRecord) → (if has_backend s then x else []) ≡ x
    handed x = rw v.backend

get-Logged :
    (s : EntryStore) (w : List Entry) (id : String) (now : ℕ)
    → IsLive s w
    → Logged s w ((get_entry s id now).1, (get_entry s id now).2)
unfolding get_entry
get-Logged s w id now v =
    let p = purge_expired-Evicted s w now v.within.holds in
    let b = storage_batch-Batched (purge_expired s now).1 (purge_expired s now).0 in
    let same = SameSettings-trans (Evicted-SameSettings p) b.settings in
    record {
      window = expire (cutoff s now) w;
      live = record {
        within = live-IsWithin now v.within same (SameWindow-Holds b.window p.holds);
        opened = same.is_closed ∙ v.opened;
        backend = same.backend ∙ v.backend;
      };
      same =
          ap (λ x. apply x w)
            (b.handed
              ∙ ap₂ (λ o x. if o then x else []) ((Evicted-SameSettings p).backend ∙ v.backend)
                  p.records)
          ∙ apply-expired (cutoff s now) w v.within.holds.distinct;
    }

emptied-same :
    (s : EntryStore) (n : ℕ) → SameSettings s (record (replay_clear s) { next_cursor = n })
unfolding replay_clear has_backend
emptied-same s n = record {
  retention = refl;
  max_events = refl;
  max_bytes = refl;
  is_closed = refl;
  backend = refl;
}

clear-Logged : (s : EntryStore) (w : List Entry) → IsLive s w → Logged s w (clear_entries s)
unfolding clear_entries replay_clear apply
clear-Logged s w v =
    let cursor = next s.next_cursor in
    let emptied = record (replay_clear s) { next_cursor = cursor } in
    let sent = broadcast-same emptied (StreamMessage.cleared cursor) in
    let b =
      storage_batch-Batched (broadcast emptied (StreamMessage.cleared cursor))
        (record { operation = Operation.clear; entry = none; cursor = cursor } ∷ []) in
    let same = SameSettings-trans (emptied-same s cursor) (SameSettings-trans sent.1 b.settings) in
    record {
      window = [];
      live = record {
        within = record {
          holds =
              SameWindow-Holds (SameWindow-trans sent.0 b.window)
                (cursor-Holds (replay_clear s) [] cursor (replay_clear-Holds s));
          events = omega arith;
          bytes = unfold total in omega arith;
          some_event = omega (arith, same.max_events, v.within.some_event);
          small = omega (arith, same.max_bytes, v.within.small);
        };
        opened = same.is_closed ∙ v.opened;
        backend = same.backend ∙ v.backend;
      };
      same =
          ap (λ x. apply x w)
            (b.handed
              ∙ ap
                  (λ o.
                    if o
                    then record { operation = Operation.clear; entry = none; cursor = cursor } ∷ []
                    else [])
                  (sent.1.backend ∙ (emptied-same s cursor).backend ∙ v.backend));
    }

step-Logged :
    (s : EntryStore) (w : List Entry) (c : Call) → IsLive s w → IsNamed c → Logged s w (step s c)
unfolding step
step-Logged s w (Call.put e now) v named = put-Logged s w e now v named
step-Logged s w Call.clear v named = clear-Logged s w v
step-Logged s w (Call.get id now) v named = get-Logged s w id now v

run-Logged :
    (calls : List Call) (s : EntryStore) (w : List Entry)
    → IsLive s w
    → All IsNamed calls
    → (v : List Entry) × IsLive (run s calls).1 v × (apply (run s calls).0 w ≡ v)
unfolding run apply
run-Logged [] s w v named = (w, v, refl)
run-Logged (c ∷ calls) s w v named =
    let l = step-Logged s w c v named.0 in
    let (u, last, same) = run-Logged calls (step s c).1 l.window l.live named.1 in
    (
      u,
      last,
      apply-append (step s c).0.records (run (step s c).1 calls).0 w
          ∙ ap (apply (run (step s c).1 calls).0) l.same
          ∙ same,
    )

-- After any sequence of calls on an open store with a backend, in which every entry has an id, the
-- records of all batches, in the order in which they were issued, bring any store that held the
-- first window to the window of the last state: nothing that is retained is lost by a restart, and
-- nothing that was evicted, replaced or cleared comes back.
pub replay-run :
    (calls : List Call) (s t : EntryStore) (w : List Entry)
    → IsLive s w
    → All IsNamed calls
    → Holds t w
    → (v : List Entry) × IsLive (run s calls).1 v × Holds (replay t (run s calls).0) v
replay-run calls s t w live named h =
    let (v, last, same) = run-Logged calls s w live named in
    (v, last, subst (Holds (replay t (run s calls).0)) same (replay-Holds (run s calls).0 t w h))
