-- ===== src/Store/Evict.antt =====
-- The loops of `purgeExpiredLocked` and `evictLocked` on a store that holds a window.
use webpprof.Prelude.{
  ℕ, zero, suc, ◌-◌, ◌≤◌, ◌<◌, ◌≡◌, refl, ap, ◌∙◌, false, none, List, [], ◌∷◌, map, length, arith,
  int64_limit, if◌then◌else◌, Bool-cases, ltb, inl, inr,
}
use webpprof.Order
use webpprof.Order.{EntryOrder}
use webpprof.Order.Fifo
use webpprof.Order.Methods.{front_lem}
use webpprof.Entry.{Entry}
use webpprof.Store.{
  EntryStore, StoreJournalRecord, delete_record, purge_loop, purge_expired, evict_loop, evict,
  over_limit,
}
use webpprof.Store.Window.{total, expired, expire, exceeds, surplus, trim}
use webpprof.Store.Holds.{
  Holds, count-Holds, shortened, front-Holds, entry_at-Holds, evict_one-Holds, shortened-Holds,
}

abbrev pub delete_records : List Entry → List StoreJournalRecord
delete_records = map (λ e. delete_record e.id)

-- the store `s` with what the eviction loops may change taken from `t`
abbrev pub only_window : EntryStore → EntryStore → EntryStore
only_window s t = record s {
  entries = t.entries;
  order = t.order;
  bytes = t.bytes;
  evicted = t.evicted;
}

-- A loop from `s` has taken the entries `gone` and left the window `rest`, and changed nothing else.
pub record Evicted (s : EntryStore) (gone rest : List Entry)
    (result : List StoreJournalRecord × EntryStore) : Type 0 where
  pub records : result.0 ≡ delete_records gone
  pub holds : Holds result.1 rest
  pub frame : result.1 ≡ only_window s result.1

nothing-Evicted : {s : EntryStore} {w : List Entry} → Holds s w → Evicted s [] w ([], s)
nothing-Evicted h = record { records = refl; holds = h; frame = refl }

front-empty : (s : EntryStore) → Holds s [] → Order.front s.order ≡ none
unfolding Fifo.first
front-empty s h = front_lem s.order h.order_valid ∙ ap Fifo.first h.order_ids

abbrev after_one :
    Entry → List StoreJournalRecord × EntryStore → List StoreJournalRecord × EntryStore
after_one e r = (delete_record e.id ∷ r.0, r.1)

one-Evicted :
    (s : EntryStore) (e : Entry) (w gone rest : List Entry) (h : Holds s (e ∷ w))
    (r : List StoreJournalRecord × EntryStore)
    → Evicted (shortened s e w h) gone rest r
    → Evicted s (e ∷ gone) rest (delete_record e.id ∷ r.0, r.1)
one-Evicted s e w gone rest h r v = record {
  records = ap (◌∷◌ (delete_record e.id)) v.records;
  holds = v.holds;
  frame = v.frame;
}

-- a round of the purge
purge_loop-suc :
    (s : EntryStore) (e : Entry) (w : List Entry) (h : Holds s (e ∷ w)) (fuel cutoff : ℕ)
    → purge_loop (suc fuel) cutoff s ≡ (
        if ltb e.recorded_at cutoff
        then after_one e (purge_loop fuel cutoff (shortened s e w h))
        else ([], s))
unfolding purge_loop
purge_loop-suc s e w h fuel cutoff =
    rw (front-Holds s e w h, purge_loop) (rw (evict_one-Holds s e w h, entry_at-Holds s e w h))

-- a round of the eviction
evict_loop-suc :
    (s : EntryStore) (e : Entry) (w : List Entry) (h : Holds s (e ∷ w)) (fuel : ℕ)
    → evict_loop (suc fuel) s
      ≡ (if over_limit s then after_one e (evict_loop fuel (shortened s e w h)) else ([], s))
unfolding evict_loop
evict_loop-suc s e w h fuel = rw (evict_one-Holds s e w h)

purge_loop-Evicted :
    (w : List Entry) (fuel cutoff : ℕ) (s : EntryStore)
    → Holds s w
    → length w ≤ fuel
    → Evicted s (expired cutoff w) (expire cutoff w) (purge_loop fuel cutoff s)
unfolding purge_loop expired expire
purge_loop-Evicted [] zero cutoff s h f = nothing-Evicted h
purge_loop-Evicted [] (suc fuel) cutoff s h f = rw (front-empty s h, purge_loop) (nothing-Evicted h)
purge_loop-Evicted (e ∷ w) zero cutoff s h f = absurd (omega arith)
purge_loop-Evicted (e ∷ w) (suc fuel) cutoff s h f =
    rw (purge_loop-suc s e w h fuel cutoff) elim (Bool-cases (ltb e.recorded_at cutoff)) [
      | inl old ↦ rw old (
          one-Evicted s e w (expired cutoff w) (expire cutoff w) h
            (purge_loop fuel cutoff (shortened s e w h))
            (purge_loop-Evicted w fuel cutoff (shortened s e w h) (shortened-Holds s e w h)
              (omega arith)))
      | inr new ↦ rw new (nothing-Evicted h)
    ]

-- `purgeExpiredLocked` removes exactly the entries at the front that are recorded before the cutoff.
pub purge_expired-Evicted :
    (s : EntryStore) (w : List Entry) (now : ℕ)
    → Holds s w
    → Evicted s (expired (now - s.retention) w) (expire (now - s.retention) w) (purge_expired s now)
unfolding purge_expired
purge_expired-Evicted s w now h =
    purge_loop-Evicted w s.order.count (now - s.retention) s h (omega (arith, count-Holds h))

-- The loop's test reads the window, as long as the sum of the sizes stays below 2 ^ 63.
over_limit-exceeds :
    (s : EntryStore) (e : Entry) (w : List Entry)
    → Holds s (e ∷ w)
    → total (e ∷ w) < int64_limit
    → s.max_bytes < int64_limit
    → over_limit s ≡ exceeds s.max_events s.max_bytes (e ∷ w)
unfolding over_limit
over_limit-exceeds s e w h t m = ground (arith, count-Holds h, h.bytes)

over_limit-empty : (s : EntryStore) → Holds s [] → over_limit s ≡ false
unfolding over_limit
over_limit-empty s h = ground (arith, count-Holds h)

total-tail : (e : Entry) (w : List Entry) {n : ℕ} → total (e ∷ w) < n → total w < n
unfolding total
total-tail e w h = omega arith

evict_loop-Evicted :
    (w : List Entry) (fuel : ℕ) (s : EntryStore)
    → Holds s w
    → length w ≤ fuel
    → total w < int64_limit
    → s.max_bytes < int64_limit
    → Evicted s
        (surplus s.max_events s.max_bytes w)
        (trim s.max_events s.max_bytes w)
        (evict_loop fuel s)
unfolding evict_loop surplus trim
evict_loop-Evicted [] zero s h f t m = nothing-Evicted h
evict_loop-Evicted [] (suc fuel) s h f t m = rw (over_limit-empty s h) (nothing-Evicted h)
evict_loop-Evicted (e ∷ w) zero s h f t m = absurd (omega arith)
evict_loop-Evicted (e ∷ w) (suc fuel) s h f t m =
    rw (evict_loop-suc s e w h fuel, over_limit-exceeds s e w h t m)
      elim (Bool-cases (exceeds s.max_events s.max_bytes (e ∷ w))) [
        | inl over ↦ rw over (
            one-Evicted s e w (surplus s.max_events s.max_bytes w) (trim s.max_events s.max_bytes w)
              h (evict_loop fuel (shortened s e w h))
              (evict_loop-Evicted w fuel (shortened s e w h) (shortened-Holds s e w h) (omega arith)
                (total-tail e w t) m))
        | inr within ↦ rw within (nothing-Evicted h)
      ]

-- `evictLocked` removes the shortest front of the window that brings it within both limits.
pub evict-Evicted :
    (s : EntryStore) (w : List Entry)
    → Holds s w
    → total w < int64_limit
    → s.max_bytes < int64_limit
    → Evicted s (surplus s.max_events s.max_bytes w) (trim s.max_events s.max_bytes w) (evict s)
unfolding evict
evict-Evicted s w h t m = evict_loop-Evicted w s.order.count s h (omega (arith, count-Holds h)) t m
