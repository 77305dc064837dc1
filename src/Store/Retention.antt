-- ===== src/Store/Retention.antt =====
-- Which entries a store retains through `put` and shows to `get`.
use webpprof.Prelude.{
  ℕ, ◌+◌, ◌≤◌, ◌≡◌, ap, ◌∙◌, false, some, List, [], ◌∷◌, ◌++◌, length, arith, Bool-cases, ltb, inl,
  inr, eq_iff,
}
use webpprof.Entry.{Entry, entry_size}
use webpprof.Store.{EntryStore, put}
use webpprof.Store.Window.{find, expire, without, with_entry}
use webpprof.Store.Window.Laws.{find-without, total-expire-le}
use webpprof.Store.Window.Trim.{trim_bounds, trim-snoc, expire-snoc, exceeds-alone}
use webpprof.Store.Evict.{purge_expired-Evicted}
use webpprof.Store.Frame.{SameSettings}
use webpprof.Store.Holds.{Holds}
use webpprof.Store.Put.{stamped}
use webpprof.Store.Bounds.{IsWithin, cutoff, put-Stored, put-rejected}
use webpprof.Store.Reads.{get}

length-expire-le : (c : ℕ) (w : List Entry) → length (expire c w) ≤ length w
unfolding expire
length-expire-le c [] = omega arith
length-expire-le c (e ∷ w) = ground (arith, length-expire-le c w)

-- the limits, with what a purge leaves
pub live-IsWithin :
    {s t : EntryStore} {w : List Entry} (now : ℕ)
    → IsWithin s w
    → SameSettings s t
    → Holds t (expire (cutoff s now) w)
    → IsWithin t (expire (cutoff s now) w)
live-IsWithin {s} {t} {w} now v same h = record {
  holds = h;
  events = omega (arith, same.max_events, length-expire-le (cutoff s now) w, v.events);
  bytes = omega (arith, same.max_bytes, total-expire-le (cutoff s now) w, v.bytes);
  some_event = omega (arith, same.max_events, v.some_event);
  small = omega (arith, same.max_bytes, v.small);
}

-- the limits, with what an eviction leaves
pub stored-IsWithin :
    {s t : EntryStore} {w : List Entry} (e : Entry) (live : List Entry)
    → IsWithin s w
    → SameSettings s t
    → Holds t (with_entry s.max_events s.max_bytes e live)
    → IsWithin t (with_entry s.max_events s.max_bytes e live)
stored-IsWithin {s} {t} {w} e live v same h =
    let b = trim_bounds s.max_events s.max_bytes (without e.id live ++ e ∷ []) in
    record {
      holds = h;
      events = omega (arith, same.max_events, b.0);
      bytes = omega (arith, same.max_bytes, b.1);
      some_event = omega (arith, same.max_events, v.some_event);
      small = omega (arith, same.max_bytes, v.small);
    }

-- `put` keeps an open store within its limits on every branch: the store holds some window of at
-- most `max_events` entries and `max_bytes` bytes, whether the entry was stored or refused.
pub put-IsWithin :
    (s : EntryStore) (w : List Entry) (entry : Entry) (now : ℕ)
    → IsWithin s w
    → s.is_closed ≡ false
    → (v : List Entry) × IsWithin (put s entry now).2 v
put-IsWithin s w entry now v opened = elim (Bool-cases (ltb s.max_bytes (entry_size entry))) [
  | inl big ↦
      let r = put-rejected s w entry now v opened (ground arith) in
      (expire (cutoff s now) w, live-IsWithin now v r.2 r.1)
  | inr fits ↦
      let r = put-Stored s w entry now v opened (ground arith) in
      let live = expire (cutoff s now) w in
      let e = stamped s entry in
      (with_entry s.max_events s.max_bytes e live, stored-IsWithin e live v r.settings r.holds)
]

-- An entry that `put` accepts is what `get` returns for its id, with the cursor that `put` gave it,
-- as long as it is not expired when `get` runs.
pub get-put :
    (s : EntryStore) (w : List Entry) (entry : Entry) (now later : ℕ)
    → IsWithin s w
    → s.is_closed ≡ false
    → entry_size entry ≤ s.max_bytes
    → later ≤ entry.recorded_at + s.retention
    → (get (put s entry now).2 entry.id later).0 ≡ some (stamped s entry)
unfolding get entry_size
get-put s w entry now later v opened fits young =
    let e = stamped s entry in
    let live = expire (cutoff s now) w in
    let r = put-Stored s w entry now v opened fits in
    let t = (put s entry now).2 in
    let kept =
      trim-snoc s.max_events s.max_bytes (without entry.id live) e
        (exceeds-alone s.max_events s.max_bytes e v.some_event fits)
        (find-without entry.id entry.id live ∙ ground (arith, eq_iff entry.id entry.id)) in
    (purge_expired-Evicted t (with_entry s.max_events s.max_bytes e live) later r.holds).holds.found
      entry.id
    ∙ ap (λ x. find entry.id (expire (cutoff t later) x)) kept.1
    ∙ expire-snoc (cutoff t later) kept.0 e (ground (arith, r.settings.retention)) kept.2
