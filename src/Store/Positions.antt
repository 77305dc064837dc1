-- ===== src/Store/Positions.antt =====
-- The loops that walk the order of a store by index walk its window.
use webpprof.Prelude.{
  ℕ, zero, suc, ◌+◌, ◌≤◌, ◌<◌, ◌≡◌, eq_iff, String, Bool, true, false, none, some, List, [], ◌∷◌,
  ◌++◌, map, length, get_or, take, tabulate, filter, All, refl, sym, ap, ap₂, ◌∙◌, arith,
  if◌then◌else◌, Bool-cases, inl, inr, tabulate_congr, tabulate_shift,
}
use webpprof.Order
use webpprof.Order.Contents.{at-contents}
use webpprof.Entry.{Entry, zero_entry}
use webpprof.Store.{EntryStore, entry_at}
use mathlib.Core.Option
use webpprof.Store.{purge_expired}
use webpprof.Store.Evict.{purge_expired-Evicted}
use webpprof.Store.Bounds.{cutoff}
use webpprof.Store.Window.{expire}
use webpprof.Store.Reads.{collect, request_entries, belongs_to}
use webpprof.Store.Window.{ids, find, Distinct}
use webpprof.Store.Holds.{Holds, count-Holds}

get_or-ids : (w : List Entry) (i : ℕ) → get_or (ids w) i "" ≡ (get_or w i zero_entry).id
get_or-ids [] i = refl
get_or-ids (e ∷ w) zero = refl
get_or-ids (e ∷ w) (suc i) = get_or-ids w i

find-get_or :
    (w : List Entry) (i : ℕ)
    → Distinct w
    → i < length w
    → find (get_or w i zero_entry).id w ≡ some (get_or w i zero_entry)
unfolding find
find-get_or [] i d h = absurd (omega arith)
find-get_or (e ∷ w) zero d h = ground (arith, eq_iff e.id e.id)
find-get_or (e ∷ w) (suc i) d h =
    let g = get_or w i zero_entry in
    let ih = find-get_or w i d.1 (omega arith) in
    elim (Bool-cases (webpprof.Prelude.str_eq e.id g.id)) [
      | inl same ↦ cc (d.0, ap (λ k. find k w) ((eq_iff e.id g.id).0 same), ih)
      | inr other ↦ rw other ih
    ]

-- The entry at an index of the order is that of the window.
pub entry_at-index :
    (s : EntryStore) (w : List Entry) (i : ℕ)
    → Holds s w
    → i < length w
    → entry_at s (Order.at s.order i) ≡ get_or w i zero_entry
entry_at-index s w i h less =
    ap (λ o. elim o [ none ↦ zero_entry | some e ↦ e ])
      (h.found (Order.at s.order i)
        ∙ ap (λ k. find k w)
            (at-contents s.order i ∙ ap (λ q. get_or q i "") h.order_ids ∙ get_or-ids w i)
        ∙ find-get_or w i h.distinct less)

tabulate-get_or : (w : List Entry) → tabulate (λ i. get_or w i zero_entry) 0 (length w) ≡ w
tabulate-get_or [] = refl
tabulate-get_or (e ∷ w) = ap (◌∷◌ e) (
    tabulate_shift (λ i. get_or (e ∷ w) i zero_entry) (λ i. get_or w i zero_entry) 1 0 (length w)
      (λ k less.
        ap (λ j. get_or (e ∷ w) j zero_entry) {y = suc k} (omega arith)
        ∙ ap (λ j. get_or w j zero_entry) {x = k} (omega arith))
    ∙ tabulate-get_or w)

collect-filter :
    (s : EntryStore) (p : Entry → Bool) (rounds i : ℕ)
    → collect s p rounds i ≡ filter p (tabulate (λ k. entry_at s (Order.at s.order k)) i rounds)
unfolding collect
collect-filter s p zero i = refl
collect-filter s p (suc rounds) i =
    ap
      (λ rest.
        if p (entry_at s (Order.at s.order i))
        then entry_at s (Order.at s.order i) ∷ rest
        else rest)
      (collect-filter s p rounds (suc i))

-- A loop that collects entries finds those of the window that pass its test, oldest first.
pub collect-Holds :
    (s : EntryStore) (w : List Entry) (p : Entry → Bool)
    → Holds s w
    → collect s p s.order.count 0 ≡ filter p w
collect-Holds s w p h =
    collect-filter s p s.order.count 0
    ∙ ap (filter p) (
        ap (tabulate (λ k. entry_at s (Order.at s.order k)) 0) (count-Holds h)
        ∙ tabulate_congr (λ k. entry_at s (Order.at s.order k)) (λ k. get_or w k zero_entry) 0
            (length w) (λ k from less. entry_at-index s w k h (omega arith))
        ∙ tabulate-get_or w)

-- `requestEntries` returns the entry of the id and all entries that belong to it, oldest first, from the window without
-- the entries at its front that were recorded before the cutoff; an entry behind a younger one stays, however old it is.
pub request_entries_lem :
    (s : EntryStore) (w : List Entry) (id : String) (now : ℕ)
    → Holds s w
    → (request_entries s id now).0
      ≡ Option.map
          (λ r. (r, filter (belongs_to id) (expire (cutoff s now) w)))
          (find id (expire (cutoff s now) w))
unfolding request_entries
request_entries_lem s w id now h =
    let p = purge_expired-Evicted s w now h in
    ap₂ (λ o entries. Option.map (λ (r : Entry). (r, entries)) o) (p.holds.found id)
      (collect-Holds (purge_expired s now).1 (expire (cutoff s now) w) (belongs_to id) p.holds)
