-- ===== src/Store/Holds.antt =====
-- A store holds a window: its map, its order and its byte count agree with the list of entries.
use webpprof.Prelude.{
  suc, ◌%◌, String, ◌≡◌, refl, sym, ap, ◌∙◌, none, some, List, [], ◌∷◌, length, arith, eq_iff,
  sub64, int64_mod, length-tabulate, if◌then◌else◌, str_eq,
}
use webpprof.Prelude.Assoc.{lookup, delete, lookup-delete}
use webpprof.Order
use webpprof.Order.Inv.{IsValid}
use webpprof.Order.Fifo
use webpprof.Order.Contents.{contents}
use webpprof.Order.Methods.{pop_front_lem, front_lem}
use webpprof.Order.{slot}
use webpprof.Entry.{Entry, entry_size}
use webpprof.Store.{EntryStore, delete_record, next, entry_at, forget, remove_oldest, evict_one}
use webpprof.Store.Window.{ids, total, find, Distinct}

pub record Holds (s : EntryStore) (w : List Entry) : Type 0 where
  pub order_valid : IsValid s.order
  pub order_ids : contents s.order ≡ ids w
  pub distinct : Distinct w
  pub found : (k : String) → lookup k s.entries ≡ find k w
  pub bytes : s.bytes ≡ total w % int64_mod

length-ids : (w : List Entry) → length (ids w) ≡ length w
length-ids [] = refl
length-ids (e ∷ w) = ap suc (length-ids w)

-- The order counts the entries of the window.
pub count-Holds : {s : EntryStore} {w : List Entry} → Holds s w → s.order.count ≡ length w
count-Holds {s} {w} h =
    sym (length-tabulate (slot s.order) 0 s.order.count) ∙ ap length h.order_ids ∙ length-ids w

module _ (s : EntryStore) (e : Entry) (w : List Entry) (h : Holds s (e ∷ w)) where
  popped : Order.pop_front s.order ≡ (some e.id, (Order.pop_front s.order).1)
  unfolding Fifo.pop
  popped =
      ap (λ o. (o, (Order.pop_front s.order).1))
        ((pop_front_lem s.order h.order_valid).0 ∙ ap (λ q. (Fifo.pop q).0) h.order_ids)

  abbrev pub shortened : EntryStore
  shortened = record s {
    entries = delete e.id s.entries;
    order = (Order.pop_front s.order).1;
    bytes = sub64 s.bytes (entry_size e);
    evicted = next s.evicted;
  }

  pub front-Holds : Order.front s.order ≡ some e.id
  unfolding Fifo.first
  front-Holds = front_lem s.order h.order_valid ∙ ap Fifo.first h.order_ids

  found_first : lookup e.id s.entries ≡ some e
  unfolding find
  found_first = ground (arith, h.found e.id, eq_iff e.id e.id)

  pub entry_at-Holds : entry_at s e.id ≡ e
  entry_at-Holds = rw (found_first, entry_at)

  -- One round of the eviction loops takes the oldest entry,
  pub evict_one-Holds : evict_one s ≡ (some (delete_record e.id), shortened)
  unfolding evict_one remove_oldest forget
  evict_one-Holds = rw (popped, forget) (rw (found_first, forget))

  find-tail : (k : String) → (if str_eq e.id k then none else find k (e ∷ w)) ≡ find k w
  unfolding find
  find-tail k = ground (arith, eq_iff e.id k, h.distinct.0)

  -- and the store holds the others.
  pub shortened-Holds : Holds shortened w
  unfolding Fifo.pop total
  shortened-Holds = record {
    order_valid = (pop_front_lem s.order h.order_valid).2;
    order_ids = (pop_front_lem s.order h.order_valid).1 ∙ ap (λ q. (Fifo.pop q).1) h.order_ids;
    distinct = h.distinct.1;
    found = λ k.
        lookup-delete e.id k s.entries
        ∙ ap (λ o. if str_eq e.id k then none else o) (h.found k)
        ∙ find-tail k;
    bytes = omega (arith, h.bytes);
  }
