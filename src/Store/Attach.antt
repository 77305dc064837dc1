-- ===== src/Store/Attach.antt =====
-- The steps of `put` that replace an entry, on a store that holds a window.
use webpprof.Prelude.{
  ℕ, ◌%◌, String, ◌≡◌, refl, sym, ap, ◌∙◌, some, List, [], ◌∷◌, ◌++◌, arith, eq_iff, int64_mod,
  if◌then◌else◌, Option-cases, inl, inr, str_eq, sub64,
}
use webpprof.Prelude.Assoc.{lookup, lookup-insert}
use webpprof.Order
use webpprof.Order.Fifo
use webpprof.Order.Inv.{IsValid}
use webpprof.Order.Contents.{contents}
use webpprof.Order.Methods.{contents-push_back, push_back-IsValid}
use webpprof.Order.Removal.{remove_lem}
use webpprof.Entry.{Entry, entry_size}
use webpprof.Store.{EntryStore, detach, attach}
use webpprof.Store.Window.{ids, total, find, without}
use webpprof.Store.Window.Laws.{
  find-snoc, find-without, without-absent, Distinct-without, Distinct-snoc, total-append,
  total-without, erase-ids, ids-append,
}
use webpprof.Store.Holds.{Holds}
use webpprof.Store.Frame.{SameSettings, SameSettings-refl, order_same}

-- What `put` has after taking an earlier version of the entry out of the order.
pub record Detached (s : EntryStore) (w : List Entry) (id : String) (t : EntryStore) : Type 0 where
  pub order_valid : IsValid t.order
  pub order_ids : contents t.order ≡ ids (without id w)
  pub entries : t.entries ≡ s.entries
  pub bytes : t.bytes ≡ total (without id w) % int64_mod
  pub cursor : t.next_cursor ≡ s.next_cursor
  pub settings : SameSettings s t

pub detach-Detached :
    (s : EntryStore) (w : List Entry) (id : String) → Holds s w → Detached s w id (detach s id).1
unfolding detach
detach-Detached s w id h = elim (Option-cases (find id w)) [
  | inl absent ↦
      rw (h.found id ∙ absent, detach)
        (record {
          order_valid = h.order_valid;
          order_ids = h.order_ids ∙ ap ids (sym (without-absent id w absent));
          entries = refl;
          bytes = h.bytes ∙ ap (λ v. total v % int64_mod) (sym (without-absent id w absent));
          cursor = refl;
          settings = SameSettings-refl s;
        })
  | inr (p, present) ↦
      rw (h.found id ∙ present, detach)
        (record {
          order_valid = (remove_lem s.order id h.order_valid).2;
          order_ids =
              (remove_lem s.order id h.order_valid).1
              ∙ ap (λ q. (Fifo.erase id q).1) h.order_ids
              ∙ erase-ids id w h.distinct;
          entries = refl;
          bytes = omega (arith, h.bytes, total-without id w p h.distinct present);
          cursor = refl;
          settings = order_same s (Order.remove s.order id).1 (sub64 s.bytes (entry_size p));
        })
]

pub attach-Holds :
    (s t : EntryStore) (w : List Entry) (e : Entry) (c : ℕ)
    → Holds s w
    → Detached s w e.id t
    → Holds (attach (record t { next_cursor = c }) e) (without e.id w ++ e ∷ [])
unfolding attach total
attach-Holds s t w e c h d = record {
  order_valid = push_back-IsValid t.order e.id d.order_valid;
  order_ids =
      contents-push_back t.order e.id d.order_valid
      ∙ ap (λ q. q ++ e.id ∷ []) d.order_ids
      ∙ sym (ids-append (without e.id w) (e ∷ []));
  distinct =
      Distinct-snoc e (without e.id w) (find-without e.id e.id w ∙ ground (arith, eq_iff e.id e.id))
        (Distinct-without e.id w h.distinct);
  found = λ k.
      lookup-insert e.id k e t.entries
      ∙ ap (λ o. if str_eq e.id k then some e else o) (ap (lookup k) d.entries ∙ h.found k)
      ∙ sym (find-snoc e k w);
  bytes = omega (arith, d.bytes, total-append (without e.id w) (e ∷ []));
}
