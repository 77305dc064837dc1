-- ===== src/Store/Replay/Apply.antt =====
-- Replaying a record acts on the window that the store holds.
use webpprof.Prelude.{
  ℕ, String, str_eq, Option, none, some, List, [], ◌∷◌, ◌++◌, ◌≡◌, refl, sym, ap, ◌∙◌, arith,
  if◌then◌else◌, Bool-cases, Option-cases, inl, inr,
}
use webpprof.Prelude.Assoc.{lookup, lookup-delete}
use webpprof.Order.Fifo
use webpprof.Order.Removal.{remove_lem}
use webpprof.Order.Methods.{contents-reset, reset-IsValid}
use webpprof.Entry.{Entry}
use webpprof.Store.{EntryStore, Operation, StoreJournalRecord, attach, detach}
use webpprof.Store.Window.{total, find, without}
use webpprof.Store.Window.Laws.{
  find-without, without-absent, Distinct-without, total-without, erase-ids,
}
use webpprof.Store.Holds.{Holds}
use webpprof.Store.Attach.{detach-Detached, attach-Holds}
use webpprof.Store.Replay.{
  remove_memory, replay_clear, replay_put, replay_operation, replay_record, replay,
}

-- what a record does to a window
abbrev pub apply_operation : Operation → Option Entry → List Entry → List Entry
apply_operation Operation.clear entry w = []
apply_operation Operation.delete none w = w
apply_operation Operation.delete (some e) w = without e.id w
apply_operation Operation.put none w = w
apply_operation Operation.put (some e) w = if str_eq e.id "" then w else without e.id w ++ e ∷ []
apply_operation (Operation.other text) entry w = w

unfoldable pub apply : List StoreJournalRecord → List Entry → List Entry
apply [] w = w
apply (r ∷ records) w = apply records (apply_operation r.operation r.entry w)

remove_memory-Holds :
    (s : EntryStore) (w : List Entry) (id : String)
    → Holds s w
    → Holds (remove_memory s id) (without id w)
unfolding remove_memory
remove_memory-Holds s w id h = elim (Option-cases (find id w)) [
  | inl absent ↦ rw (h.found id ∙ absent, remove_memory) (rw (without-absent id w absent) h)
  | inr (p, present) ↦
      rw (h.found id ∙ present, remove_memory)
        (record {
          order_valid = (remove_lem s.order id h.order_valid).2;
          order_ids =
              (remove_lem s.order id h.order_valid).1
              ∙ ap (λ q. (Fifo.erase id q).1) h.order_ids
              ∙ erase-ids id w h.distinct;
          distinct = Distinct-without id w h.distinct;
          found = λ k.
              lookup-delete id k s.entries
              ∙ ap (λ o. if str_eq id k then none else o) (h.found k)
              ∙ sym (find-without id k w);
          bytes = omega (arith, h.bytes, total-without id w p h.distinct present);
        })
]

pub cursor-Holds :
    (s : EntryStore) (w : List Entry) (n : ℕ) → Holds s w → Holds (record s { next_cursor = n }) w
cursor-Holds s w n h = record {
  order_valid = h.order_valid;
  order_ids = h.order_ids;
  distinct = h.distinct;
  found = h.found;
  bytes = h.bytes;
}

replay_put-Holds :
    (s : EntryStore) (w : List Entry) (e : Entry)
    → Holds s w
    → Holds (replay_put s e) (without e.id w ++ e ∷ [])
unfolding replay_put
replay_put-Holds s w e h =
    let t = (detach s e.id).1 in
    cursor-Holds (attach t e) (without e.id w ++ e ∷ []) _
      (attach-Holds s t w e t.next_cursor h (detach-Detached s w e.id h))

lookup_empty : (k : String) → lookup {V = Entry} k [] ≡ none
unfolding lookup
lookup_empty k = refl

pub replay_clear-Holds : (s : EntryStore) → Holds (replay_clear s) []
unfolding replay_clear total find
replay_clear-Holds s = record {
  order_valid = reset-IsValid s.order;
  order_ids = contents-reset s.order;
  distinct = tt;
  found = λ k. lookup_empty k;
  bytes = refl;
}

replay_operation-Holds :
    (s : EntryStore) (w : List Entry) (o : Operation) (entry : Option Entry)
    → Holds s w
    → Holds (replay_operation s o entry) (apply_operation o entry w)
unfolding replay_operation
replay_operation-Holds s w Operation.clear entry h = replay_clear-Holds s
replay_operation-Holds s w Operation.delete none h = h
replay_operation-Holds s w Operation.delete (some e) h = remove_memory-Holds s w e.id h
replay_operation-Holds s w Operation.put none h = h
replay_operation-Holds s w Operation.put (some e) h = elim (Bool-cases (str_eq e.id "")) [
  | inl none_given ↦ rw none_given h
  | inr given ↦ rw given (replay_put-Holds s w e h)
]
replay_operation-Holds s w (Operation.other text) entry h = h

-- Replaying records from a store that holds a window gives a store that holds what the records make
-- of the window.
pub replay-Holds :
    (records : List StoreJournalRecord) (s : EntryStore) (w : List Entry)
    → Holds s w
    → Holds (replay s records) (apply records w)
unfolding replay apply replay_record
replay-Holds [] s w h = h
replay-Holds (r ∷ records) s w h =
    replay-Holds records (replay_record s r) (apply_operation r.operation r.entry w)
      (replay_operation-Holds s w r.operation r.entry h)
