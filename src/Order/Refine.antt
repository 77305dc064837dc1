-- ===== src/Order/Refine.antt =====
-- No sequence of calls tells a deque from the queue of its contents.
use webpprof.Prelude.{ℕ, ◌≡◌, refl, ap, ap₂, ◌∙◌, List, [], ◌∷◌}
use webpprof.Order.{EntryOrder, front, push_back, pop_front, remove, reset, new_entry_order}
use webpprof.Order.Fifo
use webpprof.Order.Fifo.{Call, Reply}
use webpprof.Order.Inv.{IsValid}
use webpprof.Order.Contents.{contents}
use webpprof.Order.Methods.{
  contents-push_back, push_back-IsValid, pop_front_lem, front_lem, contents-reset, reset-IsValid,
  contents-new_entry_order, new_entry_order-IsValid,
}
use webpprof.Order.Removal.{remove_lem}

-- one call of a client: the reply, and the deque after it
unfoldable pub step : EntryOrder → Call → Reply × EntryOrder
step d (Call.push_back x) = (Reply.done, push_back d x)
step d Call.pop_front = let (x, d') = pop_front d in (Reply.id x, d')
step d (Call.remove x) = let (found, d') = remove d x in (Reply.removed found, d')
step d Call.front = (Reply.id (front d), d)
step d Call.reset = (Reply.done, reset d)

unfoldable pub run : EntryOrder → List Call → List Reply
unfolding step
run d [] = []
run d (c ∷ cs) = let (r, d') = step d c in r ∷ run d' cs

step_refines :
    (d : EntryOrder) (c : Call)
    → IsValid d
    → ((step d c).0 ≡ (Fifo.step (contents d) c).0)
      × (contents (step d c).1 ≡ (Fifo.step (contents d) c).1)
      × IsValid (step d c).1
unfolding step Fifo.step
step_refines d (Call.push_back x) v = (refl, contents-push_back d x v, push_back-IsValid d x v)
step_refines d Call.pop_front v = let p = pop_front_lem d v in (ap Reply.id p.0, p.1, p.2)
step_refines d (Call.remove x) v = let p = remove_lem d x v in (ap Reply.removed p.0, p.1, p.2)
step_refines d Call.front v = (ap Reply.id (front_lem d v), refl, v)
step_refines d Call.reset v = (refl, contents-reset d, reset-IsValid d)

run-valid : (cs : List Call) (d : EntryOrder) → IsValid d → run d cs ≡ Fifo.run (contents d) cs
unfolding run Fifo.run
run-valid [] d v = refl
run-valid (c ∷ cs) d v =
    let p = step_refines d c v in
    ap₂ ◌∷◌ p.0 (run-valid cs (step d c).1 p.2 ∙ ap (λ q. Fifo.run q cs) p.1)

-- A new deque of any capacity answers every sequence of `pushBack`, `popFront`, `remove`, `front`
-- and `reset` as an empty queue does.
pub run_refines :
    (capacity : ℕ) (cs : List Call) → run (new_entry_order capacity) cs ≡ Fifo.run [] cs
run_refines capacity cs =
    run-valid cs (new_entry_order capacity) (new_entry_order-IsValid capacity)
    ∙ ap (λ q. Fifo.run q cs) (contents-new_entry_order capacity)
