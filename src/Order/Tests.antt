-- ===== src/Order/Tests.antt =====
-- Runs of the deque, and its theorems at concrete inputs.
use webpprof.Prelude.{◌≡◌, refl, List, [], ◌∷◌, ◌++◌, some, none, true, arith}
use webpprof.Order.{EntryOrder, slot, at, front, push_back, pop_front, remove, new_entry_order}
use webpprof.Order.Fifo
use webpprof.Order.Fifo.{Call, Reply}
use webpprof.Order.Inv.{IsValid}
use webpprof.Order.Contents.{contents}
use webpprof.Order.Methods.{contents-push_back, pop_front_lem}
use webpprof.Order.Refine.{run, run_refines}

-- "c" and "d" behind the end of the slice, "e" at its start
abbrev wrapped : EntryOrder
wrapped = record { values = "e" ∷ "" ∷ "c" ∷ "d" ∷ []; head = 2; count = 3 }

abbrev full : EntryOrder
full = record wrapped { values = "e" ∷ "f" ∷ "c" ∷ "d" ∷ []; count = 4 }

contents-wrapped : contents wrapped ≡ "c" ∷ "d" ∷ "e" ∷ []
contents-wrapped = refl

remove-wrapped : contents (remove wrapped "d").1 ≡ "c" ∷ "e" ∷ []
unfolding remove at
remove-wrapped = refl

full-IsValid : IsValid full
full-IsValid = omega arith

wrapped-IsValid : IsValid wrapped
wrapped-IsValid = omega arith

abbrev script : List Call
script =
    Call.push_back "a"
    ∷ Call.push_back "b"
    ∷ Call.push_back "c"
    ∷ Call.remove "b"
    ∷ Call.pop_front
    ∷ Call.front
    ∷ Call.reset
    ∷ Call.pop_front
    ∷ []

run-script :
    run (new_entry_order 0) script
    ≡ Reply.done
      ∷ Reply.done
      ∷ Reply.done
      ∷ Reply.removed true
      ∷ Reply.id (some "a")
      ∷ Reply.id (some "c")
      ∷ Reply.done
      ∷ Reply.id none
      ∷ []
unfolding run new_entry_order push_back remove pop_front front at webpprof.Order.grow
    webpprof.Order.reset
run-script = refl

contents-push_back_example : contents (push_back full "g") ≡ contents full ++ "g" ∷ []
contents-push_back_example = contents-push_back full "g" full-IsValid

pop_front_lem_example :
    ((pop_front wrapped).0 ≡ (Fifo.pop (contents wrapped)).0)
    × (contents (pop_front wrapped).1 ≡ (Fifo.pop (contents wrapped)).1)
    × IsValid (pop_front wrapped).1
pop_front_lem_example = pop_front_lem wrapped wrapped-IsValid

run_refines_example : run (new_entry_order 0) script ≡ Fifo.run [] script
run_refines_example = run_refines 0 script
