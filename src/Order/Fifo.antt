-- ===== src/Order/Fifo.antt =====
-- The queue that `entryOrder` promises: a list of ids, oldest first.
use webpprof.Prelude.{
  String, str_eq, Bool, true, false, Option, none, some, List, [], ◌∷◌, ◌++◌, if◌then◌else◌,
}

pub data Call : Type 0 where
  push_back : String → Call
  pop_front : Call
  remove : String → Call
  front : Call
  reset : Call

pub data Reply : Type 0 where
  done : Reply
  id : Option String → Reply
  removed : Bool → Reply

unfoldable pub pop : List String → Option String × List String
pop [] = (none, [])
pop (x ∷ xs) = (some x, xs)

unfoldable pub first : List String → Option String
first [] = none
first (x ∷ xs) = some x

-- without the first occurrence of `x`, and whether there was one
unfoldable pub erase : String → List String → Bool × List String
erase x [] = (false, [])
erase x (y ∷ ys) =
    let (found, rest) = erase x ys in if str_eq y x then (true, ys) else (found, y ∷ rest)

unfoldable pub step : List String → Call → Reply × List String
unfolding pop first erase
step q (push_back x) = (done, q ++ x ∷ [])
step q pop_front = let (x, rest) = pop q in (id x, rest)
step q (remove x) = let (found, rest) = erase x q in (removed found, rest)
step q front = (id (first q), q)
step q reset = (done, [])

unfoldable pub run : List String → List Call → List Reply
run q [] = []
run q (c ∷ cs) = let (r, q') = step q c in r ∷ run q' cs
