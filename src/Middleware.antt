-- ===== src/Middleware.antt =====
-- profiler/http/middleware.go: `middlewareTiming`, the time that a profiled middleware spends outside of
-- the handlers that it calls. A time is a number of nanoseconds, 0 the zero time; `t` is none for a nil
-- pointer. `sort.Slice` by the start is the insertion sort of Analysis/Share.
pub mod Merging
pub mod Idle
pub mod Placed
pub mod Observer
pub mod Inbound
pub mod Serve
pub mod Body
pub mod Sending
pub mod Responses
mod Tests
use webpprof.Prelude.{
  ℕ, ◌+◌, Option, none, some, List, [], ◌∷◌, ◌++◌, map, max, ltb, leb, ◌==◌, if◌then◌else◌, ◌-◌,
  sub_ℕ,
}
use webpprof.Contracts.{MiddlewareWorkSpan}
use webpprof.Analysis.Share.{Interval, sort_intervals, prepend}

unfoldable pub record_downstream : Option (List Interval) → ℕ → ℕ → Option (List Interval)
record_downstream none start finish = none
record_downstream (some downstream) start finish =
    if ltb start finish
    then some (downstream ++ (record { start = start; stop = finish } ∷ []))
    else some downstream

-- the first loop's body
unfoldable pub clamp : ℕ → ℕ → Interval → Interval
clamp start finish i = record {
  start = if ltb i.start start then start else i.start;
  stop = if ltb finish i.stop then finish else i.stop;
}

abbrev pub no_interval : Interval
no_interval = record { start = 0; stop = 0 }

-- the body of the loop that merges: what it appends to `merged`, and the new `current`
unfoldable pub absorb : Interval → Interval → Option Interval × Interval
absorb current i =
    if leb i.stop i.start
    then (none, current)
    else if current.stop == 0
    then (none, i)
    else if leb i.start current.stop
    then (none, (if ltb current.stop i.stop then record current { stop = i.stop } else current))
    else (some current, i)

unfoldable pub merge : Interval → List Interval → List Interval
merge current [] = if current.stop == 0 then [] else current ∷ []
merge current (i ∷ rest) = let next = absorb current i in prepend next.0 (merge next.1 rest)

pub record Work : Type 0 where
  pub spans : List MiddlewareWorkSpan
  pub duration : ℕ

abbrev pub no_work : Work
no_work = record { spans = []; duration = 0 }

-- the span from the cursor on, before the spans and durations of the later rounds
abbrev pub add_work : ℕ → ℕ → ℕ → Work → Work
add_work start cursor until later = record {
  spans = record { offset = sub_ℕ cursor start; duration = sub_ℕ until cursor } ∷ later.spans;
  duration = until - cursor + later.duration;
}

-- the last loop, and the span after it
unfoldable pub gaps : ℕ → ℕ → ℕ → List Interval → Work
gaps start finish cursor [] =
    if ltb cursor finish then add_work start cursor finish no_work else no_work
gaps start finish cursor (i ∷ rest) =
    let until = if ltb cursor i.stop then i.stop else cursor in
    let later = gaps start finish until rest in
    if ltb cursor i.start then add_work start cursor i.start later else later

unfoldable pub work_spans : Option (List Interval) → ℕ → ℕ → Work
work_spans none start finish = no_work
work_spans (some downstream) start finish =
    let merged = merge no_interval (sort_intervals (map (clamp start finish) downstream)) in
    if ltb start finish then gaps start finish start merged else no_work
