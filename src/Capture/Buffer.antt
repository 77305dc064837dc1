-- ===== src/Capture/Buffer.antt =====
-- request.go: a request capture, which buffers entities until the request is finished.
use webpprof.Prelude.{
  ℕ, ◌+◌, String, str_eq, Bool, true, false, Option, none, some, List, [], ◌∷◌, ◌++◌, set,
  lookup_at, if◌then◌else◌, ℤ, sub_ℕ, ◌==◌,
}
use webpprof.Prelude.Assoc.{Assoc}
use webpprof.Contracts.{
  Query, Email, Cache, Job, Log, HttpCall, Schedule, Exception, Event, Middleware, Request,
}
use webpprof.Capture.{Environment, Profiler}
use webpprof.Capture.Tags.{merge_tags}

-- `append`: whether the capture took the change. A capture that is nil is one outside the heap.
unfoldable pub append : Profiler → ℕ → (Request → Request) → Bool × Profiler
append p h add = elim (lookup_at p.captures h) [
  | none ↦ (false, p)
  | some c ↦
      if c.is_finished
      then (false, p)
      else (true, record p { captures = set p.captures h (record c { request = add c.request }) })
]

-- `ID`
unfoldable pub capture_id : Profiler → ℕ → String
capture_id p h = elim (lookup_at p.captures h) [ none ↦ "" | some c ↦ c.request.base.id ]

-- `BeginRequest`: the capture's place in the heap
unfoldable pub begin_request : Environment → Profiler → Request → ℕ × Profiler
begin_request env p r =
    let needs_id = str_eq r.base.id "" in
    let meta = record r.base {
      id = if needs_id then env.new_id p.issued_ids else r.base.id;
      started_at = if r.base.started_at == 0 then env.now else r.base.started_at;
    } in
    (
      webpprof.Prelude.length p.captures,
      record p {
        issued_ids = if needs_id then p.issued_ids + 1 else p.issued_ids;
        captures =
            p.captures ++ record { request = record r { base = meta }; is_finished = false } ∷ [];
      },
    )

unfoldable pub add_query : Query → Request → Request
add_query x r =
    let meta = record x.base { tags = merge_tags r.base.tags x.base.tags } in
    record r { queries = r.queries ++ record x { base = meta } ∷ [] }

unfoldable pub add_email : Email → Request → Request
add_email x r =
    let meta = record x.base { tags = merge_tags r.base.tags x.base.tags } in
    record r { emails = r.emails ++ record x { base = meta } ∷ [] }

unfoldable pub add_cache : Cache → Request → Request
add_cache x r =
    let meta = record x.base { tags = merge_tags r.base.tags x.base.tags } in
    record r { cache = r.cache ++ record x { base = meta } ∷ [] }

unfoldable pub add_job : Job → Request → Request
add_job x r =
    let meta = record x.base { tags = merge_tags r.base.tags x.base.tags } in
    record r { jobs = r.jobs ++ record x { base = meta } ∷ [] }

unfoldable pub add_log : Log → Request → Request
add_log x r =
    let meta = record x.base { tags = merge_tags r.base.tags x.base.tags } in
    record r { logs = r.logs ++ record x { base = meta } ∷ [] }

unfoldable pub add_http_call : HttpCall → Request → Request
add_http_call x r =
    let meta = record x.base { tags = merge_tags r.base.tags x.base.tags } in
    record r { http_calls = r.http_calls ++ record x { base = meta } ∷ [] }

unfoldable pub add_schedule : Schedule → Request → Request
add_schedule x r =
    let meta = record x.base { tags = merge_tags r.base.tags x.base.tags } in
    record r { schedules = r.schedules ++ record x { base = meta } ∷ [] }

unfoldable pub add_exception : Exception → Request → Request
add_exception x r =
    let meta = record x.base { tags = merge_tags r.base.tags x.base.tags } in
    record r { exceptions = r.exceptions ++ record x { base = meta } ∷ [] }

unfoldable pub add_event : Event → Request → Request
add_event x r =
    let meta = record x.base { tags = merge_tags r.base.tags x.base.tags } in
    record r { events = r.events ++ record x { base = meta } ∷ [] }

unfoldable pub add_middleware : Middleware → Request → Request
add_middleware x r =
    let meta = record x.base { tags = merge_tags r.base.tags x.base.tags } in
    record r { middlewares = r.middlewares ++ record x { base = meta } ∷ [] }

-- `RequestCapture.LogQuery`
unfoldable pub capture_query : Profiler → ℕ → Query → Profiler
capture_query p h x = (append p h (add_query x)).1

-- `RequestCapture.LogEmail`
unfoldable pub capture_email : Profiler → ℕ → Email → Profiler
capture_email p h x = (append p h (add_email x)).1

-- `RequestCapture.LogCache`
unfoldable pub capture_cache : Profiler → ℕ → Cache → Profiler
capture_cache p h x = (append p h (add_cache x)).1

-- `RequestCapture.LogJob`
unfoldable pub capture_job : Profiler → ℕ → Job → Profiler
capture_job p h x = (append p h (add_job x)).1

-- `RequestCapture.LogLog`
unfoldable pub capture_log : Profiler → ℕ → Log → Profiler
capture_log p h x = (append p h (add_log x)).1

-- `RequestCapture.LogHTTPCall`
unfoldable pub capture_http_call : Profiler → ℕ → HttpCall → Profiler
capture_http_call p h x = (append p h (add_http_call x)).1

-- `RequestCapture.LogSchedule`
unfoldable pub capture_schedule : Profiler → ℕ → Schedule → Profiler
capture_schedule p h x = (append p h (add_schedule x)).1

-- `RequestCapture.LogException`
unfoldable pub capture_exception : Profiler → ℕ → Exception → Profiler
capture_exception p h x = (append p h (add_exception x)).1

-- `RequestCapture.LogEvent`
unfoldable pub capture_event : Profiler → ℕ → Event → Profiler
capture_event p h x = (append p h (add_event x)).1

-- `RequestCapture.LogMiddleware`
unfoldable pub capture_middleware : Profiler → ℕ → Middleware → Profiler
capture_middleware p h x = (append p h (add_middleware x)).1

unfoldable pub add_tags : Profiler → ℕ → Assoc String → Profiler
add_tags p h [] = p
add_tags p h (tag ∷ tags) =
    (append p h
      (λ r. record r { base = record r.base { tags = merge_tags r.base.tags (tag ∷ tags) } })).1

unfoldable pub set_route : Profiler → ℕ → String → Profiler
set_route p h route =
    if str_eq route "" then p else (append p h (λ r. record r { route = route })).1
