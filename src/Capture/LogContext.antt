-- ===== src/Capture/LogContext.antt =====
-- context.go: `LogQueryContext` and the other Log methods that take a context.
use webpprof.Prelude.{none, some, if◌then◌else◌}
use webpprof.Entry.{Kind}
use webpprof.Contracts.{
  Meta, Query, Email, Cache, Job, Log, HttpCall, Schedule, Callable, Task, Exception, Event,
  Middleware, Request,
}
use webpprof.Capture.{Environment, Profiler, prepare_callsite}
use webpprof.Capture.Context.{
  Context, request_from_context, recording_enabled, without_correlation, inherit_context_meta,
}
use webpprof.Capture.Log.{
  log_query, log_email, log_cache, log_job, log_log, log_http_call, log_schedule, log_callable,
  log_task, log_exception, log_event, log_middleware,
}
use webpprof.Capture.Buffer.{
  append, capture_id, add_query, add_email, add_cache, add_job, add_log, add_http_call,
  add_exception, add_event, add_middleware,
}

-- What the methods that buffer share: the request of the context takes the entity, or it is logged.
unfoldable pub deliver {ℓ} :
    {A : Type ℓ}
    → (A → Meta)
    → (Meta → A → A)
    → (A → Request → Request)
    → (Profiler → A → Profiler)
    → Profiler
    → Context
    → A
    → Profiler
deliver base with_base add log p ctx x0 =
    let x = with_base (inherit_context_meta ctx (base x0)) x0 in
    elim (request_from_context ctx) [
      | none ↦ log p x
      | some h ↦
          let linked = with_base (record (base x) { request_id = capture_id p h }) x in
          let (is_taken, p') = append p h (add linked) in if is_taken then p' else log p' linked
    ]

unfoldable pub log_query_context : Environment → Profiler → Context → Query → Profiler
log_query_context env p ctx x =
    if recording_enabled ctx
    then deliver (λ (y : Query). y.base) (λ meta y. record y { base = meta }) add_query
        (log_query env) p ctx (record x { callsite = prepare_callsite env Kind.query x.callsite })
    else p

unfoldable pub log_email_context : Environment → Profiler → Context → Email → Profiler
log_email_context env p ctx x =
    if recording_enabled ctx
    then deliver (λ (y : Email). y.base) (λ meta y. record y { base = meta }) add_email
        (log_email env) p ctx (record x { callsite = prepare_callsite env Kind.email x.callsite })
    else p

unfoldable pub log_cache_context : Environment → Profiler → Context → Cache → Profiler
log_cache_context env p ctx x =
    if recording_enabled ctx
    then deliver (λ (y : Cache). y.base) (λ meta y. record y { base = meta }) add_cache
        (log_cache env) p ctx (record x { callsite = prepare_callsite env Kind.cache x.callsite })
    else p

unfoldable pub log_job_context : Environment → Profiler → Context → Job → Profiler
log_job_context env p ctx x =
    if recording_enabled ctx
    then deliver (λ (y : Job). y.base) (λ meta y. record y { base = meta }) add_job (log_job env) p
        ctx (record x { callsite = prepare_callsite env Kind.job x.callsite })
    else p

unfoldable pub log_log_context : Environment → Profiler → Context → Log → Profiler
log_log_context env p ctx x =
    if recording_enabled ctx
    then deliver (λ (y : Log). y.base) (λ meta y. record y { base = meta }) add_log (log_log env) p
        ctx x
    else p

unfoldable pub log_http_call_context : Environment → Profiler → Context → HttpCall → Profiler
log_http_call_context env p ctx x =
    if recording_enabled ctx
    then deliver (λ (y : HttpCall). y.base) (λ meta y. record y { base = meta }) add_http_call
        (log_http_call env) p ctx
        (record x { callsite = prepare_callsite env Kind.http_call x.callsite })
    else p

unfoldable pub log_schedule_context : Environment → Profiler → Context → Schedule → Profiler
log_schedule_context env p ctx x =
    let prepared = record x { callsite = prepare_callsite env Kind.schedule x.callsite } in
    let meta = inherit_context_meta (without_correlation ctx) prepared.base in
    if recording_enabled ctx then log_schedule env p (record prepared { base = meta }) else p

unfoldable pub log_callable_context : Environment → Profiler → Context → Callable → Profiler
log_callable_context env p ctx x =
    let prepared = record x { callsite = prepare_callsite env Kind.callable x.callsite } in
    let meta = inherit_context_meta (without_correlation ctx) prepared.base in
    if recording_enabled ctx then log_callable env p (record prepared { base = meta }) else p

unfoldable pub log_task_context : Environment → Profiler → Context → Task → Profiler
log_task_context env p ctx x =
    let prepared = record x { callsite = prepare_callsite env Kind.task x.callsite } in
    let meta = inherit_context_meta (without_correlation ctx) prepared.base in
    if recording_enabled ctx then log_task env p (record prepared { base = meta }) else p

unfoldable pub log_exception_context : Environment → Profiler → Context → Exception → Profiler
log_exception_context env p ctx x =
    if recording_enabled ctx
    then deliver (λ (y : Exception). y.base) (λ meta y. record y { base = meta }) add_exception
        (log_exception env) p ctx x
    else p

unfoldable pub log_event_context : Environment → Profiler → Context → Event → Profiler
log_event_context env p ctx x =
    if recording_enabled ctx
    then deliver (λ (y : Event). y.base) (λ meta y. record y { base = meta }) add_event
        (log_event env) p ctx x
    else p

unfoldable pub log_middleware_context : Environment → Profiler → Context → Middleware → Profiler
log_middleware_context env p ctx x =
    if recording_enabled ctx
    then deliver (λ (y : Middleware). y.base) (λ meta y. record y { base = meta }) add_middleware
        (log_middleware env) p ctx x
    else p
