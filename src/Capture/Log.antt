-- ===== src/Capture/Log.antt =====
-- profiler.go: `LogQuery` and the other Log methods of single entities.
use webpprof.Entry.{Kind}
use webpprof.Contracts.{
  Query, Email, Cache, Job, Log, HttpCall, Schedule, Callable, Task, Exception, Event, Middleware,
  Entity,
}
use webpprof.Capture.{Environment, Profiler, record_entity, prepare_callsite}

unfoldable pub log_query : Environment → Profiler → Query → Profiler
log_query env p q =
    let prepared = record q { callsite = prepare_callsite env Kind.query q.callsite } in
    record_entity env p Kind.query prepared.base (Entity.query prepared)

unfoldable pub log_email : Environment → Profiler → Email → Profiler
log_email env p e =
    let prepared = record e { callsite = prepare_callsite env Kind.email e.callsite } in
    record_entity env p Kind.email prepared.base (Entity.email prepared)

unfoldable pub log_cache : Environment → Profiler → Cache → Profiler
log_cache env p c =
    let prepared = record c { callsite = prepare_callsite env Kind.cache c.callsite } in
    record_entity env p Kind.cache prepared.base (Entity.cache prepared)

unfoldable pub log_job : Environment → Profiler → Job → Profiler
log_job env p j =
    let prepared = record j { callsite = prepare_callsite env Kind.job j.callsite } in
    record_entity env p Kind.job prepared.base (Entity.job prepared)

unfoldable pub log_log : Environment → Profiler → Log → Profiler
log_log env p l = record_entity env p Kind.log l.base (Entity.log l)

unfoldable pub log_http_call : Environment → Profiler → HttpCall → Profiler
log_http_call env p h =
    let prepared = record h { callsite = prepare_callsite env Kind.http_call h.callsite } in
    record_entity env p Kind.http_call prepared.base (Entity.http_call prepared)

unfoldable pub log_schedule : Environment → Profiler → Schedule → Profiler
log_schedule env p s =
    let prepared = record s { callsite = prepare_callsite env Kind.schedule s.callsite } in
    record_entity env p Kind.schedule prepared.base (Entity.schedule prepared)

unfoldable pub log_callable : Environment → Profiler → Callable → Profiler
log_callable env p c =
    let prepared = record c { callsite = prepare_callsite env Kind.callable c.callsite } in
    record_entity env p Kind.callable prepared.base (Entity.callable prepared)

unfoldable pub log_task : Environment → Profiler → Task → Profiler
log_task env p t =
    let prepared = record t { callsite = prepare_callsite env Kind.task t.callsite } in
    record_entity env p Kind.task prepared.base (Entity.task prepared)

unfoldable pub log_exception : Environment → Profiler → Exception → Profiler
log_exception env p e = record_entity env p Kind.exception e.base (Entity.exception e)

unfoldable pub log_event : Environment → Profiler → Event → Profiler
log_event env p e = record_entity env p Kind.event e.base (Entity.event e)

unfoldable pub log_middleware : Environment → Profiler → Middleware → Profiler
log_middleware env p m = record_entity env p Kind.middleware m.base (Entity.middleware m)
