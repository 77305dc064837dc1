-- ===== src/Capture/LogRequest.antt =====
-- profiler.go, request.go: `LogRequest`, which stores a request and the entities that waited in it,
-- and `Finish`.
use webpprof.Prelude.{
  ℕ, ◌+◌, String, str_eq, true, none, some, List, [], ◌∷◌, set, lookup_at, if◌then◌else◌, sub_ℕ,
}
use webpprof.Prelude.Assoc.{Assoc}
use webpprof.Entry.{Kind}
use webpprof.Contracts.{
  Meta, Query, Email, Cache, Job, Log, HttpCall, Schedule, Exception, Event, Middleware, Request,
  RequestResult, Entity,
}
use webpprof.Capture.{Environment, Profiler, record_entity, passes}
use webpprof.Capture.Tags.{attach_request}
use webpprof.Capture.Log.{
  log_query, log_email, log_cache, log_job, log_log, log_http_call, log_schedule, log_exception,
  log_event, log_middleware,
}

-- a loop of `LogRequest`: each entity is attached to the request and logged
unfoldable pub log_all {ℓ} :
    {A : Type ℓ}
    → (A → Meta)
    → (Meta → A → A)
    → (Profiler → A → Profiler)
    → Profiler
    → String
    → Assoc String
    → List A
    → Profiler
log_all base with_base log p id tags [] = p
log_all base with_base log p id tags (x ∷ xs) =
    log_all base with_base log (log p (with_base (attach_request (base x) id tags) x)) id tags xs

-- the request that `LogRequest` stores, without the entities it has stored
abbrev pub stripped : Request → String → Request
stripped r id = record r {
  queries = [];
  emails = [];
  cache = [];
  jobs = [];
  logs = [];
  http_calls = [];
  schedules = [];
  exceptions = [];
  events = [];
  middlewares = [];
  base = record r.base { id = id; request_id = id };
}

-- the ten loops of `LogRequest`
abbrev pub log_queries_of : Environment → Request → String → Profiler → Profiler
log_queries_of env r id p =
    log_all (λ (x : Query). x.base) (λ meta x. record x { base = meta }) (log_query env) p id
      r.base.tags r.queries

abbrev pub log_emails_of : Environment → Request → String → Profiler → Profiler
log_emails_of env r id p =
    log_all (λ (x : Email). x.base) (λ meta x. record x { base = meta }) (log_email env) p id
      r.base.tags r.emails

abbrev pub log_cache_of : Environment → Request → String → Profiler → Profiler
log_cache_of env r id p =
    log_all (λ (x : Cache). x.base) (λ meta x. record x { base = meta }) (log_cache env) p id
      r.base.tags r.cache

abbrev pub log_jobs_of : Environment → Request → String → Profiler → Profiler
log_jobs_of env r id p =
    log_all (λ (x : Job). x.base) (λ meta x. record x { base = meta }) (log_job env) p id
      r.base.tags r.jobs

abbrev pub log_logs_of : Environment → Request → String → Profiler → Profiler
log_logs_of env r id p =
    log_all (λ (x : Log). x.base) (λ meta x. record x { base = meta }) (log_log env) p id
      r.base.tags r.logs

abbrev pub log_http_calls_of : Environment → Request → String → Profiler → Profiler
log_http_calls_of env r id p =
    log_all (λ (x : HttpCall). x.base) (λ meta x. record x { base = meta }) (log_http_call env) p id
      r.base.tags r.http_calls

abbrev pub log_schedules_of : Environment → Request → String → Profiler → Profiler
log_schedules_of env r id p =
    log_all (λ (x : Schedule). x.base) (λ meta x. record x { base = meta }) (log_schedule env) p id
      r.base.tags r.schedules

abbrev pub log_exceptions_of : Environment → Request → String → Profiler → Profiler
log_exceptions_of env r id p =
    log_all (λ (x : Exception). x.base) (λ meta x. record x { base = meta }) (log_exception env) p
      id r.base.tags r.exceptions

abbrev pub log_events_of : Environment → Request → String → Profiler → Profiler
log_events_of env r id p =
    log_all (λ (x : Event). x.base) (λ meta x. record x { base = meta }) (log_event env) p id
      r.base.tags r.events

abbrev pub log_middlewares_of : Environment → Request → String → Profiler → Profiler
log_middlewares_of env r id p =
    log_all (λ (x : Middleware). x.base) (λ meta x. record x { base = meta }) (log_middleware env) p
      id r.base.tags r.middlewares

unfoldable pub log_related : Environment → Request → String → Profiler → Profiler
log_related env r id p =
    let p1 = log_queries_of env r id p in
    let p2 = log_emails_of env r id p1 in
    let p3 = log_cache_of env r id p2 in
    let p4 = log_jobs_of env r id p3 in
    let p5 = log_logs_of env r id p4 in
    let p6 = log_http_calls_of env r id p5 in
    let p7 = log_schedules_of env r id p6 in
    let p8 = log_exceptions_of env r id p7 in
    let p9 = log_events_of env r id p8 in log_middlewares_of env r id p9

-- `LogRequest` of a request that is retained
unfoldable pub log_retained : Environment → Profiler → Request → Profiler
log_retained env p r =
    let needs_id = str_eq r.base.id "" in
    let id = if needs_id then env.new_id p.issued_ids else r.base.id in
    let named = record p { issued_ids = if needs_id then p.issued_ids + 1 else p.issued_ids } in
    let stored = stripped r id in
    record_entity env (log_related env r id named) Kind.request stored.base (Entity.request stored)

unfoldable pub log_request : Environment → Profiler → Request → Profiler
log_request env p r = if passes env.config.retention_filters r then log_retained env p r else p

-- the request that `Finish` logs
abbrev pub finished_request : Environment → Request → RequestResult → Request
finished_request env r result = record r {
  base = record r.base { duration = sub_ℕ env.now r.base.started_at };
  status = result.status;
  response_size = result.response_size;
  response = result.response;
  error = result.error;
}

unfoldable pub finish : Environment → Profiler → ℕ → RequestResult → Profiler
finish env p h result = elim (lookup_at p.captures h) [
  | none ↦ p
  | some c ↦
      if c.is_finished
      then p
      else let r = finished_request env c.request result in
        log_request env
          (record p { captures = set p.captures h (record { request = r; is_finished = true }) }) r
]
