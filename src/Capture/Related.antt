-- ===== src/Capture/Related.antt =====
-- Which entities `LogRequest` hands to the store.
use webpprof.Prelude.{
  ◌+◌, str_eq, ◌≡◌, String, List, [], ◌∷◌, ◌++◌, map, if◌then◌else◌, Bool-cases, inl, inr,
}
use webpprof.Entry.{Kind}
use webpprof.Contracts.{
  Request, Entity, Query, Email, Cache, Job, Log, HttpCall, Schedule, Exception, Event, Middleware,
}
use webpprof.Capture.{Environment, Profiler, passes, prepare_callsite, record_entity}
use webpprof.Capture.Log.{
  log_query, log_email, log_cache, log_job, log_log, log_http_call, log_schedule, log_exception,
  log_event, log_middleware,
}
use webpprof.Capture.LogRequest.{log_related, log_retained, log_request, stripped}
use webpprof.Capture.Conservation.{
  Item, shown, made, RecordsAll, Hands, Hands-then, record_entity-Hands, attached, log_all-Hands,
}

module _ (env : Environment) where
  -- what is handed over of an entity: all of it, with the callsite that is prepared for its kind
  abbrev pub query_item : Query → Item
  query_item x = record {
    kind = Kind.query;
    base = x.base;
    entity = Entity.query (record x { callsite = prepare_callsite env Kind.query x.callsite });
  }

  abbrev pub email_item : Email → Item
  email_item x = record {
    kind = Kind.email;
    base = x.base;
    entity = Entity.email (record x { callsite = prepare_callsite env Kind.email x.callsite });
  }

  abbrev pub cache_item : Cache → Item
  cache_item x = record {
    kind = Kind.cache;
    base = x.base;
    entity = Entity.cache (record x { callsite = prepare_callsite env Kind.cache x.callsite });
  }

  abbrev pub job_item : Job → Item
  job_item x = record {
    kind = Kind.job;
    base = x.base;
    entity = Entity.job (record x { callsite = prepare_callsite env Kind.job x.callsite });
  }

  abbrev pub log_item : Log → Item
  log_item x = record { kind = Kind.log; base = x.base; entity = Entity.log x }

  abbrev pub http_call_item : HttpCall → Item
  http_call_item x = record {
    kind = Kind.http_call;
    base = x.base;
    entity =
        Entity.http_call (record x { callsite = prepare_callsite env Kind.http_call x.callsite });
  }

  abbrev pub schedule_item : Schedule → Item
  schedule_item x = record {
    kind = Kind.schedule;
    base = x.base;
    entity =
        Entity.schedule (record x { callsite = prepare_callsite env Kind.schedule x.callsite });
  }

  abbrev pub exception_item : Exception → Item
  exception_item x = record { kind = Kind.exception; base = x.base; entity = Entity.exception x }

  abbrev pub event_item : Event → Item
  event_item x = record { kind = Kind.event; base = x.base; entity = Entity.event x }

  abbrev pub middleware_item : Middleware → Item
  middleware_item x = record { kind = Kind.middleware; base = x.base; entity = Entity.middleware x }

  -- the entities that wait in a request, in the order of the loops of `LogRequest`
  abbrev pub related_items : Request → String → List Item
  related_items r id =
      map query_item (
        attached (λ (x : Query). x.base) (λ meta x. record x { base = meta }) id r.base.tags
          r.queries)
      ++ (map email_item (
            attached (λ (x : Email). x.base) (λ meta x. record x { base = meta }) id r.base.tags
              r.emails)
          ++ (map cache_item (
                attached (λ (x : Cache). x.base) (λ meta x. record x { base = meta }) id r.base.tags
                  r.cache)
              ++ (map job_item (
                    attached (λ (x : Job). x.base) (λ meta x. record x { base = meta }) id
                      r.base.tags r.jobs)
                  ++ (map log_item (
                        attached (λ (x : Log). x.base) (λ meta x. record x { base = meta }) id
                          r.base.tags r.logs)
                      ++ (map http_call_item (
                            attached (λ (x : HttpCall). x.base) (λ meta x. record x { base = meta })
                              id r.base.tags r.http_calls)
                          ++ (map schedule_item (
                                attached (λ (x : Schedule). x.base)
                                  (λ meta x. record x { base = meta }) id r.base.tags r.schedules)
                              ++ (map exception_item (
                                    attached (λ (x : Exception). x.base)
                                      (λ meta x. record x { base = meta }) id r.base.tags
                                      r.exceptions)
                                  ++ (map event_item (
                                        attached (λ (x : Event). x.base)
                                          (λ meta x. record x { base = meta }) id r.base.tags
                                          r.events)
                                      ++ (map middleware_item (
                                          attached (λ (x : Middleware). x.base)
                                            (λ meta x. record x { base = meta }) id r.base.tags
                                            r.middlewares))))))))))

  -- and the request itself, without them
  abbrev pub request_items : Request → String → List Item
  request_items r id =
      related_items r id
      ++ record {
        kind = Kind.request;
        base = (stripped r id).base;
        entity = Entity.request (stripped r id);
      }
        ∷ []

  pub log_query-Hands : (x : Query) → Hands env (query_item x ∷ []) (λ p. log_query env p x)
  unfolding log_query
  log_query-Hands x = record_entity-Hands env Kind.query x.base (query_item x).entity

  pub log_email-Hands : (x : Email) → Hands env (email_item x ∷ []) (λ p. log_email env p x)
  unfolding log_email
  log_email-Hands x = record_entity-Hands env Kind.email x.base (email_item x).entity

  pub log_cache-Hands : (x : Cache) → Hands env (cache_item x ∷ []) (λ p. log_cache env p x)
  unfolding log_cache
  log_cache-Hands x = record_entity-Hands env Kind.cache x.base (cache_item x).entity

  pub log_job-Hands : (x : Job) → Hands env (job_item x ∷ []) (λ p. log_job env p x)
  unfolding log_job
  log_job-Hands x = record_entity-Hands env Kind.job x.base (job_item x).entity

  pub log_log-Hands : (x : Log) → Hands env (log_item x ∷ []) (λ p. log_log env p x)
  unfolding log_log
  log_log-Hands x = record_entity-Hands env Kind.log x.base (log_item x).entity

  pub log_http_call-Hands :
      (x : HttpCall) → Hands env (http_call_item x ∷ []) (λ p. log_http_call env p x)
  unfolding log_http_call
  log_http_call-Hands x = record_entity-Hands env Kind.http_call x.base (http_call_item x).entity

  pub log_schedule-Hands :
      (x : Schedule) → Hands env (schedule_item x ∷ []) (λ p. log_schedule env p x)
  unfolding log_schedule
  log_schedule-Hands x = record_entity-Hands env Kind.schedule x.base (schedule_item x).entity

  pub log_exception-Hands :
      (x : Exception) → Hands env (exception_item x ∷ []) (λ p. log_exception env p x)
  unfolding log_exception
  log_exception-Hands x = record_entity-Hands env Kind.exception x.base (exception_item x).entity

  pub log_event-Hands : (x : Event) → Hands env (event_item x ∷ []) (λ p. log_event env p x)
  unfolding log_event
  log_event-Hands x = record_entity-Hands env Kind.event x.base (event_item x).entity

  pub log_middleware-Hands :
      (x : Middleware) → Hands env (middleware_item x ∷ []) (λ p. log_middleware env p x)
  unfolding log_middleware
  log_middleware-Hands x = record_entity-Hands env Kind.middleware x.base (middleware_item x).entity

  log_related-Hands :
      (r : Request) (id : String) → Hands env (related_items r id) (log_related env r id)
  unfolding log_related
  log_related-Hands r id =
      let tags = r.base.tags in
      let a0 =
        log_all-Hands env (λ (x : Query). x.base) (λ meta x. record x { base = meta })
          (log_query env) query_item log_query-Hands id tags r.queries in
      let a1 =
        log_all-Hands env (λ (x : Email). x.base) (λ meta x. record x { base = meta })
          (log_email env) email_item log_email-Hands id tags r.emails in
      let a2 =
        log_all-Hands env (λ (x : Cache). x.base) (λ meta x. record x { base = meta })
          (log_cache env) cache_item log_cache-Hands id tags r.cache in
      let a3 =
        log_all-Hands env (λ (x : Job). x.base) (λ meta x. record x { base = meta }) (log_job env)
          job_item log_job-Hands id tags r.jobs in
      let a4 =
        log_all-Hands env (λ (x : Log). x.base) (λ meta x. record x { base = meta }) (log_log env)
          log_item log_log-Hands id tags r.logs in
      let a5 =
        log_all-Hands env (λ (x : HttpCall). x.base) (λ meta x. record x { base = meta })
          (log_http_call env) http_call_item log_http_call-Hands id tags r.http_calls in
      let a6 =
        log_all-Hands env (λ (x : Schedule). x.base) (λ meta x. record x { base = meta })
          (log_schedule env) schedule_item log_schedule-Hands id tags r.schedules in
      let a7 =
        log_all-Hands env (λ (x : Exception). x.base) (λ meta x. record x { base = meta })
          (log_exception env) exception_item log_exception-Hands id tags r.exceptions in
      let a8 =
        log_all-Hands env (λ (x : Event). x.base) (λ meta x. record x { base = meta })
          (log_event env) event_item log_event-Hands id tags r.events in
      let a9 =
        log_all-Hands env (λ (x : Middleware). x.base) (λ meta x. record x { base = meta })
          (log_middleware env) middleware_item log_middleware-Hands id tags r.middlewares in
      Hands-then a0 (
        Hands-then a1 (
          Hands-then a2 (
            Hands-then a3
              (Hands-then a4 (Hands-then a5 (Hands-then a6 (Hands-then a7 (Hands-then a8 a9))))))))

  -- the id that `LogRequest` gives a request
  abbrev pub id_of : Request → Profiler → String
  id_of r p = if str_eq r.base.id "" then env.new_id p.issued_ids else r.base.id

  abbrev named : Request → Profiler → Profiler
  named r p = record p {
    issued_ids = if str_eq r.base.id "" then p.issued_ids + 1 else p.issued_ids;
  }

  request-Hands :
      (r : Request) (id : String)
      → Hands env (request_items r id) (λ p.
        record_entity env
          (log_related env r id p)
          Kind.request
          (stripped r id).base
          (Entity.request (stripped r id)))
  request-Hands r id =
      Hands-then (log_related-Hands r id)
        (record_entity-Hands env Kind.request (stripped r id).base (Entity.request (stripped r id)))

  pub log_retained-puts :
      (r : Request) (p : Profiler)
      → RecordsAll env
      → shown (log_retained env p r).puts ≡ shown p.puts ++ made env (request_items r (id_of r p))
  unfolding log_retained
  log_retained-puts r p all = (request-Hands r (id_of r p)).puts all (named r p)

  pub log_request-captures :
      (p : Profiler) (r : Request) → (log_request env p r).captures ≡ p.captures
  unfolding log_request log_retained
  log_request-captures p r = elim (Bool-cases (passes env.config.retention_filters r)) [
    | inl kept ↦ rw kept ((request-Hands r (id_of r p)).captures (named r p))
    | inr dropped ↦ rw dropped
  ]
