-- ===== src/Capture/Finish.antt =====
-- What `Finish` and the Log methods with a context store, and that a request is stored once.
use webpprof.Prelude.{
  ℕ, ◌≡◌, refl, sym, ap, ◌∙◌, ◌++◌, String, true, false, none, some, List, [], ◌∷◌, ◌⊎◌, set,
  lookup_at, lookup_at-set_self, Bool-cases, Option-cases, inl, inr,
}
use webpprof.Entry.{Kind}
use webpprof.Contracts.{Request, RequestResult, Query}
use webpprof.Capture.{Environment, Profiler, RequestCapture, passes, prepare_callsite}
use webpprof.Capture.Tags.{merge_tags}
use webpprof.Capture.Context.{
  Context, recording_enabled, request_from_context, inherit_context_meta,
}
use webpprof.Capture.Log.{log_query}
use webpprof.Capture.Buffer.{append, capture_id, add_query}
use webpprof.Capture.LogRequest.{log_request, finish, finished_request}
use webpprof.Capture.LogContext.{deliver, log_query_context}
use webpprof.Capture.Conservation.{Shown, shown, made, RecordsAll}
use webpprof.Capture.Related.{
  query_item, request_items, id_of, log_query-Hands, log_retained-puts, log_request-captures,
}

-- the query as the context makes it: with the callsite of its kind, and the tags and parent of the context
abbrev pub query_in : Environment → Context → Query → Query
query_in env ctx x = record x {
  callsite = prepare_callsite env Kind.query x.callsite;
  base = inherit_context_meta ctx x.base;
}

abbrev pub linked_to : String → Query → Query
linked_to id y = record y { base = record y.base { request_id = id } }

-- The query waits at the end of those of the open request of the context, with the id and the tags of the request, and
-- nothing is stored.
pub record Waits (p : Profiler) (ctx : Context) (y : Query) (result : Profiler) : Type 0 where
  pub handle : ℕ
  pub capture : RequestCapture
  pub inside : request_from_context ctx ≡ some handle
  pub there : lookup_at p.captures handle ≡ some capture
  pub is_open : capture.is_finished ≡ false
  pub taken :
      let r = capture.request in
      let linked = linked_to r.base.id y in
      let waiting = record linked {
        base = record linked.base { tags = merge_tags r.base.tags y.base.tags };
      } in
      result ≡ record p {
        captures =
            set p.captures handle
              (record capture { request = record r { queries = r.queries ++ waiting ∷ [] } });
      }

abbrev pub stored_query : Profiler → Context → Query → Query
stored_query p ctx y = elim (request_from_context ctx) [
  | none ↦ y
  | some h ↦ linked_to (capture_id p h) y
]

-- The context has no open request, and the query is stored, with the id of the request that the context has.
pub record Stores (env : Environment) (p : Profiler) (ctx : Context) (y : Query) (result : Profiler)
    : Type 0 where
  pub closed :
      (h : ℕ) (c : RequestCapture)
      → request_from_context ctx ≡ some h
      → lookup_at p.captures h ≡ some c
      → c.is_finished ≡ true
  pub captures : result.captures ≡ p.captures
  pub puts :
      shown result.puts ≡ shown p.puts ++ made env (query_item env (stored_query p ctx y) ∷ [])

-- the entries after a query was stored
abbrev after_query : Environment → Profiler → Query → List Shown
after_query env p q = shown p.puts ++ made env (query_item env q ∷ [])

abbrev delivered_query : Environment → Profiler → Context → Query → Profiler
delivered_query env p ctx x =
    deliver (λ (y : Query). y.base) (λ meta y. record y { base = meta }) add_query (log_query env) p
      ctx x

stored-Stores :
    (env : Environment) (p : Profiler) (ctx : Context) (y stored : Query) (result : Profiler)
    → RecordsAll env
    → result ≡ log_query env p stored
    → stored_query p ctx y ≡ stored
    → ((h : ℕ) (c : RequestCapture)
        → request_from_context ctx ≡ some h
        → lookup_at p.captures h ≡ some c
        → c.is_finished ≡ true)
    → Stores env p ctx y result
stored-Stores env p ctx y stored result all logged same closed =
    let hands = log_query-Hands env stored in
    record {
      closed = closed;
      captures = ap (λ q. q.captures) logged ∙ hands.captures p;
      puts = ap (λ q. shown q.puts) logged ∙ (hands.puts all p ∙ ap (after_query env p) (sym same));
    }

deliver-Waits :
    (env : Environment) (p : Profiler) (ctx : Context) (x : Query)
    → RecordsAll env
    → let y = record x { base = inherit_context_meta ctx x.base } in
      Waits p ctx y (delivered_query env p ctx x) ⊎ Stores env p ctx y (delivered_query env p ctx x)
unfolding deliver append add_query capture_id
deliver-Waits env p ctx x all =
    let y = record x { base = inherit_context_meta ctx x.base } in
    elim (Option-cases (request_from_context ctx)) [
      | inl outside ↦ inr (
          stored-Stores env p ctx y y (delivered_query env p ctx x) all (rw (deliver, outside) refl)
            (rw (stored_query, outside) refl) (λ h c inside there. cc))
      | inr (h, inside) ↦
          let id = capture_id p h in
          elim (Option-cases (lookup_at p.captures h)) [
            | inl nowhere ↦ inr (
                stored-Stores env p ctx y (linked_to id y) (delivered_query env p ctx x) all
                  (rw (deliver, inside, append, nowhere) refl) (rw (stored_query, inside) refl)
                  (λ k c within found. cc))
            | inr (c, there) ↦ elim (Bool-cases c.is_finished) [
              | inl over ↦ inr (
                  stored-Stores env p ctx y (linked_to id y) (delivered_query env p ctx x) all
                    (rw (deliver, inside, append, there, over) refl)
                    (rw (stored_query, inside) refl) (λ k d within found. cc))
              | inr still ↦ inl (record {
                handle = h;
                capture = c;
                inside = inside;
                there = there;
                is_open = still;
                taken =
                    let named : id ≡ c.request.base.id = rw (capture_id, there) refl in
                    rw (deliver, inside, append, there, still)
                      (ap
                        (λ n. record p {
                          captures = set p.captures h (record {
                            request = add_query (linked_to n y) c.request;
                            is_finished = false;
                          });
                        })
                        named);
              })
            ]
          ]
    ]

-- A query that is logged with a context in which recording is on waits in the request of the context, whole and after
-- those before it, if that request is open; if not, it is handed to the store, whole. Every kind is recorded.
pub log_query_context-Waits :
    (env : Environment) (p : Profiler) (ctx : Context) (x : Query)
    → RecordsAll env
    → recording_enabled ctx ≡ true
    → Waits p ctx (query_in env ctx x) (log_query_context env p ctx x)
      ⊎ Stores env p ctx (query_in env ctx x) (log_query_context env p ctx x)
unfolding log_query_context
log_query_context-Waits env p ctx x all on = rw on (
    deliver-Waits env p ctx (record x { callsite = prepare_callsite env Kind.query x.callsite })
      all)

-- the profiler with the capture finished
abbrev marked : Profiler → ℕ → Request → Profiler
marked p h r = record p { captures = set p.captures h (record { request = r; is_finished = true }) }

module _ (env : Environment) (p : Profiler) (h : ℕ) (result : RequestResult) where
  finish-missing : lookup_at p.captures h ≡ none → finish env p h result ≡ p
  unfolding finish
  finish-missing nowhere = rw (nowhere, finish)

  finish-closed :
      (c : RequestCapture)
      → lookup_at p.captures h ≡ some c
      → c.is_finished ≡ true
      → finish env p h result ≡ p
  unfolding finish
  finish-closed c there over = rw (there, finish) (rw over)

  finish-open :
      (c : RequestCapture)
      → lookup_at p.captures h ≡ some c
      → c.is_finished ≡ false
      → finish env p h result
        ≡ (let r = finished_request env c.request result in log_request env (marked p h r) r)
  unfolding finish
  finish-open c there still = rw (there, finish) (rw still)

-- `Finish` of a request that is open and retained hands to the store every entity that waits in it, whole and attached
-- to the request, kind by kind and in their order, and then the request itself, and marks it as finished. Every kind is
-- recorded.
pub finish-HandsOver :
    (env : Environment) (p : Profiler) (h : ℕ) (c : RequestCapture) (result : RequestResult)
    → RecordsAll env
    → lookup_at p.captures h ≡ some c
    → c.is_finished ≡ false
    → passes env.config.retention_filters (finished_request env c.request result) ≡ true
    → let r = finished_request env c.request result in
      (shown (finish env p h result).puts
        ≡ shown p.puts ++ made env (request_items env r (id_of env r p)))
      × ((finish env p h result).captures
          ≡ set p.captures h (record { request = r; is_finished = true }))
unfolding log_request
finish-HandsOver env p h c result all there still kept =
    let r = finished_request env c.request result in
    let whole = finish-open env p h result c there still in
    (
      ap (λ q. shown q.puts) whole ∙ rw kept (log_retained-puts env r (marked p h r) all),
      ap (λ q. q.captures) whole ∙ log_request-captures env (marked p h r) r,
    )

-- A second `Finish` of a request changes nothing.
finish_twice :
    (env later : Environment) (p : Profiler) (h : ℕ) (first second : RequestResult)
    → finish later (finish env p h first) h second ≡ finish env p h first
finish_twice env later p h first second = elim (Option-cases (lookup_at p.captures h)) [
  | inl nowhere ↦
      unchanged (finish-missing env p h first nowhere) (finish-missing later p h second nowhere)
  | inr (c, there) ↦ elim (Bool-cases c.is_finished) [
    | inl over ↦
        unchanged (finish-closed env p h first c there over)
          (finish-closed later p h second c there over)
    | inr still ↦
        let r = finished_request env c.request first in
        rw (finish-open env p h first c there still) (
          finish-closed later (log_request env (marked p h r) r) h second
            (record { request = r; is_finished = true })
            (ap (λ cs. lookup_at cs h) (log_request-captures env (marked p h r) r)
              ∙ lookup_at-set_self p.captures h (record { request = r; is_finished = true }) there)
            refl)
  ]
]
  where
    unchanged :
        finish env p h first ≡ p
        → finish later p h second ≡ p
        → finish later (finish env p h first) h second ≡ finish env p h first
    unchanged a b = ap (λ q. finish later q h second) a ∙ b ∙ sym a
