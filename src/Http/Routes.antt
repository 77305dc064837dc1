-- ===== src/Http/Routes.antt =====
-- http.go: `handler`, which registers the handlers and puts `authorize` in front of some. Which pattern a request
-- matches is `http.ServeMux`'s matter.
use webpprof.Prelude.{
  Bool-cases, arith, ◌≡◌, String, str_eq, Bool, true, false, ◌||◌, Option, some, List, [], ◌∷◌, All,
  if◌then◌else◌, ◌⊎◌, ◌↔◌, inl, inr, refl, sym, ◌∙◌,
}
use webpprof.Prelude.Text.{codes, text_eq, has_prefix}
use webpprof.Http.Session.{AccessConfig, Response, authorize}
use webpprof.Http.Access.{authorize-next}

-- the handlers, the static files as one
pub data Endpoint : Type 0 where
  index asset create_session delete_session : Endpoint
  list_events get_event clear_events : Endpoint
  get_request_analysis get_schedule_analysis get_callable_analysis get_task_analysis : Endpoint
  get_stats get_runtime_stats get_queue_stats get_dashboard serve_web_socket : Endpoint

-- a pattern with its handler
pub record Route : Type 0 where
  pub method : String
  pub path : String
  pub handler : Endpoint
  pub is_authorized : Bool

-- `mux.HandleFunc` of a handler, and `mux.Handle` of one behind `authorize`
abbrev pub handle_func : String → String → Endpoint → Route
handle_func method path handler = record {
  method = method;
  path = path;
  handler = handler;
  is_authorized = false;
}

abbrev pub handle_authorized : String → String → Endpoint → Route
handle_authorized method path handler = record {
  method = method;
  path = path;
  handler = handler;
  is_authorized = true;
}

abbrev pub routes : List Route
routes =
    handle_func "GET" "/" Endpoint.index
    ∷ handle_func "GET" "/app.js" Endpoint.asset
    ∷ handle_func "GET" "/app.css" Endpoint.asset
    ∷ handle_func "GET" "/theme.css" Endpoint.asset
    ∷ handle_func "GET" "/details.css" Endpoint.asset
    ∷ handle_func "GET" "/logo.svg" Endpoint.asset
    ∷ handle_func "POST" "/session" Endpoint.create_session
    ∷ handle_func "DELETE" "/session" Endpoint.delete_session
    ∷ handle_authorized "GET" "/api/events" Endpoint.list_events
    ∷ handle_authorized "GET" "/api/events/{id}" Endpoint.get_event
    ∷ handle_authorized "GET" "/api/requests/{id}/analysis" Endpoint.get_request_analysis
    ∷ handle_authorized "GET" "/api/schedules/{id}/analysis" Endpoint.get_schedule_analysis
    ∷ handle_authorized "GET" "/api/callables/{id}/analysis" Endpoint.get_callable_analysis
    ∷ handle_authorized "GET" "/api/tasks/{id}/analysis" Endpoint.get_task_analysis
    ∷ handle_authorized "GET" "/api/stats" Endpoint.get_stats
    ∷ handle_authorized "GET" "/api/runtime" Endpoint.get_runtime_stats
    ∷ handle_authorized "GET" "/api/queues" Endpoint.get_queue_stats
    ∷ handle_authorized "GET" "/api/dashboard" Endpoint.get_dashboard
    ∷ handle_authorized "DELETE" "/api/events" Endpoint.clear_events
    ∷ handle_authorized "GET" "/ws" Endpoint.serve_web_socket
    ∷ []

-- what answers a request that matches a pattern: its handler, or the refusal of `authorize`
unfoldable pub serve {ℓ} :
    {A : Type ℓ} → AccessConfig → (Response → A) → (Endpoint → A) → Option String → Route → A
serve c refuse handle cookie r =
    if r.is_authorized then authorize c refuse (handle r.handler) cookie else handle r.handler

-- the patterns that give access to what the profiler has recorded
abbrev pub is_api : Route → Bool
is_api r = has_prefix (codes r.path) (codes "/api/") || text_eq (codes r.path) (codes "/ws")

-- the client is logged in, or no one has to be
abbrev pub Allowed : AccessConfig → Option String → Type 0
Allowed c cookie =
    ((c.token ≡ "") × (c.unsafe_no_auth ≡ true))
    ⊎ ((str_eq c.token "" ≡ false) × (cookie ≡ some c.session_token))

abbrev pub IsHandled : AccessConfig → Option String → Route → Type 0
IsHandled c cookie r = serve c (λ refused. false) (λ e. true) cookie r ≡ true

serve-Allowed :
    (c : AccessConfig) (cookie : Option String) (r : Route)
    → r.is_authorized ≡ is_api r
    → IsHandled c cookie r ↔ ((is_api r ≡ false) ⊎ Allowed c cookie)
unfolding serve
serve-Allowed c cookie r same = elim (Bool-cases r.is_authorized) [
  | inl e ↦ (
    λ h. inr ((authorize-next c cookie).0 (rw (serve, e) at h)),
    λ o. elim o [
      | inl p ↦ absurd (ground arith)
      | inr allowed ↦ rw (serve, e) ((authorize-next c cookie).1 allowed)
    ],
  )
  | inr e ↦ (λ h. inl (sym same ∙ e), λ o. rw (serve, e) refl)
]

-- `authorize` stands in front of every pattern below /api/ and of /ws, and of no other: a request that matches one of
-- these is handled exactly if a token is configured and the session cookie has the session's value, or if no token is
-- configured and access without one was asked for; a request that matches another is handled whoever sends it.
pub serve-IsHandled :
    (c : AccessConfig) (cookie : Option String)
    → All (λ r. IsHandled c cookie r ↔ ((is_api r ≡ false) ⊎ Allowed c cookie)) routes
unfolding has_prefix
serve-IsHandled c cookie = all_same routes (
    (
      refl,
      (
        refl,
        (
          refl,
          (
            refl,
            (
              refl,
              (
                refl,
                (
                  refl,
                  (
                    refl,
                    (
                      refl,
                      (
                        refl,
                        (
                          refl,
                          (
                            refl,
                            (refl, (refl, (refl, (refl, (refl, (refl, (refl, (refl, tt)))))))),
                          ),
                        ),
                      ),
                    ),
                  ),
                ),
              ),
            ),
          ),
        ),
      ),
    ))
  where
    all_same :
        (rs : List Route)
        → All (λ r. r.is_authorized ≡ is_api r) rs
        → All (λ r. IsHandled c cookie r ↔ ((is_api r ≡ false) ⊎ Allowed c cookie)) rs
    all_same [] all = tt
    all_same (r ∷ rs) (here, all) = (serve-Allowed c cookie r here, all_same rs all)
