-- ===== src/Capture/TaskSpan.antt =====
-- task.go: `startTask`, `FinishResult`, `finishPanic` and `measureTask`.
use mathlib.Core.Path.{subst}
use webpprof.Prelude.{
  ℕ, ◌+◌, String, str_eq, Bool, true, false, ◌&&◌, Option, none, some, List, [], ◌∷◌, ◌==◌,
  if◌then◌else◌, pos, sub_ℕ, choose_then, choose_else, ◌≡◌, refl, All, ap, ◌∙◌, sym,
}
use webpprof.Prelude.Assoc.{Assoc}
use webpprof.Redact.{Value}
use webpprof.Entry.{Kind}
use webpprof.Contracts.{Task}
use webpprof.Capture.{Environment, Profiler, prepare_callsite}
use webpprof.Capture.Tags.{merge_tags}
use webpprof.Capture.Context.{
  Context, tags_from_context, recording_enabled, without_correlation, with_parent_entry,
}
use webpprof.Capture.LogContext.{log_task_context}
use webpprof.Capture.Spans.{Measurement, Measured, Call, put_fields, or_text, unless_empty, outcome}

pub record TaskResult : Type 0 where
  pub state : String
  pub fields : Assoc Value
  pub err : Option String

pub record TaskSpan : Type 0 where
  pub profiler : Bool
  pub root_ctx : Context
  pub task_ctx : Context
  pub task : Task
  pub started : ℕ
  pub is_finished : Bool
  pub result : Measurement

abbrev pub no_measurement : Measurement
no_measurement = record { started_at = 0; duration = pos 0; err = none }

-- the task of a span that records
unfoldable pub recorded_task : Environment → Profiler → Context → Task → Task
recorded_task env p root t =
    let id = if str_eq t.base.id "" then env.new_id p.issued_ids else t.base.id in
    record t {
      base = record t.base { id = id; tags = merge_tags (tags_from_context root) t.base.tags };
      callsite = prepare_callsite env Kind.task t.callsite;
    }

-- `startTask`, with a profiler or with nil
unfoldable pub start_task : Environment → Profiler → Bool → Context → Task → Profiler × TaskSpan
start_task env p profiler ctx t0 =
    let root = without_correlation ctx in
    let at = if t0.base.started_at == 0 then env.now else t0.base.started_at in
    let t = record t0 { base = record t0.base { started_at = at } } in
    let named = recorded_task env p root t in
    let issued = if str_eq t.base.id "" then p.issued_ids + 1 else p.issued_ids in
    if profiler && recording_enabled ctx
    then (
      record p { issued_ids = issued },
      record {
        profiler = profiler;
        root_ctx = root;
        task_ctx = with_parent_entry root named.base.id;
        task = named;
        started = at;
        is_finished = false;
        result = no_measurement;
      },
    )
    else (
      p,
      record {
        profiler = profiler;
        root_ctx = root;
        task_ctx = root;
        task = t;
        started = at;
        is_finished = false;
        result = no_measurement;
      },
    )

-- the task that `FinishResult` logs
unfoldable pub finished_task : Environment → TaskSpan → TaskResult → Task
finished_task env s r =
    let error = or_text r.err s.task.error in
    record s.task {
      base = record s.task.base { duration = sub_ℕ env.now s.started };
      state = outcome (unless_empty r.state s.task.state) error;
      fields = put_fields r.fields s.task.fields;
      error = error;
    }

-- `FinishResult`: what it returns, and the span and the profiler afterwards
unfoldable pub finish_result :
    Environment → Profiler → TaskSpan → TaskResult → Measurement × Profiler × TaskSpan
finish_result env p s r =
    let m : Measurement = record {
      started_at = s.task.base.started_at;
      duration = sub_ℕ env.now s.started;
      err = r.err;
    } in
    let t = finished_task env s r in
    let logged = log_task_context env p s.root_ctx t in
    if s.is_finished then (s.result, p, s) else (
      m,
      (if s.profiler && recording_enabled s.root_ctx then logged else p),
      record s { task = t; is_finished = true; result = m },
    )

-- `Finish`
abbrev pub finish_with :
    Environment → Profiler → TaskSpan → Option String → Measurement × Profiler × TaskSpan
finish_with env p s err = finish_result env p s (record { state = ""; fields = []; err = err })

-- `finishPanic`; `text` is `fmt.Sprint` of the value
unfoldable pub finish_panic :
    Environment
    → Profiler
    → TaskSpan
    → String
    → String
    → Value
    → Value
    → Measurement × Profiler × TaskSpan
finish_panic env p s text error type stack =
    finish_result env p (record s { task = record s.task { panic = text } })
      (record {
        state = "panicked";
        fields = ("panic_type", type) ∷ ("panic_stack", stack) ∷ [];
        err = some error;
      })

-- a call of `FinishResult`, with the clock and the rest of what it reads when it is made
pub record FinishCall : Type 0 where
  pub env : Environment
  pub given : TaskResult

-- several calls, each at its own time, with what each returns
unfoldable pub finish_all :
    Profiler → TaskSpan → List FinishCall → List Measurement × Profiler × TaskSpan
finish_all p s [] = ([], p, s)
finish_all p s (call ∷ calls) =
    let (m, p', s') = finish_result call.env p s call.given in
    let (ms, p'', s'') = finish_all p' s' calls in (m ∷ ms, p'', s'')

-- `measureTask`: `fn` is the function with what it logs; a panic goes on to the caller
unfoldable pub measure_task :
    Environment
    → Profiler
    → Bool
    → Context
    → Task
    → (Context → Profiler → Call × Profiler)
    → Measured × Profiler × TaskSpan
measure_task env p profiler ctx t fn =
    let (p1, s) = start_task env p profiler ctx t in
    let (call, p2) = fn s.task_ctx p1 in
    elim call [
      | Call.returned err ↦ let (m, p3, s') = finish_with env p2 s err in (some m, p3, s')
      | Call.panicked text error type stack ↦
          let (m, p3, s') = finish_panic env p2 s text error type stack in (none, p3, s')
    ]

finish_result-finished :
    (env : Environment) (p : Profiler) (s : TaskSpan) (r : TaskResult)
    → s.is_finished ≡ true
    → finish_result env p s r ≡ (s.result, p, s)
unfolding finish_result
finish_result-finished env p s r h = choose_then s.is_finished _ _ h

finish_all-finished :
    (p : Profiler) (s : TaskSpan) (calls : List FinishCall)
    → s.is_finished ≡ true
    → All (λ m. m ≡ s.result) (finish_all p s calls).0 × ((finish_all p s calls).1 ≡ p)
unfolding finish_all
finish_all-finished p s [] h = (tt, refl)
finish_all-finished p s (call ∷ calls) h =
    let same = finish_result-finished call.env p s call.given h in
    let (ms, kept) = finish_all-finished p s calls h in
    (
      (
        ap (λ x. x.0) same,
        subst (λ x. All (λ m. m ≡ s.result) (finish_all x.1 x.2 calls).0) (sym same) ms,
      ),
      ap (λ x. (finish_all x.1 x.2 calls).1) same ∙ kept,
    )

-- what the first call returns
abbrev pub measured : Environment → TaskSpan → TaskResult → Measurement
measured env s r = record {
  started_at = s.task.base.started_at;
  duration = sub_ℕ env.now s.started;
  err = r.err;
}

opened-finish_result :
    (env : Environment) (p : Profiler) (s : TaskSpan) (r : TaskResult)
    → s.is_finished ≡ false
    → finish_result env p s r ≡ (
      measured env s r,
      (if s.profiler && recording_enabled s.root_ctx
          then log_task_context env p s.root_ctx (finished_task env s r)
          else p),
      record s { task = finished_task env s r; is_finished = true; result = measured env s r },
    )
unfolding finish_result
opened-finish_result env p s r h = choose_else s.is_finished _ _ h

-- However often the result of a task span is given, and at whatever times, its task is logged once, with the first
-- result and the time of the first call, and every call returns the measurement of the first: the duration from the
-- start of the span to that time, and the error that was given.
pub finish_all-once :
    (env : Environment) (p : Profiler) (s : TaskSpan) (r : TaskResult) (calls : List FinishCall)
    → s.is_finished ≡ false
    → let all_calls = record { env = env; given = r } ∷ calls in
      All (λ n. n ≡ measured env s r) (finish_all p s all_calls).0
      × ((finish_all p s all_calls).1 ≡ (
          if s.profiler && recording_enabled s.root_ctx
          then log_task_context env p s.root_ctx (finished_task env s r)
          else p))
unfolding finish_all
finish_all-once env p s r calls h =
    let first = finish_result env p s r in
    let q = opened-finish_result env p s r h in
    let (ms, kept) = finish_all-finished first.1 first.2 calls (ap (λ x. x.2.is_finished) q) in
    let same : first.2.result ≡ measured env s r = ap (λ x. x.2.result) q in
    (
      (ap (λ x. x.0) q, subst (λ v. All (λ n. n ≡ v) (finish_all first.1 first.2 calls).0) same ms),
      kept ∙ ap (λ x. x.1) q,
    )
