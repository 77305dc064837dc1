-- ===== src/Capture/EventSpan.antt =====
-- measure.go: `startEvent`, `FinishResult`, `finishPanic`, `measure` and `MeasureValueWith`.
use mathlib.Core.Path.{subst}
use webpprof.Prelude.{
  refl, sym, ap, ◌∙◌, Bool-cases, inl, inr, ℕ, ◌+◌, String, str_eq, Bool, true, false, ◌&&◌, Option,
  none, some, [], ◌∷◌, ◌==◌, if◌then◌else◌, choose_then, choose_else, ◌≡◌, sub_ℕ,
}
use webpprof.Prelude.Assoc.{Assoc}
use webpprof.Redact.{Value}
use webpprof.Contracts.{Event}
use webpprof.Capture.{Environment, Profiler}
use webpprof.Capture.Context.{Context, recording_enabled, with_parent_entry}
use webpprof.Capture.LogContext.{log_event_context}
use webpprof.Capture.Spans.{Measurement, Measured, Call, put_fields, or_text, unless_empty, outcome}
use webpprof.Capture.TaskSpan.{no_measurement}

pub record EventResult : Type 0 where
  pub status : String
  pub summary : String
  pub fields : Assoc Value
  pub err : Option String

pub record EventSpan : Type 0 where
  pub profiler : Bool
  pub ctx : Context
  pub operation_ctx : Context
  pub event : Event
  pub started : ℕ
  pub is_finished : Bool
  pub result : Measurement

-- `startEvent`, with a profiler or with nil
unfoldable pub start_event : Environment → Profiler → Bool → Context → Event → Profiler × EventSpan
start_event env p profiler ctx e0 =
    let at = if e0.base.started_at == 0 then env.now else e0.base.started_at in
    let e = record e0 { base = record e0.base { started_at = at } } in
    let needs_id = str_eq e.base.id "" in
    let id = if needs_id then env.new_id p.issued_ids else e.base.id in
    if profiler && recording_enabled ctx
    then (
      record p { issued_ids = if needs_id then p.issued_ids + 1 else p.issued_ids },
      record {
        profiler = profiler;
        ctx = ctx;
        operation_ctx = with_parent_entry ctx id;
        event = record e { base = record e.base { id = id } };
        started = at;
        is_finished = false;
        result = no_measurement;
      },
    )
    else (
      p,
      record {
        profiler = profiler;
        ctx = ctx;
        operation_ctx = ctx;
        event = e;
        started = at;
        is_finished = false;
        result = no_measurement;
      },
    )

unfoldable pub apply_event_result : Event → EventResult → Event
apply_event_result e r =
    let error = or_text r.err e.error in
    record e {
      status = outcome (unless_empty r.status e.status) error;
      summary = unless_empty r.summary e.summary;
      fields = put_fields r.fields e.fields;
      error = error;
    }

abbrev pub measured : Environment → EventSpan → EventResult → Measurement
measured env s r = record {
  started_at = s.event.base.started_at;
  duration = sub_ℕ env.now s.started;
  err = r.err;
}

-- the event that `FinishResult` logs
unfoldable pub finished_event : Environment → EventSpan → EventResult → Event
finished_event env s r =
    apply_event_result
      (record s.event { base = record s.event.base { duration = sub_ℕ env.now s.started } }) r

-- `FinishResult`: what it returns, and the span and the profiler afterwards
unfoldable pub finish_result :
    Environment → Profiler → EventSpan → EventResult → Measurement × Profiler × EventSpan
finish_result env p s r =
    let e = finished_event env s r in
    let logged = log_event_context env p s.ctx e in
    if s.is_finished then (s.result, p, s) else (
      measured env s r,
      (if s.profiler then logged else p),
      record s { event = e; is_finished = true; result = measured env s r },
    )

-- `Finish`
abbrev pub finish_with :
    Environment → Profiler → EventSpan → Option String → Measurement × Profiler × EventSpan
finish_with env p s err =
    finish_result env p s (record { status = ""; summary = ""; fields = []; err = err })

unfoldable pub finish_panic :
    Environment → Profiler → EventSpan → String → Value → Value → Measurement × Profiler × EventSpan
finish_panic env p s error type stack = finish_result env p s (record {
  status = "panicked";
  summary = "";
  fields = ("panic_type", type) ∷ ("panic_stack", stack) ∷ [];
  err = some error;
})

-- the end of `measure`: its `return`, or the deferred function for a panic
unfoldable pub finish_call :
    Environment → Profiler → EventSpan → Call → Measured × Profiler × EventSpan
finish_call env p s (Call.returned err) =
    let (m, p', s') = finish_with env p s err in (some m, p', s')
finish_call env p s (Call.panicked text error type stack) =
    let (m, p', s') = finish_panic env p s error type stack in (none, p', s')

-- `measure`, and `MeasureValueWith` but for the value that it passes on; a panic goes on to the caller
unfoldable pub measure :
    Environment
    → Profiler
    → Bool
    → Context
    → Event
    → (Context → Profiler → Call × Profiler)
    → Measured × Profiler × EventSpan
measure env p profiler ctx e fn =
    let (p1, s) = start_event env p profiler ctx e in
    let (call, p2) = fn s.operation_ctx p1 in finish_call env p2 s call

finish_result-open :
    (env : Environment) (p : Profiler) (s : EventSpan) (r : EventResult)
    → s.is_finished ≡ false
    → s.profiler ≡ true
    → finish_result env p s r ≡ (
      measured env s r,
      log_event_context env p s.ctx (finished_event env s r),
      record s { event = finished_event env s r; is_finished = true; result = measured env s r },
    )
unfolding finish_result
finish_result-open env p s r h on =
    choose_else s.is_finished _ _ h
    ∙ ap
        (λ q. (
          measured env s r,
          q,
          record s {
            event = finished_event env s r;
            is_finished = true;
            result = measured env s r;
          },
        ))
        (choose_then s.profiler _ _ on)

start_event-open :
    (env : Environment) (p : Profiler) (ctx : Context) (e : Event)
    → ((start_event env p true ctx e).1.is_finished ≡ false)
      × ((start_event env p true ctx e).1.profiler ≡ true)
      × ((start_event env p true ctx e).1.ctx ≡ ctx)
unfolding start_event
start_event-open env p ctx e = elim (Bool-cases (recording_enabled ctx)) [
  | inl on ↦ rw (start_event, on) (refl, refl, refl)
  | inr off ↦ rw (start_event, off) (refl, refl, refl)
]

-- what a call that panicked leaves: an event that says so, logged, and the panic
abbrev pub Panicked :
    Environment → Profiler → Context → String → Measured × Profiler × EventSpan → Type 0
Panicked env p ctx error (result, p', s') =
    (result ≡ none)
    × (s'.event.status ≡ "panicked")
    × (s'.event.error ≡ error)
    × (s'.is_finished ≡ true)
    × (p' ≡ log_event_context env p ctx s'.event)

finish_call-Panicked :
    (env : Environment) (p : Profiler) (s : EventSpan) (text error : String) (type stack : Value)
    → s.is_finished ≡ false
    → s.profiler ≡ true
    → Panicked env p s.ctx error (finish_call env p s (Call.panicked text error type stack))
unfolding finish_call finish_panic finished_event apply_event_result
finish_call-Panicked env p s text error type stack h on =
    subst (λ x. Panicked env p s.ctx error (none, x.1, x.2))
      (sym (finish_result-open env p s _ h on)) (refl, refl, refl, refl, refl)

-- A measured function that panics leaves an event with the status "panicked" and the error that is made of the panic,
-- which is logged with the context of the measurement if there is a profiler; its panic goes on to the caller.
pub measure-Panicked :
    (env : Environment) (p : Profiler) (ctx : Context) (e : Event)
    (fn : Context → Profiler → Call × Profiler) (text error : String) (type stack : Value)
    → let (p1, s) = start_event env p true ctx e in
      (fn s.operation_ctx p1).0 ≡ Call.panicked text error type stack
      → Panicked env (fn s.operation_ctx p1).1 ctx error (measure env p true ctx e fn)
unfolding measure
measure-Panicked env p ctx e fn text error type stack h =
    let (p1, s) = start_event env p true ctx e in
    let (opened, on, same) = start_event-open env p ctx e in
    let p2 = (fn s.operation_ctx p1).1 in
    subst (λ call. Panicked env p2 ctx error (finish_call env p2 s call)) (sym h)
      (subst
        (λ x. Panicked env p2 x error (finish_call env p2 s (Call.panicked text error type stack)))
        same (finish_call-Panicked env p2 s text error type stack opened on))
