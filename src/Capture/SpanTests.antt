-- ===== src/Capture/SpanTests.antt =====
-- Runs of spans, and their theorems at concrete inputs.
use webpprof.Prelude.{◌+◌, ◌≡◌, refl, pos, true, ◌&&◌, none, some, [], ◌∷◌, All, if◌then◌else◌}
use webpprof.Redact.{Value}
use webpprof.Contracts.{Meta, Task, Event}
use webpprof.Capture.{Environment, Profiler}
use webpprof.Capture.Context.{Context, recording_enabled}
use webpprof.Capture.LogContext.{log_task_context}
use webpprof.Capture.Spans.{Call}
use webpprof.Capture.TaskSpan.{
  TaskSpan, TaskResult, FinishCall, measured, start_task, finish_all, finished_task,
  finish_all-once,
}
use webpprof.Capture.EventSpan.{Panicked, start_event, measure, measure-Panicked}

program : Unit {0}
unfolding start_task recording_enabled
program = tt

abbrev env : Environment
env = record {
  config = record {
    disabled_kinds = [];
    callsite_kinds = [];
    source_link = none;
    retention_filters = [];
  };
  new_id = λ n. "id";
  capture_callsite = λ kind. [];
  marshal_redacted = λ e. some "{}";
  now = 70;
}

abbrev empty : Profiler
empty = record { puts = []; issued_ids = 0; captures = [] }

abbrev no_meta : Meta
no_meta = record {
  id = "";
  request_id = "";
  parent_id = "";
  origin_request_id = "";
  process = "";
  instance_name = "";
  started_at = 0;
  duration = pos 0;
  tags = [];
}

abbrev task : Task
task = record {
  base = no_meta;
  name = "cleanup";
  state = "";
  fields = [];
  callsite = [];
  error = "";
  panic = "";
}

abbrev task_span : TaskSpan
task_span = (start_task env empty true Context.background task).1

abbrev succeeded : TaskResult
succeeded = record { state = ""; fields = []; err = none }

-- a second call, a second later
abbrev later_call : FinishCall
later_call = record { env = record env { now = env.now + 1000000000 }; given = succeeded }

finish_all-once_example :
    let all_calls = record { env = env; given = succeeded } ∷ later_call ∷ [] in
    All (λ n. n ≡ measured env task_span succeeded) (finish_all empty task_span all_calls).0
    × ((finish_all empty task_span all_calls).1 ≡ (
        if task_span.profiler && recording_enabled task_span.root_ctx
        then log_task_context env empty task_span.root_ctx (finished_task env task_span succeeded)
        else empty))
unfolding program
finish_all-once_example = finish_all-once env empty task_span succeeded (later_call ∷ []) refl

abbrev event : Event
event = record {
  base = no_meta;
  kind = "";
  name = "import";
  status = "";
  summary = "";
  fields = [];
  error = "";
}

abbrev fails : Context → Profiler → Call × Profiler
fails ctx p = (Call.panicked "boom" "panic: boom" Value.null Value.null, p)

measure-Panicked_example :
    Panicked env
      (fails
        (start_event env empty true Context.background event).1.operation_ctx
        (start_event env empty true Context.background event).0).1
      Context.background
      "panic: boom"
      (measure env empty true Context.background event fails)
measure-Panicked_example =
    measure-Panicked env empty Context.background event fails "boom" "panic: boom" Value.null
      Value.null refl
