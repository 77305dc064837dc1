-- ===== src/Middleware/Serve.antt =====
-- profiler/http/middleware.go: `MiddlewareWith` and `ProfileMiddlewareWith` around a handler. A handler is what it does with the context and the profiler that it
-- gets; a panic of it is a value, which goes on to the caller. `later` is the environment when the
-- handler has ended. The nil handler, middleware and profiler are left out.
use webpprof.Prelude.{ℕ, ◌+◌, String, Bool, Option, none, some, List, [], if◌then◌else◌, pos, sub_ℕ}
use webpprof.Prelude.Assoc.{Assoc}
use webpprof.Contracts.{Meta, HttpMessage, RequestResult, Exception, Middleware}
use webpprof.Capture.{Environment, Profiler}
use webpprof.Capture.Context.{Context, parent_entry_id, without_recording, with_parent_entry}
use webpprof.Capture.LogContext.{log_exception_context, log_middleware_context}
use webpprof.Capture.Buffer.{begin_request}
use webpprof.Capture.LogRequest.{finish}
use webpprof.Analysis.Share.{Interval}
use webpprof.Middleware.{work_spans}
use webpprof.Middleware.Inbound.{HttpLibrary, InboundRequest, request_of}
use webpprof.Middleware.Observer.{
  BodyRecorder, ResponseObserver, ResponseCall, respond_all, new_observer,
}

-- a value that was recovered: its text, and `PanicException` of it
pub record Recovered : Type 0 where
  pub text : String
  pub exception : Exception

-- what a handler leaves: the profiler, its calls of the ResponseWriter, the response's headers in the end,
-- and its panic
pub record Handled : Type 0 where
  pub profiler : Profiler
  pub calls : List ResponseCall
  pub headers : Assoc (List String)
  pub recovered : Option Recovered

module _ (library : HttpLibrary) where
  -- `BodyRecorder.Message`
  unfoldable pub body_message : BodyRecorder → Assoc (List String) → ℕ → HttpMessage
  body_message c headers size = record {
    headers = headers;
    content_type = library.content_type headers;
    body = library.format_body c.body (library.content_type headers);
    size = pos size;
    truncated = c.truncated;
  }

  unfoldable pub result_of :
      ResponseObserver → Assoc (List String) → Option Recovered → RequestResult
  result_of w headers none = record {
    status = pos w.status;
    response_size = pos w.size;
    response = body_message w.body headers w.size;
    error = "";
  }
  result_of w headers (some r) = record {
    status = pos 500;
    response_size = pos w.size;
    response = body_message w.body headers w.size;
    error = r.text;
  }

  -- the handler that `MiddlewareWith` returns: `captures` is `ShouldCaptureRequest`
  unfoldable pub capture_request :
      Environment
      → Environment
      → Profiler
      → Bool
      → ℕ
      → Context
      → InboundRequest
      → (Context → Profiler → Handled)
      → Profiler × Option Recovered
  capture_request env later p captures limit ctx inbound handler =
      let plain = handler (without_recording ctx) p in
      let (h, begun) = begin_request env p (request_of library ctx inbound) in
      let own = Context.with_capture h ctx in
      let handled = handler own begun in
      let w = (respond_all (new_observer limit) handled.calls).0 in
      let logged : Profiler = elim handled.recovered [
        | none ↦ handled.profiler
        | some r ↦ log_exception_context later handled.profiler own r.exception
      ] in
      if captures
      then (
        finish later logged h (result_of w handled.headers handled.recovered),
        handled.recovered,
      )
      else (plain.profiler, plain.recovered)

-- what a profiled middleware leaves: the profiler, the downstream calls and its panic
pub record Invoked : Type 0 where
  pub profiler : Profiler
  pub downstream : List Interval
  pub recovered : Option Recovered

-- the record of an invocation that ends
unfoldable pub invocation_of : Meta → String → ℕ → ℕ → List Interval → Option Recovered → Middleware
invocation_of meta name started_at finished_at downstream recovered =
    let work = work_spans (some downstream) started_at finished_at in
    record {
      base = record meta { started_at = started_at; duration = sub_ℕ finished_at started_at };
      name = name;
      state = elim recovered [ none ↦ "completed" | some r ↦ "panicked" ];
      work_duration = some (pos work.duration);
      work_spans = work.spans;
      error = elim recovered [ none ↦ "" | some r ↦ r.text ];
    }

-- the handler that `ProfileMiddlewareWith` returns
unfoldable pub invoke :
    Environment
    → Environment
    → Profiler
    → Context
    → String
    → (Context → Profiler → Invoked)
    → Profiler × Option Recovered
invoke env later p ctx name middleware =
    let meta : Meta = record {
      id = env.new_id p.issued_ids;
      request_id = "";
      parent_id = parent_entry_id ctx;
      origin_request_id = "";
      process = "";
      instance_name = "";
      started_at = 0;
      duration = pos 0;
      tags = [];
    } in
    let own = with_parent_entry ctx meta.id in
    let done = middleware own (record p { issued_ids = p.issued_ids + 1 }) in
    (
      log_middleware_context later done.profiler ctx
          (invocation_of meta name env.now later.now done.downstream done.recovered),
      done.recovered,
    )
