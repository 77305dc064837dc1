-- ===== src/Capture/Spans.antt =====
-- task.go, measure.go, query_span.go: spans of tasks, events and queries. A span's `sync.Once` is the field
-- `is_finished`. The span of a nil pointer, which measures nothing, is left out; `profiler` tells
-- whether the span's profiler is not nil. An error is the text of its `Error`.
use webpprof.Prelude.{
  ℕ, String, str_eq, Bool, true, false, Option, none, some, [], ◌∷◌, ◌==◌, if◌then◌else◌, ℤ, sub_ℕ,
}
use webpprof.Prelude.Assoc.{Assoc, insert}
use webpprof.Redact.{Value}
use webpprof.Contracts.{Query}
use webpprof.Capture.{Environment, Profiler}
use webpprof.Capture.Context.{Context}
use webpprof.Capture.LogContext.{log_query_context}

pub record Measurement : Type 0 where
  pub started_at : ℕ
  pub duration : ℤ
  pub err : Option String

abbrev pub failed : Measurement → Bool
failed m = elim m.err [ none ↦ false | some e ↦ true ]

-- the loop that writes the fields of a result
unfoldable pub put_fields : Assoc Value → Assoc Value → Assoc Value
put_fields [] fields = fields
put_fields ((key, value) ∷ result) fields = put_fields result (insert key value fields)

abbrev pub or_text : Option String → String → String
or_text none old = old
or_text (some text) old = text

abbrev pub unless_empty : String → String → String
unless_empty new old = if str_eq new "" then old else new

-- the state or the status in the end
abbrev pub outcome : String → String → String
outcome state error =
    if str_eq state "" then (if str_eq error "" then "succeeded" else "failed") else state

-- what a call of a measured function does: it returns an error or none, or panics with a value, of which its
-- text, the text of the error that is made of it, its type and the stack are kept
pub data Call : Type 0 where
  returned : Option String → Call
  panicked : String → String → Value → Value → Call

-- `measurement` of a call that returned; a panic goes on to the caller
abbrev pub Measured : Type 0
Measured = Option Measurement

pub record QuerySpan : Type 0 where
  pub ctx : Context
  pub query : Query
  pub is_finished : Bool

unfoldable pub start_query : Environment → Context → Query → QuerySpan
start_query env ctx q =
    let at = if q.base.started_at == 0 then env.now else q.base.started_at in
    record {
      ctx = ctx;
      query = record q { base = record q.base { started_at = at } };
      is_finished = false;
    }

-- `finish` of a query span, with the default profiler
unfoldable pub finish_query :
    Environment → Profiler → QuerySpan → Option ℤ → Option String → Profiler × QuerySpan
finish_query env p s rows_affected err =
    let q = record s.query {
      base = record s.query.base { duration = sub_ℕ env.now s.query.base.started_at };
      rows_affected = rows_affected;
      error = or_text err s.query.error;
    } in
    if s.is_finished
    then (p, s)
    else (log_query_context env p s.ctx q, record s { query = q; is_finished = true })
