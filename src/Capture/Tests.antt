-- ===== src/Capture/Tests.antt =====
-- Runs of a request capture, and its theorems at concrete inputs.
use webpprof.Prelude.{◌++◌, ◌⊎◌, set, true, ◌≡◌, refl, false, none, some, [], ◌∷◌, length, pos}
use webpprof.Entry.{kind_text}
use webpprof.Contracts.{Meta, HttpMessage, Query, Request, RequestResult}
use webpprof.Prelude.Assoc.{lookup, insert}
use webpprof.Capture.{
  Environment, RequestCapture, Profiler, record_entity, prepare_callsite, captured,
  captures_callsite, supports_callsite, link_frames, passes,
}
use webpprof.Capture.Tags.{merge_tags, attach_request}
use webpprof.Capture.Context.{
  Context, request_from_context, parent_entry_id, tags_from_context, recording_enabled,
  inherit_context_meta,
}
use webpprof.Capture.Log.{log_query}
use webpprof.Capture.Buffer.{append, capture_id, add_query, begin_request}
use webpprof.Capture.LogRequest.{
  log_all, log_related, log_retained, log_request, finish, finished_request,
}
use webpprof.Capture.LogContext.{deliver, log_query_context}
use webpprof.Capture.Conservation.{RecordsAll, shown, made}
use webpprof.Capture.Related.{request_items, id_of}
use webpprof.Capture.Finish.{query_in, Waits, Stores, log_query_context-Waits, finish-HandsOver}

program : Unit {0}
unfolding lookup insert kind_text record_entity prepare_callsite captured captures_callsite
    supports_callsite link_frames passes merge_tags attach_request request_from_context
    parent_entry_id tags_from_context recording_enabled inherit_context_meta log_query append
    capture_id add_query log_all log_related log_retained log_request finish begin_request deliver
    log_query_context
program = tt

abbrev env : Environment
env = record {
  config = record {
    disabled_kinds = [];
    callsite_kinds = [];
    source_link = none;
    retention_filters = [];
  };
  new_id = λ n. "id";
  capture_callsite = λ kind. [];
  marshal_redacted = λ e. some "{}";
  now = 70;
}

abbrev no_meta : Meta
no_meta = record {
  id = "";
  request_id = "";
  parent_id = "";
  origin_request_id = "";
  process = "";
  instance_name = "";
  started_at = 0;
  duration = pos 0;
  tags = [];
}

abbrev no_message : HttpMessage
no_message = record { headers = []; content_type = ""; body = ""; size = pos 0; truncated = false }

abbrev query : Query
query = record {
  base = record no_meta { id = "q"; started_at = 60; tags = ("layer", "db") ∷ [] };
  connection = "";
  driver = "";
  database = "";
  operation = "";
  sql = "select 1";
  rows_affected = none;
  callsite = [];
  plan = none;
  error = "";
}

abbrev page : Request
page = record {
  base = record no_meta { id = "r"; started_at = 50; tags = ("team", "a") ∷ [] };
  method = "GET";
  path = "/";
  route = "";
  query = "";
  scheme = "";
  protocol = "";
  host = "";
  remote_ip = "";
  status = pos 0;
  request_size = pos 0;
  response_size = pos 0;
  request_message = no_message;
  response = no_message;
  error = "";
  queries = [];
  emails = [];
  cache = [];
  jobs = [];
  logs = [];
  http_calls = [];
  schedules = [];
  exceptions = [];
  events = [];
  middlewares = [];
}

abbrev ok : RequestResult
ok = record { status = pos 200; response_size = pos 0; response = no_message; error = "" }

abbrev nothing : Profiler
nothing = record { puts = []; issued_ids = 0; captures = [] }

abbrev open_capture : RequestCapture
open_capture = record { request = page; is_finished = false }

abbrev begun : Profiler
begun = record { puts = []; issued_ids = 0; captures = open_capture ∷ [] }

abbrev inside : Context
inside = Context.with_capture 0 Context.background

begin_lem : begin_request env nothing page ≡ (0, begun)
unfolding program
begin_lem = refl

-- the request of a page with one query leaves two entries; the query has the request's id
entries_lem :
    let p = finish env (log_query_context env begun inside query) 0 ok in
    (length p.puts ≡ 2) × (p.issued_ids ≡ 0)
unfolding program
entries_lem = (refl, refl)

env-RecordsAll : RecordsAll env
env-RecordsAll = record { kinds = refl; marshals = λ e. ("{}", refl) }

log_query_context-Waits_example :
    Waits begun inside (query_in env inside query) (log_query_context env begun inside query)
    ⊎ Stores env begun inside (query_in env inside query) (log_query_context env begun inside query)
unfolding program
log_query_context-Waits_example = log_query_context-Waits env begun inside query env-RecordsAll refl

-- a request with a query that waits in it
abbrev busy_capture : RequestCapture
busy_capture = record { request = record page { queries = query ∷ [] }; is_finished = false }

abbrev busy : Profiler
busy = record { puts = []; issued_ids = 0; captures = busy_capture ∷ [] }

finish-HandsOver_example :
    let r = finished_request env busy_capture.request ok in
    (shown (finish env busy 0 ok).puts
      ≡ shown [] ++ made env (request_items env r (id_of env r busy)))
    × ((finish env busy 0 ok).captures
        ≡ set busy.captures 0 (record { request = r; is_finished = true }))
unfolding program
finish-HandsOver_example = finish-HandsOver env busy 0 busy_capture ok env-RecordsAll refl refl refl
