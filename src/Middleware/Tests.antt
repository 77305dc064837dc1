-- ===== src/Middleware/Tests.antt =====
-- Runs of the middleware.
use webpprof.Prelude.{
  ◌+◌, ◌-◌, ◌≡◌, refl, true, false, not, none, some, List, [], ◌∷◌, map, arith, pos,
}
use webpprof.Prelude.Text.{to_lower, lower, trim_space, trim_left, cut, has_suffix}
use webpprof.Contracts.{Meta}
use webpprof.Analysis.Share.{Interval, sort_intervals, insert_interval}
use webpprof.Analysis.Coverage.{is_covered, count}
use webpprof.Middleware.{record_downstream, clamp, absorb, merge, gaps, work_spans}
use webpprof.Middleware.Idle.{work_spans-duration}
use webpprof.Middleware.Placed.{placed, work_spans-idle}
use webpprof.Middleware.Observer.{
  call_write_header, call_write, call_flush, call_read_from, ResponseCall, respond_all,
  new_observer, respond, write, write_header, ensure_header, copy_to, record_body,
}
use webpprof.Middleware.Serve.{Recovered, invocation_of}
use webpprof.Middleware.Inbound.{
  HttpLibrary, InboundRequest, request_of, request_scheme, scheme_of, remote_ip, sanitize_query,
  redact_values,
}
use webpprof.Redact.{is_sensitive_key, names_one_of, normalized, separator}
use webpprof.Capture.Context.{Context, tags_from_context}
use webpprof.Middleware.Body.{Keeps}
use webpprof.Middleware.Sending.{final_statuses, contents, answered}
use webpprof.Middleware.Responses.{respond_all-answered, respond_all-Keeps}

-- three downstream calls, of which two overlap and one starts before the invocation
abbrev three_calls : List Interval
three_calls =
    record { start = 30; stop = 50 }
    ∷ record { start = 5; stop = 12 }
    ∷ record { start = 40; stop = 60 }
    ∷ []

work_spans_test : work_spans (some three_calls) 10 70 ≡ (record {
  spans =
      record { offset = pos 2; duration = pos 18 }
      ∷ record { offset = pos 50; duration = pos 10 }
      ∷ [];
  duration = 28;
})
unfolding work_spans clamp absorb merge gaps sort_intervals insert_interval
work_spans_test = refl

record_downstream_test : record_downstream (some []) 7 7 ≡ some []
unfolding record_downstream
record_downstream_test = refl

work_spans-duration_example :
    (work_spans (some three_calls) 10 70).duration + count (is_covered three_calls) 10 (70 - 10)
    ≡ 70 - 10
work_spans-duration_example = work_spans-duration three_calls 10 70

work_spans-idle_example :
    is_covered (map (placed 10) (work_spans (some three_calls) 10 70).spans) 20
    ≡ not (is_covered three_calls 20)
work_spans-idle_example = work_spans-idle three_calls 10 70 20 (omega arith) (omega arith)

-- an informational status, a body of five bytes in two writes, and a status that comes too late
abbrev five_bytes : List ResponseCall
five_bytes =
    call_write_header 103
    ∷ call_write (1 ∷ 2 ∷ []) 2
    ∷ call_read_from ((3 ∷ 4 ∷ 5 ∷ [], 3) ∷ [])
    ∷ call_flush
    ∷ call_write_header 404
    ∷ []

five_bytes_test : (respond_all (new_observer 4) five_bytes).0 ≡ (record {
  status = 200;
  size = 5;
  wrote_header = true;
  body = record { limit = 4; body = 1 ∷ 2 ∷ 3 ∷ 4 ∷ []; truncated = true };
})
unfolding respond_all respond write write_header ensure_header copy_to record_body new_observer
five_bytes_test = refl

respond_all-answered_example :
    final_statuses (respond_all (new_observer 4) five_bytes).1
    ≡ answered (respond_all (new_observer 4) five_bytes).0
respond_all-answered_example = respond_all-answered 4 five_bytes

respond_all-Keeps_example :
    Keeps 4
      (contents (respond_all (new_observer 4) five_bytes).1)
      (respond_all (new_observer 4) five_bytes).0.body
respond_all-Keeps_example = respond_all-Keeps 4 five_bytes

abbrev library : HttpLibrary
library = record {
  parse_query = λ raw. some (("token", raw ∷ []) ∷ ("page", "2" ∷ []) ∷ []);
  encode = λ values. elim values [ [] ↦ "" | pair ∷ rest ↦ elim pair.1 [ [] ↦ "" | v ∷ vs ↦ v ] ];
  unescape_redacted = λ text. text;
  split_host_port = λ address. none;
  to_lower = to_lower;
  format_body = λ body type. "";
  content_type = λ headers. "";
}

abbrev behind_proxy : InboundRequest
behind_proxy = record {
  method = "GET";
  path = "/";
  raw_query = "secret";
  url_scheme = "";
  forwarded_proto = " HTTPS , http";
  over_tls = false;
  protocol = "HTTP/1.1";
  host = "example.org";
  remote_addr = "pipe";
  content_length = pos 0;
  message = record { headers = []; content_type = ""; body = ""; size = pos 0; truncated = false };
}

-- The first of the forwarded schemes counts, and a sensitive value of the query is not recorded.
request_of_test :
    ((request_of library Context.background behind_proxy).scheme ≡ "https")
    × ((request_of library Context.background behind_proxy).query ≡ "[REDACTED]")
    × ((request_of library Context.background behind_proxy).remote_ip ≡ "pipe")
unfolding request_of request_scheme scheme_of remote_ip sanitize_query redact_values
    is_sensitive_key tags_from_context trim_space trim_left cut lower names_one_of normalized
    separator has_suffix
request_of_test = (refl, refl, refl)

abbrev no_meta : Meta
no_meta = record {
  id = "";
  request_id = "";
  parent_id = "";
  origin_request_id = "";
  process = "";
  instance_name = "";
  started_at = 0;
  duration = pos 0;
  tags = [];
}

-- An invocation that panics is recorded with its work.
abbrev boom : Recovered
boom = record {
  text = "boom";
  exception = record { base = no_meta; type = "string"; message = "boom"; stack = "" };
}

invocation_test :
    (invocation_of no_meta "auth" 10 70 three_calls (some boom)).work_duration ≡ some (pos 28)
unfolding invocation_of work_spans clamp absorb merge gaps sort_intervals insert_interval
invocation_test = refl
