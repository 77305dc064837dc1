-- ===== src/Contracts.antt =====
-- contracts.go: the entities that a program logs. A Go struct that embeds `Meta` has it as the field
-- `base`; a pointer that may be nil is an `Option`; a value of type `any` is a JSON document, which
-- is all that the profiler keeps of it. A time is a number of nanoseconds, 0 the zero time.
use webpprof.Prelude.{ℕ, ℤ, String, Bool, Option, List}
use webpprof.Prelude.Assoc.{Assoc}
use webpprof.Redact.{Value}

pub record Meta : Type 0 where
  pub id : String
  pub request_id : String
  pub parent_id : String
  pub origin_request_id : String
  pub process : String
  pub instance_name : String
  pub started_at : ℕ
  pub duration : ℤ
  pub tags : Assoc String

pub record HttpMessage : Type 0 where
  pub headers : Assoc (List String)
  pub content_type : String
  pub body : String
  pub size : ℤ
  pub truncated : Bool

pub record SourceFrame : Type 0 where
  pub function : String
  pub file : String
  pub line : ℤ
  pub url : String

pub record QueryPlanIssue : Type 0 where
  pub code : String
  pub relation : String
  pub estimated_rows : ℤ
  pub detail : String

pub record QueryPlan : Type 0 where
  pub command : String
  pub format : String
  pub text : String
  pub duration : ℤ
  pub issues : List QueryPlanIssue
  pub error : String

pub record Query : Type 0 where
  pub base : Meta
  pub connection : String
  pub driver : String
  pub database : String
  pub operation : String
  pub sql : String
  pub rows_affected : Option ℤ
  pub callsite : List SourceFrame
  pub plan : Option QueryPlan
  pub error : String

pub record Address : Type 0 where
  pub name : String
  pub email : String

pub record Email : Type 0 where
  pub base : Meta
  pub transport : String
  pub from : Address
  pub to : List Address
  pub cc : List Address
  pub bcc : List Address
  pub subject : String
  pub text : String
  pub html : String
  pub status : String
  pub callsite : List SourceFrame
  pub error : String

pub record Cache : Type 0 where
  pub base : Meta
  pub store : String
  pub operation : String
  pub key : String
  pub hit : Bool
  pub ttl : ℤ
  pub size : ℤ
  pub value : String
  pub truncated : Bool
  pub callsite : List SourceFrame
  pub error : String

pub record Argument : Type 0 where
  pub name : String
  pub type : String
  pub value : String
  pub size : ℤ
  pub truncated : Bool

pub record Job : Type 0 where
  pub base : Meta
  pub name : String
  pub queue : String
  pub connection : String
  pub state : String
  pub attempt : ℤ
  pub max_attempts : ℤ
  pub available_at : ℕ
  pub wait : ℤ
  pub arguments : List Argument
  pub callsite : List SourceFrame
  pub error : String

pub record Log : Type 0 where
  pub base : Meta
  pub level : String
  pub message : String
  pub fields : Assoc Value
  pub stack : String

pub record HttpCall : Type 0 where
  pub base : Meta
  pub method : String
  pub url : String
  pub status : ℤ
  pub request : HttpMessage
  pub response : HttpMessage
  pub response_size : ℤ
  pub callsite : List SourceFrame
  pub error : String

pub record Schedule : Type 0 where
  pub base : Meta
  pub name : String
  pub state : String
  pub planned_at : ℕ
  pub payload : Value
  pub callsite : List SourceFrame
  pub error : String
  pub panic : String

pub record Callable : Type 0 where
  pub base : Meta
  pub name : String
  pub state : String
  pub payload : Value
  pub result : Value
  pub callsite : List SourceFrame
  pub error : String
  pub panic : String

pub record Task : Type 0 where
  pub base : Meta
  pub name : String
  pub state : String
  pub fields : Assoc Value
  pub callsite : List SourceFrame
  pub error : String
  pub panic : String

pub record Exception : Type 0 where
  pub base : Meta
  pub type : String
  pub message : String
  pub stack : String

pub record Event : Type 0 where
  pub base : Meta
  pub kind : String
  pub name : String
  pub status : String
  pub summary : String
  pub fields : Assoc Value
  pub error : String

pub record MiddlewareWorkSpan : Type 0 where
  pub offset : ℤ
  pub duration : ℤ

pub record Middleware : Type 0 where
  pub base : Meta
  pub name : String
  pub state : String
  pub work_duration : Option ℤ
  pub work_spans : List MiddlewareWorkSpan
  pub error : String

pub record RequestResult : Type 0 where
  pub status : ℤ
  pub response_size : ℤ
  pub response : HttpMessage
  pub error : String

pub record Request : Type 0 where
  pub base : Meta
  pub method : String
  pub path : String
  pub route : String
  pub query : String
  pub scheme : String
  pub protocol : String
  pub host : String
  pub remote_ip : String
  pub status : ℤ
  pub request_size : ℤ
  pub response_size : ℤ
  pub request_message : HttpMessage
  pub response : HttpMessage
  pub error : String
  pub queries : List Query
  pub emails : List Email
  pub cache : List Cache
  pub jobs : List Job
  pub logs : List Log
  pub http_calls : List HttpCall
  pub schedules : List Schedule
  pub exceptions : List Exception
  pub events : List Event
  pub middlewares : List Middleware

-- the values that `record` takes
pub data Entity : Type 0 where
  request : Request → Entity
  query : Query → Entity
  email : Email → Entity
  cache : Cache → Entity
  job : Job → Entity
  log : Log → Entity
  http_call : HttpCall → Entity
  schedule : Schedule → Entity
  callable : Callable → Entity
  task : Task → Entity
  exception : Exception → Entity
  event : Event → Entity
  middleware : Middleware → Entity
