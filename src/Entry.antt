-- ===== src/Entry.antt =====
-- contracts.go: what the store holds, and `entrySize` and `cloneEntry` of store.go. A time is the
-- number of nanoseconds since Go's zero time, so 0 is the zero time; `Data`, which is JSON text, is
-- a text. A map that is nil and one that is empty are not told apart.
use webpprof.Prelude.{ℕ, ◌+◌, String, len, [], ◌∷◌, ℤ, pos}
use webpprof.Prelude.{Bool, str_eq}
use webpprof.Prelude.Assoc.{Assoc}

-- `Kind`; `other` holds a text that is none of the constants
pub data Kind : Type 0 where
  request query email cache job log http_call : Kind
  schedule callable task exception event middleware : Kind
  other : String → Kind

unfoldable pub kind_text : Kind → String
kind_text Kind.request = "request"
kind_text Kind.query = "query"
kind_text Kind.email = "email"
kind_text Kind.cache = "cache"
kind_text Kind.job = "job"
kind_text Kind.log = "log"
kind_text Kind.http_call = "http_call"
kind_text Kind.schedule = "schedule"
kind_text Kind.callable = "callable"
kind_text Kind.task = "task"
kind_text Kind.exception = "exception"
kind_text Kind.event = "event"
kind_text Kind.middleware = "middleware"
kind_text (Kind.other text) = text

-- `==` on kinds
abbrev pub is_kind : Kind → Kind → Bool
is_kind k kind = str_eq (kind_text kind) (kind_text k)

pub record Entry : Type 0 where
  pub cursor : ℕ
  pub id : String
  pub kind : Kind
  pub request_id : String
  pub parent_id : String
  pub origin_request_id : String
  pub process : String
  pub instance_name : String
  pub started_at : ℕ
  pub recorded_at : ℕ
  pub duration_ns : ℤ
  pub tags : Assoc String
  pub payload : String

-- `Entry{}`, which a map returns for a missing key
abbrev pub zero_entry : Entry
zero_entry = record {
  cursor = 0;
  id = "";
  kind = Kind.other "";
  request_id = "";
  parent_id = "";
  origin_request_id = "";
  process = "";
  instance_name = "";
  started_at = 0;
  recorded_at = 0;
  duration_ns = pos 0;
  tags = [];
  payload = "";
}

-- the loop of `entrySize`, which may walk the map in any order
unfoldable pub tags_size : Assoc String → ℕ
tags_size [] = 0
tags_size ((key, value) ∷ tags) = len key + len value + 32 + tags_size tags

unfoldable pub entry_size : Entry → ℕ
unfolding tags_size kind_text
entry_size e =
    len e.id
    + len e.request_id
    + len e.parent_id
    + len e.origin_request_id
    + len e.process
    + len e.instance_name
    + len (kind_text e.kind)
    + len e.payload
    + 160
    + tags_size e.tags
