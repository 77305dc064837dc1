-- ===== src/Capture.antt =====
-- profiler.go, query_callsite.go, capture_rules.go, request.go: the state that the Log methods
-- change, `record` and the callsites. A profiler's effect on its store is the list of the entries
-- that it handed to `store.put`; what the store does with them is in Store.antt. The captures live
-- in a heap, since a context and the code that began a request share one. Every capture and every
-- Log function here belongs to one profiler that is not nil.
pub mod Tags
pub mod Context
pub mod Log
pub mod Buffer
pub mod LogRequest
pub mod Related
pub mod LogContext
pub mod Conservation
pub mod Finish
pub mod Spans
pub mod TaskSpan
pub mod EventSpan
mod Tests
mod SpanTests
use webpprof.Prelude.{
  ℕ, ◌+◌, ◌==◌, String, str_eq, Bool, true, false, not, ◌&&◌, ◌||◌, Option, none, some, List, [],
  ◌∷◌, ◌++◌, if◌then◌else◌,
}
use webpprof.Entry.{Entry, Kind, is_kind}
use webpprof.Contracts.{Meta, SourceFrame, Request, Entity}

-- what the code reads of its configuration
pub record Config : Type 0 where
  pub disabled_kinds : List Kind
  pub callsite_kinds : List Kind
  pub source_link : Option (SourceFrame → String)
  pub retention_filters : List (Request → Bool)

-- what the code calls outside the module, in one call: `newID` for the n-th time, the frames of the
-- goroutine's stack that `CaptureCallsite` keeps, `marshalRedacted`, and the clock, of which one
-- reading serves the whole call
pub record Environment : Type 0 where
  pub config : Config
  pub new_id : ℕ → String
  pub capture_callsite : Kind → List SourceFrame
  pub marshal_redacted : Entity → Option String
  pub now : ℕ

pub record RequestCapture : Type 0 where
  pub request : Request
  pub is_finished : Bool

-- `issued_ids` is how often `newID` was called
pub record Profiler : Type 0 where
  pub puts : List Entry
  pub issued_ids : ℕ
  pub captures : List RequestCapture

abbrev pub is_among : Kind → List Kind → Bool
is_among kind [] = false
is_among kind (k ∷ kinds) = is_kind k kind || is_among kind kinds

unfoldable pub supports_callsite : Kind → Bool
supports_callsite kind = is_among kind (
    Kind.query ∷ Kind.cache ∷ Kind.email ∷ Kind.job ∷ Kind.http_call ∷ Kind.schedule ∷ Kind.callable
    ∷ Kind.task ∷ [])

unfoldable pub captures_callsite : Config → Kind → Bool
captures_callsite c kind = supports_callsite kind && is_among kind c.callsite_kinds

-- the loop of `prepareCallsite`
unfoldable pub link_frames : (SourceFrame → String) → List SourceFrame → List SourceFrame
link_frames link [] = []
link_frames link (f ∷ frames) =
    (if str_eq f.url "" then record f { url = link f } else f) ∷ link_frames link frames

unfoldable pub captured : Environment → Kind → List SourceFrame → List SourceFrame
captured env kind [] = if captures_callsite env.config kind then env.capture_callsite kind else []
captured env kind (f ∷ frames) = f ∷ frames

unfoldable pub prepare_callsite : Environment → Kind → List SourceFrame → List SourceFrame
prepare_callsite env kind callsite = elim env.config.source_link [
  | none ↦ captured env kind callsite
  | some link ↦ link_frames link (captured env kind callsite)
]

-- the entry that `record` hands to `store.put`; its cursor is the store's to set
abbrev pub entry_of : Kind → Meta → ℕ → String → Entry
entry_of kind meta now payload = record {
  cursor = 0;
  id = meta.id;
  kind = kind;
  request_id = meta.request_id;
  parent_id = meta.parent_id;
  origin_request_id = meta.origin_request_id;
  process = meta.process;
  instance_name = meta.instance_name;
  started_at = meta.started_at;
  recorded_at = now;
  duration_ns = meta.duration;
  tags = meta.tags;
  payload = payload;
}

-- `record`, for the entity that `value` is
unfoldable pub record_entity : Environment → Profiler → Kind → Meta → Entity → Profiler
record_entity env p kind meta value =
    let needs_id = str_eq meta.id "" in
    let id = if needs_id then env.new_id p.issued_ids else meta.id in
    let started_at = if meta.started_at == 0 then env.now else meta.started_at in
    let filled = record meta { id = id; started_at = started_at } in
    let issued_ids = if needs_id then p.issued_ids + 1 else p.issued_ids in
    if is_among kind env.config.disabled_kinds then p else elim (env.marshal_redacted value) [
      | none ↦ record p { issued_ids = issued_ids }
      | some payload ↦ record p {
        issued_ids = issued_ids;
        puts = p.puts ++ entry_of kind filled env.now payload ∷ [];
      }
    ]

-- `shouldRetainRequest`
unfoldable pub passes : List (Request → Bool) → Request → Bool
passes [] request = true
passes (filter ∷ filters) request = filter request && passes filters request
