-- ===== src/Capture/Context.antt =====
-- context.go: contexts and what the profiler keeps in them, and `inheritContextMeta`. A context is
-- what it was made of; values of the application's own, which the profiler does not read, are left
-- out, and so is the nil context, which every function here takes for the empty one.
use webpprof.Prelude.{ℕ, String, str_eq, Bool, true, false, Option, none, some, [], if◌then◌else◌}
use webpprof.Prelude.Assoc.{Assoc}
use webpprof.Contracts.{Meta}
use webpprof.Capture.Tags.{merge_tags}

pub data Context : Type 0 where
  background : Context
  with_capture : ℕ → Context → Context
  with_parent : String → Context → Context
  with_tag_map : Assoc String → Context → Context
  recording_disabled : Context → Context
  uncorrelated : Context → Context

-- `RequestFromContext`, as the capture's place in the heap
unfoldable pub request_from_context : Context → Option ℕ
request_from_context Context.background = none
request_from_context (Context.with_capture h ctx) = some h
request_from_context (Context.with_parent id ctx) = request_from_context ctx
request_from_context (Context.with_tag_map tags ctx) = request_from_context ctx
request_from_context (Context.recording_disabled ctx) = request_from_context ctx
request_from_context (Context.uncorrelated ctx) = none

unfoldable pub parent_entry_id : Context → String
parent_entry_id Context.background = ""
parent_entry_id (Context.with_capture h ctx) = parent_entry_id ctx
parent_entry_id (Context.with_parent id ctx) = id
parent_entry_id (Context.with_tag_map tags ctx) = parent_entry_id ctx
parent_entry_id (Context.recording_disabled ctx) = parent_entry_id ctx
parent_entry_id (Context.uncorrelated ctx) = ""

unfoldable pub tags_from_context : Context → Assoc String
tags_from_context Context.background = []
tags_from_context (Context.with_capture h ctx) = tags_from_context ctx
tags_from_context (Context.with_parent id ctx) = tags_from_context ctx
tags_from_context (Context.with_tag_map tags ctx) = tags
tags_from_context (Context.recording_disabled ctx) = tags_from_context ctx
tags_from_context (Context.uncorrelated ctx) = tags_from_context ctx

unfoldable pub recording_enabled : Context → Bool
recording_enabled Context.background = true
recording_enabled (Context.with_capture h ctx) = recording_enabled ctx
recording_enabled (Context.with_parent id ctx) = recording_enabled ctx
recording_enabled (Context.with_tag_map tags ctx) = recording_enabled ctx
recording_enabled (Context.recording_disabled ctx) = false
recording_enabled (Context.uncorrelated ctx) = recording_enabled ctx

unfoldable pub without_correlation : Context → Context
without_correlation ctx = Context.uncorrelated ctx

unfoldable pub with_parent_entry : Context → String → Context
with_parent_entry ctx id = if str_eq id "" then ctx else Context.with_parent id ctx

unfoldable pub without_recording : Context → Context
without_recording ctx = Context.recording_disabled ctx

unfoldable pub inherit_context_meta : Context → Meta → Meta
inherit_context_meta ctx meta = record meta {
  tags = merge_tags (tags_from_context ctx) meta.tags;
  parent_id = if str_eq meta.parent_id "" then parent_entry_id ctx else meta.parent_id;
}
