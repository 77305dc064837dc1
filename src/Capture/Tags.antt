-- ===== src/Capture/Tags.antt =====
-- context.go, profiler.go: `mergeTags`, and `attachRequest` of the entities of a request.
use webpprof.Prelude.{◌≡◌, refl, String, str_eq, none, some, [], ◌∷◌, if◌then◌else◌, arith, ◌∙◌}
use webpprof.Prelude.Assoc.{Assoc, lookup, insert, lookup-insert}
use webpprof.Contracts.{Meta}

-- Go walks the two maps in any order, and the keys of a map are distinct
unfoldable pub merge_tags : Assoc String → Assoc String → Assoc String
merge_tags base [] = base
merge_tags base ((key, value) ∷ override) = insert key value (merge_tags base override)

unfoldable pub attach_request : Meta → String → Assoc String → Meta
attach_request meta request_id tags = record meta {
  request_id = if str_eq meta.request_id "" then request_id else meta.request_id;
  tags = merge_tags tags meta.tags;
}

-- A merged map has the value of `override` under each of its keys, and that of `base` under the others.
lookup-merge_tags :
    (base override : Assoc String) (key : String)
    → lookup key (merge_tags base override)
      ≡ elim (lookup key override) [ none ↦ lookup key base | some value ↦ some value ]
unfolding merge_tags lookup
lookup-merge_tags base [] key = refl
lookup-merge_tags base ((k, v) ∷ override) key =
    lookup-insert k key v (merge_tags base override)
    ∙ ground (arith, lookup-merge_tags base override key)
