-- ===== src/Store/Query.antt =====
-- store.go: how entries are listed: `matchesTags`, `matchesEventFilters` and `listBeforeFiltered`,
-- and the scope of an execution: `scopeIDsLocked` and `scopeEntries`. A duration of a filter and
-- a status are not negative, and a limit that is not positive is the limit 0. `strings.ToLower` and `strings.EqualFold`
-- on any Unicode text, and what `json.Unmarshal` reads of a request, are parameters.
pub mod Newest
pub mod Scope
mod ScopeTests
use mathlib.Core.Option
use mathlib.Core.List.{reverse}
use webpprof.Prelude.{
  ℕ, zero, suc, ◌-◌, String, str_eq, Bool, true, false, not, ◌&&◌, ◌||◌, Option, none, some, List,
  [], ◌∷◌, ◌++◌, length, ltb, leb, ◌==◌, if◌then◌else◌, ℤ, pos, ltb_ℤ,
}
use webpprof.Prelude.Assoc.{Assoc, lookup}
use webpprof.Prelude.Text.{Text, codes, text_eq, trim_space, contains, cut}
use webpprof.Order
use webpprof.Entry.{Entry, Kind, kind_text, is_kind}
use webpprof.Store.{EntryStore, StorageBatch, storage_batch, purge_expired, entry_at}
use webpprof.Store.Reads.{collect}

pub record EventFilters : Type 0 where
  pub kind : String
  pub request_id : String
  pub scope_id : String
  pub tags : List String
  pub query : String
  pub method : String
  pub path_contains : String
  pub status : ℕ
  pub min_duration_ns : ℕ
  pub max_duration_ns : ℕ
  pub after : ℕ
  pub before : ℕ

-- what `matchesEventFilters` reads of a request's `Data`
pub record RequestLine : Type 0 where
  pub method : String
  pub path : String
  pub status : ℕ

-- `tags[key]` with a key that is a part of a filter
unfoldable pub tag_value : Text → Assoc String → Option String
tag_value key [] = none
tag_value key ((k, v) ∷ tags) = if text_eq (codes k) key then some v else tag_value key tags

-- one round of `matchesTags`, for a filter that is not empty
unfoldable pub matches_tag : Assoc String → Text → Bool
matches_tag tags filter =
    let (key, value) = cut b'=' filter in
    if text_eq (trim_space key) [] then false else elim (tag_value (trim_space key) tags) [
      | none ↦ false
      | some actual ↦ elim value [ none ↦ true | some v ↦ text_eq (codes actual) (trim_space v) ]
    ]

unfoldable pub matches_tags : Assoc String → List String → Bool
matches_tags tags [] = true
matches_tags tags (f ∷ filters) =
    let filter = trim_space (codes f) in
    (text_eq filter [] || matches_tag tags filter) && matches_tags tags filters

unfoldable pub is_one_of : Text → List Text → Bool
is_one_of id [] = false
is_one_of id (other ∷ ids) = text_eq other id || is_one_of id ids

-- `children[parent]`; the map may be walked in any order
unfoldable pub children_of : Text → Assoc Entry → List Text
children_of parent [] = []
children_of parent ((key, e) ∷ entries) =
    let rest = children_of parent entries in
    if not (str_eq e.parent_id "")
      && (not (str_eq e.id e.parent_id) && text_eq (codes e.parent_id) parent)
    then codes e.id ∷ rest
    else rest

-- the inner loop of `scopeIDsLocked`, with the stack's top first
unfoldable pub visit_children : List Text → List Text → List Text → List Text × List Text
visit_children [] ids stack = (ids, stack)
visit_children (child ∷ children) ids stack =
    let seen = is_one_of child ids in
    visit_children children (if seen then ids else child ∷ ids)
      (if seen then stack else child ∷ stack)

-- the outer loop; each round takes one id from the stack, and an id is pushed once
unfoldable pub visit : ℕ → Assoc Entry → List Text → List Text → List Text
visit zero entries ids stack = ids
visit (suc fuel) entries ids [] = ids
visit (suc fuel) entries ids (parent ∷ stack) =
    let (ids', stack') = visit_children (children_of parent entries) ids stack in
    visit fuel entries ids' stack'

-- `scopeIDsLocked`; `none` is the nil map
unfoldable pub scope_ids : EntryStore → String → Option (List Text)
scope_ids s root =
    let id = trim_space (codes root) in
    if text_eq id []
    then none
    else some (visit (suc (length s.entries)) s.entries (id ∷ []) (id ∷ []))

abbrev pub in_scope : Option (List Text) → Entry → Bool
in_scope none e = true
in_scope (some ids) e = is_one_of (codes e.id) ids

-- the loop of `scopeEntries`; a nil map has no id
abbrev pub included : Option (List Text) → Entry → Bool
included none e = false
included (some ids) e = is_one_of (codes e.id) ids

unfoldable pub scope_entries :
    EntryStore → String → ℕ → Option (Entry × List Entry) × StorageBatch × EntryStore
scope_entries s root now =
    let (records, s') = purge_expired s now in
    let (batch, s'') = storage_batch s' records in
    let entries = collect s' (included (scope_ids s' root)) s'.order.count 0 in
    (Option.map (λ e. (e, entries)) (lookup root s'.entries), batch, s'')

-- the two tests on the cursor
unfoldable pub in_range : EventFilters → Entry → Bool
in_range f e =
    not (ltb 0 f.after && leb e.cursor f.after) && not (ltb 0 f.before && leb f.before e.cursor)

-- the loop of `listBeforeFiltered`: `index` is one more than the source's, and `room` is what the
-- limit leaves; the result is in the order in which the loop finds it, with the count `scanned`
unfoldable pub scan : EntryStore → (Entry → Bool) → (Entry → Bool) → ℕ → ℕ → List Entry × ℕ
scan s ranged wanted zero room = ([], 0)
scan s ranged wanted (suc index) zero = ([], 0)
scan s ranged wanted (suc index) (suc room) =
    let entry = entry_at s (Order.at s.order index) in
    let found = ranged entry && wanted entry in
    let (result, scanned) = scan s ranged wanted index (if found then room else suc room) in
    (if found then entry ∷ result else result, if ranged entry then suc scanned else scanned)

abbrev pub effective_limit : ℕ → ℕ
effective_limit limit = if limit == 0 || ltb 1001 limit then 200 else limit

module _ (to_lower : Text → Text) (equal_fold : Text → Text → Bool)
    (decode_request : String → Option RequestLine) where
  abbrev pub mentions : String → Text → Bool
  mentions text query = contains (to_lower (codes text)) query

  unfoldable pub tags_mention : Assoc String → Text → Bool
  tags_mention [] query = false
  tags_mention ((key, value) ∷ tags) query =
      mentions key query || mentions value query || tags_mention tags query

  unfoldable pub entry_contains : Entry → Text → Bool
  entry_contains e query =
      (mentions e.id query
        || (mentions (kind_text e.kind) query
            || (mentions e.request_id query
                || (mentions e.process query
                    || (mentions e.instance_name query || mentions e.payload query)))))
      || tags_mention e.tags query

  -- the end of `matchesEventFilters`, on what was read of the request
  unfoldable pub matches_request : Text → Text → ℕ → Option RequestLine → Bool
  matches_request method path_contains status none = false
  matches_request method path_contains status (some request) =
      (text_eq method [] || equal_fold method (codes request.method))
      && ((text_eq path_contains [] || contains (to_lower (codes request.path)) path_contains)
          && (status == 0 || status == request.status))

  unfoldable pub matches_event_filters : Entry → EventFilters → Bool
  matches_event_filters e f =
      let query = to_lower (trim_space (codes f.query)) in
      let method = trim_space (codes f.method) in
      let path_contains = to_lower (trim_space (codes f.path_contains)) in
      (str_eq f.kind "" || str_eq (kind_text e.kind) f.kind)
      && ((str_eq f.request_id ""
            || (str_eq e.request_id f.request_id
                || (str_eq e.id f.request_id || str_eq e.origin_request_id f.request_id)))
          && (matches_tags e.tags f.tags
              && (not (ltb 0 f.min_duration_ns && ltb_ℤ e.duration_ns (pos f.min_duration_ns))
                  && (not (ltb 0 f.max_duration_ns && ltb_ℤ (pos f.max_duration_ns) e.duration_ns)
                      && ((text_eq query [] || entry_contains e query)
                          && ((text_eq method [] && (text_eq path_contains [] && f.status == 0))
                              || (is_kind Kind.request e.kind
                                  && matches_request method path_contains f.status
                                      (decode_request e.payload))))))))

  -- `listBeforeFiltered` on an open or closed store: the entries, oldest first, and `scanned`
  unfoldable pub list_before_filtered :
      EntryStore → EventFilters → ℕ → ℕ → List Entry × ℕ × StorageBatch × EntryStore
  list_before_filtered s f limit now =
      let (records, s') = purge_expired s now in
      let scope = scope_ids s' f.scope_id in
      let wanted = λ (e : Entry). in_scope scope e && matches_event_filters e f in
      let (result, scanned) = scan s' (in_range f) wanted s'.order.count (effective_limit limit) in
      let (batch, s'') = storage_batch s' records in (reverse result, scanned, batch, s'')
