-- ===== src/Analysis/Repeats.antt =====
-- analysis.go: `nPlusOneFindings` and `cacheMissQueryFindings`, without the texts of the findings. A `map` of
-- groups is a list of the groups in the order of their first queries; a set of ids is a list. `strings.ToUpper`,
-- `strings.ToLower`, `strings.EqualFold` and the printing of a line are parameters.
use webpprof.Prelude.{
  ℕ, ◌-◌, String, str_eq, Bool, true, false, not, ◌&&◌, ◌||◌, Option, none, some, List, [], ◌∷◌,
  ◌++◌, filter, length, ltb, leb, ◌==◌, if◌then◌else◌, ℤ, map,
}
use webpprof.Prelude.Text.{Text, codes, text_eq, trim_space}
use webpprof.Entry.{Entry}
use webpprof.Contracts.{SourceFrame}
use webpprof.Options.Patterns.{fields}
use webpprof.Analysis.{AnalyzedQuery}
use webpprof.Analysis.Calls.{end_of, max_gap}

-- `EntryID` and `RelatedEntryIDs` of a finding
pub record Pointers : Type 0 where
  pub entry_id : String
  pub related_entry_ids : List String

abbrev pub ids_of : List AnalyzedQuery → List String
ids_of = map (λ q. q.entry.id)

-- `_, ok := set[id]`
unfoldable pub has_id : String → List String → Bool
has_id id [] = false
has_id id (x ∷ ids) = str_eq x id || has_id id ids

abbrev pub first_word : List Text → Text
first_word [] = []
first_word (word ∷ words) = word

-- `strings.Compare(left, right) < 0`
unfoldable pub text_lt : Text → Text → Bool
text_lt [] [] = false
text_lt [] (b ∷ t) = true
text_lt (a ∷ s) [] = false
text_lt (a ∷ s) (b ∷ t) = ltb a b || (a == b && text_lt s t)

pub record Group : Type 0 where
  pub key : Text
  pub queries : List AnalyzedQuery

-- `groups[key] = append(groups[key], query)`
unfoldable pub add_to_group : Text → AnalyzedQuery → List Group → List Group
add_to_group key q [] = record { key = key; queries = q ∷ [] } ∷ []
add_to_group key q (g ∷ groups) =
    let rest = add_to_group key q groups in
    if text_eq g.key key then record g { queries = g.queries ++ q ∷ [] } ∷ groups else g ∷ rest

-- the order of `slices.SortFunc`: larger groups first, then by their keys
abbrev pub precedes : Group → Group → Bool
precedes g h =
    ltb (length h.queries) (length g.queries)
    || (length g.queries == length h.queries && text_lt g.key h.key)

unfoldable pub insert_group : Group → List Group → List Group
insert_group g [] = g ∷ []
insert_group g (h ∷ groups) =
    let rest = insert_group g groups in if precedes h g then h ∷ rest else g ∷ h ∷ groups

unfoldable pub sort_groups : List Group → List Group
sort_groups [] = []
sort_groups (g ∷ groups) = insert_group g (sort_groups groups)

abbrev pub first_id : List AnalyzedQuery → String
first_id [] = ""
first_id (q ∷ queries) = q.entry.id

abbrev pub points_to : List AnalyzedQuery → Pointers
points_to queries = record { entry_id = first_id queries; related_entry_ids = ids_of queries }

module _ (to_upper to_lower : Text → Text) (print : ℤ → Text) where
  unfoldable pub sql_statement_operation : String → Text
  sql_statement_operation sql = to_upper (first_word (fields (codes sql)))

  abbrev pub locality : Entry → List SourceFrame → Text
  locality e [] = codes e.parent_id
  locality e (f ∷ frames) =
      codes f.file ++ (codes ":" ++ (print f.line ++ (codes ":" ++ codes f.function)))

  -- `queryNPlusOneGroup`
  unfoldable pub query_n_plus_one_group : AnalyzedQuery → Text
  query_n_plus_one_group q =
      let own = to_upper (trim_space (codes q.query.operation)) in
      let operation = if text_eq own [] then sql_statement_operation q.query.sql else own in
      let reads = text_eq operation (codes "SELECT") || text_eq operation (codes "WITH") in
      if not reads || text_eq q.fingerprint []
      then []
      else to_lower (codes q.query.connection)
        ++ 0
          ∷ (to_lower (codes q.query.database)
              ++ 0 ∷ (locality q.entry q.query.callsite ++ 0 ∷ q.fingerprint))

  -- the loop that fills `groups`
  unfoldable pub group_queries : List String → List AnalyzedQuery → List Group → List Group
  group_queries excluded [] groups = groups
  group_queries excluded (q ∷ queries) groups =
      let key = query_n_plus_one_group q in
      let skipped = text_eq key [] || has_id q.entry.id excluded in
      group_queries excluded queries (if skipped then groups else add_to_group key q groups)

  unfoldable pub n_plus_one : List AnalyzedQuery → List String → List Pointers
  n_plus_one queries excluded =
      map (λ g. points_to g.queries)
        (sort_groups (filter (λ g. leb 3 (length g.queries)) (group_queries excluded queries [])))

-- the queries from the first on that does not start before a cache operation
unfoldable pub queries_from : ℕ → List AnalyzedQuery → List AnalyzedQuery
queries_from at [] = []
queries_from at (q ∷ queries) =
    let rest = queries_from at queries in if ltb q.entry.started_at at then rest else q ∷ queries

-- the inner loop: the queries that repeat, and `none` where one of them was claimed before
unfoldable pub repeated_from :
    Option ℕ → List String → Text → Option Entry → List AnalyzedQuery → Option (List AnalyzedQuery)
repeated_from resolved claimed fingerprint previous [] = some []
repeated_from resolved claimed fingerprint previous (q ∷ queries) =
    let rest = repeated_from resolved claimed fingerprint (some q.entry) queries in
    if is_resolved resolved q.entry
      || (not (text_eq q.fingerprint fingerprint) || is_apart previous q.entry)
    then some []
    else if has_id q.entry.id claimed
    then none
    else elim rest [ none ↦ none | some found ↦ some (q ∷ found) ]
  where
    -- the resolution of the miss comes before the query
    is_resolved : Option ℕ → Entry → Bool
    is_resolved none e = false
    is_resolved (some at) e = not (ltb e.started_at at)

    -- more than the gap after the query before it
    is_apart : Option Entry → Entry → Bool
    is_apart none e = false
    is_apart (some p) e = ltb max_gap (e.started_at - end_of p)
