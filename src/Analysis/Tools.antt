-- ===== src/Analysis/Tools.antt =====
-- analysis.go: what the findings of an execution share. `sort.Slice` by `entryHappenedBefore` is an
-- insertion sort.
use webpprof.Prelude.{
  ℕ, String, Bool, false, Option, List, [], ◌∷◌, map, ltb, if◌then◌else◌, ℤ, pos, negsuc,
}
use webpprof.Prelude.Assoc.{Assoc}
use webpprof.Prelude.Text.{Text}
use webpprof.Entry.{Entry, Kind, is_kind}
use webpprof.Analysis.{AnalyzedHttpCall, FindingCode, Severity, Finding}
use webpprof.Analysis.Share.{prepend}
use webpprof.Analysis.Calls.{entry_happened_before}
use webpprof.Analysis.Repeats.{Pointers}
use webpprof.Analysis.Failures.{Decoders}
use webpprof.Analysis.Plans.{Patterns}

-- what the findings use of other code
pub record Tools : Type 0 where
  pub decode : Decoders
  pub to_upper : Text → Text
  pub to_lower : Text → Text
  pub equal_fold : String → String → Bool
  pub print : ℤ → Text
  -- the host of `url.Parse`, and none for its error
  pub parse_host : String → Option Text
  pub patterns : Patterns
  pub percent : ℕ → ℕ → ℕ
  pub explains : ℕ → ℕ → Bool
  pub walk : Assoc Entry → List String
  pub walk_again : Assoc Entry → List String

unfoldable pub insert_by {ℓ} : {A : Type ℓ} → (A → Entry) → A → List A → List A
insert_by entry a [] = a ∷ []
insert_by entry a (b ∷ rest) =
    let later = b ∷ insert_by entry a rest in
    if entry_happened_before (entry b) (entry a) then later else a ∷ b ∷ rest

unfoldable pub sort_by {ℓ} : {A : Type ℓ} → (A → Entry) → List A → List A
sort_by entry [] = []
sort_by entry (a ∷ rest) = insert_by entry a (sort_by entry rest)

abbrev pub is_positive : ℤ → Bool
is_positive (pos n) = ltb 0 n
is_positive (negsuc n) = false

abbrev pub entries_of : List AnalyzedHttpCall → List Entry
entries_of = map (λ (c : AnalyzedHttpCall). c.entry)

abbrev pub ids_of_entries : List Entry → List String
ids_of_entries = map (λ (e : Entry). e.id)

-- a finding that points to all of its entries, the first of them first
abbrev pub about_all : FindingCode → Severity → List String → List Finding
about_all code severity [] = []
about_all code severity (id ∷ ids) =
    record { code = code; severity = severity; entry_id = id; related_entry_ids = id ∷ ids } ∷ []

abbrev pub pointed : FindingCode → List Pointers → List Finding
pointed code = map (λ (p : Pointers). record {
  code = code;
  severity = Severity.warning;
  entry_id = p.entry_id;
  related_entry_ids = p.related_entry_ids;
})

-- the entries of a kind that decode
unfoldable pub gather {ℓ} : {A : Type ℓ} → Kind → (Entry → Option A) → List Entry → List A
gather kind read [] = []
gather kind read (e ∷ entries) =
    let rest = gather kind read entries in
    if is_kind kind e.kind then prepend (read e) rest else rest
