-- ===== src/Store/Window.antt =====
-- What the store promises: a window of entries, oldest first, with distinct ids. A new version of an
-- entry moves it to the end; entries leave only from the front, when they are expired or when the
-- window holds too many entries or bytes. An entry that is expired behind one that is not stays.
pub mod Laws
pub mod Trim
use webpprof.Prelude.{
  ℕ, ◌+◌, ◌≤◌, ◌<◌, ◌≡◌, String, str_eq, Bool, true, false, ◌||◌, Option, none, some, List, [], ◌∷◌,
  ◌++◌, map, length, ltb, if◌then◌else◌,
}
use webpprof.Entry.{Entry, entry_size}

abbrev pub ids : List Entry → List String
ids = map (λ e. e.id)

unfoldable pub total : List Entry → ℕ
total [] = 0
total (e ∷ w) = entry_size e + total w

unfoldable pub find : String → List Entry → Option Entry
find id [] = none
find id (e ∷ w) = if str_eq e.id id then some e else find id w

unfoldable pub without : String → List Entry → List Entry
without id [] = []
without id (e ∷ w) = let rest = without id w in if str_eq e.id id then rest else e ∷ rest

abbrev pub Distinct : List Entry → Type 0
Distinct [] = Unit
Distinct (e ∷ w) = (find e.id w ≡ none) × Distinct w

-- what `purgeExpiredLocked` takes, the entries at the front that were recorded before the cutoff, up to the first that
-- was not, and what it leaves
unfoldable pub expired : ℕ → List Entry → List Entry
expired cutoff [] = []
expired cutoff (e ∷ w) =
    let rest = expired cutoff w in if ltb e.recorded_at cutoff then e ∷ rest else []

unfoldable pub expire : ℕ → List Entry → List Entry
expire cutoff [] = []
expire cutoff (e ∷ w) =
    let rest = expire cutoff w in if ltb e.recorded_at cutoff then rest else e ∷ w

abbrev pub exceeds : ℕ → ℕ → List Entry → Bool
exceeds max_events max_bytes w = ltb max_events (length w) || ltb max_bytes (total w)

-- the shortest front whose loss brings the window within its limits, and what comes after it
unfoldable pub surplus : ℕ → ℕ → List Entry → List Entry
surplus max_events max_bytes [] = []
surplus max_events max_bytes (e ∷ w) =
    let rest = surplus max_events max_bytes w in
    if exceeds max_events max_bytes (e ∷ w) then e ∷ rest else []

unfoldable pub trim : ℕ → ℕ → List Entry → List Entry
trim max_events max_bytes [] = []
trim max_events max_bytes (e ∷ w) =
    let rest = trim max_events max_bytes w in
    if exceeds max_events max_bytes (e ∷ w) then rest else e ∷ w

-- the window after an entry is stored: an earlier version is gone, and the oldest entries go until
-- both limits hold
abbrev pub with_entry : ℕ → ℕ → Entry → List Entry → List Entry
with_entry max_events max_bytes e w = trim max_events max_bytes (without e.id w ++ e ∷ [])
