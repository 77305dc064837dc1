-- ===== src/Http/Listing.antt =====
-- http.go: the handlers that read the store. The query of a URL comes parsed: a number that is
-- absent or no number is 0, and a duration is in nanoseconds and not negative, as `listEvents`
-- makes it.
use webpprof.Prelude.{
  ℕ, ◌+◌, String, str_eq, Bool, true, false, ◌||◌, Option, none, some, List, [], ◌∷◌, length, ltb,
  ◌==◌, if◌then◌else◌, ℤ, pos, negsuc,
}
use webpprof.Prelude.Text.{Text}
use webpprof.Entry.{Entry}
use webpprof.Store.{EntryStore, StorageBatch, clear}
use webpprof.Store.Reads.{get}
use webpprof.Store.Query.{EventFilters, RequestLine, list_before_filtered}

-- `parseStatusFilter`, of what `strconv.Atoi` returns
unfoldable pub parse_status_filter : Option ℤ → ℕ
parse_status_filter none = 0
parse_status_filter (some (negsuc n)) = 0
parse_status_filter (some (pos n)) = if ltb n 100 || ltb 599 n then 0 else n

abbrev pub page_limit : ℤ → ℕ
page_limit (negsuc n) = 200
page_limit (pos n) = if n == 0 || ltb 1000 n then 200 else n

pub record Page : Type 0 where
  pub events : List Entry
  pub scanned : ℕ
  pub has_more : Bool

-- `entries[1:]`
abbrev pub without_first {ℓ} : {A : Type ℓ} → List A → List A
without_first [] = []
without_first (x ∷ xs) = xs

-- the end of `listEvents`
abbrev pub page_of : ℕ → List Entry → ℕ → Page
page_of limit entries scanned =
    let has_more = ltb limit (length entries) in
    record {
      events = if has_more then without_first entries else entries;
      scanned = scanned;
      has_more = has_more;
    }

-- the status and the body of `getEvent`
unfoldable pub get_event : EntryStore → String → ℕ → (ℕ × Option Entry) × StorageBatch × EntryStore
get_event s id now =
    let (found, batch, s') = get s id now in
    (elim found [ none ↦ (404, none) | some e ↦ (200, some e) ], batch, s')

unfoldable pub clear_events : EntryStore → ℕ × StorageBatch × EntryStore
clear_events s = let (batch, s') = clear s in (204, batch, s')

-- `checkOrigin`; `host_of` is `url.Parse` and the host of its result
unfoldable pub is_allowed_origin : List String → String → Bool
is_allowed_origin [] origin = false
is_allowed_origin (o ∷ origins) origin = str_eq o origin || is_allowed_origin origins origin

unfoldable pub check_origin :
    (String → Option String) → (String → String → Bool) → List String → String → String → Bool
check_origin host_of equal_fold allowed origin host =
    if str_eq origin ""
    then true
    else if is_allowed_origin allowed origin
    then true
    else elim (host_of origin) [ none ↦ false | some parsed ↦ equal_fold parsed host ]

module _ (to_lower : Text → Text) (equal_fold : Text → Text → Bool)
    (decode_request : String → Option RequestLine) where
  -- `listEvents`, up to the statistics that it adds
  unfoldable pub list_events : EntryStore → EventFilters → ℤ → ℕ → Page × StorageBatch × EntryStore
  list_events s f limit now =
      let (entries, scanned, batch, s') =
        list_before_filtered to_lower equal_fold decode_request s f (page_limit limit + 1) now in
      (page_of (page_limit limit) entries scanned, batch, s')
