-- ===== src/Http/Tests.antt =====
-- Runs of the handlers, and their theorems at concrete inputs.
use webpprof.Prelude.{
  All, ap, ℕ, ◌<◌, ◌≡◌, ◌⊎◌, ◌↔◌, inr, refl, String, true, false, none, some, List, [], ◌∷◌, pos,
  min, arith, take, length, ltb,
}
use webpprof.Prelude.Assoc.{lookup, insert, delete}
use webpprof.Prelude.Text.{to_lower, text_eq}
use mathlib.Core.List.{reverse}
use webpprof.Entry.{Entry, Kind, zero_entry, entry_size, kind_text, tags_size}
use webpprof.Store.{EntryStore, put}
use webpprof.Store.Window.{with_entry, expire}
use webpprof.Store.Bounds.{put-Stored, cutoff}
use webpprof.Store.Holds.{Holds}
use webpprof.Store.Put.{stamped}
use webpprof.Store.Query.{EventFilters}
use webpprof.Options.Settings.{Library, config_from_options, apply_settings}
use webpprof.Options.Start.{new_entry_store, new_entry_store-IsWithin}
use webpprof.Http.Login.{
  LoginFailures, LoginFailure, login_blocked, record_login_failure, clear_login_failures,
}
use webpprof.Http.Session.{
  AccessConfig, Clock, LoginBody, check_login, create_session, try_token, session_cookie, authorize,
}
use webpprof.Http.Concurrent.{Logins, LoginStep, login_step, in_flight, refused, peak}
use webpprof.Http.Access.{IsOpen, login-authorized}
use webpprof.Http.Routes.{routes, is_api, Allowed, IsHandled, serve-IsHandled}
use webpprof.Http.Listing.{list_events, page_limit}
use webpprof.Http.Paging.{matching, list_events-page}

program : Unit {0}
unfolding lookup insert delete login_blocked record_login_failure clear_login_failures
    create_session check_login try_token authorize login_step in_flight refused peak
program = tt

abbrev access : AccessConfig
access = record {
  token = "secret";
  unsafe_no_auth = false;
  base_path = "/debug/webpprof";
  secure_cookie = true;
  session_token = "s";
}

abbrev at : ℕ → Clock
at now = record { at_block = now; at_reply = now; at_failure = now }

abbrev sum256 : String → String
sum256 text = text

abbrev failing : LoginFailures
failing = ("h", record { count = 3; window_ends = 100 }) ∷ []

abbrev guess : String → LoginStep
guess client =
    LoginStep.arrives
      (record { client = client; body = LoginBody.with_token "guess"; clock = at 50 })

abbrev logins : Logins
logins = record { failures = failing; checked = [] }

-- three come at once, and are all answered before another comes
abbrev at_once : List LoginStep
at_once =
    guess "h"
    ∷ guess "h"
    ∷ guess "other"
    ∷ guess "h"
    ∷ LoginStep.goes_on 0
    ∷ LoginStep.goes_on 2
    ∷ LoginStep.goes_on 1
    ∷ LoginStep.goes_on 0
    ∷ guess "h"
    ∷ LoginStep.goes_on 0
    ∷ []

-- all three of "h" are refused, though five failures are counted after two
at_once_lem : refused sum256 access "h" logins at_once ≡ 3
unfolding program
at_once_lem = refl

-- one after the other, the third is blocked
abbrev in_turn : List LoginStep
in_turn =
    guess "h"
    ∷ LoginStep.goes_on 0
    ∷ guess "h"
    ∷ LoginStep.goes_on 0
    ∷ guess "h"
    ∷ LoginStep.goes_on 0
    ∷ []

in_turn_lem : refused sum256 access "h" logins in_turn ≡ 2
unfolding program
in_turn_lem = refl

failing-IsOpen : IsOpen failing "h" 100
unfolding program
failing-IsOpen f h = inr (ap_count (some_is h))
  where
    some_is : {a b : LoginFailure} → some a ≡ some b → a ≡ b
    some_is h = cc

    ap_count : record { count = 3; window_ends = 100 } ≡ f → f.count < 5
    ap_count e = omega (arith, ap (λ (g : LoginFailure). g.count) e)

login-authorized_example :
    let (response, failures') =
      create_session sum256 access failing "h" (LoginBody.with_token "secret") (at 100) in
    (response.status ≡ 204)
    × (response.cookie ≡ some (session_cookie access))
    × (authorize access (λ r. false) true (some (session_cookie access).value) ≡ true)
    × (lookup "h" failures' ≡ none)
login-authorized_example =
    login-authorized sum256 access failing "h" "secret" (at 100) refl failing-IsOpen refl

serve-IsHandled_example :
    All
      (λ r. IsHandled access (some "s") r ↔ ((is_api r ≡ false) ⊎ Allowed access (some "s")))
      routes
serve-IsHandled_example = serve-IsHandled access (some "s")

abbrev library : Library ℕ
library = record {
  clamp = min 1;
  to_upper = λ text. text;
  to_lower = to_lower;
  is_word = λ c. true;
  series_name = λ n. [];
  counter_name = λ n. [];
}

abbrev fresh : EntryStore
fresh = new_entry_store (config_from_options library 1 [])

abbrev query : Entry
query = record zero_entry { id = "q"; kind = Kind.query; recorded_at = 10; payload = "{}" }

abbrev no_filters : EventFilters
no_filters = record {
  kind = "query";
  request_id = "";
  scope_id = "";
  tags = [];
  query = "";
  method = "";
  path_contains = "";
  status = 0;
  min_duration_ns = 0;
  max_duration_ns = 0;
  after = 0;
  before = 0;
}

abbrev one : EntryStore
one = (put fresh query 10).2

abbrev one_window : List Entry
one_window =
    with_entry fresh.max_events fresh.max_bytes (stamped fresh query) (expire (cutoff fresh 10) [])

one-Holds : Holds one one_window
unfolding program new_entry_store entry_size kind_text tags_size apply_settings
one-Holds =
    (put-Stored fresh [] query 10 (new_entry_store-IsWithin library 1 [] (omega arith)) refl
      (omega arith)).holds

list_events-page_example :
    let page = (list_events to_lower text_eq (λ text. none) one no_filters (pos 1) 20).0 in
    let found = matching to_lower text_eq (λ text. none) one one_window no_filters 20 in
    (page.events ≡ reverse (take (page_limit (pos 1)) found))
    × (page.has_more ≡ ltb (page_limit (pos 1)) (length found))
list_events-page_example =
    list_events-page to_lower text_eq (λ text. none) one one_window no_filters (pos 1) 20 one-Holds
