-- ===== src/Http/Login.antt =====
-- http.go: the failed logins that the profiler counts for each client. Each method runs under
-- `loginMu`; a time is a number of nanoseconds since Go's zero time, and `loginFailure{}` has the
-- zero time.
use webpprof.Prelude.{ℕ, ◌+◌, ◌*◌, String, Bool, false, Option, none, some, ltb, leb, if◌then◌else◌}
use webpprof.Prelude.Assoc.{Assoc, lookup, insert, delete}

abbrev pub login_failure_limit : ℕ
login_failure_limit = 5

-- `time.Minute`
abbrev pub login_failure_window : ℕ
login_failure_window = 60 * 1000000000

pub record LoginFailure : Type 0 where
  pub count : ℕ
  pub window_ends : ℕ

-- the map `loginFailures`
abbrev pub LoginFailures : Type 0
LoginFailures = Assoc LoginFailure

-- the two results, and the map afterwards
unfoldable pub login_blocked : LoginFailures → String → ℕ → (ℕ × Bool) × LoginFailures
login_blocked failures client now = elim (lookup client failures) [
  | none ↦ ((0, false), delete client failures)
  | some failure ↦
      if ltb now failure.window_ends
      then ((failure.window_ends, leb login_failure_limit failure.count), failures)
      else ((0, false), delete client failures)
]

abbrev pub counted : Option LoginFailure → LoginFailure
counted none = record { count = 0; window_ends = 0 }
counted (some failure) = failure

-- the failure that `recordLoginFailure` writes
abbrev pub one_more : LoginFailure → ℕ → LoginFailure
one_more failure now =
    if ltb now failure.window_ends
    then record failure { count = failure.count + 1 }
    else record { count = 1; window_ends = now + login_failure_window }

unfoldable pub record_login_failure : LoginFailures → String → ℕ → LoginFailures
record_login_failure failures client now =
    insert client (one_more (counted (lookup client failures)) now) failures

unfoldable pub clear_login_failures : LoginFailures → String → LoginFailures
clear_login_failures failures client = delete client failures
