-- ===== src/Http/Session.antt =====
-- http.go: `createSession`, `deleteSession` and `authorize`. What is read of a request, the hash
-- `sha256.Sum256` and the three readings of the clock are parameters; the comparison in constant
-- time is a comparison.
use webpprof.Prelude.{ℕ, ◌-◌, ◌/◌, max, String, str_eq, Bool, Option, none, some, if◌then◌else◌}
use webpprof.Http.Login.{LoginFailures, login_blocked, record_login_failure, clear_login_failures}

-- the part of `config` and `Profiler` that these handlers read
pub record AccessConfig : Type 0 where
  pub token : String
  pub unsafe_no_auth : Bool
  pub base_path : String
  pub secure_cookie : Bool
  pub session_token : String

-- `http.Cookie`, with the fixed fields left out; a negative `max_age` deletes the cookie
pub data MaxAge : Type 0 where
  hours : ℕ → MaxAge
  expired : MaxAge

pub record Cookie : Type 0 where
  pub value : String
  pub path : String
  pub secure : Bool
  pub max_age : MaxAge

pub record Response : Type 0 where
  pub status : ℕ
  pub retry_after : Option ℕ
  pub cookie : Option Cookie
  pub error : String

-- what the decoder makes of the body: an empty body has the empty token
pub data LoginBody : Type 0 where
  with_token : String → LoginBody
  invalid : LoginBody

-- `time.Now()` for the block, for `time.Until`, and for the failure
pub record Clock : Type 0 where
  pub at_block : ℕ
  pub at_reply : ℕ
  pub at_failure : ℕ

abbrev pub failed : ℕ → String → Response
failed status message = record {
  status = status;
  retry_after = none;
  cookie = none;
  error = message;
}

abbrev pub no_content : Option Cookie → Response
no_content cookie = record { status = 204; retry_after = none; cookie = cookie; error = "" }

abbrev pub session_cookie : AccessConfig → Cookie
session_cookie c = record {
  value = c.session_token;
  path = c.base_path;
  secure = c.secure_cookie;
  max_age = MaxAge.hours 12;
}

-- `max(1, int(time.Until(ends).Seconds()))`
abbrev pub seconds_until : ℕ → ℕ → ℕ
seconds_until ends now = max 1 ((ends - now) / 1000000000)

unfoldable pub delete_session : AccessConfig → Response
delete_session c = no_content (
    some (record {
      value = "";
      path = c.base_path;
      secure = c.secure_cookie;
      max_age = MaxAge.expired;
    }))

-- `authorize`: the response of `next`, or the refusal; `cookie` is the session cookie of the request
unfoldable pub authorize {ℓ} : {A : Type ℓ} → AccessConfig → (Response → A) → A → Option String → A
authorize c refuse next cookie =
    if str_eq c.token ""
    then (if c.unsafe_no_auth then next else refuse (failed 503 "authentication is not configured"))
    else elim cookie [
      | none ↦ refuse (failed 401 "unauthorized")
      | some value ↦
          if str_eq value c.session_token then next else refuse (failed 401 "unauthorized")
    ]

module _ (sum256 : String → String) where
  abbrev pub is_token : AccessConfig → String → Bool
  is_token c provided = str_eq (sum256 provided) (sum256 c.token)

  -- the end of `createSession`, for a client that is not blocked: it reads the body, and locks `loginMu` once,
  -- in `recordLoginFailure` or in `clearLoginFailures`
  unfoldable pub try_token :
      AccessConfig → LoginFailures → String → LoginBody → Clock → Response × LoginFailures
  try_token c failures client LoginBody.invalid clock = (failed 400 "invalid request", failures)
  try_token c failures client (LoginBody.with_token provided) clock =
      if is_token c provided
      then (no_content (some (session_cookie c)), clear_login_failures failures client)
      else (failed 401 "invalid token", record_login_failure failures client clock.at_failure)

-- the beginning of `createSession`, which locks `loginMu` once, in `loginBlocked`: the response, or none where
-- the request goes on
unfoldable pub check_login :
    AccessConfig → LoginFailures → String → Clock → Option Response × LoginFailures
check_login c failures client clock =
    let ((retry_after, blocked), failures') = login_blocked failures client clock.at_block in
    let seconds = seconds_until retry_after clock.at_reply in
    if str_eq c.token ""
    then (if c.unsafe_no_auth
        then (some (no_content none), failures)
        else (some (failed 503 "authentication is not configured"), failures))
    else if blocked
    then (
      some (record (failed 429 "too many login attempts") { retry_after = some seconds }),
      failures',
    )
    else (none, failures')

-- `createSession` of a request while no other locks `loginMu`; Http/Concurrent has the steps of several
unfoldable pub create_session :
    (String → String)
    → AccessConfig
    → LoginFailures
    → String
    → LoginBody
    → Clock
    → Response × LoginFailures
create_session sum256 c failures client body clock =
    let (answer, failures') = check_login c failures client clock in
    elim answer [
      | some response ↦ (response, failures')
      | none ↦ try_token sum256 c failures' client body clock
    ]
