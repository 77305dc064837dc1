-- ===== src/Http/Concurrent.antt =====
-- http.go: `createSession` of several requests at once. Each request locks `loginMu` twice, in `loginBlocked`
-- and then in `recordLoginFailure` or `clearLoginFailures`; between the two, others do the same.
use webpprof.Prelude.{
  ℕ, zero, suc, String, str_eq, Bool, false, Option, none, some, List, [], ◌∷◌, lookup_at, max,
  ◌==◌, ◌&&◌, if◌then◌else◌,
}
use webpprof.Http.Login.{LoginFailures}
use webpprof.Http.Session.{AccessConfig, LoginBody, Clock, Response, check_login, try_token}

pub record Attempt : Type 0 where
  pub client : String
  pub body : LoginBody
  pub clock : Clock

-- the failures, and the requests that have passed `loginBlocked` and are not answered
pub record Logins : Type 0 where
  pub failures : LoginFailures
  pub checked : List Attempt

-- a request comes and calls `loginBlocked`, or one that has passed it goes on to its answer
pub data LoginStep : Type 0 where
  arrives : Attempt → LoginStep
  goes_on : ℕ → LoginStep

abbrev pub without : ℕ → List Attempt → List Attempt
without n [] = []
without zero (a ∷ checked) = checked
without (suc n) (a ∷ checked) = a ∷ without n checked

-- what comes of `loginBlocked`, and of the answer to the nth of the others
abbrev pub arrived :
    Logins → Attempt → Option Response × LoginFailures → Option (String × Response) × Logins
arrived l a (some response, failures) =
    (some (a.client, response), record l { failures = failures })
arrived l a (none, failures) = (none, record { failures = failures; checked = a ∷ l.checked })

abbrev pub answered :
    Logins → ℕ → Attempt → Response × LoginFailures → Option (String × Response) × Logins
answered l n a (response, failures) =
    (some (a.client, response), record { failures = failures; checked = without n l.checked })

-- the client and the response, where the step answers a request
unfoldable pub login_step :
    (String → String) → AccessConfig → Logins → LoginStep → Option (String × Response) × Logins
login_step sum256 c l (LoginStep.arrives a) =
    arrived l a (check_login c l.failures a.client a.clock)
login_step sum256 c l (LoginStep.goes_on n) = elim (lookup_at l.checked n) [
  | none ↦ (none, l)
  | some a ↦ answered l n a (try_token sum256 c l.failures a.client a.body a.clock)
]

-- whether an answer is one of a client with 401
abbrev pub is_refusal : String → Option (String × Response) → Bool
is_refusal client none = false
is_refusal client (some (other, response)) = str_eq other client && response.status == 401

-- how many requests of a client have passed `loginBlocked` and are not answered
unfoldable pub in_flight : String → List Attempt → ℕ
in_flight client [] = 0
in_flight client (a ∷ checked) =
    let rest = in_flight client checked in if str_eq a.client client then suc rest else rest

module _ (sum256 : String → String) (c : AccessConfig) (client : String) where
  -- how many of the answers of a client are 401, after a comparison of the token
  unfoldable pub refused : Logins → List LoginStep → ℕ
  refused l [] = 0
  refused l (s ∷ steps) =
      let (answer, l') = login_step sum256 c l s in
      let rest = refused l' steps in if is_refusal client answer then suc rest else rest

  -- how many requests of the client are in flight at once, at most
  unfoldable pub peak : Logins → List LoginStep → ℕ
  peak l [] = in_flight client l.checked
  peak l (s ∷ steps) = max (in_flight client l.checked) (peak (login_step sum256 c l s).1 steps)
