-- ===== src/Http/Access.antt =====
-- http.go: who gets past `createSession` and `authorize`.
use webpprof.Prelude.{
  ℕ, ◌≤◌, ◌<◌, ◌≡◌, refl, String, str_eq, eq_iff, Bool, true, false, Option, none, some, ltb, arith,
  ◌⊎◌, ◌↔◌, inl, inr, Bool-cases, str_eq-true, if◌then◌else◌, ◌∙◌, ap, Option-cases, leb-false,
}
use webpprof.Prelude.Assoc.{lookup, lookup-delete}
use webpprof.Http.Login.{
  LoginFailures, LoginFailure, login_blocked, clear_login_failures, login_failure_limit,
}
use webpprof.Http.Session.{
  AccessConfig, LoginBody, Clock, session_cookie, check_login, try_token, create_session, authorize,
}

unfold_if : (b : Bool) → (if b then true else false) ≡ true → b ≡ true
unfold_if true h = refl
unfold_if false h = h

-- `next` is called exactly if a token is configured and the session cookie has the session's value, or if no
-- token is configured and access without one was asked for.
pub authorize-next :
    (c : AccessConfig) (cookie : Option String)
    → (authorize c (λ r. false) true cookie ≡ true) ↔ (
        ((c.token ≡ "") × (c.unsafe_no_auth ≡ true))
        ⊎ ((str_eq c.token "" ≡ false) × (cookie ≡ some c.session_token)))
unfolding authorize
authorize-next c cookie = elim (Bool-cases (str_eq c.token "")) [
  | inl e ↦ (
    λ h. inl ((eq_iff c.token "").0 e, unfold_if c.unsafe_no_auth (rw (authorize, e) at h)),
    λ o. elim o [ inl (q, u) ↦ rw (authorize, e, u) refl | inr (q, u) ↦ absurd (ground arith) ],
  )
  | inr e ↦ elim (Option-cases cookie) [
    | inl q ↦ (
      λ h. let f : false ≡ true = rw (authorize, e, q) at h in absurd (ground arith),
      λ o. elim o [
        | inl (r, u) ↦ absurd (ground (arith, eq_iff c.token ""))
        | inr (r, u) ↦ absurd (ground arith)
      ],
    )
    | inr (value, q) ↦ (
      λ h. inr (
        e,
        q
            ∙ ap some (
                (eq_iff value c.session_token).0
                  (unfold_if (str_eq value c.session_token) (rw (authorize, q, e) at h))),
      ),
      λ o. elim o [
        | inl (r, u) ↦ absurd (ground (arith, eq_iff c.token ""))
        | inr (r, u) ↦
            let same = str_eq-true c.session_token c.session_token refl in
            rw (authorize, e, u, same) refl
      ],
    )
  ]
]

abbrev pub IsOpen : LoginFailures → String → ℕ → Type 0
IsOpen failures client now =
    (f : LoginFailure)
    → lookup client failures ≡ some f
    → (f.window_ends ≤ now) ⊎ (f.count < login_failure_limit)

open-block :
    (failures : LoginFailures) (client : String) (now : ℕ)
    → IsOpen failures client now
    → (login_blocked failures client now).0.1 ≡ false
unfolding login_blocked
open-block failures client now is_open = elim (Option-cases (lookup client failures)) [
  | inl e ↦ rw (login_blocked, e) refl
  | inr (f, e) ↦ elim (Bool-cases (ltb now f.window_ends)) [
    | inr over ↦ rw (login_blocked, e, over) refl
    | inl live ↦
        rw (login_blocked, e, live)
          (elim (is_open f e) [
            | inl ended ↦ absurd (ground arith)
            | inr few ↦ leb-false login_failure_limit f.count few
          ])
  ]
]

pub check_login-passes :
    (c : AccessConfig) (failures : LoginFailures) (client : String) (clock : Clock)
    → str_eq c.token "" ≡ false
    → (login_blocked failures client clock.at_block).0.1 ≡ false
    → check_login c failures client clock ≡ (none, (login_blocked failures client clock.at_block).1)
unfolding check_login
check_login-passes c failures client clock set passed = rw (set, passed) refl

create_session-passes :
    (sum256 : String → String) (c : AccessConfig) (failures failures' : LoginFailures)
    (client : String) (body : LoginBody) (clock : Clock)
    → check_login c failures client clock ≡ (none, failures')
    → create_session sum256 c failures client body clock
      ≡ try_token sum256 c failures' client body clock
unfolding create_session
create_session-passes sum256 c failures failures' client body clock h =
    ap
      (λ x. elim x.0 [
        | some response ↦ (response, x.1)
        | none ↦ try_token sum256 c x.1 client body clock
      ])
      h

-- A client that has fewer than 5 failures in its window, or whose window has ended, logs in with a token of the
-- configured hash: its failures are forgotten, and the cookie that it gets is one that `authorize` accepts.
pub login-authorized :
    (sum256 : String → String) (c : AccessConfig) (failures : LoginFailures)
    (client provided : String) (clock : Clock)
    → str_eq c.token "" ≡ false
    → IsOpen failures client clock.at_block
    → sum256 provided ≡ sum256 c.token
    → let (response, failures') =
        create_session sum256 c failures client (LoginBody.with_token provided) clock in
      (response.status ≡ 204)
      × (response.cookie ≡ some (session_cookie c))
      × (authorize c (λ r. false) true (some (session_cookie c).value) ≡ true)
      × (lookup client failures' ≡ none)
unfolding try_token authorize clear_login_failures
login-authorized sum256 c failures client provided clock set is_open hash =
    let open_now = open-block failures client clock.at_block is_open in
    let right = str_eq-true (sum256 provided) (sum256 c.token) hash in
    let same = str_eq-true c.session_token c.session_token refl in
    let failures' = (login_blocked failures client clock.at_block).1 in
    let own = str_eq-true client client refl in
    let whole =
      create_session-passes sum256 c failures failures' client (LoginBody.with_token provided) clock
        (check_login-passes c failures client clock set open_now) in
    (
      ap (λ x. x.0.status) whole ∙ rw right refl,
      ap (λ x. x.0.cookie) whole ∙ rw right refl,
      rw (set, same) refl,
      ap (λ x. lookup client x.1) whole
          ∙ (rw right (lookup-delete client client failures')
              ∙ ap (λ b. if b then none else lookup client failures') own),
    )
