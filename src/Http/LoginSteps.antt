-- ===== src/Http/LoginSteps.antt =====
-- http.go: what a step of a login does to the failures of a client and to its requests in flight.
use mathlib.Core.Path.{subst}
use webpprof.Prelude.{
  ℕ, zero, suc, ◌≤◌, ◌<◌, ◌≡◌, refl, String, str_eq, eq_iff, Bool, true, false, Option, ◌⊎◌, none,
  some, List, [], ◌∷◌, ltb, leb, if◌then◌else◌, arith, All, Bool-cases, Option-cases, lt→ltb, inl,
  inr, ◌∙◌, ap, lookup_at,
}
use webpprof.Prelude.Assoc.{lookup, lookup-insert, lookup-delete}
use webpprof.Http.Login.{
  LoginFailures, LoginFailure, login_blocked, record_login_failure, clear_login_failures, counted,
  one_more, login_failure_limit,
}
use webpprof.Http.Session.{
  AccessConfig, LoginBody, Clock, Response, is_token, try_token, check_login,
}
use webpprof.Http.Concurrent.{
  Attempt, Logins, LoginStep, without, arrived, answered, login_step, in_flight, is_refusal,
}

block-other :
    (failures : LoginFailures) (client other : String) (now : ℕ)
    → str_eq other client ≡ false
    → lookup client (login_blocked failures other now).1 ≡ lookup client failures
unfolding login_blocked
block-other failures client other now ne =
    let d =
      lookup-delete other client failures
      ∙ ap (λ b. if b then none else lookup client failures) ne in
    elim (Option-cases (lookup other failures)) [
      | inl e ↦ rw (login_blocked, e) d
      | inr (failure, e) ↦ elim (Bool-cases (ltb now failure.window_ends)) [
        | inl live ↦ rw (login_blocked, e, live) refl
        | inr over ↦ rw (login_blocked, e, over) d
      ]
    ]

block-live :
    (failures : LoginFailures) (client : String) (failure : LoginFailure) (now : ℕ)
    → lookup client failures ≡ some failure
    → now < failure.window_ends
    → login_blocked failures client now
      ≡ ((failure.window_ends, leb login_failure_limit failure.count), failures)
unfolding login_blocked
block-live failures client failure now h before =
    let e = lt→ltb now failure.window_ends before in rw (login_blocked, h, e) refl

in_flight-without :
    (client : String) (checked : List Attempt) (n : ℕ) (a : Attempt)
    → lookup_at checked n ≡ some a
    → in_flight client checked ≡ (
        if str_eq a.client client
        then suc (in_flight client (without n checked))
        else in_flight client (without n checked))
unfolding in_flight
in_flight-without client [] n a h = cc
in_flight-without client (b ∷ checked) zero a h =
    let same : b ≡ a = cc h in
    ap
      (λ x.
        if str_eq x.client client then suc (in_flight client checked) else in_flight client checked)
      same
in_flight-without client (b ∷ checked) (suc n) a h =
    let ih = in_flight-without client checked n a h in
    elim (Bool-cases (str_eq a.client client)) [
      | inl own ↦ elim (Bool-cases (str_eq b.client client)) [
        | inl e ↦ rw (own, e) (ap suc (rw own at ih))
        | inr e ↦ rw (own, e) (rw own at ih)
      ]
      | inr other ↦ elim (Bool-cases (str_eq b.client client)) [
        | inl e ↦ rw (other, e) (ap suc (rw other at ih))
        | inr e ↦ rw (other, e) (rw other at ih)
      ]
    ]

module _ (P : Attempt → Type 0) where
  All-without : (n : ℕ) (checked : List Attempt) → All P checked → All P (without n checked)
  All-without n [] all = tt
  All-without zero (a ∷ checked) (here, all) = all
  All-without (suc n) (a ∷ checked) (here, all) = (here, All-without n checked all)

  All-at :
      (checked : List Attempt) (n : ℕ) (a : Attempt)
      → lookup_at checked n ≡ some a
      → All P checked
      → P a
  All-at [] n a h all = cc
  All-at (b ∷ checked) zero a h (here, all) = let same : b ≡ a = cc h in subst P same here
  All-at (b ∷ checked) (suc n) a h (here, all) = All-at checked n a h all

module _ (sum256 : String → String) (c : AccessConfig) where
  abbrev pub is_right : LoginBody → Bool
  is_right LoginBody.invalid = false
  is_right (LoginBody.with_token provided) = is_token sum256 c provided

  -- within the window, and not with the token
  abbrev pub IsGuess : ℕ → Attempt → Type 0
  IsGuess ends a =
      (a.clock.at_block < ends) × (a.clock.at_failure < ends) × (is_right a.body ≡ false)

  -- each attempt of a client is a guess
  abbrev pub Guesses : String → ℕ → Attempt → Type 0
  Guesses client ends a = a.client ≡ client → IsGuess ends a

  abbrev pub StepGuesses : String → ℕ → LoginStep → Type 0
  StepGuesses client ends (LoginStep.arrives a) = Guesses client ends a
  StepGuesses client ends (LoginStep.goes_on n) = Unit

  try-other :
      (failures : LoginFailures) (client other : String) (body : LoginBody) (clock : Clock)
      → str_eq other client ≡ false
      → lookup client (try_token sum256 c failures other body clock).1 ≡ lookup client failures
  unfolding try_token record_login_failure clear_login_failures
  try-other failures client other LoginBody.invalid clock ne = refl
  try-other failures client other (LoginBody.with_token provided) clock ne =
      let d = lookup-delete other client failures in
      let i =
        lookup-insert other client (one_more (counted (lookup other failures)) clock.at_failure)
          failures in
      elim (Bool-cases (is_token sum256 c provided)) [
        | inl e ↦ rw e (d ∙ ap (λ b. if b then none else lookup client failures) ne)
        | inr e ↦ rw e (i ∙ rw ne refl)
      ]

  check-other :
      (failures : LoginFailures) (client other : String) (clock : Clock)
      → str_eq other client ≡ false
      → lookup client (check_login c failures other clock).1 ≡ lookup client failures
  unfolding check_login
  check-other failures client other clock ne =
      let b = block-other failures client other clock.at_block ne in
      elim (Bool-cases (str_eq c.token "")) [
        | inl e ↦
            rw e (elim (Bool-cases c.unsafe_no_auth) [ inl u ↦ rw u refl | inr u ↦ rw u refl ])
        | inr e ↦ rw e (elim (Bool-cases (login_blocked failures other clock.at_block).0.1) [
          | inl u ↦ rw u b
          | inr u ↦ rw u b
        ])
      ]

  -- what a step does to the client: its failure, whether it was refused, and how many are in flight
  pub record Moved (client : String) (failure : LoginFailure) (l : Logins)
      (result : Option (String × Response) × Logins) : Type 0 where
    pub count : ℕ
    pub found : lookup client result.1.failures ≡ some (record failure { count = count })
    pub answered :
        (is_refusal client result.0 ≡ true)
          × (count ≡ suc failure.count)
          × (suc (in_flight client result.1.checked) ≡ in_flight client l.checked)
        ⊎ (is_refusal client result.0 ≡ false)
          × (count ≡ failure.count)
          × ((in_flight client result.1.checked ≤ in_flight client l.checked)
              ⊎ ((in_flight client result.1.checked ≡ suc (in_flight client l.checked))
                  × (failure.count < login_failure_limit)))

  arrived-other :
      (client : String) (failure : LoginFailure) (l : Logins) (a : Attempt)
      (x : Option Response × LoginFailures)
      → str_eq a.client client ≡ false
      → lookup client x.1 ≡ some failure
      → Moved client failure l (arrived l a x)
  unfolding in_flight
  arrived-other client failure l a (some response, failures) ne found = record {
    count = failure.count;
    found = found;
    answered = inr (rw ne refl, refl, inl (omega arith));
  }
  arrived-other client failure l a (none, failures) ne found = record {
    count = failure.count;
    found = found;
    answered = inr (refl, refl, inl (rw ne (omega arith)));
  }

  arrives-own :
      (client : String) (failure : LoginFailure) (l : Logins) (a : Attempt)
      → str_eq c.token "" ≡ false
      → lookup client l.failures ≡ some failure
      → a.client ≡ client
      → IsGuess failure.window_ends a
      → Moved client failure l (login_step sum256 c l (LoginStep.arrives a))
  unfolding login_step check_login in_flight
  arrives-own client failure l a set found same (before, failing, wrong) =
      let b =
        block-live l.failures a.client failure a.clock.at_block
          (ap (λ x. lookup x l.failures) same ∙ found) before in
      let own = (eq_iff a.client client).1 same in
      elim (Bool-cases (leb login_failure_limit failure.count)) [
        | inl m ↦
            rw (set, b, m)
              (record {
                count = failure.count;
                found = found;
                answered = inr (rw own refl, refl, inl (omega arith));
              })
        | inr m ↦
            rw (set, b, m)
              (record {
                count = failure.count;
                found = found;
                answered = inr (refl, refl, inr (rw own refl, ground arith));
              })
      ]

  answered-other :
      (client : String) (failure : LoginFailure) (l : Logins) (n : ℕ) (a : Attempt)
      (x : Response × LoginFailures)
      → lookup_at l.checked n ≡ some a
      → str_eq a.client client ≡ false
      → lookup client x.1 ≡ some failure
      → Moved client failure l (answered l n a x)
  answered-other client failure l n a (response, failures) there ne found =
      let less = in_flight-without client l.checked n a there in
      record {
        count = failure.count;
        found = found;
        answered = inr (rw ne refl, refl, inl (let less' = rw ne at less in omega (arith, less')));
      }

  goes_on-own :
      (client : String) (failure : LoginFailure) (l : Logins) (n : ℕ) (a : Attempt)
      (body : LoginBody)
      → lookup_at l.checked n ≡ some a
      → lookup client l.failures ≡ some failure
      → a.client ≡ client
      → a.clock.at_failure < failure.window_ends
      → is_right body ≡ false
      → Moved client failure l
          (answered l n a (try_token sum256 c l.failures a.client body a.clock))
  unfolding try_token record_login_failure
  goes_on-own client failure l n a LoginBody.invalid there found same failing wrong =
      let own = (eq_iff a.client client).1 same in
      let split = in_flight-without client l.checked n a there in
      let less = rw own at split in
      record {
        count = failure.count;
        found = found;
        answered = inr (rw own refl, refl, inl (omega (arith, less)));
      }
  goes_on-own client failure l n a (LoginBody.with_token provided) there found same failing wrong =
      let own = (eq_iff a.client client).1 same in
      let split = in_flight-without client l.checked n a there in
      let less = rw own at split in
      let live = lt→ltb a.clock.at_failure failure.window_ends failing in
      let here = ap (λ x. lookup x l.failures) same ∙ found in
      rw wrong (record {
        count = suc failure.count;
        found =
            lookup-insert a.client client
              (one_more (counted (lookup a.client l.failures)) a.clock.at_failure) l.failures
            ∙ rw (own, here, live) (ap some (ap (λ n. record failure { count = n }) (omega arith)));
        answered = inl (rw own refl, refl, omega (arith, less));
      })

  pub step-Moved :
      (client : String) (failure : LoginFailure) (l : Logins) (s : LoginStep)
      → str_eq c.token "" ≡ false
      → lookup client l.failures ≡ some failure
      → All (Guesses client failure.window_ends) l.checked
      → StepGuesses client failure.window_ends s
      → Moved client failure l (login_step sum256 c l s)
  unfolding login_step
  step-Moved client failure l (LoginStep.arrives a) set found all guess =
      elim (Bool-cases (str_eq a.client client)) [
        | inl e ↦
            let same = (eq_iff a.client client).0 e in
            arrives-own client failure l a set found same (guess same)
        | inr e ↦
            arrived-other client failure l a (check_login c l.failures a.client a.clock) e
              (check-other l.failures client a.client a.clock e ∙ found)
      ]
  step-Moved client failure l (LoginStep.goes_on n) set found all guess =
      elim (Option-cases (lookup_at l.checked n)) [
        | inl e ↦
            rw (login_step, e)
              (record {
                count = failure.count;
                found = found;
                answered = inr (refl, refl, inl (omega arith));
              })
        | inr (a, e) ↦
            rw (login_step, e)
              (elim (Bool-cases (str_eq a.client client)) [
                | inl own ↦
                    let same = (eq_iff a.client client).0 own in
                    let (before, failing, wrong) =
                      All-at (Guesses client failure.window_ends) l.checked n a e all same in
                    goes_on-own client failure l n a a.body e found same failing wrong
                | inr other ↦
                    answered-other client failure l n a
                      (try_token sum256 c l.failures a.client a.body a.clock) e other
                      (try-other l.failures client a.client a.body a.clock other ∙ found)
              ])
      ]

  -- a step leaves only guesses in flight
  pub step-Guesses :
      (client : String) (ends : ℕ) (l : Logins) (s : LoginStep)
      → All (Guesses client ends) l.checked
      → StepGuesses client ends s
      → All (Guesses client ends) (login_step sum256 c l s).1.checked
  unfolding login_step
  step-Guesses client ends l (LoginStep.arrives a) all guess =
      kept (check_login c l.failures a.client a.clock)
    where
      kept :
          (x : Option Response × LoginFailures)
          → All (Guesses client ends) (arrived l a x).1.checked
      kept (some response, failures) = all
      kept (none, failures) = (guess, all)
  step-Guesses client ends l (LoginStep.goes_on n) all guess =
      elim (Option-cases (lookup_at l.checked n)) [
        | inl e ↦ rw (login_step, e) all
        | inr (a, e) ↦ rw (login_step, e) (All-without (Guesses client ends) n l.checked all)
      ]
