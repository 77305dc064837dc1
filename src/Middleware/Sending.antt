-- ===== src/Middleware/Sending.antt =====
-- The statuses and the bytes that a call sends, as `responseObserver` passes them on.
use webpprof.Prelude.{
  ℕ, ◌≡◌, refl, sym, ap, ◌∙◌, true, false, ◌&&◌, List, [], ◌∷◌, ◌++◌, ltb, leb, if◌then◌else◌,
  Bool-cases, inl, inr,
}
use mathlib.Core.List.{append_assoc, append-nil}
use webpprof.Middleware.Observer.{
  ResponseObserver, Sent, header, content, write_header, ensure_header,
}

-- the status that ends a response, of those that were sent
unfoldable pub final_statuses : List Sent → List ℕ
final_statuses [] = []
final_statuses (header status ∷ sent) =
    let rest = final_statuses sent in
    if leb 100 status && ltb status 200 then rest else status ∷ rest
final_statuses (content bytes ∷ sent) = final_statuses sent

-- the bytes that were sent
unfoldable pub contents : List Sent → List ℕ
contents [] = []
contents (header status ∷ sent) = contents sent
contents (content bytes ∷ sent) = bytes ++ contents sent

-- the statuses that are sent once `w` is the observer
abbrev pub answered : ResponseObserver → List ℕ
answered w = if w.wrote_header then w.status ∷ [] else []

pub final_statuses-append :
    (xs ys : List Sent) → final_statuses (xs ++ ys) ≡ final_statuses xs ++ final_statuses ys
unfolding final_statuses
final_statuses-append [] ys = refl
final_statuses-append (header status ∷ xs) ys =
    elim (Bool-cases (leb 100 status && ltb status 200)) [
      | inl informs ↦ rw informs (final_statuses-append xs ys)
      | inr ends ↦ rw ends (ap (λ r. status ∷ r) (final_statuses-append xs ys))
    ]
final_statuses-append (content bytes ∷ xs) ys = final_statuses-append xs ys

-- a step of the observer that keeps to what it has answered
abbrev pub Answers : ResponseObserver → ResponseObserver × List Sent → Type 0
Answers w next = answered w ++ final_statuses next.1 ≡ answered next.0

pub nothing_sent : final_statuses [] ≡ []
unfolding final_statuses
nothing_sent = refl

informing :
    (status : ℕ)
    → (leb 100 status && ltb status 200) ≡ true
    → final_statuses (header status ∷ []) ≡ []
unfolding final_statuses
informing status informs = rw informs refl

ending :
    (status : ℕ)
    → (leb 100 status && ltb status 200) ≡ false
    → final_statuses (header status ∷ []) ≡ status ∷ []
unfolding final_statuses
ending status ends = rw ends refl

pub write_header-Answers : (w : ResponseObserver) (status : ℕ) → Answers w (write_header w status)
unfolding write_header
write_header-Answers w status = elim (Bool-cases (leb 100 status && ltb status 200)) [
  | inl informs ↦
      rw informs (ap (λ r. answered w ++ r) (informing status informs) ∙ append-nil (answered w))
  | inr ends ↦ elim (Bool-cases w.wrote_header) [
    | inl again ↦ rw (ends, again) (ap (λ r. w.status ∷ r) nothing_sent)
    | inr fresh ↦ rw (ends, fresh) (ending status ends)
  ]
]

pub ensure_header-Answers : (w : ResponseObserver) → Answers w (ensure_header w)
unfolding ensure_header
ensure_header-Answers w = elim (Bool-cases w.wrote_header) [
  | inl again ↦ rw again (ap (λ r. w.status ∷ r) nothing_sent)
  | inr fresh ↦ rw fresh (write_header-Answers (record w { wrote_header = false }) 200)
]

pub contents-append : (xs ys : List Sent) → contents (xs ++ ys) ≡ contents xs ++ contents ys
unfolding contents
contents-append [] ys = refl
contents-append (header status ∷ xs) ys = contents-append xs ys
contents-append (content bytes ∷ xs) ys =
    ap (λ r. bytes ++ r) (contents-append xs ys)
    ∙ sym (append_assoc bytes (contents xs) (contents ys))
