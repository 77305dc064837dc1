-- ===== src/Middleware/Responses.antt =====
-- What an observed response sends to the server and what it keeps of the body.
use webpprof.Prelude.{
  ℕ, zero, suc, ◌+◌, ◌≡◌, refl, sym, ap, ◌∙◌, false, ◌&&◌, List, [], ◌∷◌, ◌++◌, ltb, leb, arith,
  Bool-cases, inl, inr, take,
}
use mathlib.Core.Path.{subst}
use mathlib.Core.List.{append_assoc, append-nil}
use webpprof.Middleware.Body.{Keeps, record_body-Keeps}
use webpprof.Middleware.Observer.{
  record_body, ResponseObserver, Sent, content, write_header, ensure_header, write, ResponseCall,
  call_write_header, call_write, call_flush, call_read_from, copy_to, respond, respond_all,
  new_observer,
}
use webpprof.Middleware.Sending.{
  final_statuses, contents, answered, Answers, final_statuses-append, contents-append,
  write_header-Answers, ensure_header-Answers,
}

-- a step that keeps to what was answered, and to the bytes that were sent
abbrev IsResponse : ℕ → List ℕ → ResponseObserver → ResponseObserver × List Sent → Type 0
IsResponse limit all w next =
    Answers w next × (Keeps limit all w.body → Keeps limit (all ++ contents next.1) next.0.body)

-- a step that sends no bytes
abbrev IsSilent : ResponseObserver → ResponseObserver × List Sent → Type 0
IsSilent w next = (contents next.1 ≡ []) × (next.0.body ≡ w.body)

write_header-IsSilent : (w : ResponseObserver) (status : ℕ) → IsSilent w (write_header w status)
unfolding write_header contents
write_header-IsSilent w status = elim (Bool-cases (leb 100 status && ltb status 200)) [
  | inl informs ↦ rw informs (refl, refl)
  | inr ends ↦ elim (Bool-cases w.wrote_header) [
    | inl again ↦ rw (ends, again) (refl, refl)
    | inr fresh ↦ rw (ends, fresh) (refl, refl)
  ]
]

ensure_header-IsSilent : (w : ResponseObserver) → IsSilent w (ensure_header w)
unfolding ensure_header contents
ensure_header-IsSilent w = elim (Bool-cases w.wrote_header) [
  | inl again ↦ rw again (refl, refl)
  | inr fresh ↦ rw fresh (write_header-IsSilent (record w { wrote_header = false }) 200)
]

silent :
    (limit : ℕ) (all : List ℕ) (w : ResponseObserver) (next : ResponseObserver × List Sent)
    → Answers w next
    → IsSilent w next
    → IsResponse limit all w next
silent limit all w next answers quiet = (
  answers,
  λ keeps.
      subst (λ b. Keeps limit (all ++ contents next.1) b) (sym quiet.1)
        (subst (λ l. Keeps limit l w.body) (sym (ap (λ r. all ++ r) quiet.0 ∙ append-nil all))
          keeps),
)

-- One step after another.
and_then :
    (limit : ℕ) (all : List ℕ) (w : ResponseObserver) (first later : ResponseObserver × List Sent)
    → IsResponse limit all w first
    → IsResponse limit (all ++ contents first.1) first.0 later
    → IsResponse limit all w (later.0, first.1 ++ later.1)
and_then limit all w first later f l = (
  ap (λ r. answered w ++ r) (final_statuses-append first.1 later.1)
      ∙ sym (append_assoc (answered w) (final_statuses first.1) (final_statuses later.1))
      ∙ ap (λ r. r ++ final_statuses later.1) f.0
      ∙ l.0,
  λ keeps.
      subst (λ r. Keeps limit r later.0.body)
        (append_assoc all (contents first.1) (contents later.1)
          ∙ ap (λ r. all ++ r) (sym (contents-append first.1 later.1)))
        (l.1 (f.1 keeps)),
)

ensure_header-IsResponse :
    (limit : ℕ) (all : List ℕ) (w : ResponseObserver) → IsResponse limit all w (ensure_header w)
ensure_header-IsResponse limit all w =
    silent limit all w (ensure_header w) (ensure_header-Answers w) (ensure_header-IsSilent w)

-- the part of `write` after the header
taken :
    (limit : ℕ) (all : List ℕ) (w : ResponseObserver) (bytes : List ℕ) (written : ℕ)
    → IsResponse limit all w
        (record w { body = record_body w.body bytes; size = w.size + written }, content bytes ∷ [])
unfolding final_statuses contents
taken limit all w bytes written = (
  append-nil (answered w),
  λ keeps.
      subst (λ r. Keeps limit (all ++ r) (record_body w.body bytes)) (sym (append-nil bytes))
        (record_body-Keeps limit all bytes w.body keeps),
)

write-IsResponse :
    (limit : ℕ) (all : List ℕ) (w : ResponseObserver) (bytes : List ℕ) (written : ℕ)
    → IsResponse limit all w (write w bytes written)
unfolding write
write-IsResponse limit all w bytes written =
    let started = ensure_header w in
    and_then limit all w started
      (
        record started.0 {
          body = record_body started.0.body bytes;
          size = started.0.size + written;
        },
        content bytes ∷ [],
      )
      (ensure_header-IsResponse limit all w)
      (taken limit (all ++ contents started.1) started.0 bytes written)

nothing : (limit : ℕ) (all : List ℕ) (w : ResponseObserver) → IsResponse limit all w (w, [])
unfolding final_statuses contents
nothing limit all w = silent limit all w (w, []) (append-nil (answered w)) (refl, refl)

copy_to-IsResponse :
    (limit : ℕ) (all : List ℕ) (w : ResponseObserver) (chunks : List (List ℕ × ℕ))
    → IsResponse limit all w (copy_to w chunks)
unfolding copy_to
copy_to-IsResponse limit all w [] = nothing limit all w
copy_to-IsResponse limit all w ((bytes, written) ∷ rest) =
    let first = write w bytes written in
    and_then limit all w first (copy_to first.0 rest) (write-IsResponse limit all w bytes written)
      (copy_to-IsResponse limit (all ++ contents first.1) first.0 rest)

respond-IsResponse :
    (limit : ℕ) (all : List ℕ) (w : ResponseObserver) (c : ResponseCall)
    → IsResponse limit all w (respond w c)
unfolding respond
respond-IsResponse limit all w (call_write_header status) =
    silent limit all w (write_header w status) (write_header-Answers w status)
      (write_header-IsSilent w status)
respond-IsResponse limit all w (call_write bytes written) =
    write-IsResponse limit all w bytes written
respond-IsResponse limit all w call_flush = ensure_header-IsResponse limit all w
respond-IsResponse limit all w (call_read_from chunks) =
    let started = ensure_header w in
    and_then limit all w started (copy_to started.0 chunks) (ensure_header-IsResponse limit all w)
      (copy_to-IsResponse limit (all ++ contents started.1) started.0 chunks)

respond_all-IsResponse :
    (limit : ℕ) (all : List ℕ) (w : ResponseObserver) (calls : List ResponseCall)
    → IsResponse limit all w (respond_all w calls)
unfolding respond_all
respond_all-IsResponse limit all w [] = nothing limit all w
respond_all-IsResponse limit all w (c ∷ calls) =
    let first = respond w c in
    and_then limit all w first (respond_all first.0 calls) (respond-IsResponse limit all w c)
      (respond_all-IsResponse limit (all ++ contents first.1) first.0 calls)

-- Whatever a handler calls, its response sends at most one status that is not informational, the one that
-- the observer holds; it is marked as answered exactly if there was one.
pub respond_all-answered :
    (limit : ℕ) (calls : List ResponseCall)
    → final_statuses (respond_all (new_observer limit) calls).1
      ≡ answered (respond_all (new_observer limit) calls).0
unfolding new_observer
respond_all-answered limit calls = (respond_all-IsResponse limit [] (new_observer limit) calls).0

take_nothing : (n : ℕ) → [] ≡ take {A = ℕ} n []
take_nothing zero = refl
take_nothing (suc n) = refl

-- Whatever a handler calls, the body that is kept is the first `limit` bytes of those that it wrote, and it is
-- marked as truncated if there were more, unless the limit is 0.
pub respond_all-Keeps :
    (limit : ℕ) (calls : List ResponseCall)
    → Keeps limit
        (contents (respond_all (new_observer limit) calls).1)
        (respond_all (new_observer limit) calls).0.body
unfolding new_observer
respond_all-Keeps limit calls =
    (respond_all-IsResponse limit [] (new_observer limit) calls).1
      (refl, take_nothing limit, ground arith)
