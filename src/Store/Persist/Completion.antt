-- ===== src/Store/Persist/Completion.antt =====
-- store.go: `persist` does not get stuck: the caller of the next batch can always write it.
use webpprof.Prelude.{
  ℕ, zero, suc, ◌+◌, ◌≤◌, ◌<◌, ◌≡◌, refl, sym, ap, ◌∙◌, true, false, none, List, [], ◌∷◌, ◌==◌,
  ==_iff, length, lookup_at, tabulate, take, arith, inl, inr, Bool-cases, Option-cases, leb-true,
}
use webpprof.Store.{StoreJournalRecord, StorageBatch}
use webpprof.Store.Persist.{Written, Caller, Persisting, advance, step, run, starting, may_close}
use webpprof.Store.Persist.InOrder.{
  AreIssued, IsOrdered, step-IsOrdered, run-IsOrdered, starting-IsOrdered, written,
}

lookup_at-none {ℓ} : {A : Type ℓ} (xs : List A) (i : ℕ) → lookup_at xs i ≡ none → length xs ≤ i
lookup_at-none [] i h = omega arith
lookup_at-none (x ∷ xs) zero h = cc
lookup_at-none (x ∷ xs) (suc i) h = omega (arith, lookup_at-none xs i h)

take-length : (batches : List StorageBatch) → take (length batches) batches ≡ batches
take-length [] = refl
take-length (b ∷ batches) = ap (◌∷◌ b) (take-length batches)

module _ {Backend : Type 0} (persist_record : Backend → StoreJournalRecord → Written Backend) where
  step-grows :
      (s : Persisting Backend) (i : ℕ) → s.storage_done ≤ (step persist_record s i).storage_done
  unfolding step advance
  step-grows s i = elim (Option-cases (lookup_at s.callers i)) [
    | inl e ↦ rw (step, e) (omega arith)
    | inr (Caller.holding batch, e) ↦ elim (Bool-cases (batch.sequence == 0)) [
      | inl z ↦ rw (step, advance, e, z) (omega arith)
      | inr z ↦ elim (Bool-cases (batch.sequence == suc s.storage_done)) [
        | inl next ↦
            rw (step, advance, e, z, next)
              (omega (arith, (==_iff batch.sequence (suc s.storage_done)).0 next))
        | inr wait ↦ rw (step, advance, e, z, wait) (omega arith)
      ]
    ]
    | inr (Caller.reporting errors, e) ↦ rw (step, advance, e) (omega arith)
    | inr (Caller.returned, e) ↦ rw (step, advance, e) (omega arith)
  ]

  module _ (initial : Backend) (batches : List StorageBatch) (issued : AreIssued batches) where
    -- the caller of the next batch is not stuck
    step-next :
        (s : Persisting Backend)
        → IsOrdered persist_record initial batches s
        → s.storage_done < length batches
        → (step persist_record s s.storage_done).storage_done ≡ suc s.storage_done
    unfolding step advance
    step-next s o less = elim (Option-cases (lookup_at s.callers s.storage_done)) [
      | inl e ↦ absurd (omega (arith, lookup_at-none s.callers s.storage_done e, o.callers, less))
      | inr (Caller.holding batch, found) ↦
          let sequence =
            issued s.storage_done batch (o.stands s.storage_done (Caller.holding batch) found).0 in
          let not_none : (batch.sequence == 0) ≡ false = ground arith in
          let next = (==_iff batch.sequence (suc s.storage_done)).1 sequence in
          rw (step, advance, found, not_none, next) sequence
      | inr (Caller.reporting errors, found) ↦
          absurd (omega (arith, o.stands s.storage_done (Caller.reporting errors) found))
      | inr (Caller.returned, found) ↦
          absurd (omega (arith, o.stands s.storage_done Caller.returned found))
    ]

    -- one step of each caller from an index on
    sweep :
        (s : Persisting Backend) (i n : ℕ)
        → IsOrdered persist_record initial batches s
        → i ≤ s.storage_done
        → i + n ≤ length batches
        → i + n ≤ (run persist_record s (tabulate (λ k. k) i n)).storage_done
    unfolding run
    sweep s i zero o low high = omega (arith, low)
    sweep s i (suc n) o low high =
        let next : suc i ≤ (step persist_record s i).storage_done =
          elim (Bool-cases (s.storage_done == i)) [
            | inl e ↦
                let here = (==_iff s.storage_done i).0 e in
                let moved =
                  ap (λ k. (step persist_record s k).storage_done) (sym here)
                  ∙ step-next s o (omega (arith, here, high)) in
                omega (arith, moved, here)
            | inr e ↦
                let further : i < s.storage_done = ground arith in
                omega (arith, further, step-grows s i)
          ] in
        let rest =
          sweep (step persist_record s i) (suc i) n
            (step-IsOrdered persist_record initial batches issued s i o) next (omega arith) in
        omega (arith, rest)

    -- Whatever the calls of `persist` have done, once each of them takes another step in the order of their batches, all
    -- batches are written, and `close` goes on.
    pub run-completes :
        (schedule : List ℕ)
        → let s = run persist_record (starting initial batches) schedule in
          let t = run persist_record s (tabulate (λ k. k) 0 (length batches)) in
          (t.backend ≡ written persist_record initial batches)
          × (may_close t (length batches) ≡ true)
    run-completes schedule =
        let s = run persist_record (starting initial batches) schedule in
        let o =
          run-IsOrdered persist_record initial batches (starting initial batches) schedule issued
            (starting-IsOrdered persist_record initial batches) in
        let t = run persist_record s (tabulate (λ k. k) 0 (length batches)) in
        let p =
          run-IsOrdered persist_record initial batches s (tabulate (λ k. k) 0 (length batches))
            issued o in
        let enough = sweep s 0 (length batches) o (omega arith) (omega arith) in
        let all : t.storage_done ≡ length batches = omega (arith, enough, p.within) in
        (
          p.backend
              ∙ ap (λ n. written persist_record initial (take n batches)) all
              ∙ ap (written persist_record initial) (take-length batches),
          leb-true (length batches) t.storage_done (omega (arith, all)),
        )
