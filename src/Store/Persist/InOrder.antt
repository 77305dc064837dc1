-- ===== src/Store/Persist/InOrder.antt =====
-- store.go: in which order batches reach the backend.
use mathlib.Core.Path.{subst}
use webpprof.Prelude.{
  some_injective, lookup_at-set, lookup_at-lt, length-set, ℕ, zero, suc, ◌≤◌, ◌<◌, ◌≡◌, ◌≢◌, refl,
  sym, ap, ◌∙◌, false, some, List, [], ◌∷◌, ◌==◌, ==_iff, length, lookup_at, set, take, arith, inl,
  inr, Bool-cases, Option-cases, map,
}
use webpprof.Store.{StoreJournalRecord, StorageBatch}
use webpprof.Store.Persist.{
  Written, Caller, Persisting, persist_all, set_storage_error, advance, step, run, starting,
}

-- the batches have the sequences that `storageBatchLocked` issues: 1, 2 and so on
abbrev pub AreIssued : List StorageBatch → Type 0
AreIssued batches = (i : ℕ) (b : StorageBatch) → lookup_at batches i ≡ some b → b.sequence ≡ suc i

module _ {Backend : Type 0} (persist_record : Backend → StoreJournalRecord → Written Backend) where
  -- the backend after the batches are written one after another
  abbrev pub written : Backend → List StorageBatch → Backend
  written b [] = b
  written b (batch ∷ batches) = written (persist_all persist_record b batch.records).1 batches

  -- where a caller stands when `done` batches are written
  abbrev pub Stands : List StorageBatch → ℕ → ℕ → Caller → Type 0
  Stands batches done i (Caller.holding b) = (lookup_at batches i ≡ some b) × (done ≤ i)
  Stands batches done i (Caller.reporting errors) = i < done
  Stands batches done i Caller.returned = i < done

  pub record IsOrdered (initial : Backend) (batches : List StorageBatch) (s : Persisting Backend)
      : Type 0 where
    pub within : s.storage_done ≤ length batches
    pub callers : length s.callers ≡ length batches
    pub backend : s.backend ≡ written initial (take s.storage_done batches)
    pub stands :
        (i : ℕ) (c : Caller) → lookup_at s.callers i ≡ some c → Stands batches s.storage_done i c

  written-next :
      (b : Backend) (batches : List StorageBatch) (n : ℕ) (batch : StorageBatch)
      → lookup_at batches n ≡ some batch
      → written b (take (suc n) batches)
        ≡ (persist_all persist_record (written b (take n batches)) batch.records).1
  written-next b [] n batch h = cc
  written-next b (first ∷ batches) zero batch h =
      ap (λ (x : StorageBatch). (persist_all persist_record b x.records).1) (some_injective h)
  written-next b (first ∷ batches) (suc n) batch h =
      written-next (persist_all persist_record b first.records).1 batches n batch h

  module _ (initial : Backend) (batches : List StorageBatch) (issued : AreIssued batches)
      (s : Persisting Backend) (i : ℕ) (o : IsOrdered initial batches s) where
    -- the caller of the next batch writes it
    next-IsOrdered :
        (batch : StorageBatch)
        → lookup_at s.callers i ≡ some (Caller.holding batch)
        → batch.sequence ≡ suc s.storage_done
        → (errors : _)
        → IsOrdered initial batches (record s {
          storage_done = batch.sequence;
          backend = (persist_all persist_record s.backend batch.records).1;
          callers = set s.callers i (Caller.reporting errors);
        })
    next-IsOrdered batch h next errors =
        let (found, low) = o.stands i (Caller.holding batch) h in
        let here : i ≡ s.storage_done = omega (arith, issued i batch found, next) in
        let at : lookup_at batches s.storage_done ≡ some batch =
          ap (lookup_at batches) (sym here) ∙ found in
        record {
          within = omega (arith, next, lookup_at-lt batches i batch found, here);
          callers = length-set s.callers i (Caller.reporting errors) ∙ o.callers;
          backend =
              ap (λ b. (persist_all persist_record b batch.records).1) o.backend
              ∙ sym (written-next initial batches s.storage_done batch at)
              ∙ ap (λ n. written initial (take n batches)) (sym next);
          stands = λ j c q. elim (lookup_at-set s.callers i j (Caller.reporting errors) c q) [
            | inl (e, v) ↦
                subst (Stands batches batch.sequence j) (sym v) (omega (arith, e, here, next))
            | inr (ne, old) ↦ moved j c ne (o.stands j c old) here next
          ];
        }
      where
        moved :
            (j : ℕ) (c : Caller)
            → j ≢ i
            → Stands batches s.storage_done j c
            → i ≡ s.storage_done
            → batch.sequence ≡ suc s.storage_done
            → Stands batches batch.sequence j c
        moved j (Caller.holding b) ne (found, low) here next =
            (found, omega (arith, here, next, low, ne))
        moved j (Caller.reporting e) ne less here next = omega (arith, next, less)
        moved j Caller.returned ne less here next = omega (arith, next, less)

    -- a caller whose batch is written goes on
    leave-IsOrdered :
        (error : _)
        → i < s.storage_done
        → IsOrdered initial batches
            (record s { storage_error = error; callers = set s.callers i Caller.returned })
    leave-IsOrdered error past = record {
      within = o.within;
      callers = length-set s.callers i Caller.returned ∙ o.callers;
      backend = o.backend;
      stands = λ j c q. elim (lookup_at-set s.callers i j Caller.returned c q) [
        | inl (e, v) ↦ subst (Stands batches s.storage_done j) (sym v) (omega (arith, e, past))
        | inr (ne, old) ↦ o.stands j c old
      ];
    }

    pub step-IsOrdered : IsOrdered initial batches (step persist_record s i)
    unfolding step advance
    step-IsOrdered = elim (Option-cases (lookup_at s.callers i)) [
      | inl e ↦ rw (step, e) o
      | inr (Caller.holding batch, e) ↦
          let sequence = issued i batch (o.stands i (Caller.holding batch) e).0 in
          let not_none : (batch.sequence == 0) ≡ false = ground arith in
          elim (Bool-cases (batch.sequence == suc s.storage_done)) [
            | inl next ↦
                rw (step, advance, e, not_none, next)
                  (next-IsOrdered batch e ((==_iff batch.sequence (suc s.storage_done)).0 next)
                    (persist_all persist_record s.backend batch.records).0)
            | inr wait ↦ rw (step, advance, e, not_none, wait) o
          ]
      | inr (Caller.reporting errors, e) ↦
          rw (step, advance, e)
            (leave-IsOrdered (set_storage_error persist_record s.storage_error errors)
              (o.stands i (Caller.reporting errors) e))
      | inr (Caller.returned, e) ↦ rw (step, advance, e) o
    ]

  pub run-IsOrdered :
      (initial : Backend) (batches : List StorageBatch) (s : Persisting Backend) (schedule : List ℕ)
      → AreIssued batches
      → IsOrdered initial batches s
      → IsOrdered initial batches (run persist_record s schedule)
  unfolding run
  run-IsOrdered initial batches s [] issued o = o
  run-IsOrdered initial batches s (i ∷ schedule) issued o =
      run-IsOrdered initial batches (step persist_record s i) schedule issued
        (step-IsOrdered initial batches issued s i o)

  lookup_at-holding :
      (batches : List StorageBatch) (i : ℕ) (c : Caller)
      → lookup_at (map Caller.holding batches) i ≡ some c
      → (b : StorageBatch) × (lookup_at batches i ≡ some b) × (c ≡ Caller.holding b)
  lookup_at-holding [] i c h = cc
  lookup_at-holding (b ∷ batches) zero c h = (b, refl, sym (some_injective h))
  lookup_at-holding (b ∷ batches) (suc i) c h = lookup_at-holding batches i c h

  length-holding :
      (batches : List StorageBatch) → length (map Caller.holding batches) ≡ length batches
  length-holding [] = refl
  length-holding (b ∷ batches) = ap suc (length-holding batches)

  pub starting-IsOrdered :
      (initial : Backend) (batches : List StorageBatch)
      → IsOrdered initial batches (starting initial batches)
  starting-IsOrdered initial batches = record {
    within = omega arith;
    callers = length-holding batches;
    backend = refl;
    stands = λ i c h.
        let (b, found, e) = lookup_at-holding batches i c h in
        subst (Stands batches 0 i) (sym e) (found, omega arith);
  }

  -- However the calls of `persist` interleave, the backend has been given the batches that are done in the order in which
  -- they were issued, and nothing else, and the batch of a call that has returned is among them.
  pub run-in_order :
      (initial : Backend) (batches : List StorageBatch) (schedule : List ℕ)
      → AreIssued batches
      → let s = run persist_record (starting initial batches) schedule in
        (s.storage_done ≤ length batches)
        × (s.backend ≡ written initial (take s.storage_done batches))
        × ((i : ℕ) → lookup_at s.callers i ≡ some Caller.returned → i < s.storage_done)
  run-in_order initial batches schedule issued =
      let o =
        run-IsOrdered initial batches (starting initial batches) schedule issued
          (starting-IsOrdered initial batches) in
      (o.within, o.backend, λ i h. o.stands i Caller.returned h)
