-- ===== src/Store/Replay/Recovery.antt =====
-- What is written to the storage is enough to find the window again.
use webpprof.Prelude.{
  ℕ, String, str_eq, eq_iff, none, List, [], ◌∷◌, ◌++◌, ◌≡◌, refl, sym, ap, ◌∙◌, arith, Bool-cases,
  inl, inr, false, ltb,
}
use mathlib.Core.Path.{subst}
use webpprof.Store.Window.{exceeds}
use webpprof.Entry.{Entry}
use webpprof.Store.{StoreJournalRecord, put_record}
use webpprof.Store.Window.{find, without, Distinct, expired, expire, surplus, trim, with_entry}
use webpprof.Store.Window.Laws.{without-absent, Distinct-without}
use webpprof.Store.Evict.{delete_records}
use webpprof.Store.Replay.Apply.{apply}

pub apply-append :
    (a b : List StoreJournalRecord) (w : List Entry) → apply (a ++ b) w ≡ apply b (apply a w)
unfolding apply
apply-append [] b w = refl
apply-append (r ∷ a) b w = apply-append a b _

without_comm : (a b : String) (w : List Entry) → without a (without b w) ≡ without b (without a w)
unfolding without
without_comm a b [] = refl
without_comm a b (e ∷ w) = ground (arith, without_comm a b w)

-- A deletion and the removal of another id can change places.
apply-delete-without :
    (g w : List Entry) (id : String)
    → without id (apply (delete_records g) w) ≡ apply (delete_records g) (without id w)
unfolding apply
apply-delete-without [] w id = refl
apply-delete-without (e ∷ g) w id =
    apply-delete-without g (without e.id w) id
    ∙ ap (apply (delete_records g)) (without_comm id e.id w)

find-append_none : (k : String) (g v : List Entry) → find k (g ++ v) ≡ none → find k v ≡ none
unfolding find
find-append_none k [] v h = h
find-append_none k (e ∷ g) v h = find-append_none k g v (ground arith)

without-head : (e : Entry) (w : List Entry) → find e.id w ≡ none → without e.id (e ∷ w) ≡ w
unfolding without
without-head e w h = ground (arith, eq_iff e.id e.id, without-absent e.id w h)

-- Deleting the front of a window leaves the rest.
apply-delete_front : (g v : List Entry) → Distinct (g ++ v) → apply (delete_records g) (g ++ v) ≡ v
unfolding apply
apply-delete_front [] v d = refl
apply-delete_front (e ∷ g) v d =
    ap (apply (delete_records g)) (without-head e (g ++ v) d.0) ∙ apply-delete_front g v d.1

pub expired-append-expire : (cutoff : ℕ) (w : List Entry) → expired cutoff w ++ expire cutoff w ≡ w
unfolding expired expire
expired-append-expire cutoff [] = refl
expired-append-expire cutoff (e ∷ w) = elim (Bool-cases (ltb e.recorded_at cutoff)) [
  | inl old ↦ rw old (ap (◌∷◌ e) (expired-append-expire cutoff w))
  | inr new ↦ rw new
]

-- The records of a purge make the purged window.
pub apply-expired :
    (cutoff : ℕ) (w : List Entry)
    → Distinct w
    → apply (delete_records (expired cutoff w)) w ≡ expire cutoff w
apply-expired cutoff w d =
    ap (apply (delete_records (expired cutoff w))) (sym (expired-append-expire cutoff w))
    ∙ apply-delete_front (expired cutoff w) (expire cutoff w)
        (subst Distinct (sym (expired-append-expire cutoff w)) d)

module _ (max_events max_bytes : ℕ) (e : Entry)
    (fits : exceeds max_events max_bytes (e ∷ []) ≡ false) where
  -- the newest entry stays, and what goes is a front of the others
  trim_snoc_split :
      (w : List Entry)
      → (v : List Entry) × (trim max_events max_bytes (w ++ e ∷ []) ≡ v ++ e ∷ [])
        × (surplus max_events max_bytes (w ++ e ∷ []) ++ v ≡ w)
  unfolding trim surplus
  trim_snoc_split [] = ([], rw fits, rw fits)
  trim_snoc_split (f ∷ w) = elim (Bool-cases (exceeds max_events max_bytes (f ∷ (w ++ e ∷ [])))) [
    | inl over ↦ let (v, p, q) = trim_snoc_split w in (v, rw over p, rw over (ap (◌∷◌ f) q))
    | inr within ↦ (f ∷ w, rw within, rw within)
  ]

  -- The records of a `put` after its purge make the window with the entry.
  pub apply-put_records :
      (w : List Entry) (cursor : ℕ)
      → Distinct w
      → str_eq e.id "" ≡ false
      → apply
          (delete_records (surplus max_events max_bytes (without e.id w ++ e ∷ []))
            ++ put_record e cursor ∷ [])
          w
        ≡ with_entry max_events max_bytes e w
  unfolding apply
  apply-put_records w cursor d named =
      let (v, p, q) = trim_snoc_split (without e.id w) in
      let g = surplus max_events max_bytes (without e.id w ++ e ∷ []) in
      apply-append (delete_records g) (put_record e cursor ∷ []) w
      ∙ rw named (
          ap (λ x. x ++ e ∷ [])
            (apply-delete-without g w e.id
              ∙ ap (apply (delete_records g)) (sym q)
              ∙ apply-delete_front g v (subst Distinct (sym q) (Distinct-without e.id w d)))
          ∙ sym p)
