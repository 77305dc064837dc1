-- ===== src/Store/Window/Trim.antt =====
-- Eviction takes the shortest front of a window that brings it within its limits, and never the
-- newest entry, if that one fits alone.
use webpprof.Prelude.{
  ℕ, ◌≤◌, ◌<◌, ◌≡◌, eq_iff, true, false, none, some, List, [], ◌∷◌, ◌++◌, length, ltb, refl, ap,
  arith, ◌∙◌, sym, Bool-cases, inl, inr,
}
use webpprof.Entry.{Entry, entry_size}
use webpprof.Store.Window.{total, find, expire, exceeds, surplus, trim}
use webpprof.Store.Window.Laws.{find-append}

module _ (max_events max_bytes : ℕ) where
  -- What goes and what stays make up the window, in order.
  pub surplus-append-trim :
      (w : List Entry) → surplus max_events max_bytes w ++ trim max_events max_bytes w ≡ w
  unfolding surplus trim
  surplus-append-trim [] = refl
  surplus-append-trim (e ∷ w) = elim (Bool-cases (exceeds max_events max_bytes (e ∷ w))) [
    | inl over ↦ rw over (ap (◌∷◌ e) (surplus-append-trim w))
    | inr within ↦ rw within
  ]

  -- What stays is within both limits.
  pub trim_bounds :
      (w : List Entry)
      → (length (trim max_events max_bytes w) ≤ max_events)
        × (total (trim max_events max_bytes w) ≤ max_bytes)
  unfolding trim
  trim_bounds [] = unfold total in omega arith
  trim_bounds (e ∷ w) = elim (Bool-cases (exceeds max_events max_bytes (e ∷ w))) [
    | inl over ↦ rw over (trim_bounds w)
    | inr within ↦ rw within (fits within)
  ]
    where
      fits :
          exceeds max_events max_bytes (e ∷ w) ≡ false
          → (length (e ∷ w) ≤ max_events) × (total (e ∷ w) ≤ max_bytes)
      fits h = ground arith

  surplus-over :
      (e : Entry) (w : List Entry)
      → exceeds max_events max_bytes (e ∷ w) ≡ true
      → surplus max_events max_bytes (e ∷ w) ≡ e ∷ surplus max_events max_bytes w
  unfolding surplus
  surplus-over e w h = rw h

  surplus-within :
      (e : Entry) (w : List Entry)
      → exceeds max_events max_bytes (e ∷ w) ≡ false
      → surplus max_events max_bytes (e ∷ w) ≡ []
  unfolding surplus
  surplus-within e w h = rw h

  -- No entry goes that could stay: with the last of those that go, the window is over a limit.
  pub surplus_needed :
      (w front rest : List Entry) (e : Entry)
      → surplus max_events max_bytes w ≡ front ++ e ∷ rest
      → exceeds max_events max_bytes ((e ∷ rest) ++ trim max_events max_bytes w) ≡ true
  unfolding surplus trim
  surplus_needed [] [] rest e h = cc
  surplus_needed [] (f ∷ front) rest e h = cc
  surplus_needed (g ∷ w) [] rest e h = elim (Bool-cases (exceeds max_events max_bytes (g ∷ w))) [
    | inl over ↦ rw over (
        ap (λ v. exceeds max_events max_bytes (v ++ trim max_events max_bytes w))
          (sym h ∙ surplus-over g w over)
        ∙ ap (λ v. exceeds max_events max_bytes (g ∷ v)) (surplus-append-trim w)
        ∙ over)
    | inr within ↦ cc (h, surplus-within g w within)
  ]
  surplus_needed (g ∷ w) (f ∷ front) rest e h =
      elim (Bool-cases (exceeds max_events max_bytes (g ∷ w))) [
        | inl over ↦ rw over (surplus_needed w front rest e (cc (h, surplus-over g w over)))
        | inr within ↦ cc (h, surplus-within g w within)
      ]

  -- An entry that fits alone stays, if it is the newest.
  pub trim-snoc :
      (w : List Entry) (e : Entry)
      → exceeds max_events max_bytes (e ∷ []) ≡ false
      → find e.id w ≡ none
      → (v : List Entry) × (trim max_events max_bytes (w ++ e ∷ []) ≡ v ++ e ∷ [])
        × (find e.id v ≡ none)
  unfolding trim find
  trim-snoc [] e fits new = ([], rw fits, refl)
  trim-snoc (f ∷ w) e fits new =
      elim (Bool-cases (exceeds max_events max_bytes (f ∷ (w ++ e ∷ [])))) [
        | inl over ↦ rw over (trim-snoc w e fits (ground arith))
        | inr within ↦ (f ∷ w, rw within, new)
      ]

-- The newest entry stays through a purge at whose cutoff it is not expired.
pub expire-snoc :
    (cutoff : ℕ) (w : List Entry) (e : Entry)
    → ltb e.recorded_at cutoff ≡ false
    → find e.id w ≡ none
    → find e.id (expire cutoff (w ++ e ∷ [])) ≡ some e
unfolding expire find
expire-snoc cutoff [] e young new = ground (arith, eq_iff e.id e.id)
expire-snoc cutoff (f ∷ w) e young new = elim (Bool-cases (ltb f.recorded_at cutoff)) [
  | inl old ↦ rw old (expire-snoc cutoff w e young (ground arith))
  | inr recent ↦ rw recent (find-append e.id (f ∷ w) (e ∷ []) ∙ ground (arith, eq_iff e.id e.id))
]

pub exceeds-alone :
    (max_events max_bytes : ℕ) (e : Entry)
    → 0 < max_events
    → entry_size e ≤ max_bytes
    → exceeds max_events max_bytes (e ∷ []) ≡ false
unfolding total
exceeds-alone max_events max_bytes e h fits = ground arith
