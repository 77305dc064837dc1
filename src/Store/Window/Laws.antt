-- ===== src/Store/Window/Laws.antt =====
-- How the operations on windows act on what a window finds, on its size and on its ids.
use mathlib.Core.List.{map-append}
use webpprof.Prelude.{
  ℕ, ◌+◌, ◌≤◌, ◌≡◌, String, str_eq, eq_iff, true, Option, none, some, List, [], ◌∷◌, ◌++◌,
  if◌then◌else◌, refl, ap, arith, ◌∙◌, sym, Bool-cases, inl, inr,
}
use webpprof.Entry.{Entry, entry_size}
use webpprof.Order.Fifo
use webpprof.Store.Window.{ids, total, find, without, Distinct, expire}

abbrev pub or_else : Option Entry → Option Entry → Option Entry
or_else none o = o
or_else (some e) o = some e

pub find-append : (k : String) (w v : List Entry) → find k (w ++ v) ≡ or_else (find k w) (find k v)
unfolding find
find-append k [] v = refl
find-append k (e ∷ w) v = ground (arith, find-append k w v)

pub find-without :
    (id k : String) (w : List Entry)
    → find k (without id w) ≡ (if str_eq id k then none else find k w)
unfolding find without
find-without id k [] = ground arith
find-without id k (e ∷ w) =
    ground (arith, find-without id k w, eq_iff e.id id, eq_iff e.id k, eq_iff id k)

pub find-snoc :
    (e : Entry) (k : String) (w : List Entry)
    → find k (without e.id w ++ e ∷ []) ≡ (if str_eq e.id k then some e else find k w)
unfolding find
find-snoc e k w = find-append k (without e.id w) (e ∷ []) ∙ ground (arith, find-without e.id k w)

pub without-absent : (id : String) (w : List Entry) → find id w ≡ none → without id w ≡ w
unfolding find without
without-absent id [] h = refl
without-absent id (e ∷ w) h = ground (arith, without-absent id w)

absent_same :
    (id : String) (e : Entry) (w : List Entry)
    → find e.id w ≡ none
    → str_eq e.id id ≡ true
    → find id w ≡ none
absent_same id e w h same = ap (λ k. find k w) (sym ((eq_iff e.id id).0 same)) ∙ h

pub Distinct-without : (id : String) (w : List Entry) → Distinct w → Distinct (without id w)
unfolding without
Distinct-without id [] d = tt
Distinct-without id (e ∷ w) d = elim (Bool-cases (str_eq e.id id)) [
  | inl h ↦ rw h (Distinct-without id w d.1)
  | inr h ↦ rw h (find-without id e.id w ∙ ground (arith, d.0), Distinct-without id w d.1)
]

pub Distinct-snoc :
    (e : Entry) (w : List Entry) → find e.id w ≡ none → Distinct w → Distinct (w ++ e ∷ [])
unfolding find
Distinct-snoc e [] h d = (refl, tt)
Distinct-snoc e (f ∷ w) h d = (
  find-append f.id w (e ∷ []) ∙ ground (arith, d.0, h, eq_iff e.id f.id, eq_iff f.id e.id),
  Distinct-snoc e w (ground (arith, h)) d.1,
)

pub total-append : (w v : List Entry) → total (w ++ v) ≡ total w + total v
unfolding total
total-append [] v = omega arith
total-append (e ∷ w) v = omega (arith, total-append w v)

pub total-without-le : (id : String) (w : List Entry) → total (without id w) ≤ total w
unfolding total without
total-without-le id [] = omega arith
total-without-le id (e ∷ w) = ground (arith, total-without-le id w)

pub total-without :
    (id : String) (w : List Entry) (p : Entry)
    → Distinct w
    → find id w ≡ some p
    → total (without id w) + entry_size p ≡ total w
unfolding total without find
total-without id [] p d h = cc
total-without id (e ∷ w) p d h = elim (Bool-cases (str_eq e.id id)) [
  | inl same ↦ ground (arith, without-absent id w (absent_same id e w d.0 same))
  | inr other ↦ rw other (omega (arith, total-without id w p d.1 (ground (arith, h))))
]

pub erase-ids :
    (id : String) (w : List Entry) → Distinct w → (Fifo.erase id (ids w)).1 ≡ ids (without id w)
unfolding Fifo.erase without find
erase-ids id [] d = refl
erase-ids id (e ∷ w) d = elim (Bool-cases (str_eq e.id id)) [
  | inl same ↦ rw same (ap ids (sym (without-absent id w (absent_same id e w d.0 same))))
  | inr other ↦ rw other (ap (◌∷◌ e.id) (erase-ids id w d.1))
]

pub ids-append : (w v : List Entry) → ids (w ++ v) ≡ ids w ++ ids v
ids-append w v = map-append (λ e. e.id) w v

pub total-expire-le : (cutoff : ℕ) (w : List Entry) → total (expire cutoff w) ≤ total w
unfolding total expire
total-expire-le cutoff [] = omega arith
total-expire-le cutoff (e ∷ w) = ground (arith, total-expire-le cutoff w)
