-- ===== src/Analysis/Hierarchy/Depth.antt =====
-- `newAnalysisEntryHierarchy` is given enough fuel: a call that goes deeper is for a key of a smaller rank, and
-- so at most as deep as there are keys.
use webpprof.Prelude.{
  ℕ, suc, ◌+◌, ◌≤◌, ◌<◌, ◌≡◌, ap, String, str_eq, eq_iff, true, [], ◌∷◌, inl, inr, ltb, length,
  if◌then◌else◌, arith, Bool-cases,
}
use webpprof.Prelude.Assoc.{Assoc, lookup}
use webpprof.Entry.{Entry}
use webpprof.Analysis.Hierarchy.{has}

-- how many keys have a rank below `r`
abbrev pub position : (String → ℕ) → ℕ → Assoc Entry → ℕ
position rank r [] = 0
position rank r (pair ∷ rest) = (if ltb (rank pair.0) r then 1 else 0) + position rank r rest

position_mono :
    (rank : String → ℕ) (r s : ℕ) (by_id : Assoc Entry)
    → r ≤ s
    → position rank r by_id ≤ position rank s by_id
position_mono rank r s [] le = omega arith
position_mono rank r s (pair ∷ rest) le = ground (arith, position_mono rank r s rest le)

-- A key of a smaller rank has a smaller position.
pub position_lt :
    (rank : String → ℕ) (id : String) (s : ℕ) (by_id : Assoc Entry)
    → has id by_id ≡ true
    → rank id < s
    → position rank (rank id) by_id < position rank s by_id
unfolding lookup
position_lt rank id s [] found less = absurd cc
position_lt rank id s (pair ∷ rest) found less = elim (Bool-cases (str_eq pair.0 id)) [
  | inl same ↦
      let is_id = ap rank ((eq_iff pair.0 id).0 same) in
      let others = position_mono rank (rank id) s rest (omega arith) in
      ground (arith, is_id, others)
  | inr apart ↦
      let ih = position_lt rank id s rest (rw (has, lookup, apart) at found) less in
      ground (arith, ih, less)
]

position-le_length :
    (rank : String → ℕ) (r : ℕ) (by_id : Assoc Entry) → position rank r by_id ≤ length by_id
position-le_length rank r [] = omega arith
position-le_length rank r (pair ∷ rest) = ground (arith, position-le_length rank r rest)

-- The position of a key is smaller than the number of the keys.
pub position-lt_length :
    (rank : String → ℕ) (id : String) (by_id : Assoc Entry)
    → has id by_id ≡ true
    → position rank (rank id) by_id < length by_id
position-lt_length rank id by_id found =
    let less = position_lt rank id (suc (rank id)) by_id found (omega arith) in
    omega (arith, less, position-le_length rank (suc (rank id)) by_id)
