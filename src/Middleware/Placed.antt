-- ===== src/Middleware/Placed.antt =====
-- Where the work spans of a middleware stand: in the gaps between its downstream calls.
use webpprof.Prelude.{
  ℕ, ◌+◌, ◌≤◌, ◌<◌, ◌≡◌, ap, ◌∙◌, true, false, not, ◌&&◌, ◌||◌, some, List, [], ◌∷◌, map, All, ltb,
  leb, arith, Bool-cases, inl, inr, pos_part, sub_ℕ,
}
use webpprof.Contracts.{MiddlewareWorkSpan}
use webpprof.Analysis.Share.{Interval}
use webpprof.Analysis.Coverage.{covers, is_covered, Sorted, WithinBound, uncovered}
use webpprof.Middleware.{gaps, work_spans}
use webpprof.Middleware.Idle.{merged_of, merged_of-IsMerged, merged_of-is_covered}

-- the interval of a span in an invocation that started at `start`
abbrev pub placed : ℕ → MiddlewareWorkSpan → Interval
placed start s = record {
  start = start + pos_part s.offset;
  stop = start + pos_part s.offset + pos_part s.duration;
}

placed-covers :
    (start cursor until t : ℕ)
    → start ≤ cursor
    → cursor ≤ until
    → covers
        (placed start (record { offset = sub_ℕ cursor start; duration = sub_ℕ until cursor }))
        t
      ≡ leb cursor t && ltb t until
placed-covers start cursor until t a b = ground arith

no_gap :
    (cursor : ℕ) (i : Interval)
    → i.start < i.stop
    → ltb cursor i.stop ≡ false
    → ltb cursor i.start ≡ false
no_gap cursor i less inner = ground arith

gaps-is_covered :
    (start finish cursor : ℕ) (merged : List Interval) (t : ℕ)
    → start ≤ cursor
    → Sorted merged
    → All (WithinBound finish) merged
    → t < finish
    → is_covered (map (placed start) (gaps start finish cursor merged).spans) t
      ≡ leb cursor t && not (is_covered merged t)
unfolding gaps is_covered
gaps-is_covered start finish cursor [] t a sorted within b = elim (Bool-cases (ltb cursor finish)) [
  | inl more ↦
      rw more
        (ap (λ c. c || false) (placed-covers start cursor finish t a (ground arith)) ∙ ground arith)
  | inr over ↦ rw over (ground arith)
]
gaps-is_covered start finish cursor (i ∷ rest) t a sorted within b =
    elim (Bool-cases (ltb cursor i.stop)) [
      | inl longer ↦
          let ih = gaps-is_covered start finish i.stop rest t (ground arith) sorted.1 within.1 b in
          elim (Bool-cases (ltb cursor i.start)) [
            | inl gap ↦
                let own = placed-covers start cursor i.start t a (ground arith) in
                let before = uncovered rest i.start t sorted.0 in
                rw (longer, gap) (ground (arith, ih, own, before))
            | inr running ↦ rw (longer, running) (ground (arith, ih))
          ]
      | inr inner ↦
          let ih = gaps-is_covered start finish cursor rest t a sorted.1 within.1 b in
          rw (inner, no_gap cursor i within.0.0 inner) (ground (arith, ih))
    ]

lasts : (start finish t : ℕ) → start ≤ t → t < finish → ltb start finish ≡ true
lasts start finish t a b = ground arith

-- At each instant of an invocation either one of its work spans or one of the downstream calls runs.
pub work_spans-idle :
    (downstream : List Interval) (start finish t : ℕ)
    → start ≤ t
    → t < finish
    → is_covered (map (placed start) (work_spans (some downstream) start finish).spans) t
      ≡ not (is_covered downstream t)
unfolding work_spans
work_spans-idle downstream start finish t a b =
    let merged = merged_of downstream start finish in
    let facts = merged_of-IsMerged downstream start finish in
    rw (lasts start finish t a b) (
      gaps-is_covered start finish start merged t (omega arith) facts.1 facts.2 b
      ∙ ap (λ c. leb start t && not c) (merged_of-is_covered downstream start finish t a b)
      ∙ ground arith)
