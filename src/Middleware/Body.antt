-- ===== src/Middleware/Body.antt =====
-- What `BodyRecorder` holds of the bytes that it was given.
use webpprof.Prelude.{
  ℕ, zero, suc, ◌+◌, ◌-◌, ◌≡◌, refl, sym, ap, ap₂, ◌∙◌, false, ◌&&◌, ◌||◌, List, [], ◌∷◌, ◌++◌, ltb,
  arith, Bool-cases, inl, inr, length, take, min, length-append, ◌==◌,
}
use webpprof.Middleware.Observer.{BodyRecorder, record_body}

-- what a recorder with this limit holds of the bytes
abbrev pub Keeps : ℕ → List ℕ → BodyRecorder → Type 0
Keeps limit all c =
    (c.limit ≡ limit)
    × (c.body ≡ take limit all)
    × (c.truncated ≡ (ltb 0 limit && ltb limit (length all)))

take-min : (r : ℕ) (bytes : List ℕ) → take (min (length bytes) r) bytes ≡ take r bytes
take-min zero [] = refl
take-min (suc r) [] = ap (λ k. take k []) {x = min 0 (suc r)} {y = 0} (omega arith)
take-min zero (b ∷ bytes) =
    ap (λ k. take k (b ∷ bytes)) {x = min (suc (length bytes)) 0} {y = 0} (omega arith)
take-min (suc r) (b ∷ bytes) =
    ap (λ k. take k (b ∷ bytes)) {x = min (suc (length bytes)) (suc r)}
      {y = suc (min (length bytes) r)} (omega arith)
    ∙ ap (λ rest. b ∷ rest) (take-min r bytes)

take-append :
    (n : ℕ) (all bytes : List ℕ)
    → take n all ++ take (n - length (take n all)) bytes ≡ take n (all ++ bytes)
take-append zero all bytes = refl
take-append (suc n) [] bytes = ap (λ k. take k bytes) {x = suc n - 0} {y = suc n} (omega arith)
take-append (suc n) (a ∷ all) bytes =
    let l = length (take n all) in
    ap (λ k. a ∷ (take n all ++ take k bytes)) {x = suc n - suc l} {y = n - l} (omega arith)
    ∙ ap (λ rest. a ∷ rest) (take-append n all bytes)

length-take-min : (n : ℕ) (xs : List ℕ) → length (take n xs) ≡ min n (length xs)
length-take-min zero xs = omega arith
length-take-min (suc n) [] = omega arith
length-take-min (suc n) (x ∷ xs) = omega (arith, length-take-min n xs)

now_truncated :
    (limit n m : ℕ)
    → limit == 0 ≡ false
    → ((ltb 0 limit && ltb limit n) || ltb (limit - min limit n) m)
      ≡ (ltb 0 limit && ltb limit (n + m))
now_truncated limit n m some_limit = ground arith

pub record_body-Keeps :
    (limit : ℕ) (all bytes : List ℕ) (c : BodyRecorder)
    → Keeps limit all c
    → Keeps limit (all ++ bytes) (record_body c bytes)
unfolding record_body
record_body-Keeps limit all bytes c keeps = elim (Bool-cases (c.limit == 0)) [
  | inl disabled ↦
      let zero_limit : limit ≡ 0 = ground (arith, keeps.0, disabled) in
      rw disabled (
        keeps.0,
        keeps.1
            ∙ ap (λ k. take k all) zero_limit
            ∙ sym (ap (λ k. take k (all ++ bytes)) zero_limit),
        keeps.2 ∙ ground (arith, zero_limit),
      )
  | inr positive ↦ rw positive (
    keeps.0,
    ap₂ (λ l b. b ++ take (min (length bytes) (l - length b)) bytes) keeps.0 keeps.1
        ∙ ap (λ r. take limit all ++ r) (take-min (limit - length (take limit all)) bytes)
        ∙ take-append limit all bytes,
    ap₂ ◌||◌ keeps.2 (
          ap₂ (λ l n. ltb (l - n) (length bytes)) keeps.0
            (ap length keeps.1 ∙ length-take-min limit all))
        ∙ now_truncated limit (length all) (length bytes) (ground (arith, keeps.0, positive))
        ∙ ap (λ n. ltb 0 limit && ltb limit n) (sym (length-append all bytes)),
  )
]
