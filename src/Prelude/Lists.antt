-- ===== src/Prelude/Lists.antt =====
-- Lists measured and indexed by native numbers, under the library's names.
use Prim.Native.Nat.{ℕ, zero, suc, ◌+◌, ◌≤◌, ◌<◌}
use mathlib.Core.Path.{◌≡◌, refl, sym, ap, ap₂, ◌∙◌}
use mathlib.Core.Logic.{◌≢◌, ◌⊎◌, inl, inr}
use mathlib.Core.List.{List, [], ◌∷◌, ◌++◌}
use mathlib.Core.Bool.{Bool}
use mathlib.Core.Option.{Option, none, some}
use webpprof.Prelude.Tests.{if◌then◌else◌}
use native.Mathlib.Omega.{arith}

module _ {ℓ} {A : Type ℓ} where
  abbrev pub length : List A → ℕ
  length [] = 0
  length (x ∷ xs) = suc (length xs)

  abbrev pub get_or : List A → ℕ → A → A
  get_or [] i d = d
  get_or (x ∷ xs) zero d = x
  get_or (x ∷ xs) (suc i) d = get_or xs i d

  abbrev pub lookup_at : List A → ℕ → Option A
  lookup_at [] i = none
  lookup_at (x ∷ xs) zero = some x
  lookup_at (x ∷ xs) (suc i) = lookup_at xs i

  -- A write out of bounds changes nothing.
  abbrev pub set : List A → ℕ → A → List A
  set [] i v = []
  set (x ∷ xs) zero v = v ∷ xs
  set (x ∷ xs) (suc i) v = x ∷ set xs i v

  abbrev pub replicate : ℕ → A → List A
  replicate zero a = []
  replicate (suc n) a = a ∷ replicate n a

  abbrev pub take : ℕ → List A → List A
  take zero xs = []
  take (suc n) [] = []
  take (suc n) (x ∷ xs) = x ∷ take n xs

  -- `f i`, `f (i + 1)` and so on, `n` of them
  abbrev pub tabulate : (ℕ → A) → ℕ → ℕ → List A
  tabulate f i zero = []
  tabulate f i (suc n) = f i ∷ tabulate f (suc i) n

  -- the elements that pass a test
  abbrev pub filter : (A → Bool) → List A → List A
  filter p [] = []
  filter p (x ∷ xs) = let rest = filter p xs in if p x then x ∷ rest else rest

  -- every element satisfies `P`
  abbrev pub All {κ} : (A → Type κ) → List A → Type κ
  All P [] = Unit
  All P (x ∷ xs) = P x × All P xs

module _ {ℓ} {A : Type ℓ} where
  pub length-append : (xs ys : List A) → length (xs ++ ys) ≡ length xs + length ys
  length-append [] ys = omega arith
  length-append (x ∷ xs) ys = omega (arith, length-append xs ys)

  pub length-set : (xs : List A) (i : ℕ) (v : A) → length (set xs i v) ≡ length xs
  length-set [] i v = refl
  length-set (x ∷ xs) zero v = refl
  length-set (x ∷ xs) (suc i) v = ap suc (length-set xs i v)

  pub length-replicate : (n : ℕ) (a : A) → length (replicate n a) ≡ n
  length-replicate zero a = refl
  length-replicate (suc n) a = ap suc (length-replicate n a)

  pub lookup_at-set_self :
      (xs : List A) (i : ℕ) (v : A) {w : A}
      → lookup_at xs i ≡ some w
      → lookup_at (set xs i v) i ≡ some v
  lookup_at-set_self [] i v h = cc
  lookup_at-set_self (x ∷ xs) zero v h = refl
  lookup_at-set_self (x ∷ xs) (suc i) v h = lookup_at-set_self xs i v h

  pub get_or-set_self :
      (xs : List A) (i : ℕ) (v d : A) → i < length xs → get_or (set xs i v) i d ≡ v
  get_or-set_self [] i v d h = absurd (omega arith)
  get_or-set_self (x ∷ xs) zero v d h = refl
  get_or-set_self (x ∷ xs) (suc i) v d h = get_or-set_self xs i v d (omega arith)

  pub get_or-set_ne :
      (xs : List A) (i j : ℕ) (v d : A) → i ≢ j → get_or (set xs i v) j d ≡ get_or xs j d
  get_or-set_ne [] i j v d h = refl
  get_or-set_ne (x ∷ xs) zero zero v d h = absurd (h refl)
  get_or-set_ne (x ∷ xs) zero (suc j) v d h = refl
  get_or-set_ne (x ∷ xs) (suc i) zero v d h = refl
  get_or-set_ne (x ∷ xs) (suc i) (suc j) v d h = get_or-set_ne xs i j v d (λ e. h (ap suc e))

  pub length-tabulate : (f : ℕ → A) (i n : ℕ) → length (tabulate f i n) ≡ n
  length-tabulate f i zero = refl
  length-tabulate f i (suc n) = ap suc (length-tabulate f (suc i) n)

  pub get_or-tabulate :
      (f : ℕ → A) (i n k : ℕ) (d : A) → k < n → get_or (tabulate f i n) k d ≡ f (i + k)
  get_or-tabulate f i zero k d h = absurd (omega arith)
  get_or-tabulate f i (suc n) zero d h = ap f (omega arith)
  get_or-tabulate f i (suc n) (suc k) d h =
      get_or-tabulate f (suc i) n k d (omega arith) ∙ ap f (omega arith)

  pub tabulate_congr :
      (f g : ℕ → A) (i n : ℕ)
      → ((k : ℕ) → i ≤ k → k < i + n → f k ≡ g k)
      → tabulate f i n ≡ tabulate g i n
  tabulate_congr f g i zero h = refl
  tabulate_congr f g i (suc n) h =
      ap₂ ◌∷◌ (h i (omega arith) (omega arith))
        (tabulate_congr f g (suc i) n (λ k a b. h k (omega arith) (omega arith)))

  pub tabulate_shift :
      (f g : ℕ → A) (i j n : ℕ)
      → ((k : ℕ) → k < n → f (i + k) ≡ g (j + k))
      → tabulate f i n ≡ tabulate g j n
  tabulate_shift f g i j zero h = refl
  tabulate_shift f g i j (suc n) h =
      ap₂ ◌∷◌ (ap f (omega arith) ∙ h 0 (omega arith) ∙ ap g (omega arith)) (
        tabulate_shift f g (suc i) (suc j) n
          (λ k a. ap f (omega arith) ∙ h (suc k) (omega arith) ∙ ap g (omega arith)))

  pub tabulate-suc : (f : ℕ → A) (i n : ℕ) → tabulate f i (suc n) ≡ tabulate f i n ++ f (i + n) ∷ []
  tabulate-suc f i zero = ap (λ k. f k ∷ []) (omega arith)
  tabulate-suc f i (suc n) =
      ap (◌∷◌ (f i))
        (tabulate-suc f (suc i) n ∙ ap (λ k. tabulate f (suc i) n ++ f k ∷ []) (omega arith))

  pub some_injective : {a b : A} → some a ≡ some b → a ≡ b
  some_injective h = cc

  pub lookup_at-lt : (xs : List A) (i : ℕ) (a : A) → lookup_at xs i ≡ some a → i < length xs
  lookup_at-lt [] i a h = cc
  lookup_at-lt (x ∷ xs) zero a h = omega arith
  lookup_at-lt (x ∷ xs) (suc i) a h = omega (arith, lookup_at-lt xs i a h)

  -- what stands in a list after a write
  pub lookup_at-set :
      (xs : List A) (i j : ℕ) (v c : A)
      → lookup_at (set xs i v) j ≡ some c
      → ((j ≡ i) × (c ≡ v)) ⊎ ((j ≢ i) × (lookup_at xs j ≡ some c))
  lookup_at-set [] i j v c h = cc
  lookup_at-set (x ∷ xs) zero zero v c h = inl (refl, sym (some_injective h))
  lookup_at-set (x ∷ xs) zero (suc j) v c h = inr (λ e. omega (arith, e), h)
  lookup_at-set (x ∷ xs) (suc i) zero v c h = inr (λ e. omega (arith, e), h)
  lookup_at-set (x ∷ xs) (suc i) (suc j) v c h = elim (lookup_at-set xs i j v c h) [
    | inl (e, q) ↦ inl (ap suc e, q)
    | inr (ne, q) ↦ inr (λ e. ne (omega (arith, e)), q)
  ]

pub All-map {ℓ κ μ} :
    {A : Type ℓ} {P : A → Type κ} {Q : A → Type μ}
    → ((x : A) → P x → Q x)
    → (xs : List A) → All P xs
    → All Q xs
All-map f [] all = tt
All-map {P = P} {Q = Q} f (x ∷ xs) (here, all) = (f x here, All-map {P = P} {Q = Q} f xs all)
