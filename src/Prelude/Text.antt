-- ===== src/Prelude/Text.antt =====
-- Text as a list of code points, and what the program uses of Go's `strings` and `unicode`.
use Prim.Native.Char.{code}
use Prim.Native.Nat.{ℕ, ◌+◌}
use Prim.Native.String.{String}
use mathlib.Core.Path.{◌≡◌, refl, ap}
use mathlib.Core.Bool.{Bool, true, false, ◌&&◌, ◌||◌}
use mathlib.Core.List.{List, [], ◌∷◌, ◌++◌, map, reverse}
use native.Mathlib.Omega.{arith}
use mathlib.Core.Option.{Option, none, some}
use mathlib.Core.Logic.{inl, inr}
use webpprof.Prelude.Tests.{Bool-cases, leb, ◌==◌, if◌then◌else◌}

abbrev pub Text : Type 0
Text = List ℕ

-- the code points of a literal
abbrev pub codes : String → Text
codes String.[] = []
codes (String.◌∷◌ c s) = code c ∷ codes s

abbrev pub text_eq : Text → Text → Bool
text_eq [] [] = true
text_eq [] (b ∷ t) = false
text_eq (a ∷ s) [] = false
text_eq (a ∷ s) (b ∷ t) = a == b && text_eq s t

-- `unicode.IsSpace`
abbrev pub is_space : ℕ → Bool
is_space c =
    (leb 9 c && leb c 13)
    || (c == 32
        || (c == 0x85
            || (c == 0xa0
                || (c == 0x1680
                    || ((leb 0x2000 c && leb c 0x200a)
                        || (c == 0x2028
                            || (c == 0x2029 || (c == 0x202f || (c == 0x205f || c == 0x3000)))))))))

-- `unicode.ToLower` as far as a comparison with ASCII text can show it: the capital letters of ASCII,
-- and the two other characters whose lower case is an ASCII letter. A character whose lower case is
-- not ASCII stays.
unfoldable pub lower : ℕ → ℕ
lower c =
    if leb b'A' c && leb c b'Z'
    then c + 32
    else if c == 0x212a
    then b'k'
    else if c == 0x130
    then b'i'
    else c

abbrev pub to_lower : Text → Text
to_lower = map lower

unfoldable pub trim_left : Text → Text
trim_left [] = []
trim_left (c ∷ s) = let rest = trim_left s in if is_space c then rest else c ∷ s

-- `strings.TrimSpace`
unfoldable pub trim_space : Text → Text
trim_space s = reverse (trim_left (reverse (trim_left s)))

unfoldable pub has_prefix : Text → Text → Bool
has_prefix s [] = true
has_prefix [] (b ∷ t) = false
has_prefix (a ∷ s) (b ∷ t) = a == b && has_prefix s t

-- `strings.HasSuffix`
unfoldable pub has_suffix : Text → Text → Bool
has_suffix [] t = text_eq [] t
has_suffix (a ∷ s) t = text_eq (a ∷ s) t || has_suffix s t

-- `strings.TrimSuffix`
unfoldable pub trim_suffix : Text → Text → Text
trim_suffix [] t = []
trim_suffix (a ∷ s) t = let rest = a ∷ trim_suffix s t in if text_eq (a ∷ s) t then [] else rest

-- `strings.Contains`
unfoldable pub contains : Text → Text → Bool
contains [] t = has_prefix [] t
contains (a ∷ s) t = has_prefix (a ∷ s) t || contains s t

-- `strings.Cut` at one character; the second part is `none` where the character is not found
unfoldable pub cut : ℕ → Text → Text × Option Text
cut c [] = ([], none)
cut c (a ∷ s) =
    let (before, after) = cut c s in if a == c then ([], some s) else (a ∷ before, after)

pub lower_idem : (c : ℕ) → lower (lower c) ≡ lower c
unfolding lower
lower_idem c = ground arith

pub text_eq_refl : (s : Text) → text_eq s s ≡ true
text_eq_refl [] = refl
text_eq_refl (a ∷ s) = ground (arith, text_eq_refl s)

pub has_suffix-append : (p t : Text) → has_suffix (p ++ t) t ≡ true
unfolding has_suffix
has_suffix-append [] [] = refl
has_suffix-append [] (b ∷ t) = ground (arith, text_eq_refl (b ∷ t))
has_suffix-append (a ∷ p) t = ground (arith, has_suffix-append p t)

pub text_eq_sound : (s t : Text) → text_eq s t ≡ true → s ≡ t
text_eq_sound [] [] h = refl
text_eq_sound [] (b ∷ t) h = cc
text_eq_sound (a ∷ s) [] h = cc
text_eq_sound (a ∷ s) (b ∷ t) h = ground (arith, text_eq_sound s t)

pub has_suffix_sound : (s t : Text) → has_suffix s t ≡ true → (prefix : Text) × (s ≡ prefix ++ t)
unfolding has_suffix
has_suffix_sound [] t h = ([], text_eq_sound [] t h)
has_suffix_sound (a ∷ s) t h = elim (Bool-cases (text_eq (a ∷ s) t)) [
  | inl e ↦ ([], text_eq_sound (a ∷ s) t e)
  | inr e ↦ let (prefix, q) = has_suffix_sound s t (rw e at h) in (a ∷ prefix, ap (◌∷◌ a) q)
]
