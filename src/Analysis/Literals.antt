-- ===== src/Analysis/Literals.antt =====
-- The text of a string literal does not show in a fingerprint.
use webpprof.Prelude.{ℕ, ◌≡◌, refl, sym, ap, ◌∙◌, false, [], ◌∷◌, ◌++◌, All, ◌==◌}
use mathlib.Core.List.{append_assoc}
use webpprof.Analysis.Fingerprint.{byte_is_space}
use webpprof.Prelude.Text.{Text, trim_space, trim_suffix}
use webpprof.Analysis.Fingerprint.{
  Mode, Scanner, scan_plain, scan_in, scan, start, query_fingerprint,
}

-- the state after a text
unfoldable pub scanned : Scanner → Text → Scanner
scanned s [] = s
scanned s (c ∷ sql) = scanned (scan_in s.mode s c).1 sql

scan-append : (s : Scanner) (a b : Text) → scan s (a ++ b) ≡ scan s a ++ scan (scanned s a) b
unfolding scan scanned
scan-append s [] b = refl
scan-append s (c ∷ a) b =
    ap (λ x. (scan_in s.mode s c).0 ++ x) (scan-append (scan_in s.mode s c).1 a b)
    ∙ sym (append_assoc (scan_in s.mode s c).0 (scan (scan_in s.mode s c).1 a) _)

-- a byte of a literal
abbrev pub Unquoted : ℕ → Type 0
Unquoted c = (c == 39) ≡ false

step_inside :
    (s : Scanner) (c : ℕ)
    → s.mode ≡ Mode.quoted
    → Unquoted c
    → scan_in s.mode s c ≡ ([], record s { mode = Mode.quoted; previous = c })
unfolding scan_in
step_inside s c inside free = rw (inside, scan_in) (rw free)

-- In a literal nothing is written, and after its last quote its text is forgotten.
scan-literal :
    (literal rest : Text) (s : Scanner)
    → s.mode ≡ Mode.quoted
    → All Unquoted literal
    → scan s (literal ++ 39 ∷ rest) ≡ scan (record s { mode = Mode.closing; previous = 39 }) rest
unfolding scan scan_in
scan-literal [] rest s inside free = rw (inside, scan_in)
scan-literal (c ∷ literal) rest s inside free =
    ap (λ r. r.0 ++ scan r.1 (literal ++ 39 ∷ rest)) (step_inside s c inside free.0)
    ∙ scan-literal literal rest (record s { mode = Mode.quoted; previous = c }) refl free.1

opening : (s : Scanner) → (scan_plain s 39).1.mode ≡ Mode.quoted
unfolding scan_plain byte_is_space
opening s = refl

plain_step : (s : Scanner) (c : ℕ) → s.mode ≡ Mode.plain → scan_in s.mode s c ≡ scan_plain s c
unfolding scan_in
plain_step s c outside = ap (λ m. scan_in m s c) outside

-- what a literal leaves, from a state outside of literals and numbers on
from_plain :
    (s : Scanner) (a b rest : Text)
    → s.mode ≡ Mode.plain
    → All Unquoted a
    → All Unquoted b
    → scan s (39 ∷ a ++ 39 ∷ rest) ≡ scan s (39 ∷ b ++ 39 ∷ rest)
unfolding scan
from_plain s a b rest outside free_a free_b =
    ap (λ r. r.0 ++ scan r.1 (a ++ 39 ∷ rest)) (plain_step s 39 outside)
    ∙ ap (λ x. (scan_plain s 39).0 ++ x)
        (scan-literal a rest (scan_plain s 39).1 (opening s) free_a
          ∙ sym (scan-literal b rest (scan_plain s 39).1 (opening s) free_b))
    ∙ sym (ap (λ r. r.0 ++ scan r.1 (b ++ 39 ∷ rest)) (plain_step s 39 outside))

-- Two statements that differ only in the text of one string literal have the same fingerprint. The
-- literal begins where the statement so far has left no literal and no number open, and its text
-- has no quote.
pub query_fingerprint_same :
    (before a b rest : Text)
    → (scanned start before).mode ≡ Mode.plain
    → All Unquoted a
    → All Unquoted b
    → query_fingerprint (before ++ (39 ∷ a ++ 39 ∷ rest))
      ≡ query_fingerprint (before ++ (39 ∷ b ++ 39 ∷ rest))
unfolding query_fingerprint
query_fingerprint_same before a b rest outside free_a free_b =
    ap (λ x. trim_space (trim_suffix x (b';' ∷ [])))
      (scan-append start before _
        ∙ ap (λ x. scan start before ++ x)
            (from_plain (scanned start before) a b rest outside free_a free_b)
        ∙ sym (scan-append start before _))
