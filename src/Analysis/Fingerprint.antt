-- ===== src/Analysis/Fingerprint.antt =====
-- analysis.go: `queryFingerprint`, on the bytes of a statement. The result is the list of the runes
-- that it writes. A round of its loops reads one byte; the state is what the source has in
-- `spacePending` and `result.Len() > 0`, the byte before, and the loop in which it stands.
use webpprof.Prelude.{
  ℕ, ◌+◌, Bool, true, false, not, ◌&&◌, ◌||◌, [], ◌∷◌, ◌++◌, leb, ◌==◌, if◌then◌else◌,
}
use webpprof.Prelude.Text.{Text, trim_space, trim_suffix}

-- `closing` is the place after a quote within a literal
pub data Mode : Type 0 where
  plain quoted closing number : Mode

pub record Scanner : Type 0 where
  pub mode : Mode
  pub previous : ℕ
  pub pending : Bool
  pub written : Bool

-- `unicode.IsSpace`, `unicode.ToLower`, `unicode.IsLetter` and `unicode.IsDigit` on a byte
unfoldable pub byte_is_space : ℕ → Bool
byte_is_space c = (leb 9 c && leb c 13) || (c == 32 || (c == 0x85 || c == 0xa0))

unfoldable pub byte_lower : ℕ → ℕ
byte_lower c =
    if (leb b'A' c && leb c b'Z') || (leb 0xc0 c && (leb c 0xde && not (c == 0xd7)))
    then c + 32
    else c

abbrev pub byte_is_digit : ℕ → Bool
byte_is_digit c = leb b'0' c && leb c b'9'

unfoldable pub byte_is_letter : ℕ → Bool
byte_is_letter c =
    (leb b'A' c && leb c b'Z')
    || ((leb b'a' c && leb c b'z')
        || (c == 0xaa
            || (c == 0xb5 || (c == 0xba || (leb 0xc0 c && not (c == 0xd7 || c == 0xf7))))))

-- `isSQLNumberStart`; before the first byte there is the byte 0, which is no part of a word
unfoldable pub is_sql_number_start : ℕ → ℕ → Bool
is_sql_number_start previous c =
    byte_is_digit c && not (byte_is_letter previous || (byte_is_digit previous || previous == b'_'))

abbrev pub space_if : Bool → Text
space_if b = if b then 32 ∷ [] else []

-- a round of the outer loop: what it writes, and the next state
unfoldable pub scan_plain : Scanner → ℕ → Text × Scanner
scan_plain s c =
    let after = record s { previous = c; pending = false; written = true } in
    if byte_is_space c
    then ([], record s { mode = Mode.plain; previous = c; pending = s.written })
    else if c == 39
    then (space_if s.pending ++ b'?' ∷ [], record after { mode = Mode.quoted })
    else if is_sql_number_start s.previous c
    then (space_if s.pending ++ b'?' ∷ [], record after { mode = Mode.number })
    else (space_if s.pending ++ byte_lower c ∷ [], record after { mode = Mode.plain })

unfoldable pub scan_in : Mode → Scanner → ℕ → Text × Scanner
scan_in Mode.plain s c = scan_plain s c
scan_in Mode.quoted s c =
    ([], record s { mode = if c == 39 then Mode.closing else Mode.quoted; previous = c })
scan_in Mode.closing s c =
    if c == 39 then ([], record s { mode = Mode.quoted; previous = c }) else scan_plain s c
scan_in Mode.number s c =
    if byte_is_digit c || c == b'.' then ([], record s { previous = c }) else scan_plain s c

unfoldable pub scan : Scanner → Text → Text
scan s [] = []
scan s (c ∷ sql) = let (written, s') = scan_in s.mode s c in written ++ scan s' sql

abbrev pub start : Scanner
start = record { mode = Mode.plain; previous = 0; pending = false; written = false }

unfoldable pub query_fingerprint : Text → Text
query_fingerprint sql = trim_space (trim_suffix (scan start sql) (b';' ∷ []))
