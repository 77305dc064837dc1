-- ===== src/Prelude/Int64.antt =====
-- An `int64` as its bit pattern, a number below 2 ^ 64. A pattern below 2 ^ 63 stands for itself.
use Prim.Native.Nat.{ℕ, ◌+◌, ◌-◌, ◌%◌, ◌^◌, ◌≤◌, ◌<◌}
use mathlib.Core.Path.{◌≡◌}
use mathlib.Core.Bool.{Bool}
use native.Mathlib.Omega.{arith}
use webpprof.Prelude.Tests.{ltb}

abbrev pub int64_mod : ℕ
int64_mod = 2 ^ 64

abbrev pub int64_limit : ℕ
int64_limit = 2 ^ 63

abbrev pub add64 : ℕ → ℕ → ℕ
add64 a b = (a + b) % int64_mod

abbrev pub sub64 : ℕ → ℕ → ℕ
sub64 a b = (a + int64_mod - b % int64_mod) % int64_mod

-- `a < b` of the signed values: adding 2 ^ 63 puts the patterns into their order
abbrev pub lt64 : ℕ → ℕ → Bool
lt64 a b = ltb ((a + int64_limit) % int64_mod) ((b + int64_limit) % int64_mod)

pub lt64-ltb : (a b : ℕ) → a < int64_limit → b < int64_limit → lt64 a b ≡ ltb a b
lt64-ltb a b h k = ground arith

pub sub64-sub : (a b : ℕ) → b ≤ a → a < int64_limit → sub64 a b ≡ a - b
sub64-sub a b h k = omega arith

pub add64-add : (a b : ℕ) → a + b < int64_limit → add64 a b ≡ a + b
add64-add a b h = omega arith
