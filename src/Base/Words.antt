-- ===== src/Base/Words.antt =====
-- Two's complement words as bit patterns: the arithmetic of Go's `int64`, `int32` and `uint32`.
use Prim.Native.Nat.{ℕ, ◌+◌, ◌-◌, ◌%◌, ◌^◌}
use mathlib.Core.Bool.{Bool, ◌&&◌}
use cache_server_go.Base.Tests.{ltb}

-- `a + b` and `a - b` on 64 bits.
abbrev pub add64 : ℕ → ℕ → ℕ
add64 a b = (a + b) % 2 ^ 64

abbrev pub sub64 : ℕ → ℕ → ℕ
sub64 a b = (a + 2 ^ 64 - b) % 2 ^ 64

abbrev pub add32 : ℕ → ℕ → ℕ
add32 a b = (a + b) % 2 ^ 32

-- `0 < a`, read as a signed 64-bit number.
abbrev pub is_positive64 : ℕ → Bool
is_positive64 a = ltb 0 a && ltb a (2 ^ 63)
