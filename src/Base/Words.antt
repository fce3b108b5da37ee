-- ===== src/Base/Words.antt =====
-- The C `int`: a value is its 32-bit pattern, a natural number below 2 ^ 32; from 2 ^ 31 on it
-- stands for a negative number. Arithmetic wraps, as the compiled code's does.
use Prim.Native.Nat.{ℕ, ◌+◌, ◌-◌, ◌*◌, ◌%◌, ◌^◌}
use mathlib.Core.Bool.{Bool}
use systemish.Base.Tests.{ltb, leb, if◌then◌else◌}

abbrev pub wrap : ℕ → ℕ
wrap n = n % 2 ^ 32

-- `a + b`, `a - b` and `a * b` of two `int`
abbrev pub add32 : ℕ → ℕ → ℕ
add32 a b = (a + b) % 2 ^ 32

abbrev pub sub32 : ℕ → ℕ → ℕ
sub32 a b = (a + 2 ^ 32 - b) % 2 ^ 32

abbrev pub mul32 : ℕ → ℕ → ℕ
mul32 a b = (a * b) % 2 ^ 32

-- the pattern of -1
abbrev pub minus_one : ℕ
minus_one = 2 ^ 32 - 1

abbrev pub is_negative : ℕ → Bool
is_negative a = leb (2 ^ 31) a

-- `a % k` for a positive constant `k`: the quotient is rounded to zero, so the result has the
-- sign of `a`.
abbrev pub srem : ℕ → ℕ → ℕ
srem a k = if is_negative a then (2 ^ 32 - (2 ^ 32 - a) % k) % 2 ^ 32 else a % k

-- `a < b` of two `int`
abbrev pub slt : ℕ → ℕ → Bool
slt a b = ltb ((a + 2 ^ 31) % 2 ^ 32) ((b + 2 ^ 31) % 2 ^ 32)

-- an `int` as a `long long`
abbrev pub extend : ℕ → ℕ
extend x = if is_negative x then x + 2 ^ 64 - 2 ^ 32 else x
