-- ===== src/Base/Words.antt =====
-- Go's 64-bit `int` where the code computes: the bit pattern, a number below 2 ^ 64.
use Prim.Native.Nat.{ℕ, ◌+◌, ◌-◌, ◌*◌, ◌%◌, ◌^◌}
use mathlib.Core.Bool.{Bool, ◌&&◌}
use agentgate.Base.Tests.{ltb}

abbrev pub word : ℕ
word = 2 ^ 64

-- The sign bit.
abbrev pub sign : ℕ
sign = 2 ^ 63

abbrev pub add64 : ℕ → ℕ → ℕ
add64 a b = (a + b) % word

abbrev pub sub64 : ℕ → ℕ → ℕ
sub64 a b = (a + word - b % word) % word

abbrev pub mul64 : ℕ → ℕ → ℕ
mul64 a b = (a * b) % word

-- `0 < a`
abbrev pub is_positive : ℕ → Bool
is_positive a = ltb 0 a && ltb a sign

-- `a > k` for a bound k that is not negative.
abbrev pub exceeds : ℕ → ℕ → Bool
exceeds a k = ltb k a && ltb a sign
