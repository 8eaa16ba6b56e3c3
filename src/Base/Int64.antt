-- ===== src/Base/Int64.antt =====
-- Go's int64 as a bit pattern below 2 ^ 64: a negative value is its two's complement.
use Prim.Native.Nat.{ℕ, ◌+◌, ◌%◌, ◌<◌, ◌*◌}
use mathlib.Core.Path.{◌≡◌}
use mathlib.Core.Bool.{Bool}
use native.Mathlib.Omega.{arith}
use hy_panel.Base.Tests.{ltb}

-- 2 ^ 63 and 2 ^ 64
abbrev pub sign_bit : ℕ
sign_bit = 9223372036854775808

abbrev pub word : ℕ
word = 18446744073709551616

-- a + b and a * b with Go's wrap-around
abbrev pub add_int64 : ℕ → ℕ → ℕ
add_int64 a b = (a + b) % word

abbrev pub mul_int64 : ℕ → ℕ → ℕ
mul_int64 a b = (a * b) % word

-- The value moved up by 2 ^ 63, which makes the signed order the unsigned one.
abbrev pub offset : ℕ → ℕ
offset a = (a + sign_bit) % word

-- a < b as signed integers
abbrev pub lt_int64 : ℕ → ℕ → Bool
lt_int64 a b = ltb (offset a) (offset b)

pub lt_int64_small : (a b : ℕ) → a < sign_bit → b < sign_bit → lt_int64 a b ≡ ltb a b
lt_int64_small a b ha hb = ground arith
