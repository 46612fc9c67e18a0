-- ===== src/Prelude/Words.antt =====
-- Machine words of the C++ code: `unsigned int` is a number below 2 ^ 32 that wraps, and
-- `unsigned char` one below 2 ^ 8.
use Prim.Native.Nat.{ℕ, ◌+◌, ◌-◌, ◌%◌, ◌<◌}
use mathlib.Core.Path.{◌≡◌}
use native.Mathlib.Omega.{arith}

abbrev pub u32_mod : ℕ
u32_mod = 4294967296

abbrev pub u32 : ℕ → ℕ
u32 n = n % 4294967296

abbrev pub u8 : ℕ → ℕ
u8 n = n % 256

-- Unsigned subtraction.
abbrev pub sub_u32 : ℕ → ℕ → ℕ
sub_u32 a b = (a + 4294967296 - b) % 4294967296

pub u32-eq_of_lt : (n : ℕ) → n < u32_mod → u32 n ≡ n
u32-eq_of_lt n h = omega arith
