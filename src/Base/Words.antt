-- ===== src/Base/Words.antt =====
-- Unsigned 64-bit and 32-bit arithmetic: every sum and difference wraps.
use Prim.Native.Nat.{ℕ, ◌+◌, ◌-◌, ◌%◌, ◌^◌, ◌≤◌, ◌<◌}
use mathlib.Core.Path.{◌≡◌}
use native.Mathlib.Omega.{arith}

abbrev pub u16_mod : ℕ
u16_mod = 2 ^ 16

abbrev pub u32_mod : ℕ
u32_mod = 2 ^ 32

abbrev pub u64_mod : ℕ
u64_mod = 2 ^ 64

abbrev pub add32 : ℕ → ℕ → ℕ
add32 a b = (a + b) % u32_mod

abbrev pub sub32 : ℕ → ℕ → ℕ
sub32 a b = (a + u32_mod - b) % u32_mod

unfoldable pub add64 : ℕ → ℕ → ℕ
add64 a b = (a + b) % u64_mod

unfoldable pub sub64 : ℕ → ℕ → ℕ
sub64 a b = (a + u64_mod - b) % u64_mod

pub add64_lem : (a b : ℕ) → add64 a b ≡ (a + b) % u64_mod
unfolding add64
add64_lem a b = omega arith

pub sub64_lem : (a b : ℕ) → sub64 a b ≡ (a + u64_mod - b) % u64_mod
unfolding sub64
sub64_lem a b = omega arith

-- No wrap below the modulus.
pub add64_small : (a b : ℕ) → a + b < u64_mod → add64 a b ≡ a + b
unfolding add64
add64_small a b h = omega arith

pub sub64_small : (a b : ℕ) → b ≤ a → a < u64_mod → sub64 a b ≡ a - b
unfolding sub64
sub64_small a b h k = omega arith

pub ruleset words = (arith, add64_lem, sub64_lem)
