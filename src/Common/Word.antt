-- ===== src/Common/Word.antt =====
-- `uint32_t` arithmetic: every result is reduced modulo 2 ^ 32.
use Prim.Native.Nat.{ℕ, ◌+◌, ◌-◌, ◌*◌, ◌%◌, ◌^◌, ◌<◌}
use mathlib.Core.Path.{◌≡◌}
use native.Mathlib.Omega.{arith}

abbrev pub u32_mod : ℕ
u32_mod = 2 ^ 32

abbrev pub u64_mod : ℕ
u64_mod = 2 ^ 64

abbrev pub add_u32 : ℕ → ℕ → ℕ
add_u32 a b = (a + b) % u32_mod

abbrev pub sub_u32 : ℕ → ℕ → ℕ
sub_u32 a b = (a + u32_mod - b) % u32_mod

abbrev pub mul_u32 : ℕ → ℕ → ℕ
mul_u32 a b = (a * b) % u32_mod

abbrev pub add_u64 : ℕ → ℕ → ℕ
add_u64 a b = (a + b) % u64_mod

pub add_u32-small : (a b : ℕ) → a + b < u32_mod → add_u32 a b ≡ a + b
add_u32-small a b h = omega arith
