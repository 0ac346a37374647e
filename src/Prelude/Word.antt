-- ===== src/Prelude/Word.antt =====
-- Unsigned machine words as native numbers: every result is reduced modulo the width.
use Prim.Native.Nat.{ℕ, ◌+◌, ◌-◌, ◌%◌, ◌^◌, ◌≤◌, ◌<◌}
use mathlib.Core.Path.{◌≡◌}
use native.Mathlib.Omega.{arith}

abbrev pub u16_mod : ℕ
u16_mod = 2 ^ 16

abbrev pub u32_mod : ℕ
u32_mod = 2 ^ 32

-- uint32_t a + b and a - b.
unfoldable pub add32 : ℕ → ℕ → ℕ
add32 a b = (a + b) % u32_mod

unfoldable pub sub32 : ℕ → ℕ → ℕ
sub32 a b = (a + u32_mod - b) % u32_mod

-- A conversion to uint16_t.
unfoldable pub to_u16 : ℕ → ℕ
to_u16 a = a % u16_mod

pub add32_exact : (a b : ℕ) → a + b < u32_mod → add32 a b ≡ a + b
unfolding add32
add32_exact a b h = omega arith

pub sub32_exact : (a b : ℕ) → b ≤ a → a < u32_mod → sub32 a b ≡ a - b
unfolding sub32
sub32_exact a b h k = omega arith

pub to_u16_exact : (a : ℕ) → a < u16_mod → to_u16 a ≡ a
unfolding to_u16
to_u16_exact a h = omega arith
