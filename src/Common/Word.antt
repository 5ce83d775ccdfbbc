-- ===== src/Common/Word.antt =====
-- `uint64_t` and `uint32_t` arithmetic: values are naturals, and an operation wraps round.
use Prim.Native.Nat.{ℕ, ◌+◌, ◌-◌, ◌*◌, ◌%◌, ◌^◌, ◌≤◌, ◌<◌}
use mathlib.Core.Path.{◌≡◌}
use native.Mathlib.Omega.{arith}

abbrev pub u64_mod : ℕ
u64_mod = 2 ^ 64

abbrev pub u32_mod : ℕ
u32_mod = 2 ^ 32

abbrev pub add64 : ℕ → ℕ → ℕ
add64 a b = (a + b) % u64_mod

abbrev pub sub64 : ℕ → ℕ → ℕ
sub64 a b = (a + u64_mod - b) % u64_mod

abbrev pub mul64 : ℕ → ℕ → ℕ
mul64 a b = (a * b) % u64_mod

abbrev pub add32 : ℕ → ℕ → ℕ
add32 a b = (a + b) % u32_mod

pub add64_fits : (a b : ℕ) → a + b < u64_mod → add64 a b ≡ a + b
add64_fits a b h = omega arith

pub sub64_fits : (a b : ℕ) → b ≤ a → a < u64_mod → sub64 a b ≡ a - b
sub64_fits a b h k = omega arith

pub sub64-add64 : (a b : ℕ) → a < u64_mod → b < u64_mod → sub64 (add64 a b) b ≡ a
sub64-add64 a b h k = omega arith
