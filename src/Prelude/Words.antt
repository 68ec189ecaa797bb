-- ===== src/Prelude/Words.antt =====
-- Unsigned machine words: the bounds, and the saturating operations of `u32`.
use Prim.Native.Nat.{ℕ, ◌+◌, ◌*◌, ◌-◌, ◌^◌, min}

abbrev pub u32_max : ℕ
u32_max = 2 ^ 32 - 1

-- `u32::saturating_add`, `u32::saturating_mul`
abbrev pub sat_add : ℕ → ℕ → ℕ
sat_add a b = min (a + b) u32_max

abbrev pub sat_mul : ℕ → ℕ → ℕ
sat_mul a b = min (a * b) u32_max
