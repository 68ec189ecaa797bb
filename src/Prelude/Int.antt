-- ===== src/Prelude/Int.antt =====
-- Signed integers over the native numbers, compared as Rust's `i64`.
use Prim.Native.Nat.{ℕ, ◌+◌, ◌-◌, ◌*◌, ◌%◌, ◌^◌, compare, Ordering}
use mathlib.Core.Path.{◌≡◌}
use mathlib.Core.Bool.{Bool, true, false}
use mathlib.Core.Option.{Option, none, some}
use native.Mathlib.Omega.{arith}
use hydropark_gym.Prelude.Tests.{ltb, if◌then◌else◌}
use hydropark_gym.Prelude.Order.{IsLinear}

-- `negsuc n` is -(n + 1).
pub data ℤ : Type 0 where
  pos : ℕ → ℤ
  negsuc : ℕ → ℤ

unfoldable pub int_cmp : ℤ → ℤ → Ordering
int_cmp (pos a) (pos b) = compare a b
int_cmp (pos a) (negsuc b) = Ordering.gt
int_cmp (negsuc a) (pos b) = Ordering.lt
int_cmp (negsuc a) (negsuc b) = compare b a

int_lt_trans :
    (a b c : ℤ) → int_cmp a b ≡ Ordering.lt → int_cmp b c ≡ Ordering.lt → int_cmp a c ≡ Ordering.lt
unfolding int_cmp
int_lt_trans a b c h k = ground arith

pub int_cmp-IsLinear : IsLinear int_cmp
unfolding int_cmp
int_cmp-IsLinear = record {
  cmp_self = λ a. ground arith;
  eq_of_cmp = λ a b h. ground arith;
  gt_of_lt = λ a b h. ground arith;
  lt_of_gt = λ a b h. ground arith;
  lt_trans = int_lt_trans;
}

-- `a - b`
abbrev diff : ℕ → ℕ → ℤ
diff a b = elim (compare a b) [ Ordering.lt ↦ negsuc (b - a - 1) | _ ↦ pos (a - b) ]

infixl 40 ◌+ℤ◌
unfoldable pub ◌+ℤ◌ : ℤ → ℤ → ℤ
pos a +ℤ pos b = pos (a + b)
pos a +ℤ negsuc b = diff a (b + 1)
negsuc a +ℤ pos b = diff b (a + 1)
negsuc a +ℤ negsuc b = negsuc (a + b + 1)

infixl 50 ◌*ℤ◌
unfoldable pub ◌*ℤ◌ : ℤ → ℤ → ℤ
pos a *ℤ pos b = pos (a * b)
pos a *ℤ negsuc b = diff 0 (a * (b + 1))
negsuc a *ℤ pos b = diff 0 ((a + 1) * b)
negsuc a *ℤ negsuc b = pos ((a + 1) * (b + 1))

-- an `i64`
abbrev pub fits_i64 : ℤ → Bool
fits_i64 (pos n) = ltb n (2 ^ 63)
fits_i64 (negsuc n) = ltb n (2 ^ 63)

-- `i64::checked_add`, `i64::checked_mul`
abbrev checked : ℤ → Option ℤ
checked z = elim (fits_i64 z) [ true ↦ some z | false ↦ none ]

abbrev pub checked_add : ℤ → ℤ → Option ℤ
checked_add a b = checked (a +ℤ b)

abbrev pub checked_mul : ℤ → ℤ → Option ℤ
checked_mul a b = checked (a *ℤ b)

-- the value of an integer as an `i32`, in two's complement
abbrev pub wrapping_i32 : ℤ → ℤ
wrapping_i32 (pos n) =
    let m = n % 2 ^ 32 in if ltb m (2 ^ 31) then pos m else negsuc (2 ^ 32 - 1 - m)
wrapping_i32 (negsuc n) =
    let m = n % 2 ^ 32 in if ltb m (2 ^ 31) then negsuc m else pos (2 ^ 32 - 1 - m)
