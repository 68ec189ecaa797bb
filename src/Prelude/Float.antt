-- ===== src/Prelude/Float.antt =====
-- What the program uses of `f64`: the type is a parameter `F`, its operations are an instance.
use mathlib.Core.Bool.{Bool}
use Prim.Native.Nat.{ℕ}
use hydropark_gym.Prelude.Text.{Text}

pub record Float (F : Type 0) : Type 0 where
  pub from_u32 : ℕ → F
  pub add : F → F → F
  pub sub : F → F → F
  pub mul : F → F → F
  pub div : F → F → F
  pub round : F → F
  pub lt : F → F → Bool
  pub ge : F → F → Bool
  pub eqb : F → F → Bool
  pub is_finite : F → Bool
  -- the literal `m / 10 ^ k`
  pub decimal : ℕ → ℕ → F
  -- `{:.k}`
  pub show : ℕ → F → Text
  -- `{}`
  pub display : F → Text
