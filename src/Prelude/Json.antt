-- ===== src/Prelude/Json.antt =====
-- What the program uses of `serde_json::Value`, a third-party type: the type is a parameter `V`, and
-- its operations are an instance. `object m` is the value whose map is `m`.
use mathlib.Core.Bool.{Bool}
use mathlib.Core.Option.{Option}
use mathlib.Core.List.{List}
use Prim.Native.Nat.{ℕ}
use hydropark_gym.Prelude.Int.{ℤ}
use hydropark_gym.Prelude.Text.{Text}
use hydropark_gym.Prelude.TreeMap.{BTreeMap}

pub record Json (V : Type 0) : Type 0 where
  pub null : V
  pub string : Text → V
  pub object : BTreeMap V → V
  pub is_null : V → Bool
  pub as_str : V → Option Text
  pub as_bool : V → Option Bool
  pub as_u64 : V → Option ℕ
  pub as_i64 : V → Option ℤ
  pub as_array : V → Option (List V)
  pub as_object : V → Option (BTreeMap V)
  pub eqb : V → V → Bool
  pub to_text : V → Text
