-- ===== src/Catalog/Getters.antt =====
-- Units, and the getters of arguments (client/src-tauri/src/tool_catalog.rs).
use hydropark_gym.Prelude.{
  ℕ, ◌++◌, Bool, true, false, not, Option, none, some, Result, ok, err, ok_or, map_err, ◌>>=◌,
  if◌then◌else◌, ltb,
}
use hydropark_gym.Prelude.Text.{Text, chars}
use hydropark_gym.Prelude.TreeMap.{BTreeMap, get}
use hydropark_gym.Prelude.Int.{ℤ, pos}
use hydropark_gym.Prelude.Words.{u32_max}
use hydropark_gym.Prelude.Json.{Json}
use hydropark_gym.Catalog.Types.{
  UnitDomain, mass, volume, temperature, UnitId, IngredientItemPatch, ToolError, invalid_args,
}

unfoldable pub domain_of : UnitId → UnitDomain
domain_of UnitId.g = mass
domain_of UnitId.kg = mass
domain_of UnitId.oz = mass
domain_of UnitId.lb = mass
domain_of UnitId.c = temperature
domain_of UnitId.f = temperature
domain_of _ = volume

abbrev pub same_domain : UnitDomain → UnitDomain → Bool
same_domain mass mass = true
same_domain volume volume = true
same_domain temperature temperature = true
same_domain _ _ = false

-- `{:?}` of a domain and of a unit
abbrev pub domain_debug : UnitDomain → Text
domain_debug mass = chars "Mass"
domain_debug volume = chars "Volume"
domain_debug temperature = chars "Temperature"

abbrev pub unit_debug : UnitId → Text
unit_debug UnitId.g = chars "G"
unit_debug UnitId.kg = chars "Kg"
unit_debug UnitId.oz = chars "Oz"
unit_debug UnitId.lb = chars "Lb"
unit_debug UnitId.ml = chars "Ml"
unit_debug UnitId.l = chars "L"
unit_debug UnitId.tsp = chars "Tsp"
unit_debug UnitId.tbsp = chars "Tbsp"
unit_debug UnitId.fl_oz = chars "FlOz"
unit_debug UnitId.cup = chars "Cup"
unit_debug UnitId.c = chars "C"
unit_debug UnitId.f = chars "F"

abbrev pub invalid_value : Text → Text → ToolError
invalid_value field e = invalid_args field (chars "invalid value: " ++ e)

abbrev pub foreign_unit : UnitId → UnitDomain → Text
foreign_unit u d = unit_debug u ++ (chars " does not belong to domain " ++ domain_debug d)

-- `Option::filter`
abbrev pub filter_option : {A : Type 0} → (A → Bool) → Option A → Option A
filter_option p none = none
filter_option p (some a) = if p a then some a else none

-- the value, if it passes a test
abbrev pub ensure : {A : Type 0} → Bool → A → ToolError → Result A ToolError
ensure ok? a e = if ok? then ok a else err e

-- the value, if there is no error
abbrev pub reject_if : {A : Type 0} → Option ToolError → A → Result A ToolError
reject_if (some e) a = err e
reject_if none a = ok a

abbrev pub has_name : {F : Type 0} → Option (IngredientItemPatch F) → Bool
has_name none = false
has_name (some i) = elim i.name [ none ↦ false | some _ ↦ true ]

abbrev pub has_id : {F : Type 0} → Option (IngredientItemPatch F) → Bool
has_id none = false
has_id (some i) = elim i.id [ none ↦ false | some _ ↦ true ]

abbrev pub is_some : {A : Type 0} → Option A → Bool
is_some none = false
is_some (some _) = true

module _ {V : Type 0} where
  unfoldable pub require : BTreeMap V → Text → Result V ToolError
  require obj field = ok_or (get field obj) (invalid_args field (chars "required field is missing"))

  unfoldable pub req_enum :
      {T : Type 0} → (V → Result T Text) → BTreeMap V → Text → Result T ToolError
  req_enum from_value obj field = do
    v ← require obj field
    map_err (invalid_value field) (from_value v)

module _ {V : Type 0} ⦃json : Json V⦄ where
  unfoldable pub as_object : V → Text → Result (BTreeMap V) ToolError
  as_object raw field =
      ok_or (json.as_object raw) (invalid_args field (chars "expected a JSON object"))

  unfoldable pub req_string : BTreeMap V → Text → Result Text ToolError
  req_string obj field = do
    v ← require obj field
    ok_or (json.as_str v) (invalid_args field (chars "expected a string"))

  unfoldable pub req_u32 : BTreeMap V → Text → Result ℕ ToolError
  req_u32 obj field = do
    v ← require obj field
    n ← ok_or (json.as_u64 v) (invalid_args field (chars "expected a non-negative integer"))
    ensure (not (ltb u32_max n)) n (invalid_args field (chars "value exceeds the u32 range"))

  unfoldable pub opt_i64 : BTreeMap V → Text → Result ℤ ToolError
  opt_i64 obj field = elim (get field obj) [
    | none ↦ ok (pos 0)
    | some v ↦
        if json.is_null v
        then ok (pos 0)
        else ok_or (json.as_i64 v) (invalid_args field (chars "expected an integer"))
  ]

  unfoldable pub opt_typed :
      {T : Type 0} → (V → Result T Text) → BTreeMap V → Text → Result (Option T) ToolError
  opt_typed from_value obj field = elim (get field obj) [
    | none ↦ ok none
    | some v ↦
        if json.is_null v
        then ok none
        else elim (from_value v) [ ok t ↦ ok (some t) | err e ↦ err (invalid_value field e) ]
  ]
