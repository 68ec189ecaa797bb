-- ===== src/Catalog/Execute.antt =====
-- The tools that run in the catalog itself (client/src-tauri/src/tool_catalog.rs). `none` is a panic.
use hydropark_gym.Prelude.{
  ◌++◌, Bool, true, false, Option, none, some, List, [], ◌∷◌, Result, ok, err, ok_or, map_err,
  ◌>>=◌, if◌then◌else◌, not,
}
use hydropark_gym.Prelude.Text.{Text, chars}
use hydropark_gym.Prelude.Int.{ℤ, pos, checked_add, checked_mul}
use hydropark_gym.Prelude.Float.{Float}
use hydropark_gym.Catalog.Names.{as_ref_str}
use hydropark_gym.Catalog.Types.{
  UnitDomain, mass, volume, temperature, UnitId, CalcOp, DateOp, DateDelta, DateMathArgs,
  ConvertUnitsArgs, CalculateArgs, TypedArgs, tool, ToolResult, ToolError, invalid_args,
  execution_failed, Chrono,
}

-- `PartialEq` of `UnitId`
abbrev pub same_unit : UnitId → UnitId → Bool
same_unit UnitId.g UnitId.g = true
same_unit UnitId.kg UnitId.kg = true
same_unit UnitId.oz UnitId.oz = true
same_unit UnitId.lb UnitId.lb = true
same_unit UnitId.ml UnitId.ml = true
same_unit UnitId.l UnitId.l = true
same_unit UnitId.tsp UnitId.tsp = true
same_unit UnitId.tbsp UnitId.tbsp = true
same_unit UnitId.fl_oz UnitId.fl_oz = true
same_unit UnitId.cup UnitId.cup = true
same_unit UnitId.c UnitId.c = true
same_unit UnitId.f UnitId.f = true
same_unit _ _ = false

-- `Option::and_then`
abbrev and_then : {A B : Type 0} → Option A → (A → Option B) → Option B
and_then none k = none
and_then (some a) k = k a

-- the delta in minutes, by the `i64` operations that fail instead of wrapping round
unfoldable pub total_minutes : DateDelta → Option ℤ
total_minutes delta =
    and_then
      (and_then (checked_mul delta.days (pos 1440))
        (λ d. and_then (checked_mul delta.hours (pos 60)) (λ h. checked_add d h)))
      (λ dh. checked_add dh delta.minutes)

module _ {D S : Type 0} (chrono : Chrono D S) where
  abbrev shift : DateOp → D → S → Option D
  shift DateOp.add base span = chrono.checked_add_signed base span
  shift DateOp.sub base span = chrono.checked_sub_signed base span

  unfoldable pub run_date_math : DateMathArgs → Result Text ToolError
  run_date_math a = do
    base ←
        map_err (λ e. invalid_args (chars "base") (chars "not an RFC 3339 date-time: " ++ e))
          (chrono.parse_from_rfc3339 a.base)
    minutes ← ok_or (total_minutes a.delta) (execution_failed (chars "delta is out of range"))
    span ← ok_or (chrono.try_minutes minutes) (execution_failed (chars "delta is out of range"))
    out ← ok_or (shift a.op base span) (execution_failed (chars "resulting date is out of range"))
    ok (chrono.to_rfc3339 out)

module _ {F : Type 0} ⦃float : Float F⦄ where
  unfoldable pub mass_to_grams : UnitId → Option F
  mass_to_grams UnitId.g = some (float.decimal 1 0)
  mass_to_grams UnitId.kg = some (float.decimal 1000 0)
  mass_to_grams UnitId.oz = some (float.decimal 28349523125 9)
  mass_to_grams UnitId.lb = some (float.decimal 45359237 5)
  mass_to_grams _ = none

  unfoldable pub volume_to_ml : UnitId → Option F
  volume_to_ml UnitId.ml = some (float.decimal 1 0)
  volume_to_ml UnitId.l = some (float.decimal 1000 0)
  volume_to_ml UnitId.tsp = some (float.decimal 492892159375 11)
  volume_to_ml UnitId.tbsp = some (float.decimal 1478676478125 11)
  volume_to_ml UnitId.fl_oz = some (float.decimal 295735295625 10)
  volume_to_ml UnitId.cup = some (float.decimal 2365882365 7)
  volume_to_ml _ = none

  unfoldable pub convert_temperature : F → UnitId → UnitId → Result F ToolError
  convert_temperature value UnitId.c UnitId.f = ok (
      float.add (float.div (float.mul value (float.decimal 9 0)) (float.decimal 5 0))
        (float.decimal 32 0))
  convert_temperature value UnitId.f UnitId.c = ok (
      float.div (float.mul (float.sub value (float.decimal 32 0)) (float.decimal 5 0))
        (float.decimal 9 0))
  convert_temperature value x y =
      if same_unit x y
      then ok value
      else err (execution_failed (chars "unsupported temperature units"))

  -- by the factors of two units to the base unit of their domain
  unfoldable pub by_factors : F → Option F → Option F → Text → Text → Result F ToolError
  by_factors value from_factor to_factor no_from no_to = do
    from ← ok_or from_factor (execution_failed no_from)
    to ← ok_or to_factor (execution_failed no_to)
    ok (float.div (float.mul value from) to)

  unfoldable pub converted_value : UnitDomain → F → UnitId → UnitId → Result F ToolError
  converted_value mass value x y =
      by_factors value (mass_to_grams x) (mass_to_grams y) (chars "from_unit is not a mass unit")
        (chars "to_unit is not a mass unit")
  converted_value volume value x y =
      by_factors value (volume_to_ml x) (volume_to_ml y) (chars "from_unit is not a volume unit")
        (chars "to_unit is not a volume unit")
  converted_value temperature value x y = convert_temperature value x y

  -- rounded to six decimals
  unfoldable pub rounded : F → F
  rounded value =
      float.div (float.round (float.mul value (float.decimal 1000000 0))) (float.decimal 1000000 0)

  unfoldable pub run_convert_units : ConvertUnitsArgs F → Result (ToolResult F) ToolError
  run_convert_units a = converted_value a.domain a.value a.from_unit a.to_unit >>= λ value.
      ok (ToolResult.convert_units (rounded value) a.to_unit)

  abbrev divided : F → F → Result F ToolError
  divided acc x =
      if float.eqb x (float.decimal 0 0)
      then err (execution_failed (chars "division by zero"))
      else ok (float.div acc x)

  unfoldable pub calc_step : CalcOp → F → F → Result F ToolError
  calc_step CalcOp.add acc x = ok (float.add acc x)
  calc_step CalcOp.sub acc x = ok (float.sub acc x)
  calc_step CalcOp.mul acc x = ok (float.mul acc x)
  calc_step CalcOp.div acc x = divided acc x

  -- the loop of `run_calculate`
  unfoldable pub fold_operands : CalcOp → F → List F → Result F ToolError
  fold_operands op acc [] = ok acc
  fold_operands op acc (x ∷ xs) = calc_step op acc x >>= λ acc'. fold_operands op acc' xs

  abbrev finite_result : F → Result (ToolResult F) ToolError
  finite_result acc =
      if not (float.is_finite acc)
      then err (
          execution_failed
            (chars "result is not a finite number (" ++ (float.display acc ++ chars ")")))
      else ok (ToolResult.calculate acc)

  -- `a.operands[0]` is out of range when there is no operand
  unfoldable pub run_calculate : CalculateArgs F → Option (Result (ToolResult F) ToolError)
  run_calculate a = elim a.operands [
    | [] ↦ none
    | x ∷ xs ↦ some (fold_operands a.op x xs >>= λ acc. finite_result acc)
  ]

module _ {F D S : Type 0} ⦃float : Float F⦄ (chrono : Chrono D S) where
  abbrev stateful_here : TypedArgs F → ToolError
  stateful_here a = execution_failed (
      chars "'"
      ++ (as_ref_str (tool a)
          ++ chars
              "' is a stateful tool; execute it through the Tool Runtime, not the pure catalog"))

  unfoldable pub execute : TypedArgs F → Option (Result (ToolResult F) ToolError)
  execute (TypedArgs.convert_units a) = some (run_convert_units a)
  execute (TypedArgs.calculate a) = run_calculate a
  execute (TypedArgs.date_math a) =
      some (run_date_math chrono a >>= λ t. ok (ToolResult.date_math t))
  execute (TypedArgs.start_timer a) = some (err (stateful_here (TypedArgs.start_timer a)))
  execute (TypedArgs.list_manage a) = some (err (stateful_here (TypedArgs.list_manage a)))
