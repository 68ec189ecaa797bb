-- ===== src/Catalog/Total.antt =====
-- A call that was let through runs (client/src-tauri/src/tool_catalog.rs).
use hydropark_gym.Prelude.{◌≡◌, ◌≢◌, refl, ◌≤◌, none, some, List, [], ◌∷◌, ok, length, arith}
use hydropark_gym.Prelude.Text.{Text}
use hydropark_gym.Prelude.Json.{Json}
use hydropark_gym.Prelude.Float.{Float}
use hydropark_gym.Catalog.Types.{
  UnitDomain, mass, volume, temperature, UnitId, ConvertUnitsArgs, TypedArgs, Serde, Chrono,
  ToolResult,
}
use hydropark_gym.Catalog.Getters.{domain_of}
use hydropark_gym.Catalog.Args.{validate_and_parse}
use hydropark_gym.Catalog.Execute.{
  mass_to_grams, volume_to_ml, convert_temperature, by_factors, converted_value, rounded,
  run_convert_units, run_calculate, execute,
}
use hydropark_gym.Catalog.Sound.{validate_and_parse_sound}

module _ {F : Type 0} ⦃float : Float F⦄ where
  mass_to_grams-some : (u : UnitId) → domain_of u ≡ mass → (x : F) × (mass_to_grams u ≡ some x)
  unfolding mass_to_grams domain_of
  mass_to_grams-some UnitId.g h = (_, refl)
  mass_to_grams-some UnitId.kg h = (_, refl)
  mass_to_grams-some UnitId.oz h = (_, refl)
  mass_to_grams-some UnitId.lb h = (_, refl)
  mass_to_grams-some _ h = absurd (ground arith)

  volume_to_ml-some : (u : UnitId) → domain_of u ≡ volume → (x : F) × (volume_to_ml u ≡ some x)
  unfolding volume_to_ml domain_of
  volume_to_ml-some UnitId.ml h = (_, refl)
  volume_to_ml-some UnitId.l h = (_, refl)
  volume_to_ml-some UnitId.tsp h = (_, refl)
  volume_to_ml-some UnitId.tbsp h = (_, refl)
  volume_to_ml-some UnitId.fl_oz h = (_, refl)
  volume_to_ml-some UnitId.cup h = (_, refl)
  volume_to_ml-some _ h = absurd (ground arith)

  temperature-ok :
      (v : F) (x y : UnitId)
      → domain_of x ≡ temperature
      → domain_of y ≡ temperature
      → (z : F) × (convert_temperature v x y ≡ ok z)
  unfolding convert_temperature domain_of
  temperature-ok v UnitId.c UnitId.c h k = (_, refl)
  temperature-ok v UnitId.c UnitId.f h k = (_, refl)
  temperature-ok v UnitId.f UnitId.c h k = (_, refl)
  temperature-ok v UnitId.f UnitId.f h k = (_, refl)
  temperature-ok v UnitId.c _ h k = absurd (ground arith)
  temperature-ok v UnitId.f _ h k = absurd (ground arith)
  temperature-ok v _ y h k = absurd (ground arith)

  converted_value-ok :
      (d : UnitDomain) (v : F) (x y : UnitId)
      → domain_of x ≡ d
      → domain_of y ≡ d
      → (z : F) × (converted_value d v x y ≡ ok z)
  unfolding converted_value by_factors
  converted_value-ok mass v x y h k =
      let (a, p) = mass_to_grams-some x h in
      let (b, q) = mass_to_grams-some y k in rw p (rw q (_, refl))
  converted_value-ok volume v x y h k =
      let (a, p) = volume_to_ml-some x h in
      let (b, q) = volume_to_ml-some y k in rw p (rw q (_, refl))
  converted_value-ok temperature v x y h k = temperature-ok v x y h k

module _ {V F D S : Type 0} ⦃json : Json V⦄ ⦃float : Float F⦄ (serde : Serde V F)
    (chrono : Chrono D S) where
  -- A unit conversion that validation lets through never fails: it runs to a value in the unit
  -- asked for.
  pub convert_total :
      (tool_ref : Text) (raw : V) (a : ConvertUnitsArgs F)
      → validate_and_parse serde chrono tool_ref raw ≡ ok (TypedArgs.convert_units a)
      → (x : F) × (execute chrono (TypedArgs.convert_units a)
          ≡ some (ok (ToolResult.convert_units x a.to_unit)))
  unfolding execute run_convert_units
  convert_total tool_ref raw a h =
      let (_, (_, from, to)) =
        validate_and_parse_sound serde chrono tool_ref raw (TypedArgs.convert_units a) h in
      let (z, p) = converted_value-ok a.domain a.value a.from_unit a.to_unit from to in
      (rounded z, ground (arith, p))

  -- No call that validation lets through makes `execute` panic: it returns a result or an error.
  pub execute_total :
      (tool_ref : Text) (raw : V) (a : TypedArgs F)
      → validate_and_parse serde chrono tool_ref raw ≡ ok a
      → execute chrono a ≢ none
  unfolding execute run_calculate
  execute_total tool_ref raw (TypedArgs.calculate a) h e =
      let (_, (two, _)) =
        validate_and_parse_sound serde chrono tool_ref raw (TypedArgs.calculate a) h in
      at_operands a.operands refl two
    where
      at_operands : (xs : List F) → a.operands ≡ xs → 2 ≤ length xs → ⊥
      at_operands [] p q = omega arith
      at_operands (x ∷ xs) p q = ground (arith, p)
  execute_total tool_ref raw _ h e = ground arith
