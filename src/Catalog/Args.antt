-- ===== src/Catalog/Args.antt =====
-- The typed arguments of a call (client/src-tauri/src/tool_catalog.rs).
use hydropark_gym.Prelude.{
  ℕ, ◌+◌, ◌++◌, not, Option, none, some, List, [], ◌∷◌, Result, ok, err, ok_or, map_err, ◌>>=◌,
  if◌then◌else◌, length, ltb, nat_eqb,
}
use hydropark_gym.Prelude.Text.{Text, chars, trim, is_empty}
use hydropark_gym.Prelude.TreeMap.{BTreeMap}
use hydropark_gym.Prelude.Decimal.{decimal}
use hydropark_gym.Prelude.Json.{Json}
use hydropark_gym.Prelude.Float.{Float}
use hydropark_gym.Catalog.Names.{
  ToolName, start_timer, convert_units, list_manage, calculate, date_math, from_ref,
}
use hydropark_gym.Catalog.Types.{
  ListOp, StartTimerArgs, DateMathArgs, ConvertUnitsArgs, IngredientItemPatch, ListManageArgs,
  CalculateArgs, TypedArgs, ToolError, unknown_tool, invalid_args, Serde, Chrono,
}
use hydropark_gym.Catalog.Getters.{
  domain_of, same_domain, foreign_unit, filter_option, reject_if, has_name, has_id, is_some,
  require, req_enum, as_object, req_string, req_u32, opt_i64, opt_typed,
}

module _ {V : Type 0} ⦃json : Json V⦄ where
  unfoldable pub parse_start_timer : V → Result StartTimerArgs ToolError
  parse_start_timer raw = do
    obj ← as_object raw (chars "arguments")
    label ← req_string obj (chars "label")
    duration_sec ← req_u32 obj (chars "duration_sec")
    if is_empty (trim label)
        then err (invalid_args (chars "label") (chars "must not be empty"))
        else if nat_eqb duration_sec 0
        then err
            (invalid_args (chars "duration_sec") (chars "must be a positive number of seconds"))
        else ok (record { label = label; duration_sec = duration_sec })

module _ {F : Type 0} where
  -- what an operation on the list needs, or the error that names it
  abbrev pub missing_item :
      ListOp
      → Option (IngredientItemPatch F)
      → Option (List (IngredientItemPatch F))
      → Option ToolError
  missing_item ListOp.add item items =
      if has_name item
      then none
      else some (invalid_args (chars "item.name") (chars "required to add an item"))
  missing_item ListOp.set_all item items =
      if is_some items
      then none
      else some (invalid_args (chars "items") (chars "required for set_all"))
  missing_item _ item items =
      if has_id item
      then none
      else some (invalid_args (chars "item.id") (chars "required to reference an existing item"))

module _ {V F : Type 0} ⦃json : Json V⦄ ⦃float : Float F⦄ (serde : Serde V F) where
  unfoldable pub finite : V → Option F
  finite v = filter_option float.is_finite (serde.as_f64 v)

  unfoldable pub req_f64 : BTreeMap V → Text → Result F ToolError
  req_f64 obj field = do
    v ← require obj field
    ok_or (finite v) (invalid_args field (chars "expected a finite number"))

  -- the loop of `req_operands` from element `i` on
  unfoldable pub operands_from : Text → ℕ → List V → Result (List F) ToolError
  operands_from field i [] = ok []
  operands_from field i (e ∷ arr) =
      ok_or (finite e) (
        invalid_args (field ++ (chars "[" ++ (decimal i ++ chars "]")))
          (chars "expected a finite number"))
      >>= λ n. operands_from field (i + 1) arr >>= λ out. ok (n ∷ out)

  unfoldable pub req_operands : BTreeMap V → Text → Result (List F) ToolError
  req_operands obj field = do
    v ← require obj field
    arr ← ok_or (json.as_array v) (invalid_args field (chars "expected an array of numbers"))
    operands_from field 0 arr

  unfoldable pub parse_convert_units : V → Result (ConvertUnitsArgs F) ToolError
  parse_convert_units raw = do
    obj ← as_object raw (chars "arguments")
    domain ← req_enum serde.unit_domain obj (chars "domain")
    value ← req_f64 obj (chars "value")
    from_unit ← req_enum serde.unit_id obj (chars "from_unit")
    to_unit ← req_enum serde.unit_id obj (chars "to_unit")
    if not (same_domain (domain_of from_unit) domain)
        then err (invalid_args (chars "from_unit") (foreign_unit from_unit domain))
        else if not (same_domain (domain_of to_unit) domain)
        then err (invalid_args (chars "to_unit") (foreign_unit to_unit domain))
        else ok
            (record { domain = domain; value = value; from_unit = from_unit; to_unit = to_unit })

  unfoldable pub parse_list_manage : V → Result (ListManageArgs F) ToolError
  parse_list_manage raw = do
    obj ← as_object raw (chars "arguments")
    op ← req_enum serde.list_op obj (chars "op")
    item ← opt_typed serde.item_patch obj (chars "item")
    items ← opt_typed serde.item_patches obj (chars "items")
    reject_if (missing_item op item items) (record { op = op; item = item; items = items })

  unfoldable pub parse_calculate : V → Result (CalculateArgs F) ToolError
  parse_calculate raw = do
    obj ← as_object raw (chars "arguments")
    op ← req_enum serde.calc_op obj (chars "op")
    operands ← req_operands obj (chars "operands")
    if ltb (length operands) 2
        then err (invalid_args (chars "operands") (chars "expected at least two operands"))
        else ok (record { op = op; operands = operands })

-- `resolve`, and with it `FromStr`
unfoldable pub resolve : Text → Result ToolName ToolError
resolve s = ok_or (from_ref s) (unknown_tool s)

module _ {V F D S : Type 0} ⦃json : Json V⦄ ⦃float : Float F⦄ (serde : Serde V F)
    (chrono : Chrono D S) where
  unfoldable pub parse_date_math : V → Result DateMathArgs ToolError
  parse_date_math raw = do
    obj ← as_object raw (chars "arguments")
    base ← req_string obj (chars "base")
    _ ←
        map_err
          (λ _.
            invalid_args (chars "base")
              (chars "expected an RFC 3339 date-time (e.g. 2026-07-11T09:00:00Z)"))
          (chrono.parse_from_rfc3339 base)
    op ← req_enum serde.date_op obj (chars "op")
    delta ← require obj (chars "delta")
    delta_obj ← as_object delta (chars "delta")
    days ← opt_i64 delta_obj (chars "days")
    hours ← opt_i64 delta_obj (chars "hours")
    minutes ← opt_i64 delta_obj (chars "minutes")
    ok (record {
      base = base;
      op = op;
      delta = record { days = days; hours = hours; minutes = minutes };
    })

  unfoldable pub parse_args : ToolName → V → Result (TypedArgs F) ToolError
  parse_args start_timer raw = parse_start_timer raw >>= λ a. ok (TypedArgs.start_timer a)
  parse_args convert_units raw =
      parse_convert_units serde raw >>= λ a. ok (TypedArgs.convert_units a)
  parse_args list_manage raw = parse_list_manage serde raw >>= λ a. ok (TypedArgs.list_manage a)
  parse_args calculate raw = parse_calculate serde raw >>= λ a. ok (TypedArgs.calculate a)
  parse_args date_math raw = parse_date_math raw >>= λ a. ok (TypedArgs.date_math a)

  unfoldable pub validate_and_parse : Text → V → Result (TypedArgs F) ToolError
  validate_and_parse tool_ref raw = resolve tool_ref >>= λ name. parse_args name raw
