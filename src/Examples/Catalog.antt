-- ===== src/Examples/Catalog.antt =====
-- Calls of the catalog (client/src-tauri/src/tool_catalog.rs).
use hydropark_gym.Prelude.{
  ℕ, ◌≡◌, ◌≢◌, ◌↔◌, ◌⊎◌, ◌≤◌, refl, true, none, some, [], ◌∷◌, ok, err, All, length,
}
use hydropark_gym.Prelude.Text.{Text, chars, text_eqb}
use hydropark_gym.Prelude.TreeMap.{get}
use hydropark_gym.Samples.Doc.{Doc, num, str, obj, arr, item, nil, field, end, doc_json}
use hydropark_gym.Samples.Nats.{nat_float}
use hydropark_gym.Samples.Worlds.{doc_serde, minutes_clock}
use hydropark_gym.Catalog.Names.{calculate, from_ref, as_ref_str, from_ref-as_ref_str}
use hydropark_gym.Catalog.Types.{
  mass, UnitId, CalcOp, ConvertUnitsArgs, CalculateArgs, unknown_tool, invalid_args, TypedArgs,
  ToolResult,
}
use hydropark_gym.Catalog.Getters.{as_object, require, req_enum, domain_of}
use hydropark_gym.Catalog.Args.{
  req_f64, finite, operands_from, req_operands, parse_convert_units, parse_calculate, parse_args,
  resolve, validate_and_parse,
}
use hydropark_gym.Catalog.Execute.{execute}
use hydropark_gym.Catalog.Sound.{validate_and_parse_sound}
use hydropark_gym.Catalog.Total.{convert_total, execute_total}
use hydropark_gym.Catalog.Errors.{validate_and_parse_err}

from_ref-as_ref_str_example :
    (from_ref (chars "date_math") ≡ some calculate) ↔ (as_ref_str calculate ≡ chars "date_math")
from_ref-as_ref_str_example = from_ref-as_ref_str (chars "date_math") calculate

abbrev sum : Doc
sum = obj (
    field (chars "op") (str (chars "add"))
      (field (chars "operands") (arr (item (num 2) (item (num 3) nil))) end))

abbrev sum_args : CalculateArgs ℕ
sum_args = record { op = CalcOp.add; operands = 2 ∷ 3 ∷ [] }

sum_parses :
    validate_and_parse doc_serde minutes_clock (chars "calculate") sum
    ≡ ok (TypedArgs.calculate sum_args)
unfolding validate_and_parse resolve parse_args parse_calculate req_enum req_operands operands_from
    finite require as_object from_ref text_eqb get doc_serde doc_json nat_float
sum_parses = refl

validate_and_parse_sound_example :
    (from_ref (chars "calculate") ≡ some calculate)
    × ((2 ≤ length sum_args.operands) × All (λ x. nat_float.is_finite x ≡ true) sum_args.operands)
validate_and_parse_sound_example =
    validate_and_parse_sound doc_serde minutes_clock (chars "calculate") sum
      (TypedArgs.calculate sum_args) sum_parses

execute_total_example : execute minutes_clock (TypedArgs.calculate sum_args) ≢ none
execute_total_example =
    execute_total doc_serde minutes_clock (chars "calculate") sum (TypedArgs.calculate sum_args)
      sum_parses

abbrev weight : Doc
weight = obj (
    field (chars "domain") (str (chars "mass")) (
      field (chars "from_unit") (str (chars "kg"))
        (field (chars "to_unit") (str (chars "g")) (field (chars "value") (num 3) end))))

abbrev weight_args : ConvertUnitsArgs ℕ
weight_args = record { domain = mass; value = 3; from_unit = UnitId.kg; to_unit = UnitId.g }

weight_parses :
    validate_and_parse doc_serde minutes_clock (chars "convert_units") weight
    ≡ ok (TypedArgs.convert_units weight_args)
unfolding validate_and_parse resolve parse_args parse_convert_units domain_of req_enum req_f64
    finite require as_object from_ref text_eqb get doc_serde doc_json nat_float
weight_parses = refl

convert_total_example :
    (x : ℕ) × (execute minutes_clock (TypedArgs.convert_units weight_args)
      ≡ some (ok (ToolResult.convert_units x UnitId.g)))
convert_total_example =
    convert_total doc_serde minutes_clock (chars "convert_units") weight weight_args weight_parses

unknown_refused :
    validate_and_parse doc_serde minutes_clock (chars "launch") sum
    ≡ err (unknown_tool (chars "launch"))
unfolding validate_and_parse resolve from_ref text_eqb
unknown_refused = refl

validate_and_parse_err_example :
    ((from_ref (chars "launch") ≡ none)
      × (unknown_tool (chars "launch") ≡ unknown_tool (chars "launch")))
    ⊎ ((from_ref (chars "launch") ≢ none)
        × ((field : Text) × (reason : Text) × (unknown_tool (chars "launch")
              ≡ invalid_args field reason)))
validate_and_parse_err_example =
    validate_and_parse_err doc_serde minutes_clock (chars "launch") sum
      (unknown_tool (chars "launch")) unknown_refused
