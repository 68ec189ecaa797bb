-- ===== src/Examples/Slots.antt =====
-- Two skills that declare one slot (client/src-tauri/src/shared_state.rs).
use hydropark_gym.Prelude.{◌≡◌, ◌↔◌, refl, arith, false, some, List, [], ◌∷◌, Result, ok}
use hydropark_gym.Prelude.Text.{
  strip_suffix, Text, chars, text_eqb, text_cmp, trim, trim_start, is_whitespace, is_empty,
  strip_prefix,
}
use hydropark_gym.Prelude.TreeMap.{BTreeMap, get, insert}
use hydropark_gym.Orchestrator.Manifest.{SharedStateDecl}
use hydropark_gym.SharedState.Types.{SlotType, scalar, struct, string, number, end, field, SlotSpec}
use hydropark_gym.SharedState.Compat.{
  types_compatible, scalars_compatible, widen, widen_scalar, get_field, put_field, common, no_extra,
}
use hydropark_gym.SharedState.Agreement.{types_compatible_comm}
use hydropark_gym.SharedState.Fields.{IsMap}
use hydropark_gym.SharedState.Schema.{parse_at, parse_trimmed, parse_scalar_kind}
use hydropark_gym.SharedState.ParseTotal.{parse_at-ends, parse_slot_type}
use hydropark_gym.SharedState.Resolve.{
  resolve_decls, group_skills, group_decls, specs_of, check_pairs, check_against, widen_all,
  first_writer,
}
use hydropark_gym.SharedState.Resolved.{declared, spec_for, AllCompatible, resolve_decls_sound}

abbrev amount_text : SlotType
amount_text = struct (field (chars "amount") (scalar string) false end)

abbrev amount_number : SlotType
amount_number = struct (field (chars "amount") (struct end) false end)

-- optional fields of different kinds are compatible, and the wider type depends on the order
optional_fields_pass : types_compatible amount_text amount_number ≡ ok tt
unfolding types_compatible common no_extra
optional_fields_pass = refl

first_optional_wins : widen amount_text amount_number ≡ amount_text
unfolding widen get_field put_field text_eqb text_cmp
first_optional_wins = refl

amount_text-IsMap : IsMap amount_text
unfolding IsMap get_field
amount_text-IsMap = (refl, (tt, tt))

amount_number-IsMap : IsMap amount_number
unfolding IsMap get_field
amount_number-IsMap = (refl, (tt, tt))

types_compatible_comm_example :
    (types_compatible amount_text amount_number ≡ ok tt)
    ↔ (types_compatible amount_number amount_text ≡ ok tt)
types_compatible_comm_example =
    types_compatible_comm amount_text amount_number amount_text-IsMap amount_number-IsMap

parse_at-ends_example :
    (r : Result SlotType Text) × (parse_at 40 (chars "record{id: string, qty?: number}") ≡ some r)
parse_at-ends_example = parse_at-ends 40 (chars "record{id: string, qty?: number}") (omega arith)

abbrev declarations : List (Text × List SharedStateDecl)
declarations =
    (
      chars "chef",
      record { slot = chars "servings"; access = chars "read"; schema = chars "scalar" } ∷ [],
    )
    ∷ (
      chars "baker",
      record { slot = chars "servings"; access = chars "write"; schema = chars "number" } ∷ [],
    )
    ∷ []

abbrev servings : BTreeMap SlotSpec
servings =
    (
      chars "servings",
      record {
        ty = scalar number;
        writer = some (chars "baker");
        declarers = chars "chef" ∷ chars "baker" ∷ [];
      },
    )
    ∷ []

servings_resolve : resolve_decls declarations ≡ ok servings
unfolding resolve_decls group_skills group_decls specs_of check_pairs check_against widen_all
    first_writer widen widen_scalar types_compatible scalars_compatible parse_slot_type parse_at
    parse_trimmed parse_scalar_kind strip_suffix strip_prefix trim trim_start is_whitespace is_empty
    text_eqb text_cmp get insert
servings_resolve = refl

resolve_decls_sound_example :
    (get (chars "servings") servings ≡ spec_for (declared (chars "servings") declarations))
    × AllCompatible (declared (chars "servings") declarations)
resolve_decls_sound_example =
    resolve_decls_sound declarations servings (chars "servings") servings_resolve
