-- ===== src/SharedState/Schema.antt =====
-- The parser of slot types (client/src-tauri/src/shared_state.rs). `none` is a parse that ran out of
-- fuel.
use hydropark_gym.Prelude.{
  ℕ, zero, suc, ◌++◌, Bool, true, false, not, ◌&&◌, ◌||◌, Option, none, some, List, [], ◌∷◌, map,
  keep, Result, ok, err, if◌then◌else◌, nat_eqb, leb,
}
use hydropark_gym.Prelude.Text.{
  strip_suffix, Text, chars, text_eqb, text_cmp, trim, is_empty, strip_prefix,
}
use hydropark_gym.Prelude.Sort.{sort_by}
use hydropark_gym.SharedState.Types.{
  ScalarKind, any, string, number, bool, enum, SlotType, scalar, list, struct, Fields, end, field,
}
use hydropark_gym.SharedState.Compat.{kind_name, get_field, put_field}
use hydropark_gym.SharedState.Splitting.{split_top_level, split_first_top_level, between, dedup}

unfoldable pub parse_variants : Text → Result ScalarKind Text
parse_variants inner =
    let variants = keep (λ v. not (is_empty v)) (map trim (split_top_level inner 124)) in
    if is_empty variants
    then err (chars "enum(…) needs at least one variant")
    else ok (enum (dedup (sort_by (λ v. v) text_cmp variants)))

unfoldable pub parse_scalar_kind : Text → Result ScalarKind Text
parse_scalar_kind text =
    let s = trim text in
    if text_eqb s (chars "string")
    then ok string
    else if text_eqb s (chars "number")
    then ok number
    else if text_eqb s (chars "bool")
    then ok bool
    else elim (between (chars "enum(") (chars ")") s) [
      | some inner ↦ parse_variants inner
      | none ↦ err (chars "unknown scalar kind `" ++ (s ++ chars "`"))
    ]

abbrev pub is_some : Option Text → Bool
is_some none = false
is_some (some _) = true

-- a parse on fuel
abbrev pub Parse : Type 0 → Type 0
Parse A = Option (Result A Text)

abbrev pub then_parse : {A B : Type 0} → Parse A → (A → Parse B) → Parse B
then_parse none k = none
then_parse (some (err e)) k = some (err e)
then_parse (some (ok a)) k = k a

abbrev pub scalar_of : Result ScalarKind Text → Result SlotType Text
scalar_of (ok k) = ok (scalar k)
scalar_of (err e) = err e

-- `item_record`, by ascending name
unfoldable pub item_record : Fields
item_record = field (chars "checked") (scalar bool) false (
    field (chars "id") (scalar string) true (
      field (chars "name") (scalar string) true (
        field (chars "qty") (scalar number) false
          (field (chars "unit") (scalar string) false end))))

abbrev pub list_of : SlotType → Result SlotType Text
list_of (struct r) = ok (list r)
list_of other = err (
    chars "list items must be a record (`list<item>` or `list<record{…}>`), not `"
    ++ (kind_name other ++ chars "`"))

-- `is_ascii_alphanumeric`, or `_`
abbrev pub is_name_char : ℕ → Bool
is_name_char ch =
    (leb 48 ch && leb ch 57)
    || (leb 65 ch && leb ch 90)
    || (leb 97 ch && leb ch 122)
    || nat_eqb ch 95

abbrev pub all_name_chars : Text → Bool
all_name_chars [] = true
all_name_chars (ch ∷ s) = is_name_char ch && all_name_chars s

-- a field's name, and whether it is required
abbrev pub field_name : Text → Option Text → Text × Bool
field_name raw none = (raw, true)
field_name raw (some stripped) = (trim stripped, false)

-- the fields and the name of one of them, which is not among them yet
abbrev pub add_field : Text → SlotType × Bool → Fields → Result Fields Text
add_field name (ty, req) fields = elim (get_field name fields) [
  | some _ ↦ err (chars "duplicate record field `" ++ (name ++ chars "`"))
  | none ↦ ok (put_field name ty req fields)
]

module _ (parse_type : Text → Parse SlotType) where
  unfoldable pub parse_named : Text → Text × Bool → Text → Parse (Text × (SlotType × Bool))
  parse_named name_raw (name, required) ty_raw =
      if is_empty name || not (all_name_chars name)
      then some (err (chars "invalid record field name `" ++ (name_raw ++ chars "`")))
      else then_parse (parse_type (trim ty_raw)) (λ ty. some (ok (name, (ty, required))))

  unfoldable pub parse_field_at : Text → Option (Text × Text) → Parse (Text × (SlotType × Bool))
  parse_field_at text none =
      some (err (chars "record field `" ++ (text ++ chars "` is missing a `: type`")))
  parse_field_at text (some (name_raw, ty_raw)) =
      let raw = trim name_raw in
      parse_named raw (field_name raw (strip_suffix (chars "?") raw)) ty_raw

  unfoldable pub parse_field : Text → Parse (Text × (SlotType × Bool))
  parse_field text = parse_field_at text (split_first_top_level text 58)

  -- the loop over the pieces, with the fields so far
  unfoldable pub parse_pieces : Fields → List Text → Parse Fields
  parse_pieces fields [] = some (ok fields)
  parse_pieces fields (raw ∷ pieces) = elim (is_empty (trim raw)) [
    | true ↦ parse_pieces fields pieces
    | false ↦
        then_parse (parse_field (trim raw))
          (λ f. then_parse (some (add_field f.0 f.1 fields)) (λ more. parse_pieces more pieces))
  ]

  unfoldable pub parse_record_fields : Text → Parse Fields
  parse_record_fields inner = parse_pieces end (split_top_level inner 44)

  abbrev pub parse_item : Text → Parse SlotType
  parse_item inner =
      if text_eqb inner (chars "item")
      then some (ok (list item_record))
      else then_parse (parse_type inner) (λ ty. some (list_of ty))

  abbrev pub parse_shorthand : Text → Parse SlotType
  parse_shorthand s =
      if text_eqb s (chars "string")
        || text_eqb s (chars "number")
        || text_eqb s (chars "bool")
        || is_some (strip_prefix (chars "enum(") s)
      then some (scalar_of (parse_scalar_kind s))
      else some (
          err (
            chars "unknown schema `"
            ++ (s
                ++ chars
                    "` (expected scalar | scalar<…> | list<item> | list<record{…}> | record | record{…})")))

  abbrev pub parse_record : Text → Option Text → Parse SlotType
  parse_record s none = parse_shorthand s
  parse_record s (some inner) = then_parse (parse_record_fields inner) (λ r. some (ok (struct r)))

  abbrev pub parse_list : Text → Option Text → Parse SlotType
  parse_list s (some inner) = parse_item (trim inner)
  parse_list s none =
      if text_eqb s (chars "record")
      then some (ok (struct end))
      else parse_record s (between (chars "record{") (chars "}") s)

  abbrev pub parse_scalar : Text → Option Text → Parse SlotType
  parse_scalar s (some inner) = some (scalar_of (parse_scalar_kind inner))
  parse_scalar s none = parse_list s (between (chars "list<") (chars ">") s)

  unfoldable pub parse_trimmed : Text → Parse SlotType
  parse_trimmed s =
      if is_empty s
      then some (err (chars "empty schema"))
      else if text_eqb s (chars "scalar")
      then some (ok (scalar any))
      else parse_scalar s (between (chars "scalar<") (chars ">") s)

unfoldable pub parse_at : ℕ → Text → Parse SlotType
parse_at zero schema = none
parse_at (suc fuel) schema = parse_trimmed (parse_at fuel) (trim schema)
