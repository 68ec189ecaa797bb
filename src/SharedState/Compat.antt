-- ===== src/SharedState/Compat.antt =====
-- Compatibility and widening of slot types (client/src-tauri/src/shared_state.rs).
use hydropark_gym.Prelude.{
  ◌++◌, Bool, true, false, ◌||◌, Option, none, some, List, [], ◌∷◌, Ordering, Result, ok, err,
  map_err, ◌>>=◌, if◌then◌else◌,
}
use hydropark_gym.Prelude.Text.{Text, chars, text_eqb, text_cmp, join}
use hydropark_gym.SharedState.Types.{
  ScalarKind, any, string, number, bool, enum, SlotType, scalar, list, struct, Fields, end, field,
}

unfoldable pub scalar_kind_name : ScalarKind → Text
scalar_kind_name any = chars "scalar"
scalar_kind_name string = chars "scalar<string>"
scalar_kind_name number = chars "scalar<number>"
scalar_kind_name bool = chars "scalar<bool>"
scalar_kind_name (enum v) = chars "scalar<enum(" ++ (join (chars "|") v ++ chars ")>")

unfoldable pub kind_name : SlotType → Text
kind_name (scalar k) = scalar_kind_name k
kind_name (list _) = chars "list"
kind_name (struct _) = chars "record"

-- `==` of two lists of variants
unfoldable pub variants_eqb : List Text → List Text → Bool
variants_eqb [] [] = true
variants_eqb (v ∷ x) (w ∷ y) = elim (text_eqb v w) [ true ↦ variants_eqb x y | false ↦ false ]
variants_eqb _ _ = false

unfoldable pub scalars_compatible : ScalarKind → ScalarKind → Result (Unit {0}) Text
scalars_compatible any b = ok tt
scalars_compatible string any = ok tt
scalars_compatible number any = ok tt
scalars_compatible bool any = ok tt
scalars_compatible (enum x) any = ok tt
scalars_compatible string string = ok tt
scalars_compatible number number = ok tt
scalars_compatible bool bool = ok tt
scalars_compatible (enum x) (enum y) =
    if variants_eqb x y
    then ok tt
    else err (
        chars "enum variants differ: ("
        ++ (join (chars "|") x ++ (chars ") vs (" ++ (join (chars "|") y ++ chars ")"))))
scalars_compatible a b =
    err (
      chars "scalar kind differs: " ++ (scalar_kind_name a ++ (chars " vs " ++ scalar_kind_name b)))

-- a field by its name, with its type and whether it is required
unfoldable pub get_field : Text → Fields → Option (SlotType × Bool)
get_field name end = none
get_field name (field n ty req rest) = elim (text_eqb n name) [
  | true ↦ some (ty, req)
  | false ↦ get_field name rest
]

-- the type of a field, if it is required
abbrev pub if_required : Option (SlotType × Bool) → Option SlotType
if_required none = none
if_required (some (ty, true)) = some ty
if_required (some (ty, false)) = none

abbrev pub required_type : Text → Fields → Option SlotType
required_type name r = if_required (get_field name r)

unfoldable pub one_sided : Text → Text
one_sided name =
    chars "required field `"
    ++ (name ++ chars "` is present in one schema but absent/optional in the other")

-- the second loop: every required field of `b` is one of `a`
unfoldable pub no_extra : Fields → Fields → Result (Unit {0}) Text
no_extra a end = ok tt
no_extra a (field n ty false rest) = no_extra a rest
no_extra a (field n ty true rest) = elim (required_type n a) [
  | none ↦ err (one_sided n)
  | some _ ↦ no_extra a rest
]

abbrev pub at_field : Text → Text → Text
at_field n e = chars "required field `" ++ (n ++ (chars "`: " ++ e))

unfoldable mutual
  pub types_compatible : SlotType → SlotType → Result (Unit {0}) Text
  types_compatible (scalar ka) (scalar kb) = scalars_compatible ka kb
  types_compatible (list ra) (list rb) = common ra rb >>= λ _. no_extra ra rb
  types_compatible (struct ra) (struct rb) = common ra rb >>= λ _. no_extra ra rb
  types_compatible a b =
      err (chars "base kind differs: " ++ (kind_name a ++ (chars " vs " ++ kind_name b)))

  -- the first loop: every required field of `a` is one of `b`, of a compatible type
  pub common : Fields → Fields → Result (Unit {0}) Text
  common end b = ok tt
  common (field n ty false rest) b = common rest b
  common (field n ty true rest) b = elim (required_type n b) [
    | none ↦ err (one_sided n)
    | some tb ↦ map_err (at_field n) (types_compatible ty tb) >>= λ _. common rest b
  ]

unfoldable pub records_compatible : Fields → Fields → Result (Unit {0}) Text
records_compatible a b = common a b >>= λ _. no_extra a b

unfoldable pub widen_scalar : ScalarKind → ScalarKind → ScalarKind
widen_scalar any b = b
widen_scalar a b = a

-- the field set at its place
unfoldable pub put_field : Text → SlotType → Bool → Fields → Fields
put_field name ty req end = field name ty req end
put_field name ty req (field n t r rest) = elim (text_cmp name n) [
  | Ordering.lt ↦ field name ty req (field n t r rest)
  | Ordering.eq ↦ field name ty req rest
  | Ordering.gt ↦ field n t r (put_field name ty req rest)
]

unfoldable mutual
  pub widen : SlotType → SlotType → SlotType
  widen (scalar ka) (scalar kb) = scalar (widen_scalar ka kb)
  widen (list ra) (list rb) = list (widen_fields ra rb)
  widen (struct ra) (struct rb) = struct (widen_fields ra rb)
  widen a _ = a

  -- the loop of `widen_record` over the fields of the second record
  pub widen_fields : Fields → Fields → Fields
  widen_fields fields end = fields
  widen_fields fields (field n tb req rest) =
      widen_fields
        (elim (get_field n fields) [
          | none ↦ put_field n tb req fields
          | some (ta, ra) ↦ put_field n (widen ta tb) (ra || req) fields
        ])
        rest
