-- ===== src/Catalog/Sound.antt =====
-- What holds of a call that the catalog lets through (client/src-tauri/src/tool_catalog.rs).
use hydropark_gym.Prelude.{
  ℕ, ◌+◌, ◌^◌, ◌≡◌, refl, subst, ◌<◌, ◌≤◌, true, false, none, some, List, [], ◌∷◌, ok, ok_or,
  map_err, >>=-eq-ok, length, All, arith,
}
use hydropark_gym.Prelude.Text.{Text, chars, trim, is_empty}
use hydropark_gym.Prelude.TreeMap.{BTreeMap}
use hydropark_gym.Prelude.Json.{Json}
use hydropark_gym.Prelude.Float.{Float}
use hydropark_gym.Catalog.Names.{
  ToolName, start_timer, convert_units, list_manage, calculate, date_math, from_ref,
}
use hydropark_gym.Catalog.Types.{
  StartTimerArgs, DateMathArgs, ConvertUnitsArgs, ListManageArgs, CalculateArgs, TypedArgs, tool,
  Serde, Chrono,
}
use hydropark_gym.Catalog.Getters.{
  domain_of, as_object, require, req_string, req_u32, req_enum, opt_typed, opt_i64,
}
use hydropark_gym.Catalog.Args.{
  missing_item, req_f64, finite, operands_from, req_operands, parse_start_timer,
  parse_convert_units, parse_list_manage, parse_calculate, parse_date_math, parse_args, resolve,
  validate_and_parse,
}

module _ {V : Type 0} ⦃json : Json V⦄ where
  req_u32-bound : (obj : BTreeMap V) (field : Text) (n : ℕ) → req_u32 obj field ≡ ok n → n < 2 ^ 32
  unfolding req_u32
  req_u32-bound obj field n h = ground arith

  parse_start_timer_sound :
      (raw : V) (a : StartTimerArgs)
      → parse_start_timer raw ≡ ok a
      → (is_empty (trim a.label) ≡ false) × (0 < a.duration_sec) × (a.duration_sec < 2 ^ 32)
  unfolding parse_start_timer
  parse_start_timer_sound raw a h =
      let (obj, p, h₁) = >>=-eq-ok (as_object raw (chars "arguments")) _ h in
      let (label, q, h₂) = >>=-eq-ok (req_string obj (chars "label")) _ h₁ in
      let (n, r, h₃) = >>=-eq-ok (req_u32 obj (chars "duration_sec")) _ h₂ in
      let bound = req_u32-bound obj (chars "duration_sec") n r in ground arith

module _ {V F : Type 0} ⦃json : Json V⦄ ⦃float : Float F⦄ (serde : Serde V F) where
  finite-is_finite : (v : V) (x : F) → finite serde v ≡ some x → float.is_finite x ≡ true
  unfolding finite
  finite-is_finite v x h = ground arith

  req_f64-is_finite :
      (obj : BTreeMap V) (field : Text) (x : F)
      → req_f64 serde obj field ≡ ok x
      → float.is_finite x ≡ true
  unfolding req_f64
  req_f64-is_finite obj field x h =
      let (v, p, q) = >>=-eq-ok (require obj field) _ h in finite-is_finite v x (ground arith)

  operands_from-is_finite :
      (field : Text) (i : ℕ) (arr : List V) (xs : List F)
      → operands_from serde field i arr ≡ ok xs
      → All (λ x. float.is_finite x ≡ true) xs
  unfolding operands_from
  operands_from-is_finite field i [] xs h =
      let same : [] ≡ xs = ground arith in subst (All (λ x. float.is_finite x ≡ true)) same tt
  operands_from-is_finite field i (e ∷ arr) xs h =
      let (n, p, h₁) = >>=-eq-ok (ok_or (finite serde e) _) _ h in
      let (out, q, h₂) = >>=-eq-ok (operands_from serde field (i + 1) arr) _ h₁ in
      let same : n ∷ out ≡ xs = ground arith in
      subst (All (λ x. float.is_finite x ≡ true)) same
        (finite-is_finite e n (ground arith), operands_from-is_finite field (i + 1) arr out q)

  parse_convert_units_sound :
      (raw : V) (a : ConvertUnitsArgs F)
      → parse_convert_units serde raw ≡ ok a
      → (float.is_finite a.value ≡ true)
        × (domain_of a.from_unit ≡ a.domain)
        × (domain_of a.to_unit ≡ a.domain)
  unfolding parse_convert_units
  parse_convert_units_sound raw a h =
      let (obj, p, h₁) = >>=-eq-ok (as_object raw (chars "arguments")) _ h in
      let (domain, q, h₂) = >>=-eq-ok (req_enum serde.unit_domain obj (chars "domain")) _ h₁ in
      let (x, r, h₃) = >>=-eq-ok (req_f64 serde obj (chars "value")) _ h₂ in
      let (u, s, h₄) = >>=-eq-ok (req_enum serde.unit_id obj (chars "from_unit")) _ h₃ in
      let (w, t, h₅) = >>=-eq-ok (req_enum serde.unit_id obj (chars "to_unit")) _ h₄ in
      let f = req_f64-is_finite obj (chars "value") x r in ground arith

  req_operands-is_finite :
      (obj : BTreeMap V) (field : Text) (xs : List F)
      → req_operands serde obj field ≡ ok xs
      → All (λ x. float.is_finite x ≡ true) xs
  unfolding req_operands
  req_operands-is_finite obj field xs h =
      let (v, p, h₁) = >>=-eq-ok (require obj field) _ h in
      let (arr, q, h₂) = >>=-eq-ok (ok_or (json.as_array v) _) _ h₁ in
      operands_from-is_finite field 0 arr xs h₂

  parse_calculate_sound :
      (raw : V) (a : CalculateArgs F)
      → parse_calculate serde raw ≡ ok a
      → (2 ≤ length a.operands) × All (λ x. float.is_finite x ≡ true) a.operands
  unfolding parse_calculate
  parse_calculate_sound raw a h =
      let (obj, p, h₁) = >>=-eq-ok (as_object raw (chars "arguments")) _ h in
      let (op, q, h₂) = >>=-eq-ok (req_enum serde.calc_op obj (chars "op")) _ h₁ in
      let (xs, r, h₃) = >>=-eq-ok (req_operands serde obj (chars "operands")) _ h₂ in
      let same : xs ≡ a.operands = ground arith in
      (
        ground arith,
        subst (All (λ x. float.is_finite x ≡ true)) same
            (req_operands-is_finite obj (chars "operands") xs r),
      )

  parse_list_manage_sound :
      (raw : V) (a : ListManageArgs F)
      → parse_list_manage serde raw ≡ ok a
      → missing_item a.op a.item a.items ≡ none
  unfolding parse_list_manage
  parse_list_manage_sound raw a h =
      let (obj, p, h₁) = >>=-eq-ok (as_object raw (chars "arguments")) _ h in
      let (op, q, h₂) = >>=-eq-ok (req_enum serde.list_op obj (chars "op")) _ h₁ in
      let (item, r, h₃) = >>=-eq-ok (opt_typed serde.item_patch obj (chars "item")) _ h₂ in
      let (items, s, h₄) = >>=-eq-ok (opt_typed serde.item_patches obj (chars "items")) _ h₃ in
      ground arith

module _ {V F D S : Type 0} ⦃json : Json V⦄ ⦃float : Float F⦄ (serde : Serde V F)
    (chrono : Chrono D S) where
  parse_date_math_sound :
      (raw : V) (a : DateMathArgs)
      → parse_date_math serde chrono raw ≡ ok a
      → (d : D) × (chrono.parse_from_rfc3339 a.base ≡ ok d)
  unfolding parse_date_math
  parse_date_math_sound raw a h =
      let (obj, p, h₁) = >>=-eq-ok (as_object raw (chars "arguments")) _ h in
      let (base, q, h₂) = >>=-eq-ok (req_string obj (chars "base")) _ h₁ in
      let (d, r, h₃) = >>=-eq-ok (map_err _ (chrono.parse_from_rfc3339 base)) _ h₂ in
      let (op, s, h₄) = >>=-eq-ok (req_enum serde.date_op obj (chars "op")) _ h₃ in
      let (v, t, h₅) = >>=-eq-ok (require obj (chars "delta")) _ h₄ in
      let (o, u, h₆) = >>=-eq-ok (as_object v (chars "delta")) _ h₅ in
      let (x, w, h₇) = >>=-eq-ok (opt_i64 o (chars "days")) _ h₆ in
      let (y, z, h₈) = >>=-eq-ok (opt_i64 o (chars "hours")) _ h₇ in
      let (m, k, h₉) = >>=-eq-ok (opt_i64 o (chars "minutes")) _ h₈ in
      let same : base ≡ a.base = ground arith in
      subst (λ b. (c : D) × (chrono.parse_from_rfc3339 b ≡ ok c)) same (d, ground arith)

  -- what the contract of each tool asks of its arguments
  abbrev pub IsValid : TypedArgs F → Type 0
  IsValid (TypedArgs.start_timer a) =
      (is_empty (trim a.label) ≡ false) × (0 < a.duration_sec) × (a.duration_sec < 2 ^ 32)
  IsValid (TypedArgs.convert_units a) =
      (float.is_finite a.value ≡ true)
      × (domain_of a.from_unit ≡ a.domain)
      × (domain_of a.to_unit ≡ a.domain)
  IsValid (TypedArgs.list_manage a) = missing_item a.op a.item a.items ≡ none
  IsValid (TypedArgs.calculate a) =
      (2 ≤ length a.operands) × All (λ x. float.is_finite x ≡ true) a.operands
  IsValid (TypedArgs.date_math a) = (d : D) × (chrono.parse_from_rfc3339 a.base ≡ ok d)

  parse_args_sound :
      (name : ToolName) (raw : V) (a : TypedArgs F)
      → parse_args serde chrono name raw ≡ ok a
      → (tool a ≡ name) × IsValid a
  unfolding parse_args
  parse_args_sound start_timer raw a h =
      let (b, p, q) = >>=-eq-ok (parse_start_timer raw) _ h in
      let same : TypedArgs.start_timer b ≡ a = ground arith in
      subst (λ x. (tool x ≡ start_timer) × IsValid x) same (refl, parse_start_timer_sound raw b p)
  parse_args_sound convert_units raw a h =
      let (b, p, q) = >>=-eq-ok (parse_convert_units serde raw) _ h in
      let same : TypedArgs.convert_units b ≡ a = ground arith in
      subst (λ x. (tool x ≡ convert_units) × IsValid x) same
        (refl, parse_convert_units_sound serde raw b p)
  parse_args_sound list_manage raw a h =
      let (b, p, q) = >>=-eq-ok (parse_list_manage serde raw) _ h in
      let same : TypedArgs.list_manage b ≡ a = ground arith in
      subst (λ x. (tool x ≡ list_manage) × IsValid x) same
        (refl, parse_list_manage_sound serde raw b p)
  parse_args_sound calculate raw a h =
      let (b, p, q) = >>=-eq-ok (parse_calculate serde raw) _ h in
      let same : TypedArgs.calculate b ≡ a = ground arith in
      subst (λ x. (tool x ≡ calculate) × IsValid x) same (refl, parse_calculate_sound serde raw b p)
  parse_args_sound date_math raw a h =
      let (b, p, q) = >>=-eq-ok (parse_date_math serde chrono raw) _ h in
      let same : TypedArgs.date_math b ≡ a = ground arith in
      subst (λ x. (tool x ≡ date_math) × IsValid x) same (refl, parse_date_math_sound raw b p)

  -- A call that validation lets through names a tool of the catalog, has that tool's arguments, and
  -- they meet its contract: a timer has a label that is not blank and between 1 and 2^32 - 1
  -- seconds; a conversion has a finite value and both units of its domain; a list operation has
  -- what it needs; a calculation has two or more operands, all finite; and a date's base parses.
  pub validate_and_parse_sound :
      (tool_ref : Text) (raw : V) (a : TypedArgs F)
      → validate_and_parse serde chrono tool_ref raw ≡ ok a
      → (from_ref tool_ref ≡ some (tool a)) × IsValid a
  unfolding validate_and_parse resolve
  validate_and_parse_sound tool_ref raw a h =
      let (name, p, q) = >>=-eq-ok (ok_or (from_ref tool_ref) _) _ h in
      let (same, valid) = parse_args_sound name raw a q in (ground arith, valid)
