-- ===== src/Catalog/Errors.antt =====
-- The errors of validation (client/src-tauri/src/tool_catalog.rs).
use hydropark_gym.Prelude.{
  ℕ, ◌+◌, ◌≡◌, ◌≢◌, refl, subst, ◌⊎◌, inl, inr, not, Option, none, List, [], ◌∷◌, err, ok_or,
  map_err, length, ltb, nat_eqb, arith, Option-cases,
}
use hydropark_gym.Prelude.Text.{Text, is_empty, trim}
use hydropark_gym.Prelude.TreeMap.{BTreeMap}
use hydropark_gym.Prelude.Json.{Json}
use hydropark_gym.Prelude.Float.{Float}
use hydropark_gym.Catalog.Names.{
  ToolName, start_timer, convert_units, list_manage, calculate, date_math, from_ref,
}
use hydropark_gym.Catalog.Types.{
  ListOp, TypedArgs, IngredientItemPatch, ToolError, unknown_tool, invalid_args, execution_failed,
  Serde, Chrono,
}
use hydropark_gym.Catalog.Getters.{
  domain_of, same_domain, reject_if, as_object, require, req_string, req_u32, req_enum, opt_typed,
  opt_i64,
}
use hydropark_gym.Catalog.Args.{
  missing_item, req_f64, finite, operands_from, req_operands, parse_start_timer,
  parse_convert_units, parse_list_manage, parse_calculate, parse_date_math, parse_args, resolve,
  validate_and_parse,
}
use hydropark_gym.Catalog.Refusals.{
  OnlyInvalid, bind-OnlyInvalid, ok_or-OnlyInvalid, if-OnlyInvalid, map_err-OnlyInvalid,
  require-OnlyInvalid, req_enum-OnlyInvalid, as_object-OnlyInvalid, req_string-OnlyInvalid,
  req_u32-OnlyInvalid, opt_i64-OnlyInvalid, opt_typed-OnlyInvalid,
}

module _ {V : Type 0} ⦃json : Json V⦄ where
  parse_start_timer-OnlyInvalid : (raw : V) → OnlyInvalid (parse_start_timer raw)
  unfolding parse_start_timer
  parse_start_timer-OnlyInvalid raw =
      bind-OnlyInvalid (as_object raw _) _ (as_object-OnlyInvalid raw _) (λ obj.
        bind-OnlyInvalid (req_string obj _) _ (req_string-OnlyInvalid obj _) (λ label.
          bind-OnlyInvalid (req_u32 obj _) _ (req_u32-OnlyInvalid obj _) (λ n.
            if-OnlyInvalid (is_empty (trim label)) _ _ tt
              (if-OnlyInvalid (nat_eqb n 0) _ _ tt tt))))

module _ {F : Type 0} where
  missing_item-OnlyInvalid :
      {A : Type 0} (op : ListOp) (item : Option (IngredientItemPatch F))
      (items : Option (List (IngredientItemPatch F))) (a : A)
      → OnlyInvalid (reject_if (missing_item op item items) a)
  missing_item-OnlyInvalid ListOp.add item items a = ground arith
  missing_item-OnlyInvalid ListOp.set_all item items a = ground arith
  missing_item-OnlyInvalid _ item items a = ground arith

module _ {V F : Type 0} ⦃json : Json V⦄ ⦃float : Float F⦄ (serde : Serde V F) where
  req_f64-OnlyInvalid : (obj : BTreeMap V) (field : Text) → OnlyInvalid (req_f64 serde obj field)
  unfolding req_f64
  req_f64-OnlyInvalid obj field =
      bind-OnlyInvalid (require obj field) _ (require-OnlyInvalid obj field)
        (λ v. ok_or-OnlyInvalid (finite serde v) _ _)

  operands_from-OnlyInvalid :
      (field : Text) (i : ℕ) (arr : List V) → OnlyInvalid (operands_from serde field i arr)
  unfolding operands_from
  operands_from-OnlyInvalid field i [] = tt
  operands_from-OnlyInvalid field i (e ∷ arr) =
      bind-OnlyInvalid (ok_or (finite serde e) _) _ (ok_or-OnlyInvalid (finite serde e) _ _) (λ n.
        bind-OnlyInvalid (operands_from serde field (i + 1) arr) _
          (operands_from-OnlyInvalid field (i + 1) arr) (λ out. tt))

  req_operands-OnlyInvalid :
      (obj : BTreeMap V) (field : Text) → OnlyInvalid (req_operands serde obj field)
  unfolding req_operands
  req_operands-OnlyInvalid obj field =
      bind-OnlyInvalid (require obj field) _ (require-OnlyInvalid obj field) (λ v.
        bind-OnlyInvalid (ok_or (json.as_array v) _) _ (ok_or-OnlyInvalid (json.as_array v) _ _)
          (λ arr. operands_from-OnlyInvalid field 0 arr))

  parse_convert_units-OnlyInvalid : (raw : V) → OnlyInvalid (parse_convert_units serde raw)
  unfolding parse_convert_units
  parse_convert_units-OnlyInvalid raw =
      bind-OnlyInvalid (as_object raw _) _ (as_object-OnlyInvalid raw _) (λ obj.
        bind-OnlyInvalid (req_enum serde.unit_domain obj _) _ (req_enum-OnlyInvalid _ obj _) (λ d.
          bind-OnlyInvalid (req_f64 serde obj _) _ (req_f64-OnlyInvalid obj _) (λ x.
            bind-OnlyInvalid (req_enum serde.unit_id obj _) _ (req_enum-OnlyInvalid _ obj _) (λ u.
              bind-OnlyInvalid (req_enum serde.unit_id obj _) _ (req_enum-OnlyInvalid _ obj _) (λ w.
                if-OnlyInvalid (not (same_domain (domain_of u) d)) _ _ tt
                  (if-OnlyInvalid (not (same_domain (domain_of w) d)) _ _ tt tt))))))

  parse_list_manage-OnlyInvalid : (raw : V) → OnlyInvalid (parse_list_manage serde raw)
  unfolding parse_list_manage
  parse_list_manage-OnlyInvalid raw =
      bind-OnlyInvalid (as_object raw _) _ (as_object-OnlyInvalid raw _) (λ obj.
        bind-OnlyInvalid (req_enum serde.list_op obj _) _ (req_enum-OnlyInvalid _ obj _) (λ op.
          bind-OnlyInvalid (opt_typed serde.item_patch obj _) _ (opt_typed-OnlyInvalid _ obj _)
            (λ item.
              bind-OnlyInvalid (opt_typed serde.item_patches obj _) _
                (opt_typed-OnlyInvalid _ obj _)
                (λ items. missing_item-OnlyInvalid op item items _))))

  parse_calculate-OnlyInvalid : (raw : V) → OnlyInvalid (parse_calculate serde raw)
  unfolding parse_calculate
  parse_calculate-OnlyInvalid raw =
      bind-OnlyInvalid (as_object raw _) _ (as_object-OnlyInvalid raw _) (λ obj.
        bind-OnlyInvalid (req_enum serde.calc_op obj _) _ (req_enum-OnlyInvalid _ obj _) (λ op.
          bind-OnlyInvalid (req_operands serde obj _) _ (req_operands-OnlyInvalid obj _)
            (λ xs. if-OnlyInvalid (ltb (length xs) 2) _ _ tt tt)))

module _ {V F D S : Type 0} ⦃json : Json V⦄ ⦃float : Float F⦄ (serde : Serde V F)
    (chrono : Chrono D S) where
  parse_date_math-OnlyInvalid : (raw : V) → OnlyInvalid (parse_date_math serde chrono raw)
  unfolding parse_date_math
  parse_date_math-OnlyInvalid raw =
      bind-OnlyInvalid (as_object raw _) _ (as_object-OnlyInvalid raw _) (λ obj.
        bind-OnlyInvalid (req_string obj _) _ (req_string-OnlyInvalid obj _) (λ base.
          bind-OnlyInvalid (map_err _ (chrono.parse_from_rfc3339 base)) _
            (map_err-OnlyInvalid (chrono.parse_from_rfc3339 base) _ _)
            (λ d.
              bind-OnlyInvalid (req_enum serde.date_op obj _) _ (req_enum-OnlyInvalid _ obj _)
                (λ op. bind-OnlyInvalid (require obj _) _ (require-OnlyInvalid obj _) (λ v.
                  bind-OnlyInvalid (as_object v _) _ (as_object-OnlyInvalid v _) (λ o.
                    bind-OnlyInvalid (opt_i64 o _) _ (opt_i64-OnlyInvalid o _) (λ x.
                      bind-OnlyInvalid (opt_i64 o _) _ (opt_i64-OnlyInvalid o _) (λ y.
                        bind-OnlyInvalid (opt_i64 o _) _ (opt_i64-OnlyInvalid o _) (λ z. tt)))))))))

  parse_args-OnlyInvalid :
      (name : ToolName) (raw : V) → OnlyInvalid (parse_args serde chrono name raw)
  unfolding parse_args
  parse_args-OnlyInvalid start_timer raw =
      bind-OnlyInvalid (parse_start_timer raw) _ (parse_start_timer-OnlyInvalid raw) (λ a. tt)
  parse_args-OnlyInvalid convert_units raw =
      bind-OnlyInvalid (parse_convert_units serde raw) _ (parse_convert_units-OnlyInvalid serde raw)
        (λ a. tt)
  parse_args-OnlyInvalid list_manage raw =
      bind-OnlyInvalid (parse_list_manage serde raw) _ (parse_list_manage-OnlyInvalid serde raw)
        (λ a. tt)
  parse_args-OnlyInvalid calculate raw =
      bind-OnlyInvalid (parse_calculate serde raw) _ (parse_calculate-OnlyInvalid serde raw)
        (λ a. tt)
  parse_args-OnlyInvalid date_math raw =
      bind-OnlyInvalid (parse_date_math serde chrono raw) _ (parse_date_math-OnlyInvalid raw)
        (λ a. tt)

  -- A call that validation refuses either names no tool of the catalog, and the error is then that
  -- the name is unknown, or it names one, and the error is about an argument: a refusal is never an
  -- execution failure.
  pub validate_and_parse_err :
      (tool_ref : Text) (raw : V) (e : ToolError)
      → validate_and_parse serde chrono tool_ref raw ≡ err e
      → ((from_ref tool_ref ≡ none) × (e ≡ unknown_tool tool_ref))
        ⊎ ((from_ref tool_ref ≢ none)
            × ((field : Text) × (reason : Text) × (e ≡ invalid_args field reason)))
  unfolding validate_and_parse resolve
  validate_and_parse_err tool_ref raw e h = elim (Option-cases (from_ref tool_ref)) [
    | inl p ↦ inl (p, ground (arith, p))
    | inr (name, p) ↦
        let q : parse_args serde chrono name raw ≡ err e = ground (arith, p) in
        inr (ground (arith, p), at_err e (subst OnlyInvalid q (parse_args-OnlyInvalid name raw)))
  ]
    where
      at_err :
          (e : ToolError)
          → OnlyInvalid {A = TypedArgs F} (err e)
          → (field : Text) × (reason : Text) × (e ≡ invalid_args field reason)
      at_err (invalid_args field reason) h = (field, reason, refl)
      at_err (unknown_tool _) h = absurd h
      at_err (execution_failed _) h = absurd h
