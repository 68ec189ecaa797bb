-- ===== src/Catalog/Refusals.antt =====
-- The argument getters fail only with errors about an argument
-- (client/src-tauri/src/tool_catalog.rs).
use hydropark_gym.Prelude.{
  Bool, true, false, not, Option, none, some, Result, ok, err, ◌>>=◌, ok_or, map_err, if◌then◌else◌,
  ltb, arith,
}
use hydropark_gym.Prelude.Text.{Text, chars}
use hydropark_gym.Prelude.TreeMap.{BTreeMap, get}
use hydropark_gym.Prelude.Json.{Json}
use hydropark_gym.Prelude.Words.{u32_max}
use hydropark_gym.Prelude.Int.{pos}
use hydropark_gym.Catalog.Types.{ToolError, unknown_tool, invalid_args, execution_failed}
use hydropark_gym.Catalog.Getters.{
  as_object, require, req_string, req_u32, req_enum, opt_typed, opt_i64,
}

-- a result, or an error about an argument
abbrev pub OnlyInvalid : {A : Type 0} → Result A ToolError → Type 0
OnlyInvalid (ok _) = Unit {0}
OnlyInvalid (err (invalid_args _ _)) = Unit {0}
OnlyInvalid (err _) = ⊥

module _ {A : Type 0} where
  pub bind-OnlyInvalid :
      {B : Type 0} (m : Result A ToolError) (k : A → Result B ToolError)
      → OnlyInvalid m
      → ((a : A) → OnlyInvalid (k a))
      → OnlyInvalid (m >>= k)
  bind-OnlyInvalid (ok a) k h f = f a
  bind-OnlyInvalid (err (invalid_args x y)) k h f = tt
  bind-OnlyInvalid (err (unknown_tool _)) k h f = h
  bind-OnlyInvalid (err (execution_failed _)) k h f = h

  pub ok_or-OnlyInvalid : (o : Option A) (x y : Text) → OnlyInvalid (ok_or o (invalid_args x y))
  ok_or-OnlyInvalid none x y = tt
  ok_or-OnlyInvalid (some a) x y = tt

  pub if-OnlyInvalid :
      (b : Bool) (m n : Result A ToolError)
      → OnlyInvalid m
      → OnlyInvalid n
      → OnlyInvalid (if b then m else n)
  if-OnlyInvalid true m n h k = h
  if-OnlyInvalid false m n h k = k

  pub map_err-OnlyInvalid :
      (r : Result A Text) (x : Text) (y : Text → Text)
      → OnlyInvalid (map_err (λ e. invalid_args x (y e)) r)
  map_err-OnlyInvalid (ok a) x y = tt
  map_err-OnlyInvalid (err e) x y = tt

module _ {V : Type 0} where
  pub require-OnlyInvalid : (obj : BTreeMap V) (field : Text) → OnlyInvalid (require obj field)
  unfolding require
  require-OnlyInvalid obj field = ok_or-OnlyInvalid (get field obj) _ _

  pub req_enum-OnlyInvalid :
      {T : Type 0} (from_value : V → Result T Text) (obj : BTreeMap V) (field : Text)
      → OnlyInvalid (req_enum from_value obj field)
  unfolding req_enum
  req_enum-OnlyInvalid from_value obj field =
      bind-OnlyInvalid (require obj field) _ (require-OnlyInvalid obj field)
        (λ v. map_err-OnlyInvalid (from_value v) _ _)

module _ {V : Type 0} ⦃json : Json V⦄ where
  pub as_object-OnlyInvalid : (v : V) (field : Text) → OnlyInvalid (as_object v field)
  unfolding as_object
  as_object-OnlyInvalid v field = ok_or-OnlyInvalid (json.as_object v) _ _

  pub req_string-OnlyInvalid :
      (obj : BTreeMap V) (field : Text) → OnlyInvalid (req_string obj field)
  unfolding req_string
  req_string-OnlyInvalid obj field =
      bind-OnlyInvalid (require obj field) _ (require-OnlyInvalid obj field)
        (λ v. ok_or-OnlyInvalid (json.as_str v) _ _)

  pub req_u32-OnlyInvalid : (obj : BTreeMap V) (field : Text) → OnlyInvalid (req_u32 obj field)
  unfolding req_u32
  req_u32-OnlyInvalid obj field =
      bind-OnlyInvalid (require obj field) _ (require-OnlyInvalid obj field) (λ v.
        bind-OnlyInvalid (ok_or (json.as_u64 v) _) _ (ok_or-OnlyInvalid (json.as_u64 v) _ _)
          (λ n. if-OnlyInvalid (not (ltb u32_max n)) _ _ tt tt))

  pub opt_i64-OnlyInvalid : (obj : BTreeMap V) (field : Text) → OnlyInvalid (opt_i64 obj field)
  unfolding opt_i64
  opt_i64-OnlyInvalid obj field = at_found (get field obj)
    where
      at_found :
          (o : Option V)
          → OnlyInvalid (elim o [
            | none ↦ ok (pos 0)
            | some v ↦
                if json.is_null v
                then ok (pos 0)
                else ok_or (json.as_i64 v) (invalid_args field (chars "expected an integer"))
          ])
      at_found none = tt
      at_found (some v) =
          if-OnlyInvalid (json.is_null v) _ _ tt (ok_or-OnlyInvalid (json.as_i64 v) _ _)

  pub opt_typed-OnlyInvalid :
      {T : Type 0} (from_value : V → Result T Text) (obj : BTreeMap V) (field : Text)
      → OnlyInvalid (opt_typed from_value obj field)
  unfolding opt_typed
  opt_typed-OnlyInvalid from_value obj field = ground arith
