-- ===== src/Manifest/Access.antt =====
-- Reads of JSON values (client/src-tauri/src/manifest.rs).
use hydropark_gym.Prelude.{Bool, Option, none, some, List, [], ◌∷◌}
use hydropark_gym.Prelude.Int.{ℤ}
use hydropark_gym.Prelude.Text.{Text}
use hydropark_gym.Prelude.TreeMap.{BTreeMap, get}
use hydropark_gym.Prelude.Json.{Json}

-- `unwrap_or`
abbrev pub or_else : {A : Type 0} → Option A → A → A
or_else none d = d
or_else (some x) d = x

module _ {V : Type 0} ⦃json : Json V⦄ where
  -- `Value::get`, which finds a key of an object only
  abbrev pub value_get : Text → V → Option V
  value_get key v = elim (json.as_object v) [ none ↦ none | some o ↦ get key o ]

  -- `and_then`
  abbrev pub then_get : Text → Option V → Option V
  then_get key none = none
  then_get key (some v) = value_get key v

  abbrev pub then_str : Option V → Option Text
  then_str none = none
  then_str (some v) = json.as_str v

  -- `o.get(key).and_then(Value::as_str)`
  abbrev pub str_at : BTreeMap V → Text → Option Text
  str_at o key = then_str (get key o)

  -- `and_then(Value::as_array)` with no element for anything else
  abbrev pub elements : Option V → List V
  elements none = []
  elements (some v) = elim (json.as_array v) [ none ↦ [] | some arr ↦ arr ]

  -- `filter_map(..).collect()`
  abbrev pub strings_of : (V → Option Text) → List V → List Text
  strings_of f [] = []
  strings_of f (v ∷ vs) =
      let rest = strings_of f vs in elim (f v) [ none ↦ rest | some s ↦ s ∷ rest ]

  abbrev pub then_object : Option V → Option (BTreeMap V)
  then_object none = none
  then_object (some v) = json.as_object v

  abbrev pub then_i64 : Option V → Option ℤ
  then_i64 none = none
  then_i64 (some v) = json.as_i64 v

  abbrev pub then_bool : Option V → Option Bool
  then_bool none = none
  then_bool (some v) = json.as_bool v

  -- `o.and_then(|o| o.get(key))`
  abbrev pub field : Text → Option (BTreeMap V) → Option V
  field key none = none
  field key (some o) = get key o

  -- `filter_map(Value::as_object)`
  abbrev pub objects_of : List V → List (BTreeMap V)
  objects_of [] = []
  objects_of (v ∷ vs) =
      let rest = objects_of vs in elim (json.as_object v) [ none ↦ rest | some o ↦ o ∷ rest ]

  abbrev pub str_or : BTreeMap V → Text → Text → Text
  str_or obj key default = or_else (str_at obj key) default
