-- ===== src/Manifest/Widgets.antt =====
-- The defaults of the widget types and the canonical form of a panel
-- (client/src-tauri/src/manifest.rs).
use hydropark_gym.Prelude.{Bool, Option, none, some, List, [], ◌∷◌, map, if◌then◌else◌}
use hydropark_gym.Prelude.Int.{ℤ, pos}
use hydropark_gym.Prelude.Text.{Text, chars}
use hydropark_gym.Prelude.TreeMap.{BTreeMap, get, insert}
use hydropark_gym.Prelude.Json.{Json}
use hydropark_gym.Manifest.Issues.{contains}
use hydropark_gym.Manifest.Sets.{inline_prop_keys}
use hydropark_gym.Manifest.Access.{
  str_at, str_or, value_get, then_str, or_else, then_object, then_i64, then_bool,
}
use hydropark_gym.Manifest.Canonical.{Emit, Panel}

abbrev pub default_priority : ℤ
default_priority = pos 50

unfoldable pub default_region : Text → Text
default_region widget_type =
    if contains
      (chars "timer_stack"
        ∷ chars "editable_list"
        ∷ chars "key_value_panel"
        ∷ chars "media_note"
        ∷ chars "tabs"
        ∷ [])
      widget_type
    then chars "side"
    else if contains
        (chars "segmented_toggle"
          ∷ chars "switch"
          ∷ chars "slider"
          ∷ chars "stepper"
          ∷ chars "quick_actions"
          ∷ chars "progress"
          ∷ chars "date_time_picker"
          ∷ [])
        widget_type
    then chars "bottom"
    else chars "inline"

unfoldable pub default_to_chat : Text → Bool
default_to_chat widget_type = contains (chars "timer_stack" ∷ []) widget_type

unfoldable pub default_event_names : Text → List Text
default_event_names widget_type =
    if contains (chars "timer_stack" ∷ []) widget_type
    then chars "timer_finished" ∷ []
    else if contains (chars "editable_list" ∷ []) widget_type
    then chars "item_checked" ∷ []
    else if contains
        (chars "segmented_toggle"
          ∷ chars "switch"
          ∷ chars "slider"
          ∷ chars "stepper"
          ∷ chars "date_time_picker"
          ∷ [])
        widget_type
    then chars "changed" ∷ []
    else if contains (chars "quick_actions" ∷ []) widget_type
    then chars "action" ∷ []
    else if contains (chars "progress" ∷ []) widget_type
    then chars "complete" ∷ []
    else []

module _ {V : Type 0} ⦃json : Json V⦄ where
  -- `entry(k).or_insert_with(..)`
  abbrev pub or_insert : Text → V → BTreeMap V → BTreeMap V
  or_insert k v props = elim (get k props) [ none ↦ insert k v props | some w ↦ props ]

  abbrev pub fold_key : BTreeMap V → Text → BTreeMap V → BTreeMap V
  fold_key p k props = elim (get k p) [ none ↦ props | some v ↦ or_insert k v props ]

  -- the loop over the inline shorthand keys
  unfoldable pub fold_inline : BTreeMap V → List Text → BTreeMap V → BTreeMap V
  fold_inline p [] props = props
  fold_inline p (k ∷ keys) props = fold_inline p keys (fold_key p k props)

  -- the closure over the entries of `emits`
  abbrev normalize_emit : Text → V → Option Emit
  normalize_emit widget_type e = elim (json.as_str e) [
    | some s ↦ some (record { name = s; to_chat = default_to_chat widget_type })
    | none ↦ elim (then_str (value_get (chars "name") e)) [
      | none ↦ none
      | some name ↦ some (record {
        name = name;
        to_chat = or_else (then_bool (value_get (chars "to_chat") e)) (default_to_chat widget_type);
      })
    ]
  ]

  abbrev normalize_entries : Text → List V → List Emit
  normalize_entries widget_type [] = []
  normalize_entries widget_type (e ∷ arr) =
      let rest = normalize_entries widget_type arr in
      elim (normalize_emit widget_type e) [ none ↦ rest | some emit ↦ emit ∷ rest ]

  abbrev then_array : Option V → Option (List V)
  then_array none = none
  then_array (some v) = json.as_array v

  abbrev pub normalize_emits : Option V → Text → List Emit
  normalize_emits v widget_type = elim (then_array v) [
    | none ↦
        map (λ n. record { name = n; to_chat = default_to_chat widget_type })
          (default_event_names widget_type)
    | some arr ↦ normalize_entries widget_type arr
  ]

  unfoldable pub normalize_panel : BTreeMap V → Panel V
  unfolding get insert inline_prop_keys default_region default_to_chat default_event_names
      fold_inline
  normalize_panel p =
      let widget_type = str_or p (chars "type") [] in
      let props = or_else (then_object (get (chars "props") p)) [] in
      record {
        widget_type = widget_type;
        id = str_or p (chars "id") [];
        title = str_at p (chars "title");
        region = str_or p (chars "region") (default_region widget_type);
        priority = or_else (then_i64 (get (chars "priority") p)) default_priority;
        props = json.object (fold_inline p (inline_prop_keys widget_type) props);
        binds_state = str_at p (chars "binds_state");
        binds_tool = str_at p (chars "binds_tool");
        emits = normalize_emits (get (chars "emits") p) widget_type;
        min_widget_version = str_or p (chars "min_widget_version") (chars "1.0");
      }
