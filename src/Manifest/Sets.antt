-- ===== src/Manifest/Sets.antt =====
-- The closed sets of a manifest (client/src-tauri/src/manifest.rs).
use hydropark_gym.Prelude.{List, [], ◌∷◌, if◌then◌else◌}
use hydropark_gym.Prelude.Text.{Text, chars}
use hydropark_gym.Manifest.Issues.{contains}

abbrev pub tool_refs : List Text
tool_refs =
    chars "start_timer"
    ∷ chars "convert_units"
    ∷ chars "list_manage"
    ∷ chars "calculate"
    ∷ chars "date_math"
    ∷ []

abbrev pub capabilities : List Text
capabilities =
    chars "timers"
    ∷ chars "unit_conversion"
    ∷ chars "list_management"
    ∷ chars "calculation"
    ∷ chars "date_math"
    ∷ []

abbrev pub widget_types : List Text
widget_types =
    chars "chat"
    ∷ chars "timer_stack"
    ∷ chars "editable_list"
    ∷ chars "segmented_toggle"
    ∷ chars "switch"
    ∷ chars "key_value_panel"
    ∷ chars "slider"
    ∷ chars "stepper"
    ∷ chars "table"
    ∷ chars "quick_actions"
    ∷ chars "media_note"
    ∷ chars "tabs"
    ∷ chars "progress"
    ∷ chars "date_time_picker"
    ∷ []

abbrev pub categories : List Text
categories =
    chars "Home & Lifestyle"
    ∷ chars "Cooking"
    ∷ chars "Travel"
    ∷ chars "Home & DIY"
    ∷ chars "Nutrition"
    ∷ chars "Budgeting"
    ∷ chars "Study & Reading"
    ∷ chars "Productivity"
    ∷ chars "Other"
    ∷ []

abbrev pub model_tiers : List Text
model_tiers = chars "small" ∷ chars "mid" ∷ []

abbrev pub regions : List Text
regions = chars "side" ∷ chars "bottom" ∷ chars "inline" ∷ []

abbrev pub access_modes : List Text
access_modes = chars "read" ∷ chars "read_write" ∷ []

abbrev pub roles : List Text
roles = chars "primary_eligible" ∷ chars "secondary_only" ∷ []

abbrev pub statuses : List Text
statuses = chars "published" ∷ chars "deprecated" ∷ chars "withdrawn" ∷ []

abbrev pub unit_systems : List Text
unit_systems = chars "US" ∷ chars "Metric" ∷ chars "auto" ∷ []

abbrev pub manifest_versions : List Text
manifest_versions = chars "1.0" ∷ []

abbrev pub canonical_panel_keys : List Text
canonical_panel_keys =
    chars "type"
    ∷ chars "id"
    ∷ chars "title"
    ∷ chars "region"
    ∷ chars "priority"
    ∷ chars "props"
    ∷ chars "binds_state"
    ∷ chars "binds_tool"
    ∷ chars "emits"
    ∷ chars "min_widget_version"
    ∷ []

-- the roles of a few-shot entry
abbrev pub speakers : List Text
speakers = chars "user" ∷ chars "assistant" ∷ []

unfoldable pub inline_prop_keys : Text → List Text
inline_prop_keys widget_type =
    if contains (chars "timer_stack" ∷ []) widget_type
    then chars "multi" ∷ []
    else if contains (chars "editable_list" ∷ []) widget_type
    then chars "checkable" ∷ chars "reorderable" ∷ chars "max_items" ∷ []
    else if contains (chars "segmented_toggle" ∷ chars "switch" ∷ []) widget_type
    then chars "options" ∷ chars "default" ∷ []
    else if contains (chars "slider" ∷ chars "stepper" ∷ []) widget_type
    then chars "min" ∷ chars "max" ∷ chars "step" ∷ chars "default" ∷ []
    else if contains (chars "table" ∷ []) widget_type
    then chars "columns" ∷ []
    else if contains (chars "quick_actions" ∷ []) widget_type
    then chars "actions" ∷ []
    else if contains (chars "progress" ∷ []) widget_type
    then chars "mode" ∷ []
    else if contains (chars "date_time_picker" ∷ []) widget_type
    then chars "mode" ∷ chars "min" ∷ chars "max" ∷ []
    else if contains (chars "media_note" ∷ []) widget_type
    then chars "image" ∷ chars "body" ∷ []
    else if contains (chars "tabs" ∷ []) widget_type
    then chars "tab_ids" ∷ []
    else []
