-- ===== src/Examples/Manifest.antt =====
-- A manifest with a timer panel, and copies of it with a mistake (client/src-tauri/src/manifest.rs).
use hydropark_gym.Prelude.{◌≡◌, refl, true, some, List, [], ◌∷◌, map, Result, ok, err}
use hydropark_gym.Prelude.Int.{pos}
use hydropark_gym.Prelude.Text.{chars, text_eqb}
use hydropark_gym.Prelude.Utf8.{len_utf8}
use hydropark_gym.Prelude.TreeMap.{BTreeMap, get}
use hydropark_gym.Samples.Doc.{Doc, bool, num, str, nil, item, end, field, doc_json}
use hydropark_gym.Samples.Nats.{nat_float}
use hydropark_gym.Samples.Manifests.{as_number, timer_panel, manifest, sous_chef}
use hydropark_gym.Manifest.Issues.{
  Code, Issues, each_from, duplicate_panel_id, unknown_state_ref, unknown_property,
  invalid_asset_path,
}
use hydropark_gym.Manifest.Canonical.{CanonicalManifest}
use hydropark_gym.Manifest.Formats.{is_ident_name, is_slot_schema_shape, is_svg_asset_path}
use hydropark_gym.Manifest.Declared.{validate_tool}
use hydropark_gym.Manifest.Sets.{inline_prop_keys}
use hydropark_gym.Manifest.Widgets.{fold_inline}
use hydropark_gym.Manifest.Validate.{validate}
use hydropark_gym.Manifest.Sound.{Outcome, validate_lem}
use hydropark_gym.Manifest.Shorthand.{get-fold_inline}

-- the codes of a report, none for an accepted manifest
abbrev codes : Result (CanonicalManifest Doc) Issues → List Code
codes (ok m) = []
codes (err issues) = map (λ i. i.code) issues

abbrev report : Doc → List Code
report raw = codes (validate as_number pos raw)

sous_chef_accepted : report sous_chef ≡ []
unfolding validate doc_json nat_float text_eqb len_utf8 each_from validate_tool is_ident_name
    is_slot_schema_shape is_svg_asset_path
sous_chef_accepted = refl

two_panels :
    report (
      manifest
        (chars "icons/pan.svg")
        (item (timer_panel (chars "running") end) (item (timer_panel (chars "gone") end) nil)))
    ≡ duplicate_panel_id ∷ unknown_state_ref ∷ []
unfolding validate doc_json nat_float text_eqb len_utf8 each_from validate_tool is_ident_name
    is_slot_schema_shape is_svg_asset_path
two_panels = refl

outside : report (manifest (chars "../pan.svg") nil) ≡ invalid_asset_path ∷ []
unfolding validate doc_json nat_float text_eqb len_utf8 each_from validate_tool is_ident_name
    is_slot_schema_shape is_svg_asset_path
outside = refl

foreign_key :
    report (
      manifest
        (chars "pan.svg")
        (item (timer_panel (chars "running") (field (chars "columns") (num 2) end)) nil))
    ≡ unknown_property ∷ []
unfolding validate doc_json nat_float text_eqb len_utf8 each_from validate_tool is_ident_name
    is_slot_schema_shape is_svg_asset_path
foreign_key = refl

validate_lem_example : Outcome as_number pos (validate as_number pos sous_chef)
validate_lem_example = validate_lem as_number pos sous_chef

-- a timer panel with an inline key
abbrev inline_panel : BTreeMap Doc
inline_panel = (chars "id", str (chars "timers")) ∷ (chars "multi", bool true) ∷ []

get-fold_inline_example :
    get (chars "multi") (fold_inline inline_panel (inline_prop_keys (chars "timer_stack")) [])
    ≡ some (bool true)
unfolding get inline_prop_keys text_eqb
get-fold_inline_example =
    get-fold_inline inline_panel (inline_prop_keys (chars "timer_stack")) (chars "multi") []
