-- ===== src/Manifest/Panels.antt =====
-- The panels of a manifest (client/src-tauri/src/manifest.rs).
use hydropark_gym.Prelude.{
  ℕ, Bool, not, ◌&&◌, Option, none, some, List, [], ◌∷◌, ◌++◌, if◌then◌else◌,
}
use hydropark_gym.Prelude.Text.{Text, chars}
use hydropark_gym.Prelude.TreeMap.{BTreeMap, get}
use hydropark_gym.Prelude.Json.{Json}
use hydropark_gym.Manifest.Formats.{is_widget_version, is_ident_name}
use hydropark_gym.Manifest.Access.{str_at}
use hydropark_gym.Manifest.Sets.{
  tool_refs, widget_types, regions, canonical_panel_keys, inline_prop_keys,
}
use hydropark_gym.Manifest.Issues.{
  missing_field, invalid_type, invalid_enum, invalid_format, unknown_tool_ref, unknown_widget_type,
  unknown_property, Issues, push, contains, quoting, ptr, at_index, at_key, when_some, expect,
  found, each, must_be, check_len, req_int,
}

-- the loop over the keys of a panel
unknown_keys {ℓ} : {A : Type ℓ} → Text → Text → List Text → BTreeMap A → Issues
unknown_keys wt base inline [] = []
unknown_keys wt base inline ((k, v) ∷ po) =
    (if not (contains canonical_panel_keys k) && not (contains inline k)
      then push unknown_property
          (quoting (chars "panel key ") k (quoting (chars " is not valid for widget type ") wt []))
          (at_key base k)
      else [])
    ++ unknown_keys wt base inline po

-- the guard against unknown keys, for the declared widget type when it is in the library
abbrev guard_keys {ℓ} : {A : Type ℓ} → Text → BTreeMap A → Option Text → Issues
guard_keys base po none = []
guard_keys base po (some wt) =
    let issues = unknown_keys wt base (inline_prop_keys wt) po in
    if contains widget_types wt then issues else []

module _ {V : Type 0} ⦃json : Json V⦄ where
  -- `{name, to_chat?}`
  validate_emit_object : Text → BTreeMap V → Issues
  unfolding get check_len
  validate_emit_object ep eo =
      found (str_at eo (chars "name"))
        (push missing_field (chars "emit entry needs a 'name'") (at_key ep (chars "name")))
        (λ n. check_len n 1 48 (at_key ep (chars "name")))
      ++ when_some (get (chars "to_chat") eo) (λ tc.
        found (json.as_bool tc)
          (must_be invalid_type (chars "to_chat") (chars "a boolean") (at_key ep (chars "to_chat")))
          (λ b. []))

  -- the loop body over `emits`
  validate_emit : Text → ℕ → V → Issues
  unfolding check_len validate_emit_object
  validate_emit base j e =
      let ep = at_index (at_key base (chars "emits")) j in
      found (json.as_str e)
        (found (json.as_object e)
          (push invalid_type (chars "emit entry must be a string or object") ep)
          (validate_emit_object ep))
        (λ s. check_len s 1 48 ep)

  -- a field of a panel whose values are strings, with the message for another type
  abbrev panel_string : BTreeMap V → Text → Text → Text → (Text → Bool) → (Text → Issues) → Issues
  panel_string po base key label is_ok bad = when_some (get key po) (λ v.
      expect (json.as_str v) is_ok bad
        (push invalid_type (label ++ quoting [] key (chars " must be a string")) (at_key base key)))

  -- `type`, `id`, `title`, `region`, `priority` and `props`
  unfoldable pub validate_panel_layout : Text → BTreeMap V → Issues
  unfolding get check_len req_int
  validate_panel_layout base po =
      expect (str_at po (chars "type")) (contains widget_types)
        (λ t.
          push unknown_widget_type
            (quoting (chars "widget type ") t (chars " is not in the v1 widget library"))
            (at_key base (chars "type")))
        (push missing_field (chars "panel needs a 'type'") (at_key base (chars "type")))
      ++ (expect (str_at po (chars "id")) is_ident_name
            (λ s.
              push invalid_format (chars "panel 'id' must be a snake_case identifier")
                (at_key base (chars "id")))
            (push missing_field (chars "panel needs an 'id'") (at_key base (chars "id")))
          ++ (when_some (get (chars "title") po) (λ v.
                found (json.as_str v)
                  (push invalid_type (chars "panel 'title' must be a string")
                    (at_key base (chars "title")))
                  (λ s. check_len s 0 80 (at_key base (chars "title"))))
              ++ (panel_string po base (chars "region") (chars "panel ") (contains regions) (λ s.
                    push invalid_enum
                      (quoting (chars "region ") s (chars " must be side/bottom/inline"))
                      (at_key base (chars "region")))
                  ++ (when_some (get (chars "priority") po)
                        (λ v. req_int v 0 100 (chars "priority") (at_key base (chars "priority")))
                      ++ when_some (get (chars "props") po) (λ v.
                        found (json.as_object v)
                          (push invalid_type (chars "panel 'props' must be an object")
                            (at_key base (chars "props")))
                          (λ o. []))))))

  -- `binds_state`, `binds_tool`, `min_widget_version` and `emits`
  validate_panel_bindings : Text → BTreeMap V → Issues
  unfolding get validate_emit
  validate_panel_bindings base po =
      panel_string po base (chars "binds_state") [] is_ident_name (λ s.
        must_be invalid_format (chars "binds_state") (chars "a snake_case slot name")
          (at_key base (chars "binds_state")))
      ++ (panel_string po base (chars "binds_tool") [] (contains tool_refs) (λ s.
            push unknown_tool_ref (chars "'binds_tool' is not a catalog tool ref")
              (at_key base (chars "binds_tool")))
          ++ (panel_string po base (chars "min_widget_version") [] is_widget_version (λ s.
                push invalid_format (chars "'min_widget_version' must look like '1.0'")
                  (at_key base (chars "min_widget_version")))
              ++ when_some (get (chars "emits") po) (λ v.
                found (json.as_array v)
                  (must_be invalid_type (chars "emits") (chars "an array")
                    (at_key base (chars "emits")))
                  (λ arr. each (validate_emit base) arr))))

  unfoldable pub validate_panel : ℕ → V → Issues
  unfolding get unknown_keys inline_prop_keys validate_panel_layout validate_panel_bindings
  validate_panel i p =
      let base = at_index (chars "/ui/panels") i in
      found (json.as_object p) (push invalid_type (chars "panel must be an object") base) (λ po.
        validate_panel_layout base po
        ++ (validate_panel_bindings base po ++ guard_keys base po (str_at po (chars "type"))))

  unfoldable pub validate_ui : BTreeMap V → Issues
  unfolding get validate_panel
  validate_ui obj = when_some (get (chars "ui") obj) (λ v.
      found (json.as_object v)
        (must_be invalid_type (chars "ui") (chars "an object") (ptr (chars "ui")))
        (λ ui.
          found (get (chars "panels") ui)
            (push missing_field (chars "'ui' requires 'panels'") (chars "/ui/panels"))
            (λ w.
              found (json.as_array w)
                (must_be invalid_type (chars "panels") (chars "an array") (chars "/ui/panels"))
                (λ panels. each validate_panel panels))))
