-- ===== src/Manifest/Declared.antt =====
-- The tools, slots and resources that a manifest declares (client/src-tauri/src/manifest.rs).
use hydropark_gym.Prelude.{ℕ, Option, [], ◌++◌}
use hydropark_gym.Prelude.Text.{Text, chars}
use hydropark_gym.Prelude.TreeMap.{BTreeMap, get}
use hydropark_gym.Prelude.Json.{Json}
use hydropark_gym.Manifest.Formats.{
  is_ident_name, is_locale, is_svg_asset_path, is_slot_schema_shape,
}
use hydropark_gym.Manifest.Access.{str_at}
use hydropark_gym.Manifest.Sets.{tool_refs, access_modes}
use hydropark_gym.Manifest.Issues.{
  missing_field, invalid_type, invalid_enum, invalid_format, invalid_asset_path,
  invalid_slot_schema, unknown_tool_ref, Issues, push, contains, quoting, ptr, at_index, at_key,
  when_some, expect, found, each, must_be, optional_string, strings_at,
}

module _ {V : Type 0} ⦃json : Json V⦄ where
  -- the arguments are the field and its pointer
  unfoldable pub validate_slot_ref_array : Option V → Text → Issues
  validate_slot_ref_array o pointer = when_some o (λ v.
      found (json.as_array v) (push invalid_type (chars "must be an array of slot names") pointer)
        (λ arr.
          each
            (λ i e.
              expect (json.as_str e) is_ident_name
                (λ s.
                  push invalid_format (chars "slot name must be snake_case") (at_index pointer i))
                (push invalid_type (chars "slot name must be a string") (at_index pointer i)))
            arr))

  -- the loop body of `validate_tools`
  unfoldable pub validate_tool : ℕ → V → Issues
  unfolding get validate_slot_ref_array
  validate_tool i t =
      let base = at_index (chars "/tools") i in
      found (json.as_object t) (push invalid_type (chars "tool entry must be an object") base)
        (λ to.
          expect (str_at to (chars "ref")) (contains tool_refs)
            (λ r.
              push unknown_tool_ref
                (quoting (chars "tool ref ") r (chars " is not in the fixed first-party catalog"))
                (at_key base (chars "ref")))
            (push missing_field (chars "tool entry needs a 'ref'") (at_key base (chars "ref")))
          ++ (when_some (get (chars "config") to) (λ cfg.
                found (json.as_object cfg)
                  (push invalid_type (chars "tool 'config' must be an object")
                    (at_key base (chars "config")))
                  (λ o. []))
              ++ (validate_slot_ref_array (get (chars "reads_state") to)
                    (at_key base (chars "reads_state"))
                  ++ (validate_slot_ref_array (get (chars "writes_state") to)
                        (at_key base (chars "writes_state"))
                      ++ optional_string to (chars "updates_widget")
                          (at_key base (chars "updates_widget")) is_ident_name
                          (λ s.
                            must_be invalid_format (chars "updates_widget")
                              (chars "a snake_case widget id")
                              (at_key base (chars "updates_widget")))))))

  unfoldable pub validate_tools : BTreeMap V → Issues
  unfolding get
  validate_tools obj = when_some (get (chars "tools") obj) (λ v.
      found (json.as_array v)
        (must_be invalid_type (chars "tools") (chars "an array") (ptr (chars "tools")))
        (λ arr. each validate_tool arr))

  -- the loop body of `validate_shared_state`
  unfoldable pub validate_slot : ℕ → V → Issues
  unfolding get
  validate_slot i s =
      let base = at_index (chars "/shared_state") i in
      found (json.as_object s)
        (push invalid_type (chars "shared_state entry must be an object") base)
        (λ so.
          expect (str_at so (chars "slot")) is_ident_name
            (λ n.
              must_be invalid_format (chars "slot") (chars "a snake_case name")
                (at_key base (chars "slot")))
            (push missing_field (chars "shared_state entry needs a 'slot'")
              (at_key base (chars "slot")))
          ++ (expect (str_at so (chars "access")) (contains access_modes)
                (λ a.
                  push invalid_enum
                    (quoting (chars "access ") a (chars " must be 'read' or 'read_write'"))
                    (at_key base (chars "access")))
                (push missing_field (chars "shared_state entry needs an 'access'")
                  (at_key base (chars "access")))
              ++ expect (str_at so (chars "schema")) is_slot_schema_shape
                  (λ sc.
                    push invalid_slot_schema
                      (quoting (chars "schema ") sc
                        (chars " is not in the closed type language (scalar<…>/list<…>/record<…>)"))
                      (at_key base (chars "schema")))
                  (push missing_field (chars "shared_state entry needs a 'schema'")
                    (at_key base (chars "schema")))))

  unfoldable pub validate_shared_state : BTreeMap V → Issues
  unfolding get validate_slot
  validate_shared_state obj = when_some (get (chars "shared_state") obj) (λ v.
      found (json.as_array v)
        (must_be invalid_type (chars "shared_state") (chars "an array")
          (ptr (chars "shared_state")))
        (λ arr. each validate_slot arr))

  unfoldable pub validate_resources : BTreeMap V → Issues
  unfolding get
  validate_resources obj = when_some (get (chars "resources") obj) (λ v.
      found (json.as_object v)
        (must_be invalid_type (chars "resources") (chars "an object") (ptr (chars "resources")))
        (λ r.
          optional_string r (chars "icon") (chars "/resources/icon") is_svg_asset_path (λ s.
            must_be invalid_asset_path (chars "icon")
              (chars "a package-relative sanitized-SVG path") (chars "/resources/icon"))
          ++ (strings_at r (chars "assets") (chars "/resources/assets") is_svg_asset_path
                (λ pointer.
                  push invalid_asset_path
                    (chars
                      "asset must be a package-relative sanitized-SVG path (no remote URLs, no non-.svg)")
                    pointer)
                (chars "asset")
              ++ strings_at r (chars "strings") (chars "/resources/strings") is_locale
                  (λ pointer.
                    push invalid_format (chars "locale must be a BCP-47 code (e.g. 'en', 'en-US')")
                      pointer)
                  (chars "locale"))))
