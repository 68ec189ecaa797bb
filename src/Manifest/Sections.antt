-- ===== src/Manifest/Sections.antt =====
-- The sections of a manifest beside what it declares (client/src-tauri/src/manifest.rs).
use hydropark_gym.Prelude.{ℕ, not, [], ◌++◌, if◌then◌else◌}
use hydropark_gym.Prelude.Text.{chars, is_empty}
use hydropark_gym.Prelude.TreeMap.{BTreeMap, get}
use hydropark_gym.Prelude.Json.{Json}
use hydropark_gym.Manifest.Formats.{is_skill_id, is_locale}
use hydropark_gym.Manifest.Access.{str_at}
use hydropark_gym.Manifest.Sets.{capabilities, model_tiers, roles, unit_systems, speakers}
use hydropark_gym.Manifest.Issues.{
  missing_field, invalid_type, invalid_enum, invalid_format, unknown_capability, Issues, push,
  contains, quoting, ptr, at_index, at_key, when_some, expect, found, each, must_be, check_len,
  required, optional_string, req_int, strings_at,
}

module _ {V : Type 0} ⦃json : Json V⦄ where
  unfoldable pub validate_requirements : BTreeMap V → Issues
  unfolding get req_int
  validate_requirements obj =
      required obj json.as_object (chars "requirements") (chars "an object")
        (ptr (chars "requirements"))
        (λ r.
          required r json.as_str (chars "min_model_tier") (chars "a string")
            (chars "/requirements/min_model_tier")
            (λ s.
              if contains model_tiers s
              then []
              else push invalid_enum (quoting (chars "unknown min_model_tier ") s [])
                  (chars "/requirements/min_model_tier"))
          ++ (when_some (get (chars "min_params_b") r)
                (λ v. req_int v 1 100 (chars "min_params_b") (chars "/requirements/min_params_b"))
              ++ when_some (get (chars "min_ram_gb") r)
                  (λ v. req_int v 1 1024 (chars "min_ram_gb") (chars "/requirements/min_ram_gb"))))

  -- the loop body over the few-shot entries
  validate_few_shot : ℕ → V → Issues
  unfolding get is_empty
  validate_few_shot i e =
      let base = at_index (chars "/persona/few_shot") i in
      found (json.as_object e) (push invalid_type (chars "few_shot entry must be an object") base)
        (λ eo.
          expect (str_at eo (chars "role")) (contains speakers)
            (λ r.
              push invalid_enum
                (quoting (chars "few_shot role ") r (chars " must be 'user' or 'assistant'"))
                (at_key base (chars "role")))
            (push missing_field (chars "few_shot entry needs a 'role'")
              (at_key base (chars "role")))
          ++ expect (str_at eo (chars "content")) (λ c. not (is_empty c))
              (λ c.
                push missing_field (chars "few_shot entry needs non-empty 'content'")
                  (at_key base (chars "content")))
              (push missing_field (chars "few_shot entry needs non-empty 'content'")
                (at_key base (chars "content"))))

  unfoldable pub validate_persona : BTreeMap V → Issues
  unfolding get check_len validate_few_shot
  validate_persona obj =
      required obj json.as_object (chars "persona") (chars "an object") (ptr (chars "persona"))
        (λ p.
          required p json.as_str (chars "system_prompt") (chars "a string")
            (chars "/persona/system_prompt")
            (λ s. check_len s 1 16000 (chars "/persona/system_prompt"))
          ++ (required p json.as_str (chars "compressed_prompt") (chars "a string")
                (chars "/persona/compressed_prompt")
                (λ s. check_len s 1 400 (chars "/persona/compressed_prompt"))
              ++ (optional_string p (chars "role") (chars "/persona/role") (contains roles) (λ s.
                    push invalid_enum (quoting (chars "unknown persona role ") s [])
                      (chars "/persona/role"))
                  ++ when_some (get (chars "few_shot") p) (λ v.
                    found (json.as_array v)
                      (must_be invalid_type (chars "few_shot") (chars "an array")
                        (chars "/persona/few_shot"))
                      (λ arr. each validate_few_shot arr)))))

  unfoldable pub validate_capabilities : BTreeMap V → Issues
  unfolding get
  validate_capabilities obj = when_some (get (chars "capabilities") obj) (λ v.
      found (json.as_array v)
        (must_be invalid_type (chars "capabilities") (chars "an array")
          (ptr (chars "capabilities")))
        (λ arr.
          each
            (λ i e.
              expect (json.as_str e) (contains capabilities)
                (λ s.
                  push unknown_capability
                    (quoting (chars "capability ") s (
                      chars
                        " is not a first-party tool category (no network/file/system capabilities exist for v1 skills)"))
                    (at_index (chars "/capabilities") i))
                (push invalid_type (chars "capability must be a string")
                  (at_index (chars "/capabilities") i)))
            arr))

  unfoldable pub validate_localization : BTreeMap V → Issues
  unfolding get
  validate_localization obj = when_some (get (chars "localization") obj) (λ v.
      found (json.as_object v)
        (must_be invalid_type (chars "localization") (chars "an object")
          (ptr (chars "localization")))
        (λ l.
          optional_string l (chars "default_locale") (chars "/localization/default_locale")
            is_locale
            (λ s.
              must_be invalid_format (chars "default_locale") (chars "a BCP-47 locale")
                (chars "/localization/default_locale"))
          ++ optional_string l (chars "unit_system_default")
              (chars "/localization/unit_system_default") (contains unit_systems)
              (λ s.
                push invalid_enum
                  (quoting (chars "unit_system_default ") s (chars " must be US/Metric/auto"))
                  (chars "/localization/unit_system_default"))))

  unfoldable pub validate_compatibility : BTreeMap V → Issues
  unfolding get req_int
  validate_compatibility obj = when_some (get (chars "compatibility") obj) (λ v.
      found (json.as_object v)
        (must_be invalid_type (chars "compatibility") (chars "an object")
          (ptr (chars "compatibility")))
        (λ c.
          strings_at c (chars "conflicts_with") (chars "/compatibility/conflicts_with") is_skill_id
            (λ pointer.
              push invalid_format (chars "conflicts_with entry must be a skill id") pointer)
            (chars "conflicts_with entry")
          ++ when_some (get (chars "combine_priority") c) (λ v.
            req_int v 0 100 (chars "combine_priority") (chars "/compatibility/combine_priority"))))
