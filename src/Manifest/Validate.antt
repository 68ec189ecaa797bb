-- ===== src/Manifest/Validate.antt =====
-- The whole validation of a manifest (client/src-tauri/src/manifest.rs).
use hydropark_gym.Prelude.{Result, ok, err, Option, none, some, List, [], ◌∷◌, ◌++◌, if◌then◌else◌}
use hydropark_gym.Prelude.Int.{ℤ}
use hydropark_gym.Prelude.Text.{Text, chars, is_empty}
use hydropark_gym.Prelude.TreeMap.{BTreeMap, get}
use hydropark_gym.Prelude.Json.{Json}
use hydropark_gym.Prelude.Float.{Float}
use hydropark_gym.Manifest.Formats.{is_semver, is_skill_id}
use hydropark_gym.Manifest.Sets.{categories, statuses, manifest_versions}
use hydropark_gym.Manifest.Issues.{
  invalid_type, invalid_enum, invalid_semver, invalid_format, Issues, push, contains, quoting,
  in_order, ptr, when_some, found, must_be, check_len, req_string, optional_string,
}
use hydropark_gym.Manifest.Canonical.{CanonicalManifest}
use hydropark_gym.Manifest.Normalize.{normalize}
use hydropark_gym.Manifest.Sections.{
  validate_requirements, validate_persona, validate_capabilities, validate_localization,
  validate_compatibility,
}
use hydropark_gym.Manifest.Pricing.{validate_pricing}
use hydropark_gym.Manifest.Declared.{validate_tools, validate_shared_state, validate_resources}
use hydropark_gym.Manifest.Panels.{validate_ui}
use hydropark_gym.Manifest.References.{validate_referential_integrity}

module _ {V : Type 0} ⦃json : Json V⦄ where
  -- the fields from `manifest_version` to `min_app_version`
  unfoldable pub validate_heading : BTreeMap V → Issues
  unfolding get check_len is_skill_id is_semver
  validate_heading obj =
      optional_string obj (chars "manifest_version") (ptr (chars "manifest_version"))
        (contains manifest_versions)
        (λ s.
          push invalid_enum (quoting (chars "unknown manifest_version ") s [])
            (ptr (chars "manifest_version")))
      ++ (req_string obj (chars "id") (λ id.
            if is_skill_id id
            then []
            else push invalid_format
                (quoting (chars "id ") id (chars " is not a kebab-case slug (2..64 chars)"))
                (ptr (chars "id")))
          ++ (req_string obj (chars "name") (λ name. check_len name 1 60 (chars "/name"))
              ++ (when_some (get (chars "summary") obj) (λ v.
                    found (json.as_str v)
                      (must_be invalid_type (chars "summary") (chars "a string")
                        (ptr (chars "summary")))
                      (λ s. check_len s 0 140 (chars "/summary")))
                  ++ (req_string obj (chars "version") (λ ver.
                        if is_semver ver
                        then []
                        else push invalid_semver
                            (quoting (chars "version ") ver (chars " is not a valid semver"))
                            (ptr (chars "version")))
                      ++ (optional_string obj (chars "status") (ptr (chars "status"))
                            (contains statuses)
                            (λ s.
                              push invalid_enum (quoting (chars "unknown status ") s [])
                                (ptr (chars "status")))
                          ++ (req_string obj (chars "category") (λ cat.
                                if contains categories cat
                                then []
                                else push invalid_enum
                                    (quoting (chars "category ") cat
                                      (chars " is not in the curated taxonomy"))
                                    (ptr (chars "category")))
                              ++ req_string obj (chars "min_app_version") (λ ver.
                                if is_semver ver
                                then []
                                else push invalid_semver
                                    (quoting (chars "min_app_version ") ver
                                      (chars " is not a valid semver"))
                                    (ptr (chars "min_app_version")))))))))

module _ {V F : Type 0} ⦃json : Json V⦄ ⦃float : Float F⦄ (as_f64 : V → Option F) where
  -- what the validators push, one after another
  abbrev pub reports : BTreeMap V → List Issues
  reports obj =
      validate_heading obj
      ∷ validate_requirements obj
      ∷ validate_pricing as_f64 obj
      ∷ validate_persona obj
      ∷ validate_capabilities obj
      ∷ validate_tools obj
      ∷ validate_shared_state obj
      ∷ validate_resources obj
      ∷ validate_localization obj
      ∷ validate_compatibility obj
      ∷ validate_ui obj
      ∷ validate_referential_integrity obj
      ∷ []

  unfoldable pub validate_manifest : BTreeMap V → Issues
  unfolding validate_heading validate_requirements validate_pricing validate_persona
      validate_capabilities validate_tools validate_shared_state validate_resources
      validate_localization validate_compatibility validate_ui validate_referential_integrity
  validate_manifest obj = in_order (reports obj)

  -- the report on an object, whose second parameter is the cast of `normalize`
  unfoldable pub validate_object : (F → ℤ) → BTreeMap V → Result (CanonicalManifest V) Issues
  unfolding validate_manifest normalize is_empty
  validate_object as_i64 obj =
      let issues = validate_manifest obj in
      if is_empty issues then ok (normalize as_f64 as_i64 obj) else err issues

  unfoldable pub validate : (F → ℤ) → V → Result (CanonicalManifest V) Issues
  unfolding validate_object
  validate as_i64 raw = elim (json.as_object raw) [
    | none ↦ err (push invalid_type (chars "manifest root must be a JSON object") [])
    | some obj ↦ validate_object as_i64 obj
  ]

  -- `serde_json::from_str`, with the text of its error, is the parameter `from_str`
  unfoldable pub validate_json :
      (F → ℤ) → (Text → Result V Text) → Text → Result (CanonicalManifest V) Issues
  unfolding validate
  validate_json as_i64 from_str input = elim (from_str input) [
    | ok v ↦ validate as_i64 v
    | err e ↦ err (push invalid_type (chars "manifest is not valid JSON: " ++ e) [])
  ]
