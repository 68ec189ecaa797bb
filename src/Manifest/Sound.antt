-- ===== src/Manifest/Sound.antt =====
-- The validation and the normalization together (client/src-tauri/src/manifest.rs).
use hydropark_gym.Prelude.{
  ◌≡◌, ◌≢◌, if◌then◌else◌, refl, subst, arith, Option, [], ◌∷◌, All, All-map, Distinct,
  Option-cases, Result, ok, err, inl, inr,
}
use hydropark_gym.Prelude.Int.{ℤ}
use hydropark_gym.Prelude.Text.{chars, is_empty}
use hydropark_gym.Prelude.TreeMap.{BTreeMap, get}
use hydropark_gym.Prelude.Json.{Json}
use hydropark_gym.Prelude.Float.{Float}
use hydropark_gym.Manifest.Issues.{Issues}
use hydropark_gym.Manifest.Access.{then_str, elements, strings_of, then_object, field}
use hydropark_gym.Manifest.Canonical.{CanonicalManifest}
use hydropark_gym.Manifest.Normalize.{normalize}
use hydropark_gym.Manifest.References.{declared_tools, declared_slots, declared_locales, panels_of}
use hydropark_gym.Manifest.Validate.{reports, validate_manifest, validate_object, validate}
use hydropark_gym.Manifest.Paths.{is_svg_asset_path-IsConfined, is_skill_id-IsComponent}
use hydropark_gym.Manifest.Clean.{in_order-nil}
use hydropark_gym.Manifest.Consistent.{IsLocaleDeclared, validate_referential_integrity-nil}
use hydropark_gym.Manifest.Entries.{
  IsNamedIn-IsNamed, validate_capabilities-nil, validate_tools-nil, validate_shared_state-nil,
}
use hydropark_gym.Manifest.Accepted.{validate_ui-nil, validate_resources-nil}
use hydropark_gym.Manifest.Safe.{
  IsSafe, slots, IsSafeTool, IsSafePanel, tools-safe, panels-safe, slots-eq, refs-eq, ids-eq,
  field-object, id-passes,
}

module _ {V F : Type 0} ⦃json : Json V⦄ ⦃float : Float F⦄ (as_f64 : V → Option F)
    (as_i64 : F → ℤ) where
  validate_manifest-nil :
      (obj : BTreeMap V)
      → validate_manifest as_f64 obj ≡ []
      → IsSafe V (normalize as_f64 as_i64 obj)
  unfolding validate_manifest normalize
  validate_manifest-nil obj e =
      let (
        heading,
        (_, (_, (_, (caps, (tools, (state, (resources, (_, (_, (ui, (refs_ok, _))))))))))),
      ) =
        in_order-nil (reports as_f64 obj) e in
      let m = normalize as_f64 as_i64 obj in
      let named = validate_tools-nil obj tools in
      let panels = validate_ui-nil obj ui in
      let consistent = validate_referential_integrity-nil obj refs_ok in
      let fit = consistent.panels in
      let same_slots =
        slots-eq as_f64 as_i64 obj
          (IsNamedIn-IsNamed _ _ _ (validate_shared_state-nil obj state)) in
      let same_refs = refs-eq as_f64 as_i64 obj (IsNamedIn-IsNamed _ _ _ named) in
      record {
        granted = validate_capabilities-nil obj caps;
        tools =
            subst (λ z. All (IsSafeTool z) m.tools) same_slots
              (tools-safe (declared_slots obj) (elements (get (chars "tools") obj)) named
                consistent.tools);
        panels =
            subst (λ z. All (IsSafePanel z (slots m)) m.ui.panels) same_refs
              (subst (λ z. All (IsSafePanel (declared_tools obj) z) m.ui.panels) same_slots
                (panels-safe (declared_tools obj) (declared_slots obj) (panels_of obj) panels
                  fit.2));
        ids =
            subst Distinct
              (ids-eq as_f64 as_i64 obj
                (IsNamedIn-IsNamed _ _ _ (All-map _ _ (panels_of obj) (λ p q. q.1) panels)))
              fit.1;
        id = is_skill_id-IsComponent m.id (id-passes obj heading);
        locale =
            subst
              (λ z. IsLocaleDeclared (strings_of json.as_str (elements z)) (
                then_str
                  (field (chars "default_locale") (then_object (get (chars "localization") obj)))))
              (field-object (chars "strings") (get (chars "resources") obj))
              (subst (λ z. IsLocaleDeclared (declared_locales obj) (then_str z))
                (field-object (chars "default_locale") (get (chars "localization") obj))
                consistent.locale);
        assets =
            All-map _ _ m.resources.assets is_svg_asset_path-IsConfined
              (validate_resources-nil obj resources);
      }

  -- what a report says
  abbrev pub Outcome : Result (CanonicalManifest V) Issues → Type 0
  Outcome (ok m) = IsSafe V m
  Outcome (err issues) = issues ≢ []

  report-Outcome :
      (obj : BTreeMap V) (issues : Issues)
      → validate_manifest as_f64 obj ≡ issues
      → Outcome (if is_empty issues then ok (normalize as_f64 as_i64 obj) else err issues)
  unfolding is_empty
  report-Outcome obj [] e = validate_manifest-nil obj e
  report-Outcome obj (i ∷ issues) e = λ h. absurd (ground arith)

  -- A manifest is refused with at least one issue, or accepted in a canonical form in which every
  -- capability, tool ref and widget type is of its closed set; every slot that a tool reads or writes
  -- and every slot and tool that a panel is bound to is declared in the manifest; no two panels have
  -- the same id; a default locale is one of the declared locales, if there are any; the skill id is a
  -- name without separators, not empty, `.` or `..`, and so is every component of every asset path.
  pub validate_lem : (raw : V) → Outcome (validate as_f64 as_i64 raw)
  unfolding validate validate_object
  validate_lem raw = elim (Option-cases (json.as_object raw)) [
    | inl h ↦ rw (h, Outcome) (λ e. absurd (ground arith))
    | inr (obj, h) ↦ rw (h, Outcome) (report-Outcome obj (validate_manifest as_f64 obj) refl)
  ]
