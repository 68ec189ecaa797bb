-- ===== src/Manifest/Consistent.antt =====
-- What the check of the references establishes (client/src-tauri/src/manifest.rs).
use hydropark_gym.Prelude.{
  ◌≡◌, ◌≢◌, arith, ℕ, ◌+◌, true, false, ◌⊎◌, Option, none, some, List, [], ◌∷◌, ◌++◌, All, All-map,
  Distinct, Bool-cases, Option-cases, inl, inr,
}
use hydropark_gym.Prelude.Text.{Text, chars, text_eqb_iff, is_empty}
use hydropark_gym.Prelude.TreeMap.{BTreeMap, get}
use hydropark_gym.Prelude.Json.{Json}
use hydropark_gym.Manifest.Issues.{ValidationIssue, contains, at_index, at_key}
use hydropark_gym.Manifest.Access.{value_get, then_get, then_str, elements, strings_of}
use hydropark_gym.Manifest.References.{
  undeclared, state_ref_issue, binds_tool_issue, binds_state_issue, declared_tools, declared_slots,
  declared_locales, panels_of, check_state_refs, check_state_ref, check_refs_at, check_binds_tool,
  check_binds_state, check_id, check_tool, check_panel, check_panels, check_locale,
  validate_referential_integrity,
}
use hydropark_gym.Manifest.Clean.{append-nil, each_from-nil, when_some-nil, strings-All}

abbrev pub IsIn : List Text → Text → Type 0
IsIn set s = contains set s ≡ true

undeclared-nil :
    (declared : List Text) (issue : Text → ValidationIssue) (name : Text)
    → undeclared declared issue name ≡ []
    → IsIn declared name
undeclared-nil declared issue name e = elim (Bool-cases (contains declared name)) [
  | inl t ↦ t
  | inr f ↦ absurd (ground (arith, e, f))
]

check_id-nil :
    (seen : List Text) (base id : Text) → check_id seen base id ≡ [] → contains seen id ≡ false
check_id-nil seen base id e = elim (Bool-cases (contains seen id)) [
  | inl t ↦ absurd (ground (arith, e, t))
  | inr f ↦ f
]

-- an id that is not among those seen differs from the last one seen
contains-cons :
    (id x : Text) (seen : List Text)
    → contains (id ∷ seen) x ≡ false
    → (contains seen x ≡ false) × (id ≢ x)
contains-cons id x seen e =
    (ground arith, λ same. absurd (ground (arith, (text_eqb_iff id x).1 same, e)))

abbrev pub IsLocaleDeclared : List Text → Option Text → Type 0
IsLocaleDeclared locales o = (s : Text) → o ≡ some s → (is_empty locales ≡ true) ⊎ IsIn locales s

abbrev base_of : ℕ → Text
base_of i = at_index (chars "/ui/panels") i

module _ {V : Type 0} ⦃json : Json V⦄ where
  pub check_state_refs-nil :
      (refs : Option V) (declared : List Text) (pointer : Text)
      → check_state_refs refs declared pointer ≡ []
      → All (IsIn declared) (strings_of json.as_str (elements refs))
  unfolding check_state_refs
  check_state_refs-nil refs declared pointer e =
      strings-All json.as_str (IsIn declared) (elements refs) (
        All-map _ _ (elements refs)
          (λ v p s h.
            undeclared-nil declared (state_ref_issue (at_index pointer p.0)) s
              (when_some-nil (json.as_str v) _ p.1 s h))
          (each_from-nil (check_state_ref declared pointer) 0 (elements refs) e))

  abbrev pub ReadsDeclared : List Text → V → Type 0
  ReadsDeclared slots t =
      All (IsIn slots) (strings_of json.as_str (elements (value_get (chars "reads_state") t)))
      × All (IsIn slots) (strings_of json.as_str (elements (value_get (chars "writes_state") t)))

  check_tool-nil :
      (slots : List Text) (i : ℕ) (t : V) → check_tool slots i t ≡ [] → ReadsDeclared slots t
  unfolding check_tool
  check_tool-nil slots i t e =
      let base = at_index (chars "/tools") i in
      let (p, q) =
        append-nil (check_refs_at slots base (chars "reads_state") t)
          (check_refs_at slots base (chars "writes_state") t) e in
      (
        check_state_refs-nil (value_get (chars "reads_state") t) slots
            (at_key base (chars "reads_state")) p,
        check_state_refs-nil (value_get (chars "writes_state") t) slots
            (at_key base (chars "writes_state")) q,
      )

  abbrev pub BindsDeclared : List Text → List Text → V → Type 0
  BindsDeclared tools slots p =
      ((s : Text) → then_str (value_get (chars "binds_tool") p) ≡ some s → IsIn tools s)
      × ((s : Text) → then_str (value_get (chars "binds_state") p) ≡ some s → IsIn slots s)

  check_panel-nil :
      (tools slots : List Text) (base : Text) (p : V)
      → check_panel tools slots base p ≡ []
      → BindsDeclared tools slots p
  unfolding check_panel
  check_panel-nil tools slots base p e =
      let (a, b) = append-nil (check_binds_tool tools base p) (check_binds_state slots base p) e in
      (
        (λ s h. undeclared-nil tools (binds_tool_issue base) s (when_some-nil _ _ a s h)),
        (λ s h. undeclared-nil slots (binds_state_issue base) s (when_some-nil _ _ b s h)),
      )

  abbrev pub ids_of : List V → List Text
  ids_of = strings_of (λ p. then_str (value_get (chars "id") p))

  abbrev pub PanelsFit : List Text → List Text → List Text → List V → Type 0
  PanelsFit tools slots seen panels =
      All (λ id. contains seen id ≡ false) (ids_of panels)
      × Distinct (ids_of panels)
      × All (BindsDeclared tools slots) panels

  fit_unnamed :
      (tools slots seen : List Text) (p : V) (panels : List V)
      → then_str (value_get (chars "id") p) ≡ none
      → BindsDeclared tools slots p
      → PanelsFit tools slots seen panels
      → PanelsFit tools slots seen (p ∷ panels)
  fit_unnamed tools slots seen p panels e b (f, d, a) =
      (rw (e, All, strings_of) f, rw (e, Distinct, strings_of) d, (b, a))

  fit_named :
      (tools slots seen : List Text) (p : V) (panels : List V) (id : Text)
      → then_str (value_get (chars "id") p) ≡ some id
      → contains seen id ≡ false
      → BindsDeclared tools slots p
      → PanelsFit tools slots (id ∷ seen) panels
      → PanelsFit tools slots seen (p ∷ panels)
  fit_named tools slots seen p panels id e n b (f, d, a) =
      let apart =
        All-map _ (λ x. (contains seen x ≡ false) × (id ≢ x)) (ids_of panels)
          (λ x. contains-cons id x seen) f in
      (
        rw (e, All, strings_of) (n, All-map _ _ (ids_of panels) (λ x q. q.0) apart),
        rw (e, Distinct, strings_of) (All-map _ _ (ids_of panels) (λ x q. q.1) apart, d),
        (b, a),
      )

  check_panels-nil :
      (tools slots : List Text) (i : ℕ) (seen : List Text) (panels : List V)
      → check_panels tools slots i seen panels ≡ []
      → PanelsFit tools slots seen panels
  unfolding check_panels
  check_panels-nil tools slots i seen [] e = (tt, tt, tt)
  check_panels-nil tools slots i seen (p ∷ panels) e =
      elim (Option-cases (then_str (value_get (chars "id") p))) [
        | inl h ↦
            let (a, b) =
              append-nil (check_panel tools slots (base_of i) p)
                (check_panels tools slots (i + 1) seen panels) (ground (arith, e, h)) in
            fit_unnamed tools slots seen p panels h (check_panel-nil tools slots (base_of i) p a)
              (check_panels-nil tools slots (i + 1) seen panels b)
        | inr (id, h) ↦
            let (a, r) =
              append-nil (check_id seen (base_of i) id)
                (check_panel tools slots (base_of i) p
                  ++ check_panels tools slots (i + 1) (id ∷ seen) panels)
                (ground (arith, e, h)) in
            let (b, c) =
              append-nil (check_panel tools slots (base_of i) p)
                (check_panels tools slots (i + 1) (id ∷ seen) panels) r in
            fit_named tools slots seen p panels id h (check_id-nil seen (base_of i) id a)
              (check_panel-nil tools slots (base_of i) p b)
              (check_panels-nil tools slots (i + 1) (id ∷ seen) panels c)
      ]

  check_locale-nil :
      (obj : BTreeMap V)
      → check_locale obj ≡ []
      → IsLocaleDeclared
          (declared_locales obj)
          (then_str (then_get (chars "default_locale") (get (chars "localization") obj)))
  unfolding check_locale
  check_locale-nil obj e s h =
      let q = when_some-nil _ _ e s h in
      elim (Bool-cases (is_empty (declared_locales obj))) [
        | inl t ↦ inl t
        | inr f ↦ elim (Bool-cases (contains (declared_locales obj) s)) [
          | inl t ↦ inr t
          | inr g ↦ absurd (ground (arith, q, f, g))
        ]
      ]

  pub record IsConsistent (obj : BTreeMap V) : Type 0 where
    pub tools : All (ReadsDeclared (declared_slots obj)) (elements (get (chars "tools") obj))
    pub panels : PanelsFit (declared_tools obj) (declared_slots obj) [] (panels_of obj)
    pub locale :
        IsLocaleDeclared
          (declared_locales obj)
          (then_str (then_get (chars "default_locale") (get (chars "localization") obj)))

  pub validate_referential_integrity-nil :
      (obj : BTreeMap V) → validate_referential_integrity obj ≡ [] → IsConsistent obj
  unfolding validate_referential_integrity
  validate_referential_integrity-nil obj e =
      let (a, r) = append-nil _ _ e in
      let (b, c) = append-nil _ _ r in
      record {
        tools =
            All-map _ _ (elements (get (chars "tools") obj))
              (λ t p. check_tool-nil (declared_slots obj) p.0 t p.1) (each_from-nil _ 0 _ a);
        panels = check_panels-nil (declared_tools obj) (declared_slots obj) 0 [] (panels_of obj) b;
        locale = check_locale-nil obj c;
      }
