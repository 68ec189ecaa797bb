-- ===== src/Manifest/Entries.antt =====
-- What an accepted manifest declares (client/src-tauri/src/manifest.rs).
use hydropark_gym.Prelude.{
  ◌≡◌, ap, sym, ◌∙◌, ℕ, Bool, true, some, some_eq, List, [], ◌∷◌, All, All-map,
}
use hydropark_gym.Prelude.Text.{Text, chars}
use hydropark_gym.Prelude.TreeMap.{BTreeMap, get}
use hydropark_gym.Prelude.Json.{Json}
use hydropark_gym.Manifest.Issues.{ValidationIssue, contains, expect, at_index}
use hydropark_gym.Manifest.Sets.{tool_refs, capabilities, widget_types}
use hydropark_gym.Manifest.Access.{str_at, elements, strings_of}
use hydropark_gym.Manifest.Sections.{validate_capabilities}
use hydropark_gym.Manifest.Formats.{is_ident_name}
use hydropark_gym.Manifest.Declared.{
  validate_tool, validate_tools, validate_slot, validate_shared_state,
}
use hydropark_gym.Manifest.Panels.{validate_panel_layout, validate_panel}
use hydropark_gym.Manifest.Clean.{
  append-nil, Passes, found-nil, expect-nil, array-nil, strings-All, IsNamed,
}
use hydropark_gym.Manifest.Consistent.{IsIn}

module _ {V : Type 0} ⦃json : Json V⦄ where
  -- every string of an array passes a test
  pub strings-pass :
      (is_ok : Text → Bool) (bad : ℕ → Text → ValidationIssue) (i : ℕ → ValidationIssue)
      (vs : List V)
      → All (Passes (λ i' v. expect (json.as_str v) is_ok (λ s. bad i' s ∷ []) (i i' ∷ []))) vs
      → All (λ s. is_ok s ≡ true) (strings_of json.as_str vs)
  strings-pass is_ok bad i vs a = strings-All json.as_str _ vs (
      All-map _ _ vs
        (λ v p s h.
          let (t, e, q) = expect-nil (json.as_str v) is_ok (bad p.0) (i p.0) p.1 in
          let same : t ≡ s = some_eq (sym e ∙ h) in ap is_ok (sym same) ∙ q)
        a)

  pub validate_capabilities-nil :
      (obj : BTreeMap V)
      → validate_capabilities obj ≡ []
      → All (IsIn capabilities) (strings_of json.as_str (elements (get (chars "capabilities") obj)))
  unfolding validate_capabilities
  validate_capabilities-nil obj e =
      strings-pass (contains capabilities) _ _ _ (array-nil (get (chars "capabilities") obj) _ _ e)

  -- an entry is an object whose name is of the set
  abbrev pub IsNamedIn : (Text → Bool) → Text → V → Type 0
  IsNamedIn is_ok key v =
      (o : BTreeMap V) × (json.as_object v ≡ some o)
      × ((s : Text) × (str_at o key ≡ some s) × (is_ok s ≡ true))

  validate_tool-nil :
      (i : ℕ) (t : V) → validate_tool i t ≡ [] → IsNamedIn (contains tool_refs) (chars "ref") t
  unfolding validate_tool
  validate_tool-nil i t e =
      let (o, h, q) = found-nil (json.as_object t) _ _ e in
      let (a, b) = append-nil _ _ q in
      (o, h, expect-nil (str_at o (chars "ref")) (contains tool_refs) _ _ a)

  validate_slot-nil :
      (i : ℕ) (t : V) → validate_slot i t ≡ [] → IsNamedIn is_ident_name (chars "slot") t
  unfolding validate_slot
  validate_slot-nil i t e =
      let (o, h, q) = found-nil (json.as_object t) _ _ e in
      let (a, b) = append-nil _ _ q in
      (o, h, expect-nil (str_at o (chars "slot")) is_ident_name _ _ a)

  pub validate_tools-nil :
      (obj : BTreeMap V)
      → validate_tools obj ≡ []
      → All (IsNamedIn (contains tool_refs) (chars "ref")) (elements (get (chars "tools") obj))
  unfolding validate_tools
  validate_tools-nil obj e =
      All-map _ _ _ (λ t p. validate_tool-nil p.0 t p.1) (array-nil (get (chars "tools") obj) _ _ e)

  pub validate_shared_state-nil :
      (obj : BTreeMap V)
      → validate_shared_state obj ≡ []
      → All (IsNamedIn is_ident_name (chars "slot")) (elements (get (chars "shared_state") obj))
  unfolding validate_shared_state
  validate_shared_state-nil obj e =
      All-map _ _ _ (λ t p. validate_slot-nil p.0 t p.1)
        (array-nil (get (chars "shared_state") obj) _ _ e)

  -- what is an object with a name of the set has a name
  pub IsNamedIn-IsNamed :
      (is_ok : Text → Bool) (key : Text) (vs : List V)
      → All (IsNamedIn is_ok key) vs
      → All (IsNamed key) vs
  IsNamedIn-IsNamed is_ok key vs = All-map _ _ vs (λ v (o, e, (s, h, q)). (o, e, (s, h)))

  pub validate_panel-nil :
      (i : ℕ) (p : V)
      → validate_panel i p ≡ []
      → IsNamedIn (contains widget_types) (chars "type") p × IsNamedIn is_ident_name (chars "id") p
  unfolding validate_panel validate_panel_layout
  validate_panel-nil i p e =
      let (o, h, q) = found-nil (json.as_object p) _ _ e in
      let (a, b) = append-nil (validate_panel_layout (at_index (chars "/ui/panels") i) o) _ q in
      let (c, d) = append-nil _ _ a in
      let (f, g) = append-nil _ _ d in
      (
        (o, h, expect-nil (str_at o (chars "type")) (contains widget_types) _ _ c),
        (o, h, expect-nil (str_at o (chars "id")) is_ident_name _ _ f),
      )
