-- ===== src/Manifest/References.antt =====
-- The references inside a manifest (client/src-tauri/src/manifest.rs). A `HashSet` is the list of what
-- was put in.
use hydropark_gym.Prelude.{
  ℕ, ◌+◌, not, ◌&&◌, Option, none, some, List, [], ◌∷◌, ◌++◌, if◌then◌else◌,
}
use hydropark_gym.Prelude.Text.{Text, chars, is_empty}
use hydropark_gym.Prelude.TreeMap.{BTreeMap, get}
use hydropark_gym.Prelude.Json.{Json}
use hydropark_gym.Manifest.Issues.{
  new, ValidationIssue, unknown_tool_ref, unknown_state_ref, duplicate_panel_id,
  undeclared_default_locale, Issues, push, contains, quoting, at_index, at_key, when_some, each,
}
use hydropark_gym.Manifest.Access.{value_get, then_get, then_str, elements, strings_of}

-- an issue unless the name is declared
abbrev pub undeclared : List Text → (Text → ValidationIssue) → Text → Issues
undeclared declared issue name = if contains declared name then [] else issue name ∷ []

abbrev pub state_ref_issue : Text → Text → ValidationIssue
state_ref_issue pointer slot =
    new unknown_state_ref
      (quoting (chars "state ref ") slot (chars " is not a declared shared_state slot")) pointer

abbrev pub binds_tool_issue : Text → Text → ValidationIssue
binds_tool_issue base bt =
    new unknown_tool_ref (quoting (chars "panel binds_tool ") bt (chars " is not a declared tool"))
      (at_key base (chars "binds_tool"))

abbrev pub binds_state_issue : Text → Text → ValidationIssue
binds_state_issue base bs =
    new unknown_state_ref
      (quoting (chars "panel binds_state ") bs (chars " is not a declared shared_state slot"))
      (at_key base (chars "binds_state"))

-- `seen.insert(id)`
abbrev pub check_id : List Text → Text → Text → Issues
check_id seen base id =
    if contains seen id
    then push duplicate_panel_id (quoting (chars "panel id ") id (chars " is not unique"))
        (at_key base (chars "id"))
    else []

module _ {V : Type 0} ⦃json : Json V⦄ where
  abbrev pub declared_tools : BTreeMap V → List Text
  declared_tools obj =
      strings_of (λ t. then_str (value_get (chars "ref") t)) (elements (get (chars "tools") obj))

  abbrev pub declared_slots : BTreeMap V → List Text
  declared_slots obj =
      strings_of (λ s. then_str (value_get (chars "slot") s))
        (elements (get (chars "shared_state") obj))

  abbrev pub declared_locales : BTreeMap V → List Text
  declared_locales obj =
      strings_of json.as_str (elements (then_get (chars "strings") (get (chars "resources") obj)))

  abbrev pub panels_of : BTreeMap V → List V
  panels_of obj = elements (then_get (chars "panels") (get (chars "ui") obj))

  abbrev pub check_state_ref : List Text → Text → ℕ → V → Issues
  check_state_ref declared pointer i r =
      when_some (json.as_str r) (undeclared declared (state_ref_issue (at_index pointer i)))

  unfoldable pub check_state_refs : Option V → List Text → Text → Issues
  check_state_refs refs declared pointer = each (check_state_ref declared pointer) (elements refs)

  -- `reads_state` or `writes_state` of a tool
  abbrev pub check_refs_at : List Text → Text → Text → V → Issues
  check_refs_at slots base key t = check_state_refs (value_get key t) slots (at_key base key)

  -- the loop body over the tools
  unfoldable pub check_tool : List Text → ℕ → V → Issues
  unfolding get check_state_refs
  check_tool slots i t =
      let base = at_index (chars "/tools") i in
      check_refs_at slots base (chars "reads_state") t
      ++ check_refs_at slots base (chars "writes_state") t

  abbrev pub check_binds_tool : List Text → Text → V → Issues
  check_binds_tool tools base p =
      when_some (then_str (value_get (chars "binds_tool") p))
        (undeclared tools (binds_tool_issue base))

  abbrev pub check_binds_state : List Text → Text → V → Issues
  check_binds_state slots base p =
      when_some (then_str (value_get (chars "binds_state") p))
        (undeclared slots (binds_state_issue base))

  -- the bindings of a panel
  unfoldable pub check_panel : List Text → List Text → Text → V → Issues
  unfolding get
  check_panel tools slots base p = check_binds_tool tools base p ++ check_binds_state slots base p

  -- the loop over the panels, from the `i`-th on, with the ids seen so far
  unfoldable pub check_panels : List Text → List Text → ℕ → List Text → List V → Issues
  unfolding get check_panel
  check_panels tools slots i seen [] = []
  check_panels tools slots i seen (p ∷ panels) =
      let base = at_index (chars "/ui/panels") i in
      elim (then_str (value_get (chars "id") p)) [
        | none ↦ check_panel tools slots base p ++ check_panels tools slots (i + 1) seen panels
        | some id ↦
            check_id seen base id
            ++ (check_panel tools slots base p
                ++ check_panels tools slots (i + 1) (id ∷ seen) panels)
      ]

  unfoldable pub check_locale : BTreeMap V → Issues
  unfolding get is_empty
  check_locale obj =
      let locales = declared_locales obj in
      when_some (then_str (then_get (chars "default_locale") (get (chars "localization") obj)))
        (λ dl.
          if not (is_empty locales) && not (contains locales dl)
          then push undeclared_default_locale
              (quoting (chars "localization.default_locale ") dl
                (chars " is not in resources.strings"))
              (chars "/localization/default_locale")
          else [])

  unfoldable pub validate_referential_integrity : BTreeMap V → Issues
  unfolding get check_tool check_panels check_locale
  validate_referential_integrity obj =
      let slots = declared_slots obj in
      each (check_tool slots) (elements (get (chars "tools") obj))
      ++ (check_panels (declared_tools obj) slots 0 [] (panels_of obj) ++ check_locale obj)
