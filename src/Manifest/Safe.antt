-- ===== src/Manifest/Safe.antt =====
-- A manifest that is accepted is safe to install (client/src-tauri/src/manifest.rs).
use hydropark_gym.Prelude.{
  ◌≡◌, refl, ap, sym, ◌∙◌, subst, arith, Bool, true, Option, none, some, some_eq, List, [], ◌∷◌,
  map, All, All-map, Distinct, Option-cases, Bool-cases, inl, inr,
}
use hydropark_gym.Prelude.Int.{ℤ}
use hydropark_gym.Prelude.Text.{Text, chars}
use hydropark_gym.Prelude.TreeMap.{BTreeMap, get}
use hydropark_gym.Prelude.Parsing.{split_on}
use hydropark_gym.Prelude.Json.{Json}
use hydropark_gym.Prelude.Float.{Float}
use hydropark_gym.Manifest.Formats.{is_skill_id}
use hydropark_gym.Manifest.Sets.{tool_refs, capabilities, widget_types}
use hydropark_gym.Manifest.Issues.{contains}
use hydropark_gym.Manifest.Access.{
  value_get, then_get, then_str, or_else, then_object, str_at, field, elements, strings_of,
  objects_of,
}
use hydropark_gym.Manifest.Canonical.{CanonicalManifest, CanonicalTool, Panel}
use hydropark_gym.Manifest.Normalize.{normalize, normalize_tool, normalize_slot}
use hydropark_gym.Manifest.Widgets.{normalize_panel}
use hydropark_gym.Manifest.References.{declared_tools, declared_slots, panels_of}
use hydropark_gym.Manifest.Validate.{validate_heading}
use hydropark_gym.Manifest.Paths.{IsComponent}
use hydropark_gym.Manifest.Clean.{
  append-nil, found-nil, All-of_map, objects-All, IsNamed, names_of_objects,
}
use hydropark_gym.Manifest.Consistent.{IsIn, ReadsDeclared, BindsDeclared, IsLocaleDeclared, ids_of}
use hydropark_gym.Manifest.Entries.{IsNamedIn}
use hydropark_gym.Manifest.Accepted.{IsPanel}

abbrev pub slots : {V : Type 0} → CanonicalManifest V → List Text
slots m = map (λ s. s.slot) m.shared_state

abbrev pub refs : {V : Type 0} → CanonicalManifest V → List Text
refs m = map (λ t. t.tool_ref) m.tools

abbrev pub Bound : List Text → Option Text → Type 0
Bound set none = Unit
Bound set (some s) = IsIn set s

-- the widget is of the library, and what the panel is bound to is declared
abbrev pub IsSafePanel : {V : Type 0} → List Text → List Text → Panel V → Type 0
IsSafePanel tools slots p =
    IsIn widget_types p.widget_type × Bound tools p.binds_tool × Bound slots p.binds_state

abbrev pub IsSafeTool : {V : Type 0} → List Text → CanonicalTool V → Type 0
IsSafeTool slots t =
    IsIn tool_refs t.tool_ref × All (IsIn slots) t.reads_state × All (IsIn slots) t.writes_state

pub record IsSafe (V : Type 0) (m : CanonicalManifest V) : Type 0 where
  pub granted : All (IsIn capabilities) m.capabilities
  pub tools : All (IsSafeTool (slots m)) m.tools
  pub panels : All (IsSafePanel (refs m) (slots m)) m.ui.panels
  pub ids : Distinct (map (λ p. p.id) m.ui.panels)
  -- the id is a name below the directory of the skills
  pub id : IsComponent m.id
  pub locale : IsLocaleDeclared m.resources.strings m.localization.default_locale
  -- the assets lie below the directory of the package
  pub assets : All (λ s. All IsComponent (split_on b'/' s)) m.resources.assets

All-both :
    {A : Type 0} (P Q : A → Type 0) (xs : List A) → All P xs → All Q xs → All (λ x. P x × Q x) xs
All-both P Q [] p q = tt
All-both P Q (x ∷ xs) (p, ps) (q, qs) = ((p, q), All-both P Q xs ps qs)

map-map :
    {A B C : Type 0} (g : B → C) (f : A → B) (xs : List A)
    → map g (map f xs) ≡ map (λ x. g (f x)) xs
map-map g f [] = refl
map-map g f (x ∷ xs) = ap (λ zs. g (f x) ∷ zs) (map-map g f xs)

Bound-of :
    (set : List Text) (o : Option Text) → ((s : Text) → o ≡ some s → IsIn set s) → Bound set o
Bound-of set none h = tt
Bound-of set (some s) h = h s refl

module _ {V : Type 0} ⦃json : Json V⦄ where
  value_get-object :
      (key : Text) (v : V) (o : BTreeMap V)
      → json.as_object v ≡ some o
      → value_get key v ≡ get key o
  value_get-object key v o e = rw (value_get, e) refl

  -- the name of an entry is of the set
  name_passes :
      (is_ok : Text → Bool) (key : Text) (v : V) (o : BTreeMap V)
      → IsNamedIn is_ok key v
      → json.as_object v ≡ some o
      → is_ok (or_else (str_at o key) []) ≡ true
  name_passes is_ok key v o (o', e', (s, h, q)) e =
      let same : o' ≡ o = some_eq (sym e' ∙ e) in
      let named : str_at o key ≡ some s = ap (λ z. str_at z key) (sym same) ∙ h in
      ap (λ z. is_ok (or_else z [])) named ∙ q

  pub tools-safe :
      (slots : List Text) (vs : List V)
      → All (IsNamedIn (contains tool_refs) (chars "ref")) vs
      → All (ReadsDeclared slots) vs
      → All (IsSafeTool slots) (map normalize_tool (objects_of vs))
  tools-safe slots vs a r = All-of_map _ normalize_tool (objects_of vs) (
      objects-All _ vs (
        All-map _ _ vs
          (λ v p o e. (
            name_passes (contains tool_refs) (chars "ref") v o p.0 e,
            subst (λ z. All (IsIn slots) (strings_of json.as_str (elements z)))
                (value_get-object (chars "reads_state") v o e) p.1.0,
            subst (λ z. All (IsIn slots) (strings_of json.as_str (elements z)))
                (value_get-object (chars "writes_state") v o e) p.1.1,
          ))
          (All-both _ _ vs a r)))

  pub panels-safe :
      (tools slots : List Text) (vs : List V)
      → All IsPanel vs
      → All (BindsDeclared tools slots) vs
      → All (IsSafePanel tools slots) (map normalize_panel (objects_of vs))
  unfolding normalize_panel
  panels-safe tools slots vs a r = All-of_map _ normalize_panel (objects_of vs) (
      objects-All _ vs (
        All-map _ _ vs
          (λ v p o e. (
            name_passes (contains widget_types) (chars "type") v o p.0.0 e,
            Bound-of tools (str_at o (chars "binds_tool"))
                (λ s h. p.1.0 s (ap then_str (value_get-object (chars "binds_tool") v o e) ∙ h)),
            Bound-of slots (str_at o (chars "binds_state"))
                (λ s h. p.1.1 s (ap then_str (value_get-object (chars "binds_state") v o e) ∙ h)),
          ))
          (All-both _ _ vs a r)))

  pub field-object : (key : Text) (o : Option V) → then_get key o ≡ field key (then_object o)
  field-object key none = refl
  field-object key (some v) = elim (Option-cases (json.as_object v)) [
    | inl e ↦ rw (value_get, e) refl
    | inr (o, e) ↦ rw (value_get, e) refl
  ]

  pub id-passes :
      (obj : BTreeMap V)
      → validate_heading obj ≡ []
      → is_skill_id (or_else (str_at obj (chars "id")) []) ≡ true
  unfolding validate_heading
  id-passes obj e =
      let (version, r) = append-nil _ _ e in
      let (id, r₂) = append-nil _ _ r in
      let (v, h, q) = found-nil (get (chars "id") obj) _ _ id in
      let (s, k, p) = found-nil (json.as_str v) _ _ q in
      elim (Bool-cases (is_skill_id s)) [
        | inl t ↦
            ap (λ z. is_skill_id (or_else (then_str z) [])) h
            ∙ ap (λ z. is_skill_id (or_else z [])) k
            ∙ t
        | inr f ↦ absurd (ground (arith, p, f))
      ]

module _ {V F : Type 0} ⦃json : Json V⦄ ⦃float : Float F⦄ (as_f64 : V → Option F)
    (as_i64 : F → ℤ) where
  pub slots-eq :
      (obj : BTreeMap V)
      → All (IsNamed (chars "slot")) (elements (get (chars "shared_state") obj))
      → declared_slots obj ≡ slots (normalize as_f64 as_i64 obj)
  unfolding normalize
  slots-eq obj a =
      names_of_objects (chars "slot") (elements (get (chars "shared_state") obj)) a
      ∙ sym (
          map-map (λ s. s.slot) normalize_slot
            (objects_of (elements (get (chars "shared_state") obj))))

  pub refs-eq :
      (obj : BTreeMap V)
      → All (IsNamed (chars "ref")) (elements (get (chars "tools") obj))
      → declared_tools obj ≡ refs (normalize as_f64 as_i64 obj)
  unfolding normalize
  refs-eq obj a =
      names_of_objects (chars "ref") (elements (get (chars "tools") obj)) a
      ∙ sym (
          map-map (λ t. t.tool_ref) normalize_tool
            (objects_of (elements (get (chars "tools") obj))))

  pub ids-eq :
      (obj : BTreeMap V)
      → All (IsNamed (chars "id")) (panels_of obj)
      → ids_of (panels_of obj) ≡ map (λ p. p.id) (map normalize_panel (objects_of (panels_of obj)))
  unfolding normalize_panel
  ids-eq obj a =
      names_of_objects (chars "id") (panels_of obj) a
      ∙ sym (map-map (λ p. p.id) normalize_panel (objects_of (panels_of obj)))
