-- ===== src/Manifest/Accepted.antt =====
-- What the canonical form of an accepted manifest holds (client/src-tauri/src/manifest.rs).
use hydropark_gym.Prelude.{◌≡◌, refl, true, Option, none, some, List, [], All, All-map}
use hydropark_gym.Prelude.Text.{Text, chars}
use hydropark_gym.Prelude.TreeMap.{BTreeMap, get}
use hydropark_gym.Prelude.Json.{Json}
use hydropark_gym.Manifest.Formats.{is_ident_name, is_svg_asset_path}
use hydropark_gym.Manifest.Sets.{widget_types}
use hydropark_gym.Manifest.Issues.{contains}
use hydropark_gym.Manifest.Access.{then_get, then_object, field, elements, strings_of}
use hydropark_gym.Manifest.Declared.{validate_resources}
use hydropark_gym.Manifest.Panels.{validate_panel, validate_ui}
use hydropark_gym.Manifest.References.{panels_of}
use hydropark_gym.Manifest.Clean.{
  append-nil, Passes, each_from-nil, when_some-nil, found-nil, array-nil,
}
use hydropark_gym.Manifest.Entries.{IsNamedIn, validate_panel-nil, strings-pass}

module _ {V : Type 0} ⦃json : Json V⦄ where
  abbrev pub IsPanel : V → Type 0
  IsPanel p =
      IsNamedIn (contains widget_types) (chars "type") p × IsNamedIn is_ident_name (chars "id") p

  panels-Passes :
      (o : Option V) (obj : BTreeMap V)
      → get (chars "ui") obj ≡ o
      → validate_ui obj ≡ []
      → All (Passes validate_panel) (elements (then_get (chars "panels") o))
  unfolding validate_ui
  panels-Passes none obj h e = tt
  panels-Passes (some v) obj h e =
      let q = when_some-nil (get (chars "ui") obj) _ e v h in
      let (uo, a, q₁) = found-nil (json.as_object v) _ _ q in
      let (w, b, q₂) = found-nil (get (chars "panels") uo) _ _ q₁ in
      let (arr, c, q₃) = found-nil (json.as_array w) _ _ q₂ in
      rw (All, elements, a, b, c) (each_from-nil validate_panel 0 arr q₃)

  pub validate_ui-nil : (obj : BTreeMap V) → validate_ui obj ≡ [] → All IsPanel (panels_of obj)
  validate_ui-nil obj e =
      All-map _ _ (panels_of obj) (λ p q. validate_panel-nil q.0 p q.1)
        (panels-Passes (get (chars "ui") obj) obj refl e)

  abbrev pub assets_of : Option V → List Text
  assets_of r = strings_of json.as_str (elements (field (chars "assets") (then_object r)))

  assets-pass :
      (o : Option V) (obj : BTreeMap V)
      → get (chars "resources") obj ≡ o
      → validate_resources obj ≡ []
      → All (λ s. is_svg_asset_path s ≡ true) (assets_of o)
  unfolding validate_resources
  assets-pass none obj h e = tt
  assets-pass (some v) obj h e =
      let q = when_some-nil (get (chars "resources") obj) _ e v h in
      let (r, a, q₁) = found-nil (json.as_object v) _ _ q in
      let (icon, q₂) = append-nil _ _ q₁ in
      let (assets, strings) = append-nil _ _ q₂ in
      let pass =
        strings-pass is_svg_asset_path _ _ _ (array-nil (get (chars "assets") r) _ _ assets) in
      rw (All, a) pass

  pub validate_resources-nil :
      (obj : BTreeMap V)
      → validate_resources obj ≡ []
      → All (λ s. is_svg_asset_path s ≡ true) (assets_of (get (chars "resources") obj))
  validate_resources-nil obj = assets-pass (get (chars "resources") obj) obj refl
