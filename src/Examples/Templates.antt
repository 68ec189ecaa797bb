-- ===== src/Examples/Templates.antt =====
-- A template of two skills, saved and loaded (client/src-tauri/src/templates.rs).
use hydropark_gym.Prelude.{◌≡◌, ◌↔◌, refl, inl, inr, ℕ, true, none, [], ◌∷◌, ok, In, arith}
use hydropark_gym.Prelude.Text.{chars, text_eqb}
use hydropark_gym.Version.Semver.{new}
use hydropark_gym.Templates.Pins.{VersionConstraint, caret, matches, parse_pin, display_pin}
use hydropark_gym.Templates.Ranges.{Admits, matches_iff, parse_pin-display_pin}
use hydropark_gym.Templates.Documents.{
  Template, Versions, UpdateInfo, save_as_template, load_template, check_updates, template_id,
}
use hydropark_gym.Templates.Loading.{
  LoadOutcome, restored_skills, load_template_lem, load_template-save_as_template,
}
use hydropark_gym.Templates.Updates.{IsReported, check_updates_iff}

abbrev minor_pin : VersionConstraint
minor_pin = record { op = caret; base = new 0 2 3 }

matches_iff_example : (matches minor_pin (new 0 2 9) ≡ true) ↔ Admits caret (new 0 2 3) (new 0 2 9)
matches_iff_example = matches_iff minor_pin (new 0 2 9) (omega arith)

parse_pin-display_pin_example : parse_pin (display_pin minor_pin) ≡ ok minor_pin
parse_pin-display_pin_example = parse_pin-display_pin minor_pin (omega arith)

abbrev chef_and_baker : Versions
chef_and_baker = (chars "chef", new 1 2 0) ∷ (chars "baker", new 0 4 1) ∷ []

-- what the host has installed
abbrev present : Versions
present = (chars "baker", new 0 4 1) ∷ (chars "chef", new 1 3 0) ∷ []

abbrev weeknight : Template ℕ
weeknight = save_as_template (chars "Weeknight Chef") (chars "qwen") chef_and_baker 7

weeknight_id : template_id (chars "  Weeknight -- Chef!") ≡ chars "tmpl_weeknight_chef"
unfolding template_id
weeknight_id = refl

load_template_lem_example :
    LoadOutcome weeknight chef_and_baker (load_template weeknight chef_and_baker)
load_template_lem_example = load_template_lem weeknight chef_and_baker

load_template-save_as_template_example :
    load_template weeknight present
    ≡ ok (record {
      base_model = chars "qwen";
      skills = restored_skills chef_and_baker (new 1 3 0 ∷ new 0 4 1 ∷ []);
      ui_overrides = 7;
      presets = none;
    })
unfolding text_eqb
load_template-save_as_template_example =
    load_template-save_as_template (chars "Weeknight Chef") (chars "qwen") chef_and_baker present
      (new 1 3 0 ∷ new 0 4 1 ∷ []) 7
      (refl, (inr (inl (omega arith))), (refl, (inr (inr (omega arith))), tt))

abbrev next_chef : UpdateInfo
next_chef = record { skill_id = chars "chef"; from = new 1 2 0; to = new 2 0 0; breaking = true }

check_updates_iff_example :
    In next_chef (check_updates weeknight ((chars "chef", new 2 0 0) ∷ []))
    ↔ IsReported ((chars "chef", new 2 0 0) ∷ []) weeknight.skill_refs next_chef
check_updates_iff_example = check_updates_iff weeknight ((chars "chef", new 2 0 0) ∷ []) next_chef
