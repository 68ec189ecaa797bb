-- ===== src/Templates/Documents.antt =====
-- Templates: saving, loading and the check for updates (client/src-tauri/src/templates.rs). The
-- opaque JSON of the user interface is a type parameter `V`.
use hydropark_gym.Prelude.{
  ℕ, Bool, true, false, not, ◌&&◌, ◌||◌, Option, none, some, List, [], ◌∷◌, ◌++◌, map, find?, keep,
  is_gt, ltb, leb, Result, ok, err, ok_or, ◌>>=◌, if◌then◌else◌,
}
use hydropark_gym.Prelude.Text.{Text, chars, text_eqb, is_empty, to_ascii_lowercase}
use hydropark_gym.Version.Semver.{SemVer, semver_cmp}
use hydropark_gym.Templates.Pins.{VersionConstraint, at_least, matches}

pub record SkillRef : Type 0 where
  pub skill_id : Text
  pub version_constraint : VersionConstraint

pub record Template (V : Type 0) : Type 0 where
  pub id : Text
  pub name : Text
  pub skill_refs : List SkillRef
  pub base_model : Text
  pub ui_overrides : V
  pub presets : Option V

pub record ResolvedSkill : Type 0 where
  pub skill_id : Text
  pub version : SemVer
  pub constraint : VersionConstraint

pub record ResolvedAgent (V : Type 0) : Type 0 where
  pub base_model : Text
  pub skills : List ResolvedSkill
  pub ui_overrides : V
  pub presets : Option V

pub data TemplateError : Type 0 where
  missing_skill : (skill_id : Text) → TemplateError
  version_incompatible :
      (skill_id : Text) (required : VersionConstraint) (installed : SemVer) → TemplateError

pub record UpdateInfo : Type 0 where
  pub skill_id : Text
  pub from : SemVer
  pub to : SemVer
  pub breaking : Bool

-- skills with the versions that run, or that are on offer
abbrev pub Versions : Type 0
Versions = List (Text × SemVer)

abbrev pub is_alphanumeric : ℕ → Bool
is_alphanumeric c = (leb 48 c && leb c 57) || (leb 65 c && leb c 90) || (leb 97 c && leb c 122)

-- the loop of `template_id`: the slug so far, and whether a separator is pending
slug_from : Text → Bool → Text → Text
slug_from slug pending_sep [] = slug
slug_from slug pending_sep (c ∷ name) =
    let separated = if pending_sep && not (is_empty slug) then slug ++ b'_' ∷ [] else slug in
    elim (is_alphanumeric c) [
      | true ↦ slug_from (separated ++ to_ascii_lowercase c ∷ []) false name
      | false ↦ slug_from slug true name
    ]

unfoldable pub template_id : Text → Text
unfolding slug_from is_empty
template_id name =
    let slug = slug_from [] false name in
    chars "tmpl_" ++ (if is_empty slug then chars "untitled" else slug)

abbrev pub pinned : Text × SemVer → SkillRef
pinned e = record { skill_id = e.0; version_constraint = at_least e.1 }

-- `Iterator::find` on the pairs, and its version
abbrev pub version_in : Option (Text × SemVer) → Option SemVer
version_in none = none
version_in (some e) = some e.1

abbrev pub installed_version : Versions → Text → Option SemVer
installed_version installed skill_id = version_in (find? (λ e. text_eqb e.0 skill_id) installed)

-- the body of the loop of `load_template`
abbrev pub check_version : SkillRef → SemVer → Result ResolvedSkill TemplateError
check_version r v =
    if not (matches r.version_constraint v)
    then err (version_incompatible r.skill_id r.version_constraint v)
    else ok (record { skill_id = r.skill_id; version = v; constraint = r.version_constraint })

unfoldable pub resolve_ref : Versions → SkillRef → Result ResolvedSkill TemplateError
resolve_ref installed r =
    ok_or (installed_version installed r.skill_id) (missing_skill r.skill_id) >>= check_version r

unfoldable pub resolve_refs : Versions → List SkillRef → Result (List ResolvedSkill) TemplateError
resolve_refs installed [] = ok []
resolve_refs installed (r ∷ refs) = resolve_ref installed r >>= λ skill.
    resolve_refs installed refs >>= λ skills. ok (skill ∷ skills)

-- the greatest version of a list, the last of equal ones: `Iterator::max`
abbrev pub max_from : SemVer → Versions → SemVer
max_from best [] = best
max_from best (e ∷ rest) = max_from (if is_gt (semver_cmp best e.1) then best else e.1) rest

abbrev pub max_version : Versions → Option SemVer
max_version [] = none
max_version (e ∷ rest) = some (max_from e.1 rest)

unfoldable pub latest : Versions → Text → Option SemVer
latest available skill_id = max_version (keep (λ e. text_eqb e.0 skill_id) available)

-- the update of one pinned skill, if there is one
abbrev pub update_to : SkillRef → SemVer → Option UpdateInfo
update_to r to =
    let from = r.version_constraint.base in
    if is_gt (semver_cmp to from)
    then some
        (record { skill_id = r.skill_id; from = from; to = to; breaking = ltb from.major to.major })
    else none

abbrev pub update_found : SkillRef → Option SemVer → Option UpdateInfo
update_found r none = none
update_found r (some to) = update_to r to

unfoldable pub update_of : Versions → SkillRef → Option UpdateInfo
update_of available r = update_found r (latest available r.skill_id)

abbrev pub push_update : Option UpdateInfo → List UpdateInfo → List UpdateInfo
push_update none updates = updates
push_update (some u) updates = u ∷ updates

unfoldable pub updates_from : Versions → List SkillRef → List UpdateInfo
updates_from available [] = []
updates_from available (r ∷ refs) =
    push_update (update_of available r) (updates_from available refs)

module _ {V : Type 0} where
  unfoldable pub save_as_template : Text → Text → Versions → V → Template V
  save_as_template name base_model enabled ui_overrides = record {
    id = template_id name;
    name = name;
    skill_refs = map pinned enabled;
    base_model = base_model;
    ui_overrides = ui_overrides;
    presets = none;
  }

  unfoldable pub with_presets : Template V → V → Template V
  with_presets t presets = record t { presets = some presets }

  abbrev pub restored : Template V → List ResolvedSkill → ResolvedAgent V
  restored t skills = record {
    base_model = t.base_model;
    skills = skills;
    ui_overrides = t.ui_overrides;
    presets = t.presets;
  }

  unfoldable pub load_template : Template V → Versions → Result (ResolvedAgent V) TemplateError
  load_template t installed =
      resolve_refs installed t.skill_refs >>= λ skills. ok (restored t skills)

  unfoldable pub check_updates : Template V → Versions → List UpdateInfo
  unfolding updates_from
  check_updates t available = updates_from available t.skill_refs
