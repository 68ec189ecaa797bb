-- ===== src/Skills/Entry.antt =====
-- One skill's lifecycle record and its transitions (client/src-tauri/src/skill_manager.rs). A
-- method that changes the record returns its result and the record behind it.
use hydropark_gym.Prelude.{
  Bool, true, false, not, is_gt, Result, ok, err, map_err, if◌then◌else◌, ◌||◌, ◌++◌, map,
}
use hydropark_gym.Prelude.Text.{Text, chars, text_eqb, trim, to_ascii_lowercase}
use hydropark_gym.Version.Semver.{SemVer, semver_cmp, new}

pub data ModelTier : Type 0 where
  small : ModelTier
  mid : ModelTier
  large : ModelTier

-- the derived `Ord`: the order of declaration
abbrev pub tier_gt : ModelTier → ModelTier → Bool
tier_gt large large = false
tier_gt large _ = true
tier_gt mid small = true
tier_gt _ _ = false

pub record HostEnv : Type 0 where
  pub app_version : SemVer
  pub model_tier : ModelTier

pub data Ownership : Type 0 where
  free : Ownership
  paid : (entitled : Bool) → Ownership

pub data InstallState : Type 0 where
  not_installed : InstallState
  installed : InstallState

pub data LifecycleState : Type 0 where
  not_owned : LifecycleState
  owned_not_installed : LifecycleState
  installed_disabled : LifecycleState
  enabled_active : LifecycleState

pub data Incompatibility : Type 0 where
  too_new_for_app : (required current : SemVer) → Incompatibility
  model_tier_too_low : (required device : ModelTier) → Incompatibility

pub data SkillError : Type 0 where
  not_owned : (id : Text) → SkillError
  not_installed : (id : Text) → SkillError
  already_installed : (id : Text) → SkillError
  incompatible : (id : Text) (reason : Incompatibility) → SkillError
  unknown_skill : (id : Text) → SkillError

-- the view of a manifest, with serde's defaults filled in
pub record SkillView : Type 0 where
  pub id : Text
  pub pricing_free : Bool
  pub min_app_version : SemVer
  pub min_model_tier : ModelTier

pub record SkillEntry : Type 0 where
  pub id : Text
  pub ownership : Ownership
  pub install_state : InstallState
  pub enabled : Bool
  pub min_app_version : SemVer
  pub min_model_tier : ModelTier
  pub free : Bool

abbrev pub default_min_app_version : SemVer
default_min_app_version = new 0 0 0

-- `SkillEntry::new`
unfoldable pub new_entry : Text → Bool → SemVer → ModelTier → SkillEntry
new_entry id is_free min_app_version min_model_tier = record {
  id = id;
  ownership = (if is_free then Ownership.free else paid false);
  install_state = InstallState.not_installed;
  enabled = false;
  min_app_version = min_app_version;
  min_model_tier = min_model_tier;
  free = is_free;
}

-- `From<SkillView>`
unfoldable pub of_view : SkillView → SkillEntry
unfolding new_entry
of_view v = new_entry v.id v.pricing_free v.min_app_version v.min_model_tier

abbrev pub owned : Ownership → Bool
owned Ownership.free = true
owned (paid entitled) = entitled

abbrev pub is_owned : SkillEntry → Bool
is_owned e = owned e.ownership

abbrev pub is_installed : InstallState → Bool
is_installed installed = true
is_installed InstallState.not_installed = false

abbrev position : InstallState → Bool → LifecycleState
position InstallState.not_installed enabled = owned_not_installed
position installed enabled = if enabled then enabled_active else installed_disabled

-- `SkillEntry::state`
abbrev pub state_of : SkillEntry → LifecycleState
state_of e =
    if not (is_owned e) then LifecycleState.not_owned else position e.install_state e.enabled

unfoldable pub check_compatibility : SkillEntry → HostEnv → Result (Unit {0}) Incompatibility
check_compatibility e env =
    if is_gt (semver_cmp e.min_app_version env.app_version)
    then err (too_new_for_app e.min_app_version env.app_version)
    else if tier_gt e.min_model_tier env.model_tier
    then err (model_tier_too_low e.min_model_tier env.model_tier)
    else ok tt

unfoldable pub gate : SkillEntry → HostEnv → Result (Unit {0}) SkillError
gate e env = map_err (λ reason. incompatible e.id reason) (check_compatibility e env)

abbrev pub Outcome : Type 0
Outcome = Result LifecycleState SkillError × SkillEntry

-- `Ok(self.state())` on the changed record
abbrev pub moved : SkillEntry → Outcome
moved e = (ok (state_of e), e)

abbrev grant : Ownership → Ownership
grant Ownership.free = Ownership.free
grant (paid entitled) = paid true

unfoldable pub mark_owned : SkillEntry → LifecycleState × SkillEntry
mark_owned e = let e' : SkillEntry = record e { ownership = grant e.ownership } in (state_of e', e')

-- the rest of a method behind its gate, from the record as it is and the changed one
abbrev pub behind_gate : Result (Unit {0}) SkillError → SkillEntry → SkillEntry → Outcome
behind_gate (err reason) e e' = (err reason, e)
behind_gate (ok _) e e' = moved e'

unfoldable pub install : SkillEntry → HostEnv → Outcome
install e env =
    if not (is_owned e)
    then (err (SkillError.not_owned e.id), e)
    else if is_installed e.install_state
    then (err (already_installed e.id), e)
    else behind_gate (gate e env) e (record e { install_state = installed; enabled = false })

unfoldable pub uninstall : SkillEntry → Outcome
uninstall e =
    if not (is_installed e.install_state)
    then (err (SkillError.not_installed e.id), e)
    else moved (record e { install_state = InstallState.not_installed; enabled = false })

unfoldable pub enable : SkillEntry → HostEnv → Outcome
enable e env =
    if not (is_installed e.install_state)
    then (err (SkillError.not_installed e.id), e)
    else behind_gate (gate e env) e (record e { enabled = true })

unfoldable pub disable : SkillEntry → Outcome
disable e =
    if not (is_installed e.install_state)
    then (err (SkillError.not_installed e.id), e)
    else moved (record e { enabled = false })

-- the `match` of `ModelTier::from_str`
abbrev tier_of : Text → Result ModelTier Text
tier_of s =
    if text_eqb s (chars "small") || text_eqb s (chars "s")
    then ok small
    else if text_eqb s (chars "mid") || text_eqb s (chars "medium") || text_eqb s (chars "m")
    then ok mid
    else if text_eqb s (chars "large") || text_eqb s (chars "l")
    then ok large
    else err (chars "unknown model tier '" ++ (s ++ chars "'"))

-- `ModelTier::from_str`
unfoldable pub parse_tier : Text → Result ModelTier Text
parse_tier s = tier_of (map to_ascii_lowercase (trim s))
