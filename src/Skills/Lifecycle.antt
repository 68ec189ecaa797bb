-- ===== src/Skills/Lifecycle.antt =====
-- The lifecycle as the marketplace describes it, a state machine of four positions, and that the
-- transitions of one skill implement it (client/src-tauri/src/skill_manager.rs).
use hydropark_gym.Prelude.{
  ℕ, ◌≤◌, ◌≡◌, ◌↔◌, refl, Bool, true, not, ◌&&◌, Option, none, some, ok, err, leb, is_gt, arith,
}
use hydropark_gym.Version.Semver.{semver_cmp}
use hydropark_gym.Templates.Ranges.{AtLeast}
use hydropark_gym.Skills.Entry
use hydropark_gym.Skills.Entry.{
  ModelTier, small, mid, large, tier_gt, HostEnv, SkillEntry, LifecycleState, owned_not_installed,
  installed_disabled, enabled_active, SkillError, Outcome, Ownership, paid, InstallState, installed,
  state_of, is_owned, is_installed, check_compatibility, gate, moved, behind_gate,
}

pub data Method : Type 0 where
  mark_owned : Method
  install : Method
  uninstall : Method
  enable : Method
  disable : Method

abbrev pub apply : Method → HostEnv → SkillEntry → Outcome
apply mark_owned env e = let (s, e') = Entry.mark_owned e in (ok s, e')
apply install env e = Entry.install e env
apply uninstall env e = Entry.uninstall e
apply enable env e = Entry.enable e env
apply disable env e = Entry.disable e

-- The arrows of the marketplace's diagram: where a method leads from a position on a host that fits
-- the skill, or does not; `none` refuses it.
abbrev pub target : Method → Bool → LifecycleState → Option LifecycleState
target mark_owned fits LifecycleState.not_owned = some owned_not_installed
target mark_owned fits owned_not_installed = some owned_not_installed
target mark_owned fits installed_disabled = some installed_disabled
target mark_owned fits enabled_active = some enabled_active
target install true owned_not_installed = some installed_disabled
target install _ _ = none
target uninstall fits installed_disabled = some owned_not_installed
target uninstall fits enabled_active = some owned_not_installed
target uninstall _ _ = none
target enable true installed_disabled = some enabled_active
target enable true enabled_active = some enabled_active
target enable _ _ = none
target disable fits installed_disabled = some installed_disabled
target disable fits enabled_active = some installed_disabled
target disable _ _ = none

abbrev pub size : ModelTier → ℕ
size small = 0
size mid = 1
size large = 2

-- the app is not too old and the model not too small
abbrev pub Fits : SkillEntry → HostEnv → Type 0
Fits e env =
    AtLeast env.app_version e.min_app_version × (size e.min_model_tier ≤ size env.model_tier)

abbrev pub fits : SkillEntry → HostEnv → Bool
fits e env =
    not (is_gt (semver_cmp e.min_app_version env.app_version))
    && leb (size e.min_model_tier) (size env.model_tier)

pub fits_iff : (e : SkillEntry) (env : HostEnv) → (fits e env ≡ true) ↔ Fits e env
fits_iff e env = (λ h. ground arith, λ h. ground arith)

pub tier_gt-size : (a b : ModelTier) → tier_gt a b ≡ not (leb (size a) (size b))
tier_gt-size small small = refl
tier_gt-size small mid = refl
tier_gt-size small large = refl
tier_gt-size mid small = refl
tier_gt-size mid mid = refl
tier_gt-size mid large = refl
tier_gt-size large small = refl
tier_gt-size large mid = refl
tier_gt-size large large = refl

-- an enabled skill is installed, and an installed one owned
pub record IsLegal (e : SkillEntry) : Type 0 where
  pub enabled_installed : e.enabled ≡ true → is_installed e.install_state ≡ true
  pub installed_owned : is_installed e.install_state ≡ true → is_owned e ≡ true

abbrev pub Accepts : Option LifecycleState → SkillEntry → Outcome → Type 0
Accepts (some s) e o = (o.0 ≡ ok s) × (state_of o.1 ≡ s)
Accepts none e o = ((x : SkillError) × (o.0 ≡ err x)) × (o.1 ≡ e)
