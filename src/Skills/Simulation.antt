-- ===== src/Skills/Simulation.antt =====
-- The transitions of one skill implement the lifecycle of the marketplace
-- (client/src-tauri/src/skill_manager.rs).
use hydropark_gym.Prelude.{
  ◌≡◌, inl, inr, refl, Bool, true, false, not, Result, ok, err, if◌then◌else◌, arith, Result-cases,
}
use hydropark_gym.Skills.Entry
use hydropark_gym.Skills.Entry.{
  ModelTier, small, mid, large, tier_gt, HostEnv, SkillEntry, LifecycleState, owned_not_installed,
  installed_disabled, enabled_active, SkillError, Outcome, Ownership, paid, InstallState, installed,
  state_of, is_owned, is_installed, check_compatibility, gate, moved, behind_gate,
}
use hydropark_gym.Skills.Lifecycle.{
  Method, mark_owned, install, uninstall, enable, disable, apply, target, fits, tier_gt-size,
  IsLegal, Accepts,
}

pub fits_of_gate :
    (e : SkillEntry) (env : HostEnv) (u : Unit {0}) → gate e env ≡ ok u → fits e env ≡ true
unfolding gate check_compatibility
fits_of_gate e env u h = ground (arith, tier_gt-size e.min_model_tier env.model_tier)

not_fits_of_gate :
    (e : SkillEntry) (env : HostEnv) (x : SkillError) → gate e env ≡ err x → fits e env ≡ false
unfolding gate check_compatibility
not_fits_of_gate e env x h = ground (arith, tier_gt-size e.min_model_tier env.model_tier)

-- the gate opens exactly where the skill fits
abbrev pub Gated : Bool → Result (Unit {0}) SkillError → Type 0
Gated true (ok _) = Unit
Gated false (err x) = Unit
Gated _ _ = ⊥

Gated-of_refused : (f : Bool) (x : SkillError) → f ≡ false → Gated f (err x)
Gated-of_refused true x h = absurd (ground arith)
Gated-of_refused false x h = tt

Gated-of_opened : (f : Bool) (u : Unit {0}) → f ≡ true → Gated f (ok u)
Gated-of_opened true u h = tt
Gated-of_opened false u h = absurd (ground arith)

gate_lem : (e : SkillEntry) (env : HostEnv) → Gated (fits e env) (gate e env)
gate_lem e env = elim (Result-cases (gate e env)) [
  | inl (u, q) ↦ rw q (Gated-of_opened (fits e env) u (fits_of_gate e env u q))
  | inr (x, q) ↦ rw q (Gated-of_refused (fits e env) x (not_fits_of_gate e env x q))
]

-- the record by its fields, for proofs by cases
abbrev make : Ownership → InstallState → Bool → SkillEntry → SkillEntry
make o i b e = record e { ownership = o; install_state = i; enabled = b }

abbrev pub Simulates : Method → HostEnv → SkillEntry → Type 0
Simulates md env e = Accepts (target md (fits e env) (state_of e)) e (apply md env e)

Simulates-owned :
    (o : Ownership) (i : InstallState) (b : Bool) (e : SkillEntry) (env : HostEnv)
    → IsLegal (make o i b e)
    → Simulates mark_owned env (make o i b e)
unfolding Entry.mark_owned
Simulates-owned Ownership.free InstallState.not_installed b e env l = (refl, refl)
Simulates-owned Ownership.free installed true e env l = (refl, refl)
Simulates-owned Ownership.free installed false e env l = (refl, refl)
Simulates-owned (paid true) InstallState.not_installed b e env l = (refl, refl)
Simulates-owned (paid true) installed true e env l = (refl, refl)
Simulates-owned (paid true) installed false e env l = (refl, refl)
Simulates-owned (paid false) InstallState.not_installed b e env l = (refl, refl)
Simulates-owned (paid false) installed b e env l = absurd (ground (arith, l.installed_owned))

Simulates-uninstall :
    (o : Ownership) (i : InstallState) (b : Bool) (e : SkillEntry) (env : HostEnv)
    → IsLegal (make o i b e)
    → Simulates uninstall env (make o i b e)
unfolding Entry.uninstall
Simulates-uninstall Ownership.free InstallState.not_installed b e env l = ((_, refl), refl)
Simulates-uninstall Ownership.free installed true e env l = (refl, refl)
Simulates-uninstall Ownership.free installed false e env l = (refl, refl)
Simulates-uninstall (paid true) InstallState.not_installed b e env l = ((_, refl), refl)
Simulates-uninstall (paid true) installed true e env l = (refl, refl)
Simulates-uninstall (paid true) installed false e env l = (refl, refl)
Simulates-uninstall (paid false) InstallState.not_installed b e env l = ((_, refl), refl)
Simulates-uninstall (paid false) installed b e env l = absurd (ground (arith, l.installed_owned))

Simulates-disable :
    (o : Ownership) (i : InstallState) (b : Bool) (e : SkillEntry) (env : HostEnv)
    → IsLegal (make o i b e)
    → Simulates disable env (make o i b e)
unfolding Entry.disable
Simulates-disable Ownership.free InstallState.not_installed b e env l = ((_, refl), refl)
Simulates-disable Ownership.free installed true e env l = (refl, refl)
Simulates-disable Ownership.free installed false e env l = (refl, refl)
Simulates-disable (paid true) InstallState.not_installed b e env l = ((_, refl), refl)
Simulates-disable (paid true) installed true e env l = (refl, refl)
Simulates-disable (paid true) installed false e env l = (refl, refl)
Simulates-disable (paid false) InstallState.not_installed b e env l = ((_, refl), refl)
Simulates-disable (paid false) installed b e env l = absurd (ground (arith, l.installed_owned))

-- `enable` and `install` for any gate `g` that opens if `f` holds
enable_by :
    (f : Bool) (g : Result (Unit {0}) SkillError) (o : Ownership) (i : InstallState) (b : Bool)
    (e : SkillEntry)
    → Gated f g
    → IsLegal (make o i b e)
    → Accepts (target enable f (state_of (make o i b e))) (make o i b e) (
        if not (is_installed i)
        then (err (SkillError.not_installed e.id), make o i b e)
        else behind_gate g (make o i b e) (make o i true e))
enable_by true g Ownership.free InstallState.not_installed b e q l = ((_, refl), refl)
enable_by false g Ownership.free InstallState.not_installed b e q l = ((_, refl), refl)
enable_by true g (paid true) InstallState.not_installed b e q l = ((_, refl), refl)
enable_by false g (paid true) InstallState.not_installed b e q l = ((_, refl), refl)
enable_by true g (paid false) InstallState.not_installed b e q l = ((_, refl), refl)
enable_by false g (paid false) InstallState.not_installed b e q l = ((_, refl), refl)
enable_by f g (paid false) installed b e q l = absurd (ground (arith, l.installed_owned))
enable_by true (ok u) Ownership.free installed true e q l = (refl, refl)
enable_by true (ok u) Ownership.free installed false e q l = (refl, refl)
enable_by true (ok u) (paid true) installed true e q l = (refl, refl)
enable_by true (ok u) (paid true) installed false e q l = (refl, refl)
enable_by false (err x) Ownership.free installed true e q l = ((x, refl), refl)
enable_by false (err x) Ownership.free installed false e q l = ((x, refl), refl)
enable_by false (err x) (paid true) installed true e q l = ((x, refl), refl)
enable_by false (err x) (paid true) installed false e q l = ((x, refl), refl)
enable_by true (err x) o installed b e q l = absurd q
enable_by false (ok u) o installed b e q l = absurd q

install_by :
    (f : Bool) (g : Result (Unit {0}) SkillError) (o : Ownership) (i : InstallState) (b : Bool)
    (e : SkillEntry)
    → Gated f g
    → IsLegal (make o i b e)
    → Accepts (target install f (state_of (make o i b e))) (make o i b e) (
        if not (Entry.owned o)
        then (err (SkillError.not_owned e.id), make o i b e)
        else if is_installed i
        then (err (Entry.already_installed e.id), make o i b e)
        else behind_gate g (make o i b e) (make o installed false e))
install_by true g (paid false) i b e q l = ((_, refl), refl)
install_by false g (paid false) i b e q l = ((_, refl), refl)
install_by true g Ownership.free installed true e q l = ((_, refl), refl)
install_by true g Ownership.free installed false e q l = ((_, refl), refl)
install_by false g Ownership.free installed b e q l = ((_, refl), refl)
install_by true g (paid true) installed true e q l = ((_, refl), refl)
install_by true g (paid true) installed false e q l = ((_, refl), refl)
install_by false g (paid true) installed b e q l = ((_, refl), refl)
install_by true (ok u) Ownership.free InstallState.not_installed b e q l = (refl, refl)
install_by true (ok u) (paid true) InstallState.not_installed b e q l = (refl, refl)
install_by false (err x) Ownership.free InstallState.not_installed b e q l = ((x, refl), refl)
install_by false (err x) (paid true) InstallState.not_installed b e q l = ((x, refl), refl)
install_by true (err x) o InstallState.not_installed b e q l = absurd q
install_by false (ok u) o InstallState.not_installed b e q l = absurd q

-- Every method of a legal entry follows the diagram.
pub apply-Simulates :
    (md : Method) (env : HostEnv) (e : SkillEntry) → IsLegal e → Simulates md env e
unfolding Entry.enable Entry.install
apply-Simulates mark_owned env e l = Simulates-owned e.ownership e.install_state e.enabled e env l
apply-Simulates uninstall env e l =
    Simulates-uninstall e.ownership e.install_state e.enabled e env l
apply-Simulates disable env e l = Simulates-disable e.ownership e.install_state e.enabled e env l
apply-Simulates enable env e l =
    enable_by (fits e env) (gate e env) e.ownership e.install_state e.enabled e (gate_lem e env) l
apply-Simulates install env e l =
    install_by (fits e env) (gate e env) e.ownership e.install_state e.enabled e (gate_lem e env) l
