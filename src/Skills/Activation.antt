-- ===== src/Skills/Activation.antt =====
-- Every skill that fits its host can be brought to work
-- (client/src-tauri/src/skill_manager.rs).
use hydropark_gym.Prelude.{
  ◌≡◌, ◌≢◌, ◌⊎◌, inl, inr, refl, ap, sym, ◌∙◌, subst, Bool, true, Option, none, some, List, [], ◌∷◌,
  ok, arith, some_eq,
}
use hydropark_gym.Prelude.Text.{Text}
use hydropark_gym.Prelude.TreeMap
use hydropark_gym.Prelude.TreeMap.{get-insert}
use hydropark_gym.Skills.Entry.{
  HostEnv, SkillEntry, LifecycleState, owned_not_installed, installed_disabled, enabled_active,
  state_of, Outcome,
}
use hydropark_gym.Skills.Lifecycle.{
  Method, mark_owned, install, enable, apply, target, Fits, fits, fits_iff, IsLegal, Accepts,
}
use hydropark_gym.Skills.Simulation.{apply-Simulates}
use hydropark_gym.Skills.Manager
use hydropark_gym.Skills.Manager.{SkillManager, Changed, with_entry, put_back, get, state}
use hydropark_gym.Skills.Calls.{
  Call, on, run, run_all, call_method_lem, apply-SameNeeds, apply-IsLegal,
}
use hydropark_gym.Skills.Reachable.{AllFresh, run_all-IsSound}
use hydropark_gym.Skills.Refines.{get_own}

-- from the position of an owned skill that fits, `enable` behind `install` leads to the last one
abbrev Owned : LifecycleState → Type 0
Owned s = s ≢ LifecycleState.not_owned

buy_owns :
    (f : Bool) (s : LifecycleState)
    → (t : LifecycleState) × (target mark_owned f s ≡ some t) × Owned t
buy_owns f LifecycleState.not_owned = (owned_not_installed, refl, λ e. cc)
buy_owns f owned_not_installed = (owned_not_installed, refl, λ e. cc)
buy_owns f installed_disabled = (installed_disabled, refl, λ e. cc)
buy_owns f enabled_active = (enabled_active, refl, λ e. cc)

install_installs :
    (s : LifecycleState)
    → Owned s
    → (target install true s ≡ some installed_disabled)
      ⊎ ((target install true s ≡ none) × (target enable true s ≡ some enabled_active))
install_installs LifecycleState.not_owned n = absurd (n refl)
install_installs owned_not_installed n = inl refl
install_installs installed_disabled n = inr (refl, refl)
install_installs enabled_active n = inr (refl, refl)

-- an entry that is legal and fits, in a given position
record Stands (env : HostEnv) (s : LifecycleState) (e : SkillEntry) : Type 0 where
  legal : IsLegal e
  suits : Fits e env
  stands : state_of e ≡ s

position_of :
    (t : Option LifecycleState) (s : LifecycleState) (e : SkillEntry) (o : Outcome)
    → t ≡ some s
    → Accepts t e o
    → state_of o.1 ≡ s
position_of none s e o q a = absurd (ground arith)
position_of (some u) s e o q a = a.1 ∙ some_eq q

stays_of :
    (t : Option LifecycleState) (e : SkillEntry) (o : Outcome) → t ≡ none → Accepts t e o → o.1 ≡ e
stays_of none e o q a = a.1
stays_of (some u) e o q a = absurd (ground arith)

target_at :
    (md : Method) (env : HostEnv) (e : SkillEntry) (s : LifecycleState)
    → Stands env s e
    → target md (fits e env) (state_of e) ≡ target md true s
target_at md env e s w = rw ((fits_iff e env).1 w.suits, w.stands) refl

Stands-moves :
    (md : Method) (env : HostEnv) (e : SkillEntry) (s t : LifecycleState)
    → Stands env s e
    → target md true s ≡ some t
    → Stands env t (apply md env e).1
Stands-moves md env e s t w q =
    let same = apply-SameNeeds md env e in
    record {
      legal = apply-IsLegal md env e w.legal;
      suits = rw (same.same_app, same.same_tier) w.suits;
      stands =
          position_of (target md (fits e env) (state_of e)) t e (apply md env e)
            (target_at md env e s w ∙ q) (apply-Simulates md env e w.legal);
    }

Stands-stays :
    (md : Method) (env : HostEnv) (e : SkillEntry) (s : LifecycleState)
    → Stands env s e
    → target md true s ≡ none
    → Stands env s (apply md env e).1
Stands-stays md env e s w q =
    subst (Stands env s)
      (sym (
        stays_of (target md (fits e env) (state_of e)) e (apply md env e)
          (target_at md env e s w ∙ q) (apply-Simulates md env e w.legal)))
      w

-- the three methods in turn on one entry
activated : (env : HostEnv) (e : SkillEntry) → SkillEntry
activated env e = (apply enable env (apply install env (apply mark_owned env e).1).1).1

activated-Stands :
    (env : HostEnv) (e : SkillEntry)
    → IsLegal e
    → Fits e env
    → Stands env enabled_active (activated env e)
unfolding activated
activated-Stands env e l f =
    let here : Stands env (state_of e) e = record { legal = l; suits = f; stands = refl } in
    let (s, q, owned) = buy_owns true (state_of e) in
    let bought = Stands-moves mark_owned env e (state_of e) s here q in
    let e' = (apply mark_owned env e).1 in
    elim (install_installs s owned) [
      | inl r ↦
          Stands-moves enable env (apply install env e').1 installed_disabled enabled_active
            (Stands-moves install env e' s installed_disabled bought r) refl
      | inr (r, t) ↦
          Stands-moves enable env (apply install env e').1 s enabled_active
            (Stands-stays install env e' s bought r) t
    ]

method_step :
    (md : Method) (m : SkillManager) (id : Text) (e : SkillEntry)
    → get m id ≡ some e
    → run m (on md id) ≡ record m { skills = TreeMap.insert id (apply md m.env e).1 m.skills }
method_step md m id e f = ap (λ c. c.1) (call_method_lem md m id) ∙ rw f refl

-- the calls that bring a skill to work
abbrev pub activation : Text → List Call
activation id = on mark_owned id ∷ on install id ∷ on enable id ∷ []

run_activation :
    (m : SkillManager) (id : Text) (e : SkillEntry)
    → get m id ≡ some e
    → get (run_all m (activation id)) id ≡ some (activated m.env e)
unfolding run_all activated
run_activation m id e f =
    let e1 = (apply mark_owned m.env e).1 in
    let e2 = (apply install m.env e1).1 in
    let m1 : SkillManager = record m { skills = TreeMap.insert id e1 m.skills } in
    let m2 : SkillManager = record m1 { skills = TreeMap.insert id e2 m1.skills } in
    rw
      (
        method_step mark_owned m id e f,
        method_step install m1 id e1 (get_own m id e1),
        method_step enable m2 id e2 (get_own m1 id e2),
      )
      (get_own m2 id (apply enable m.env e2).1)

-- Behind every sequence of calls that registers fresh entries, a registered skill that fits the
-- present environment becomes active by buying, installing and enabling it, whatever its position;
-- steps of these that are done already do no harm.
pub run_all-activates :
    (env : HostEnv) (calls : List Call) (id : Text) (e : SkillEntry)
    → AllFresh calls
    → let m = run_all (Manager.new env) calls in
      get m id ≡ some e → Fits e m.env → state (run_all m (activation id)) id ≡ ok enabled_active
unfolding state
run_all-activates env calls id e f h s =
    let m = run_all (Manager.new env) calls in
    let done = activated-Stands m.env e (run_all-IsSound env calls id e f h).legal s in
    rw (run_activation m id e h) (ap ok done.stands)
