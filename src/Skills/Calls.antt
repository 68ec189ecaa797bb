-- ===== src/Skills/Calls.antt =====
-- Sequences of calls of the skill manager, and what holds of every entry behind them
-- (client/src-tauri/src/skill_manager.rs).
use hydropark_gym.Prelude.{◌≡◌, refl, List, [], ◌∷◌, arith}
use hydropark_gym.Prelude.Text.{Text}
use hydropark_gym.Skills.Entry
use hydropark_gym.Skills.Entry.{
  HostEnv, SkillEntry, SkillError, LifecycleState, InstallState, is_installed, is_owned, state_of,
  gate, Outcome,
}
use hydropark_gym.Skills.Lifecycle.{
  Method, mark_owned, install, uninstall, enable, disable, apply, IsLegal,
}
use hydropark_gym.Skills.Manager
use hydropark_gym.Skills.Manager.{SkillManager, Changed, with_entry, put_back, get}

pub data Call : Type 0 where
  set_env : HostEnv → Call
  insert : SkillEntry → Call
  on : Method → Text → Call

abbrev pub call_method : Method → SkillManager → Text → Changed
call_method mark_owned m id = Manager.mark_owned m id
call_method install m id = Manager.install m id
call_method uninstall m id = Manager.uninstall m id
call_method enable m id = Manager.enable m id
call_method disable m id = Manager.disable m id

abbrev pub run : SkillManager → Call → SkillManager
run m (set_env env) = Manager.set_env m env
run m (insert e) = Manager.insert m e
run m (on md id) = (call_method md m id).1

unfoldable pub run_all : SkillManager → List Call → SkillManager
run_all m [] = m
run_all m (c ∷ calls) = run_all (run m c) calls

pub call_method_lem :
    (md : Method) (m : SkillManager) (id : Text)
    → call_method md m id ≡ with_entry m id (get m id) (apply md m.env)
unfolding Manager.mark_owned Manager.install Manager.uninstall Manager.enable Manager.disable
call_method_lem mark_owned m id = refl
call_method_lem install m id = refl
call_method_lem uninstall m id = refl
call_method_lem enable m id = refl
call_method_lem disable m id = refl

-- a method leaves alone what the gate and the registry read
pub record SameNeeds (e e' : SkillEntry) : Type 0 where
  pub same_id : e'.id ≡ e.id
  pub same_app : e'.min_app_version ≡ e.min_app_version
  pub same_tier : e'.min_model_tier ≡ e.min_model_tier

pub apply-SameNeeds :
    (md : Method) (env : HostEnv) (e : SkillEntry) → SameNeeds e (apply md env e).1
unfolding Entry.mark_owned Entry.install Entry.uninstall Entry.enable Entry.disable
apply-SameNeeds mark_owned env e = ground arith
apply-SameNeeds install env e = ground arith
apply-SameNeeds uninstall env e = ground arith
apply-SameNeeds enable env e = ground arith
apply-SameNeeds disable env e = ground arith

pub apply-IsLegal :
    (md : Method) (env : HostEnv) (e : SkillEntry) → IsLegal e → IsLegal (apply md env e).1
unfolding Entry.mark_owned Entry.install Entry.uninstall Entry.enable Entry.disable
apply-IsLegal mark_owned env e l = ground arith
apply-IsLegal install env e l = ground arith
apply-IsLegal uninstall env e l = ground arith
apply-IsLegal enable env e l = ground arith
apply-IsLegal disable env e l = ground arith
