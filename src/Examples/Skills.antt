-- ===== src/Examples/Skills.antt =====
-- A paid skill that is bought, installed, enabled, and kept over a change of the model
-- (client/src-tauri/src/skill_manager.rs).
use hydropark_gym.Prelude.{◌≡◌, refl, ok, err, some, true, false, List, [], ◌∷◌, arith, inl, inr}
use hydropark_gym.Prelude.Text.{Text, chars, text_eqb, text_cmp}
use hydropark_gym.Prelude.TreeMap
use hydropark_gym.Version.Semver.{new}
use hydropark_gym.Skills.Entry
use hydropark_gym.Skills.Entry.{
  HostEnv, SkillView, SkillEntry, mid, small, of_view, incompatible, model_tier_too_low,
  enabled_active, gate, check_compatibility,
}
use hydropark_gym.Skills.Lifecycle.{mark_owned, install, enable}
use hydropark_gym.Skills.Manager
use hydropark_gym.Skills.Manager.{SkillManager, get, state}
use hydropark_gym.Skills.Calls.{Call, set_env, insert, on, run_all, call_method}
use hydropark_gym.Skills.Reachable.{IsSound, of_view-IsFresh, run_all-IsSound}
use hydropark_gym.Skills.Refines.{CallOutcome, call_method-refines}
use hydropark_gym.Skills.Activation.{activation, run_all-activates}

abbrev chef : Text
chef = chars "chef"

abbrev chef_view : SkillView
chef_view = record {
  id = chef;
  pricing_free = false;
  min_app_version = new 1 0 0;
  min_model_tier = mid;
}

abbrev large_host : HostEnv
large_host = record { app_version = new 1 2 0; model_tier = mid }

abbrev small_host : HostEnv
small_host = record { app_version = new 1 2 0; model_tier = small }

abbrev used : List Call
used =
    insert (of_view chef_view)
    ∷ on mark_owned chef
    ∷ on install chef
    ∷ on enable chef
    ∷ set_env small_host
    ∷ []

abbrev chef_active : SkillEntry
chef_active = record {
  id = chef;
  ownership = Entry.paid true;
  install_state = Entry.installed;
  enabled = true;
  min_app_version = new 1 0 0;
  min_model_tier = mid;
  free = false;
}

still_active : get (run_all (Manager.new large_host) used) chef ≡ some chef_active
unfolding run_all Manager.mark_owned Manager.install Manager.enable Entry.mark_owned Entry.install
    Entry.enable gate check_compatibility of_view TreeMap.get TreeMap.insert text_eqb text_cmp
still_active = refl

run_all-IsSound_example : IsSound (small_host ∷ large_host ∷ []) chef_active
run_all-IsSound_example =
    run_all-IsSound large_host used chef chef_active ((of_view-IsFresh chef_view), tt) still_active

call_method-refines_example :
    let m = run_all (Manager.new large_host) used in CallOutcome enable m chef (get m chef)
call_method-refines_example =
    call_method-refines large_host used enable chef ((of_view-IsFresh chef_view), tt)

-- the skill stays active, and is refused if it is to be enabled again
refused_again :
    (call_method enable (run_all (Manager.new large_host) used) chef).0
    ≡ err (incompatible chef (model_tier_too_low mid small))
unfolding run_all Manager.mark_owned Manager.install Manager.enable Entry.mark_owned Entry.install
    Entry.enable gate check_compatibility of_view TreeMap.get TreeMap.insert text_eqb text_cmp
refused_again = refl

abbrev registered : List Call
registered = insert (of_view chef_view) ∷ []

new_entry_there : get (run_all (Manager.new large_host) registered) chef ≡ some (of_view chef_view)
unfolding run_all of_view TreeMap.get TreeMap.insert text_eqb text_cmp
new_entry_there = refl

run_all-activates_example :
    state (run_all (run_all (Manager.new large_host) registered) (activation chef)) chef
    ≡ ok enabled_active
unfolding of_view run_all
run_all-activates_example =
    run_all-activates large_host registered chef (of_view chef_view)
      ((of_view-IsFresh chef_view), tt) new_entry_there ((inr (inl (omega arith))), (omega arith))
