-- ===== src/Skills/Manager.antt =====
-- The registry of skills over a host environment (client/src-tauri/src/skill_manager.rs). A method
-- that changes the manager returns its result and the manager behind it.
use hydropark_gym.Prelude.{Option, none, some, [], Result, ok, err}
use hydropark_gym.Prelude.Text.{Text}
use hydropark_gym.Prelude.TreeMap
use hydropark_gym.Prelude.TreeMap.{BTreeMap}
use hydropark_gym.Skills.Entry
use hydropark_gym.Skills.Entry.{
  SkillEntry, SkillView, HostEnv, LifecycleState, SkillError, unknown_skill, Outcome, of_view,
  state_of,
}

pub record SkillManager : Type 0 where
  pub env : HostEnv
  pub skills : BTreeMap SkillEntry

abbrev pub new : HostEnv → SkillManager
new env = record { env = env; skills = [] }

abbrev pub set_env : SkillManager → HostEnv → SkillManager
set_env m env = record m { env = env }

abbrev pub insert : SkillManager → SkillEntry → SkillManager
insert m e = record m { skills = TreeMap.insert e.id e m.skills }

-- `insert_from_manifest`; serde's decoder is a parameter
abbrev pub insert_from_manifest :
    {V E : Type 0}
    → (V → Result SkillView E)
    → SkillManager
    → V
    → Result (Unit {0}) E × SkillManager
insert_from_manifest from_value m manifest = elim (from_value manifest) [
  | err e ↦ (err e, m)
  | ok view ↦ (ok tt, insert m (of_view view))
]

abbrev pub get : SkillManager → Text → Option SkillEntry
get m id = TreeMap.get id m.skills

abbrev pub state_or : Text → Option SkillEntry → Result LifecycleState SkillError
state_or id none = err (unknown_skill id)
state_or id (some e) = ok (state_of e)

unfoldable pub state : SkillManager → Text → Result LifecycleState SkillError
state m id = state_or id (get m id)

abbrev pub Changed : Type 0
Changed = Result LifecycleState SkillError × SkillManager

-- the entry that a method has changed is in its place again
abbrev pub put_back : SkillManager → Text → Outcome → Changed
put_back m id (r, e) = (r, record m { skills = TreeMap.insert id e m.skills })

-- `get_mut`, and a method on the entry
abbrev pub with_entry : SkillManager → Text → Option SkillEntry → (SkillEntry → Outcome) → Changed
with_entry m id none method = (err (unknown_skill id), m)
with_entry m id (some e) method = put_back m id (method e)

abbrev bought : SkillEntry → Outcome
bought e = let (s, e') = Entry.mark_owned e in (ok s, e')

unfoldable pub mark_owned : SkillManager → Text → Changed
mark_owned m id = with_entry m id (get m id) bought

unfoldable pub install : SkillManager → Text → Changed
install m id = with_entry m id (get m id) (λ e. Entry.install e m.env)

unfoldable pub uninstall : SkillManager → Text → Changed
uninstall m id = with_entry m id (get m id) Entry.uninstall

unfoldable pub enable : SkillManager → Text → Changed
enable m id = with_entry m id (get m id) (λ e. Entry.enable e m.env)

unfoldable pub disable : SkillManager → Text → Changed
disable m id = with_entry m id (get m id) Entry.disable
