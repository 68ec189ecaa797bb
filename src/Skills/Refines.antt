-- ===== src/Skills/Refines.antt =====
-- The skill manager implements the marketplace's lifecycle
-- (client/src-tauri/src/skill_manager.rs).
use hydropark_gym.Prelude.{
  ◌≡◌, ◌≢◌, inl, inr, refl, ap, ◌∙◌, Option, none, some, List, ok, err, Option-cases, arith,
}
use hydropark_gym.Prelude.Text.{Text, text_eqb_iff}
use hydropark_gym.Prelude.TreeMap
use hydropark_gym.Prelude.TreeMap.{get-insert}
use hydropark_gym.Skills.Entry.{
  HostEnv, SkillEntry, SkillError, unknown_skill, LifecycleState, state_of, Outcome,
}
use hydropark_gym.Skills.Lifecycle.{Method, apply, target, fits, IsLegal, Accepts}
use hydropark_gym.Skills.Simulation.{apply-Simulates}
use hydropark_gym.Skills.Manager
use hydropark_gym.Skills.Manager.{SkillManager, Changed, with_entry, put_back, get, state}
use hydropark_gym.Skills.Calls.{Call, run_all, call_method, call_method_lem}
use hydropark_gym.Skills.Reachable.{AllFresh, run_all-IsSound}

-- The diagram's answer, `some s` for a move to `s` and `none` for a refusal, is that of the call.
abbrev pub Follows : Option LifecycleState → LifecycleState → Text → Changed → Type 0
Follows (some s) before id c = (c.0 ≡ ok s) × (state c.1 id ≡ ok s)
Follows none before id c = ((x : SkillError) × (c.0 ≡ err x)) × (state c.1 id ≡ ok before)

-- the call touches the entry of `id` alone
abbrev pub Elsewhere : SkillManager → Text → Changed → Type 0
Elsewhere m id c = ((j : Text) → id ≢ j → get c.1 j ≡ get m j) × (c.1.env ≡ m.env)

abbrev pub CallOutcome : Method → SkillManager → Text → Option SkillEntry → Type 0
CallOutcome md m id none = call_method md m id ≡ (err (unknown_skill id), m)
CallOutcome md m id (some e) =
    Follows (target md (fits e m.env) (state_of e)) (state_of e) id (call_method md m id)
    × Elsewhere m id (call_method md m id)

pub get_own :
    (m : SkillManager) (id : Text) (e : SkillEntry)
    → TreeMap.get id (TreeMap.insert id e m.skills) ≡ some e
get_own m id e = ground (arith, get-insert id id e m.skills, text_eqb_iff id id)

get_other :
    (m : SkillManager) (id j : Text) (e : SkillEntry)
    → id ≢ j
    → TreeMap.get j (TreeMap.insert id e m.skills) ≡ get m j
get_other m id j e n = ground (arith, get-insert id j e m.skills, text_eqb_iff id j)

put_back-Follows :
    (t : Option LifecycleState) (m : SkillManager) (id : Text) (e : SkillEntry) (o : Outcome)
    → Accepts t e o
    → Follows t (state_of e) id (put_back m id o)
unfolding state
put_back-Follows (some s) m id e (r, e') (p, q) = (p, rw (get_own m id e') (ap ok q))
put_back-Follows none m id e (r, e') (p, q) =
    (p, rw (get_own m id e') (ap (λ x. ok (state_of x)) q))

call_outcome :
    (md : Method) (m : SkillManager) (id : Text)
    → ((e : SkillEntry) → get m id ≡ some e → IsLegal e)
    → CallOutcome md m id (get m id)
call_outcome md m id legal = elim (Option-cases (get m id)) [
  | inl n ↦ rw n (call_method_lem md m id ∙ rw n refl)
  | inr (e, f) ↦
      let here : call_method md m id ≡ put_back m id (apply md m.env e) =
        call_method_lem md m id ∙ rw f refl in
      rw f (
        rw here (
          put_back-Follows (target md (fits e m.env) (state_of e)) m id e (apply md m.env e)
              (apply-Simulates md m.env e (legal e f)),
          ((λ j n. get_other m id j (apply md m.env e).1 n), refl),
        ))
]

-- Behind every sequence of calls that registers fresh entries, each call of a method follows the
-- marketplace's diagram. For a registered skill it returns the position to which the diagram leads
-- from the skill's position, given whether the skill fits the host, and puts the skill there; where
-- the diagram has no arrow it returns an error and leaves the skill's position. It changes no other
-- skill and not the environment. For an unknown skill it says so and changes nothing.
pub call_method-refines :
    (env : HostEnv) (calls : List Call) (md : Method) (id : Text)
    → AllFresh calls
    → let m = run_all (Manager.new env) calls in CallOutcome md m id (get m id)
call_method-refines env calls md id f =
    call_outcome md (run_all (Manager.new env) calls) id
      (λ e h. (run_all-IsSound env calls id e f h).legal)
