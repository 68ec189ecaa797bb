-- ===== src/Skills/Reachable.antt =====
-- What holds of every entry behind any sequence of calls (client/src-tauri/src/skill_manager.rs).
use hydropark_gym.Prelude.{
  ◌≡◌, ◌⊎◌, inl, inr, refl, subst, true, false, some, List, [], ◌∷◌, Result-cases, Bool-cases,
  Option-cases, In, arith,
}
use hydropark_gym.Prelude.Text.{Text, text_eqb}
use hydropark_gym.Prelude.TreeMap
use hydropark_gym.Prelude.TreeMap.{get-insert}
use hydropark_gym.Skills.Entry
use hydropark_gym.Skills.Entry.{
  HostEnv, SkillEntry, SkillView, InstallState, is_installed, gate, of_view, new_entry,
}
use hydropark_gym.Skills.Lifecycle.{
  Method, mark_owned, install, uninstall, enable, disable, apply, Fits, fits_iff, IsLegal,
}
use hydropark_gym.Skills.Simulation.{fits_of_gate}
use hydropark_gym.Skills.Manager
use hydropark_gym.Skills.Manager.{SkillManager, Changed, with_entry, get}
use hydropark_gym.Skills.Calls.{
  Call, set_env, insert, on, run_all, call_method, call_method_lem, SameNeeds, apply-SameNeeds,
  apply-IsLegal,
}

abbrev Installed : SkillEntry → Type 0
Installed e = is_installed e.install_state ≡ true

-- a method installs only a skill that fits the host
apply-installs :
    (md : Method) (env : HostEnv) (e : SkillEntry)
    → Installed (apply md env e).1
    → Installed e ⊎ Fits e env
unfolding Entry.mark_owned Entry.install Entry.uninstall Entry.enable Entry.disable
apply-installs mark_owned env e h = inl h
apply-installs uninstall env e h = absurd (ground arith)
apply-installs disable env e h = inl (ground arith)
apply-installs enable env e h = inl (ground arith)
apply-installs install env e h = elim (Result-cases (gate e env)) [
  | inl (u, q) ↦ inr ((fits_iff e env).0 (fits_of_gate e env u q))
  | inr (x, q) ↦ inl (ground arith)
]

-- The entry is legal, and if it is installed it has passed the gate in one of the environments.
pub record IsSound (seen : List HostEnv) (e : SkillEntry) : Type 0 where
  pub legal : IsLegal e
  pub gated : is_installed e.install_state ≡ true → (env : HostEnv) × In env seen × Fits e env

Fits-same : (e e' : SkillEntry) (env : HostEnv) → SameNeeds e e' → Fits e env → Fits e' env
Fits-same e e' env s f = rw (s.same_app, s.same_tier) f

apply-IsSound :
    (md : Method) (env : HostEnv) (seen : List HostEnv) (e : SkillEntry)
    → In env seen
    → IsSound seen e
    → IsSound seen (apply md env e).1
apply-IsSound md env seen e i s = record {
  legal = apply-IsLegal md env e s.legal;
  gated = λ h.
      let same = apply-SameNeeds md env e in
      elim (apply-installs md env e h) [
        | inl before ↦
            let (v, j, f) = s.gated before in (v, j, Fits-same e (apply md env e).1 v same f)
        | inr f ↦ (env, i, Fits-same e (apply md env e).1 env same f)
      ];
}

-- all entries are sound, and the present environment is one of those seen
record IsGood (seen : List HostEnv) (m : SkillManager) : Type 0 where
  entries : (id : Text) (e : SkillEntry) → get m id ≡ some e → IsSound seen e
  present : In m.env seen

-- a write at a key keeps a predicate of the entries
entries-insert :
    (P : SkillEntry → Type 0) (m : SkillManager) (k : Text) (v : SkillEntry)
    → P v
    → ((id : Text) (e : SkillEntry) → get m id ≡ some e → P e)
    → (id : Text) (e : SkillEntry) → TreeMap.get id (TreeMap.insert k v m.skills) ≡ some e
    → P e
entries-insert P m k v p all id e h = elim (Bool-cases (text_eqb k id)) [
  | inl t ↦ subst P (ground (arith, get-insert k id v m.skills)) p
  | inr t ↦ all id e (ground (arith, get-insert k id v m.skills))
]

-- an entry of a new registration: not installed and not enabled
pub record IsFresh (e : SkillEntry) : Type 0 where
  pub not_there : e.install_state ≡ InstallState.not_installed
  pub not_enabled : e.enabled ≡ false

pub of_view-IsFresh : (v : SkillView) → IsFresh (of_view v)
unfolding of_view
of_view-IsFresh v = record { not_there = refl; not_enabled = refl }

fresh-IsSound : (seen : List HostEnv) (e : SkillEntry) → IsFresh e → IsSound seen e
fresh-IsSound seen e f = record {
  legal = record {
    enabled_installed = λ h. absurd (ground (arith, f.not_enabled));
    installed_owned = λ h. absurd (ground (arith, f.not_there));
  };
  gated = λ h. absurd (ground (arith, f.not_there));
}

-- every entry that is registered is fresh
abbrev pub AllFresh : List Call → Type 0
AllFresh [] = Unit
AllFresh (insert e ∷ calls) = IsFresh e × AllFresh calls
AllFresh (c ∷ calls) = AllFresh calls

-- the environments that the host has had
abbrev pub seen_after : List HostEnv → List Call → List HostEnv
seen_after seen [] = seen
seen_after seen (set_env env ∷ calls) = seen_after (env ∷ seen) calls
seen_after seen (c ∷ calls) = seen_after seen calls

method-IsGood :
    (md : Method) (seen : List HostEnv) (m : SkillManager) (id : Text)
    → IsGood seen m
    → IsGood seen (with_entry m id (get m id) (apply md m.env)).1
method-IsGood md seen m id g = elim (Option-cases (get m id)) [
  | inl n ↦ rw n g
  | inr (e, f) ↦ rw f (record {
    entries =
        entries-insert (IsSound seen) m id (apply md m.env e).1
          (apply-IsSound md m.env seen e g.present (g.entries id e f)) g.entries;
    present = g.present;
  })
]

env-IsGood :
    (seen : List HostEnv) (m : SkillManager) (env : HostEnv)
    → IsGood seen m
    → IsGood (env ∷ seen) (Manager.set_env m env)
env-IsGood seen m env g = record {
  entries = λ id e h.
      let s = g.entries id e h in
      record { legal = s.legal; gated = λ i. let (v, j, f) = s.gated i in (v, inr j, f) };
  present = inl refl;
}

insert-IsGood :
    (seen : List HostEnv) (m : SkillManager) (e : SkillEntry)
    → IsFresh e
    → IsGood seen m
    → IsGood seen (Manager.insert m e)
insert-IsGood seen m e f g = record {
  entries = entries-insert (IsSound seen) m e.id e (fresh-IsSound seen e f) g.entries;
  present = g.present;
}

run_all-IsGood :
    (seen : List HostEnv) (m : SkillManager) (calls : List Call)
    → AllFresh calls
    → IsGood seen m
    → IsGood (seen_after seen calls) (run_all m calls)
unfolding run_all
run_all-IsGood seen m [] f g = g
run_all-IsGood seen m (set_env env ∷ calls) f g =
    run_all-IsGood (env ∷ seen) (Manager.set_env m env) calls f (env-IsGood seen m env g)
run_all-IsGood seen m (insert e ∷ calls) f g =
    run_all-IsGood seen (Manager.insert m e) calls f.1 (insert-IsGood seen m e f.0 g)
run_all-IsGood seen m (on md id ∷ calls) f g =
    run_all-IsGood seen (call_method md m id).1 calls f
      (rw (call_method_lem md m id) (method-IsGood md seen m id g))

new-IsGood : (env : HostEnv) → IsGood (env ∷ []) (Manager.new env)
unfolding TreeMap.get
new-IsGood env = record { entries = λ id e h. absurd (ground arith); present = inl refl }

-- Behind every sequence of calls that registers fresh entries, an enabled skill is installed, an
-- installed one is owned, and an installed one has passed the gate: its app version and model tier
-- fit one of the environments that the host has had.
pub run_all-IsSound :
    (env : HostEnv) (calls : List Call) (id : Text) (e : SkillEntry)
    → AllFresh calls
    → get (run_all (Manager.new env) calls) id ≡ some e
    → IsSound (seen_after (env ∷ []) calls) e
run_all-IsSound env calls id e f h =
    (run_all-IsGood (env ∷ []) (Manager.new env) calls f (new-IsGood env)).entries id e h
