-- ===== src/Templates/Loading.antt =====
-- What loading a template gives or refuses (client/src-tauri/src/templates.rs).
use hydropark_gym.Prelude.{
  ◌≡◌, ◌⊎◌, inl, inr, refl, true, false, none, some, List, [], ◌∷◌, map, Result, ok, err, ◌>>=◌,
  Bool-cases, Option-cases, arith,
}
use hydropark_gym.Prelude.Text.{Text}
use hydropark_gym.Version.Semver.{SemVer}
use hydropark_gym.Templates.Pins.{matches, at_least, matches_op}
use hydropark_gym.Templates.Ranges.{AtLeast}
use hydropark_gym.Templates.Documents.{
  SkillRef, Template, ResolvedSkill, ResolvedAgent, TemplateError, missing_skill,
  version_incompatible, Versions, installed_version, check_version, resolve_ref, resolve_refs,
  pinned, save_as_template, restored, load_template,
}

-- the skill is the pinned one, in the version installed, which the pin admits
pub record IsResolved (installed : Versions) (r : SkillRef) (s : ResolvedSkill) : Type 0 where
  pub same_id : s.skill_id ≡ r.skill_id
  pub same_pin : s.constraint ≡ r.version_constraint
  pub found : installed_version installed r.skill_id ≡ some s.version
  pub admitted : matches r.version_constraint s.version ≡ true

-- one resolved skill for every pinned one, in order
abbrev pub AllResolved : Versions → List SkillRef → List ResolvedSkill → Type 0
AllResolved installed [] [] = Unit
AllResolved installed (r ∷ refs) (s ∷ skills) =
    IsResolved installed r s × AllResolved installed refs skills
AllResolved installed _ _ = ⊥

-- why a pinned skill cannot be restored
abbrev pub Refuses : Versions → SkillRef → TemplateError → Type 0
Refuses installed r (missing_skill id) =
    (id ≡ r.skill_id) × (installed_version installed r.skill_id ≡ none)
Refuses installed r (version_incompatible id required v) =
    (id ≡ r.skill_id)
    × (required ≡ r.version_constraint)
    × (installed_version installed r.skill_id ≡ some v)
    × (matches r.version_constraint v ≡ false)

-- the error is that of a pinned skill, and all before it are restorable
abbrev pub FirstRefused : Versions → List SkillRef → TemplateError → Type 0
FirstRefused installed [] e = ⊥
FirstRefused installed (r ∷ refs) e =
    Refuses installed r e
    ⊎ (((s : ResolvedSkill) × IsResolved installed r s) × FirstRefused installed refs e)

abbrev RefOutcome : Versions → SkillRef → Result ResolvedSkill TemplateError → Type 0
RefOutcome installed r (ok s) = IsResolved installed r s
RefOutcome installed r (err e) = Refuses installed r e

check_version_lem :
    (installed : Versions) (r : SkillRef) (v : SemVer)
    → installed_version installed r.skill_id ≡ some v
    → RefOutcome installed r (check_version r v)
check_version_lem installed r v f = elim (Bool-cases (matches r.version_constraint v)) [
  | inl m ↦ rw m (record { same_id = refl; same_pin = refl; found = f; admitted = m })
  | inr m ↦ rw m (refl, refl, f, m)
]

resolve_ref_lem :
    (installed : Versions) (r : SkillRef) → RefOutcome installed r (resolve_ref installed r)
unfolding resolve_ref
resolve_ref_lem installed r = elim (Option-cases (installed_version installed r.skill_id)) [
  | inl n ↦ rw n (refl, n)
  | inr (v, f) ↦ rw f (check_version_lem installed r v f)
]

abbrev RefsOutcome : Versions → List SkillRef → Result (List ResolvedSkill) TemplateError → Type 0
RefsOutcome installed refs (ok skills) = AllResolved installed refs skills
RefsOutcome installed refs (err e) = FirstRefused installed refs e

-- one more reference in front
resolve_step :
    (installed : Versions) (r : SkillRef) (refs : List SkillRef)
    (one : Result ResolvedSkill TemplateError) (rest : Result (List ResolvedSkill) TemplateError)
    → RefOutcome installed r one
    → RefsOutcome installed refs rest
    → RefsOutcome installed (r ∷ refs) (one >>= λ skill. rest >>= λ skills. ok (skill ∷ skills))
resolve_step installed r refs (err e) rest o p = inl o
resolve_step installed r refs (ok s) (err e) o p = inr ((s, o), p)
resolve_step installed r refs (ok s) (ok skills) o p = (o, p)

resolve_refs_lem :
    (installed : Versions) (refs : List SkillRef)
    → RefsOutcome installed refs (resolve_refs installed refs)
unfolding resolve_refs
resolve_refs_lem installed [] = tt
resolve_refs_lem installed (r ∷ refs) =
    resolve_step installed r refs (resolve_ref installed r) (resolve_refs installed refs)
      (resolve_ref_lem installed r) (resolve_refs_lem installed refs)

module _ {V : Type 0} where
  -- what a load says of the template and the installed skills
  abbrev pub LoadOutcome : Template V → Versions → Result (ResolvedAgent V) TemplateError → Type 0
  LoadOutcome t installed (ok a) =
      (a ≡ restored t a.skills) × AllResolved installed t.skill_refs a.skills
  LoadOutcome t installed (err e) = FirstRefused installed t.skill_refs e

  outcome_of_refs :
      (t : Template V) (installed : Versions) (r : Result (List ResolvedSkill) TemplateError)
      → RefsOutcome installed t.skill_refs r
      → LoadOutcome t installed (r >>= λ skills. ok (restored t skills))
  outcome_of_refs t installed (ok skills) o = (refl, o)
  outcome_of_refs t installed (err e) o = o

  -- A load that succeeds restores the template's model, layout and presets, with every pinned skill
  -- in the template's order, each in the version installed, which its pin admits. A load that fails
  -- names the first pinned skill that is not installed, or whose installed version its pin refuses,
  -- and with that version.
  pub load_template_lem :
      (t : Template V) (installed : Versions) → LoadOutcome t installed (load_template t installed)
  unfolding load_template
  load_template_lem t installed =
      outcome_of_refs t installed (resolve_refs installed t.skill_refs)
        (resolve_refs_lem installed t.skill_refs)

-- the installed version of every enabled skill, the running one or a later one
abbrev pub Keeps : Versions → Versions → List SemVer → Type 0
Keeps installed [] [] = Unit
Keeps installed (e ∷ enabled) (v ∷ vs) =
    (installed_version installed e.0 ≡ some v) × AtLeast v e.1 × Keeps installed enabled vs
Keeps installed _ _ = ⊥

abbrev pub restored_skills : Versions → List SemVer → List ResolvedSkill
restored_skills (e ∷ enabled) (v ∷ vs) =
    record { skill_id = e.0; version = v; constraint = at_least e.1 } ∷ restored_skills enabled vs
restored_skills _ _ = []

at_least-matches : (base v : SemVer) → AtLeast v base → matches (at_least base) v ≡ true
unfolding matches matches_op
at_least-matches base v h = ground arith

resolve-pinned :
    (installed enabled : Versions) (vs : List SemVer)
    → Keeps installed enabled vs
    → resolve_refs installed (map pinned enabled) ≡ ok (restored_skills enabled vs)
unfolding resolve_refs resolve_ref
resolve-pinned installed [] [] k = refl
resolve-pinned installed [] (v ∷ vs) k = absurd k
resolve-pinned installed (e ∷ enabled) [] k = absurd k
resolve-pinned installed (e ∷ enabled) (v ∷ vs) (f, a, k) =
    rw (f, at_least-matches e.1 v a, resolve-pinned installed enabled vs k) refl

module _ {V : Type 0} where
  -- A saved agent is restored, with its skills in the order in which they were enabled and with its
  -- model and layout, on every host on which each of its skills is installed in the version that ran
  -- or a later one; the installed versions run.
  pub load_template-save_as_template :
      (name base_model : Text) (enabled installed : Versions) (vs : List SemVer) (ui : V)
      → Keeps installed enabled vs
      → load_template (save_as_template name base_model enabled ui) installed
        ≡ ok (record {
          base_model = base_model;
          skills = restored_skills enabled vs;
          ui_overrides = ui;
          presets = none;
        })
  unfolding load_template save_as_template
  load_template-save_as_template name base_model enabled installed vs ui k =
      rw (resolve-pinned installed enabled vs k) refl
