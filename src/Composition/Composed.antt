-- ===== src/Composition/Composed.antt =====
-- What a composed agent was made of (client/src-tauri/src/composition.rs).
use hydropark_gym.Prelude.{
  ◌≡◌, ap, ap₂, ◌∙◌, subst, arith, ℕ, ◌+◌, ◌≤◌, ◌<◌, Option, List, [], ◌∷◌, map, Result, ok, err,
  map_err, >>=-eq-ok, All,
}
use hydropark_gym.Prelude.Int.{ℤ}
use hydropark_gym.Prelude.Text.{Text, chars}
use hydropark_gym.Prelude.Json.{Json}
use hydropark_gym.Prelude.Float.{Float}
use hydropark_gym.Prelude.Words.{u32_max}
use hydropark_gym.Orchestrator.Manifest.{SkillManifest}
use hydropark_gym.Orchestrator.Merge.{MergedAgent, merge}
use hydropark_gym.Orchestrator.Conflicts.{Before, Clash, merge_ok-no_Clash}
use hydropark_gym.Capacity.Projection
use hydropark_gym.Capacity.Projection.{CapacityProjection, project}
use hydropark_gym.Capacity.Budget.{demand, ok-iff_fits}
use hydropark_gym.Routing.Routes.{ToolDecl}
use hydropark_gym.Manifest.Access.{or_else, value_get, then_str}
use hydropark_gym.Manifest.Canonical.{CanonicalManifest}
use hydropark_gym.Manifest.Validate.{validate}
use hydropark_gym.Manifest.Safe.{IsSafe}
use hydropark_gym.Manifest.Sound.{Outcome, validate_lem}
use hydropark_gym.Composition.Compose.{
  ComposedAgent, invalid_manifest, malformed, of_merge_error, within_capacity, validate_all,
  parse_all, compose_agent,
}

-- what succeeds behind a change of its error succeeded before
map_err-eq-ok :
    {A E G : Type 0} (f : E → G) (r : Result A E) {out : A} → map_err f r ≡ ok out → r ≡ ok out
map_err-eq-ok f (ok a) q = ground arith
map_err-eq-ok f (err e) q = absurd (ground arith)

within_capacity-ok :
    (p q : CapacityProjection) → within_capacity p ≡ ok q → (p ≡ q) × (p.status ≡ Projection.ok)
within_capacity-ok p q e = ground arith

module _ {V F : Type 0} ⦃json : Json V⦄ ⦃float : Float F⦄ (as_f64 : V → Option F)
    (as_i64 : F → ℤ) where
  -- a manifest that is accepted, in a safe form
  abbrev pub IsAccepted : V → Type 0
  IsAccepted raw = (m : CanonicalManifest V) × (validate as_f64 as_i64 raw ≡ ok m) × IsSafe V m

  accepted :
      (raw : V) (m : CanonicalManifest V) → validate as_f64 as_i64 raw ≡ ok m → IsAccepted raw
  accepted raw m e = (m, e, subst (Outcome as_f64 as_i64) e (validate_lem as_f64 as_i64 raw))

  validate_all-ok :
      (manifests : List V) → validate_all as_f64 as_i64 manifests ≡ ok tt → All IsAccepted manifests
  unfolding validate_all
  validate_all-ok [] e = tt
  validate_all-ok (raw ∷ manifests) e =
      let (m, h, rest) =
        >>=-eq-ok
          (map_err
            (invalid_manifest (or_else (then_str (value_get (chars "id") raw)) (chars "<unknown>")))
            (validate as_f64 as_i64 raw))
          _ e in
      (accepted raw m (map_err-eq-ok _ _ h), validate_all-ok manifests rest)

module _ {V : Type 0} ⦃json : Json V⦄ where
  parse_all-ok :
      (from_value : V → Result (SkillManifest V) Text) (index : ℕ) (manifests : List V)
      (skills : List (SkillManifest V))
      → parse_all from_value index manifests ≡ ok skills
      → map from_value manifests ≡ map ok skills
  unfolding parse_all
  parse_all-ok from_value index [] skills e =
      let same : [] ≡ skills = ground arith in ap (map ok) same
  parse_all-ok from_value index (raw ∷ manifests) skills e =
      let (s, h, e₁) = >>=-eq-ok (map_err (malformed index) (from_value raw)) _ e in
      let (rest, k, e₂) = >>=-eq-ok (parse_all from_value (index + 1) manifests) _ e₁ in
      let same : s ∷ rest ≡ skills = ground arith in
      ap₂ (◌∷◌) (map_err-eq-ok (malformed index) (from_value raw) h)
        (parse_all-ok from_value (index + 1) manifests rest k)
      ∙ ap (map ok) same

module _ {V F : Type 0} ⦃json : Json V⦄ ⦃float : Float F⦄ (as_f64 : V → Option F) (as_i64 : F → ℤ)
    (from_value : V → Result (SkillManifest V) Text) (decl_of : V → Option ToolDecl) where
  -- what the skills of an agent are to each other and to the window
  pub record FitTogether (base : Text) (hint : Option Text) (n_ctx : ℕ) (agent : ComposedAgent)
      (skills : List (SkillManifest V)) : Type 0 where
    pub merges :
        (m : MergedAgent) × (merge base skills hint ≡ ok m)
        × (agent.order ≡ m.order)
        × (agent.persona ≡ m.persona)
        × (agent.tools ≡ m.tools)
    pub no_clash : (a b : SkillManifest V) → Before a b skills → ¬ Clash a b
    pub fits : n_ctx < u32_max → demand skills n_ctx 0 ≤ n_ctx

  -- An agent is composed only of manifests that are accepted and safe, and that all parse; the order,
  -- the persona and the tools are those of the merge of the parsed skills; no two of these exclude each
  -- other, and what they demand fits the window, if the window is below the largest `u32`.
  pub compose_agent-ok :
      (base : Text) (manifests : List V) (hint : Option Text) (n_ctx : ℕ) (agent : ComposedAgent)
      → compose_agent as_f64 as_i64 from_value decl_of base manifests hint n_ctx ≡ ok agent
      → All (IsAccepted as_f64 as_i64) manifests
        × ((skills : List (SkillManifest V)) × (map from_value manifests ≡ map ok skills)
            × FitTogether base hint n_ctx agent skills)
  unfolding compose_agent project
  compose_agent-ok base manifests hint n_ctx agent e =
      let (valid, h, e₁) = >>=-eq-ok (validate_all as_f64 as_i64 manifests) _ e in
      let (skills, k, e₂) = >>=-eq-ok (parse_all from_value 0 manifests) _ e₁ in
      let (m, g, e₃) = >>=-eq-ok (map_err of_merge_error (merge base skills hint)) _ e₂ in
      let (p, w, e₄) = >>=-eq-ok (within_capacity (project skills n_ctx)) _ e₃ in
      let merging = map_err-eq-ok of_merge_error (merge base skills hint) g in
      let (same, open_) = within_capacity-ok (project skills n_ctx) p w in
      (
        validate_all-ok as_f64 as_i64 manifests h,
        (
          skills,
          parse_all-ok from_value 0 manifests skills k,
          record {
            merges = (m, merging, ground (arith, e₄), ground (arith, e₄), ground (arith, e₄));
            no_clash = merge_ok-no_Clash base skills hint m merging;
            fits = λ small. (ok-iff_fits skills n_ctx 0 small).0 open_;
          },
        ),
      )
