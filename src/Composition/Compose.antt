-- ===== src/Composition/Compose.antt =====
-- The composition core (client/src-tauri/src/composition.rs). `serde_json::from_value` at the two types
-- that it is used at is a parameter.
use hydropark_gym.Prelude.{
  ℕ, ◌+◌, Option, none, some, List, [], ◌∷◌, ◌++◌, Result, ok, err, map_err, ◌>>=◌,
}
use hydropark_gym.Prelude.Int.{ℤ}
use hydropark_gym.Prelude.Text.{Text, chars}
use hydropark_gym.Prelude.Json.{Json}
use hydropark_gym.Prelude.Float.{Float}
use hydropark_gym.Orchestrator.Manifest.{SkillManifest, ComposedTool}
use hydropark_gym.Orchestrator.Merge.{MergeError, conflict, merge}
use hydropark_gym.Capacity.Projection
use hydropark_gym.Capacity.Projection.{CapacityProjection, project}
use hydropark_gym.Routing.Routes.{ToolDecl, RoutingTable, route_tools}
use hydropark_gym.Manifest.Issues.{Issues}
use hydropark_gym.Manifest.Access.{or_else, value_get, then_str, elements}
use hydropark_gym.Manifest.Validate.{validate}

pub record ComposedAgent : Type 0 where
  pub order : List Text
  pub primary : Option Text
  pub persona : Text
  pub tools : List ComposedTool
  pub routing : RoutingTable
  pub capacity : CapacityProjection

pub data CompositionError : Type 0 where
  invalid_manifest : (skill_id : Text) (issues : Issues) → CompositionError
  malformed : (index : ℕ) (reason : Text) → CompositionError
  conflicting : (a b : Text) → CompositionError
  capacity_overflow : (projection : CapacityProjection) → CompositionError

-- the error of a merge
abbrev pub of_merge_error : MergeError → CompositionError
of_merge_error (conflict a b) = conflicting a b

-- the gate
abbrev pub within_capacity : CapacityProjection → Result CapacityProjection CompositionError
within_capacity p = elim p.status [
  | Projection.ok ↦ ok p
  | Projection.blocked overflow ↦ err (capacity_overflow p)
]

module _ {V F : Type 0} ⦃json : Json V⦄ ⦃float : Float F⦄ (as_f64 : V → Option F)
    (as_i64 : F → ℤ) where
  -- the loop that validates
  unfoldable pub validate_all : List V → Result (Unit {0}) CompositionError
  validate_all [] = ok tt
  validate_all (m ∷ manifests) =
      map_err (invalid_manifest (or_else (then_str (value_get (chars "id") m)) (chars "<unknown>")))
        (validate as_f64 as_i64 m)
      >>= λ c. validate_all manifests

module _ {V : Type 0} ⦃json : Json V⦄ where
  -- the loop that parses, from the `index`-th manifest on
  unfoldable pub parse_all :
      (V → Result (SkillManifest V) Text)
      → ℕ
      → List V
      → Result (List (SkillManifest V)) CompositionError
  parse_all from_value index [] = ok []
  parse_all from_value index (m ∷ manifests) = map_err (malformed index) (from_value m) >>= λ s.
      parse_all from_value (index + 1) manifests >>= λ skills. ok (s ∷ skills)

  -- `filter_map(..)` on the tools of one manifest
  abbrev pub decls_in : (V → Option ToolDecl) → List V → List ToolDecl
  decls_in decl_of [] = []
  decls_in decl_of (t ∷ tools) =
      let rest = decls_in decl_of tools in elim (decl_of t) [ none ↦ rest | some d ↦ d ∷ rest ]

  abbrev pub tool_decls : (V → Option ToolDecl) → List V → List ToolDecl
  tool_decls decl_of [] = []
  tool_decls decl_of (m ∷ manifests) =
      decls_in decl_of (elements (value_get (chars "tools") m)) ++ tool_decls decl_of manifests

module _ {V F : Type 0} ⦃json : Json V⦄ ⦃float : Float F⦄ (as_f64 : V → Option F) (as_i64 : F → ℤ)
    (from_value : V → Result (SkillManifest V) Text) (decl_of : V → Option ToolDecl) where
  unfoldable pub compose_agent :
      Text → List V → Option Text → ℕ → Result ComposedAgent CompositionError
  unfolding validate_all parse_all merge project route_tools
  compose_agent base_preamble manifests primary_hint n_ctx =
      validate_all as_f64 as_i64 manifests >>= λ valid.
      parse_all from_value 0 manifests >>= λ skills.
      map_err of_merge_error (merge base_preamble skills primary_hint) >>= λ merged.
      within_capacity (project skills n_ctx) >>= λ projection. ok (record {
        order = merged.order;
        primary = merged.primary;
        persona = merged.persona;
        tools = merged.tools;
        routing = route_tools (tool_decls decl_of manifests);
        capacity = projection;
      })
