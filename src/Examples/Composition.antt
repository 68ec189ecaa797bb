-- ===== src/Examples/Composition.antt =====
-- An agent of one skill, composed in the default window (client/src-tauri/src/composition.rs).
use hydropark_gym.Prelude.{◌≡◌, refl, Option, none, some, List, [], ◌∷◌, map, Result, ok, err, All}
use hydropark_gym.Prelude.Int.{pos}
use hydropark_gym.Prelude.Text.{Text, chars, text_eqb}
use hydropark_gym.Prelude.Sort.{sort_by}
use hydropark_gym.Prelude.Utf8.{len_utf8}
use hydropark_gym.Orchestrator.Manifest.{SkillManifest}
use hydropark_gym.Routing.Routes.{ToolDecl}
use hydropark_gym.Capacity.Projection.{project}
use hydropark_gym.Samples.Doc.{Doc, doc_json}
use hydropark_gym.Samples.Nats.{nat_float}
use hydropark_gym.Samples.Agents.{chef}
use hydropark_gym.Samples.Manifests.{as_number, sous_chef}
use hydropark_gym.Manifest.Issues.{each_from}
use hydropark_gym.Manifest.Formats.{is_ident_name, is_slot_schema_shape, is_svg_asset_path}
use hydropark_gym.Manifest.Declared.{validate_tool}
use hydropark_gym.Manifest.Validate.{validate}
use hydropark_gym.Manifest.Access.{value_get, then_str}
use hydropark_gym.Composition.Compose.{ComposedAgent, CompositionError, compose_agent}
use hydropark_gym.Composition.Composed.{IsAccepted, FitTogether, compose_agent-ok}

-- a decoder that reads the id of the manifest
abbrev decode : Doc → Result (SkillManifest Doc) Text
decode raw = elim (then_str (value_get (chars "id") raw)) [
  | none ↦ err (chars "missing field `id`")
  | some id ↦ ok (record chef { id = id })
]

abbrev no_decl : Doc → Option ToolDecl
no_decl t = none

abbrev composed : Result ComposedAgent CompositionError
composed =
    compose_agent as_number pos decode no_decl (chars "You are Hydropark.") (sous_chef ∷ []) none
      4096

abbrev nobody : ComposedAgent
nobody = record {
  order = [];
  primary = none;
  persona = [];
  tools = [];
  routing = [];
  capacity = project {V = Doc} [] 4096;
}

abbrev agent_of : Result ComposedAgent CompositionError → ComposedAgent
agent_of (ok agent) = agent
agent_of (err e) = nobody

abbrev agent : ComposedAgent
agent = agent_of composed

composed-agent : composed ≡ ok agent
unfolding compose_agent doc_json nat_float text_eqb len_utf8 each_from validate_tool is_ident_name
    is_slot_schema_shape is_svg_asset_path validate
composed-agent = refl

agent_order : agent.order ≡ chars "sous-chef" ∷ []
unfolding compose_agent doc_json nat_float text_eqb len_utf8 each_from validate_tool is_ident_name
    is_slot_schema_shape is_svg_asset_path validate sort_by
agent_order = refl

compose_agent-ok_example :
    All (IsAccepted as_number pos) (sous_chef ∷ [])
    × ((skills : List (SkillManifest Doc)) × (map decode (sous_chef ∷ []) ≡ map ok skills)
        × FitTogether as_number pos decode no_decl
            (chars "You are Hydropark.")
            none
            4096
            agent
            skills)
compose_agent-ok_example =
    compose_agent-ok as_number pos decode no_decl (chars "You are Hydropark.") (sous_chef ∷ []) none
      4096 agent composed-agent
