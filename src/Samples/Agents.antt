-- ===== src/Samples/Agents.antt =====
-- Three skills, of which two may lead and two clash.
use hydropark_gym.Prelude.{ℕ, List, [], ◌∷◌, ◌++◌}
use hydropark_gym.Prelude.Int.{pos}
use hydropark_gym.Prelude.Text.{Text, chars}
use hydropark_gym.Samples.Doc.{Doc, null, num}
use hydropark_gym.Orchestrator.Manifest.{
  Role, primary_eligible, secondary_only, ToolRef, SkillManifest,
}

abbrev skill : Text → Role → ℕ → List Text → List (ToolRef Doc) → ℕ → SkillManifest Doc
skill i role priority conflicts tools prompt_tokens = record {
  id = i;
  persona = record {
    role = role;
    system_prompt = chars "You are the " ++ i;
    compressed_prompt = chars "helps as the " ++ i;
  };
  tools = tools;
  compatibility = record { combine_priority = pos priority; conflicts_with = conflicts };
  shared_state = [];
  cost_estimate = record { prompt_tokens = prompt_tokens; tools = 1; panels = 1 };
}

abbrev pub chef : SkillManifest Doc
chef =
    skill (chars "chef") primary_eligible 10 []
      (record { tool_ref = chars "start_timer"; config = null } ∷ []) 300

abbrev pub baker : SkillManifest Doc
baker =
    skill (chars "baker") primary_eligible 5 []
      (record { tool_ref = chars "start_timer"; config = num 1 } ∷ []) 400

abbrev pub critic : SkillManifest Doc
critic = skill (chars "critic") secondary_only 7 (chars "chef" ∷ []) [] 5000
