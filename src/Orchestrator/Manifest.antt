-- ===== src/Orchestrator/Manifest.antt =====
-- The merge view of a skill manifest (client/src-tauri/src/orchestrator.rs). `V` is the type of the
-- JSON values.
use hydropark_gym.Prelude.{ℕ, List, Bool, true, false}
use hydropark_gym.Prelude.Int.{ℤ}
use hydropark_gym.Prelude.Text.{Text}

pub data Role : Type 0 where
  primary_eligible secondary_only : Role

-- `role == Role::PrimaryEligible`
abbrev pub is_eligible : Role → Bool
is_eligible primary_eligible = true
is_eligible secondary_only = false

pub record Persona : Type 0 where
  pub role : Role
  pub system_prompt : Text
  pub compressed_prompt : Text

pub record ToolRef (V : Type 0) : Type 0 where
  pub tool_ref : Text
  pub config : V

pub record Compatibility : Type 0 where
  pub combine_priority : ℤ  -- i64
  pub conflicts_with : List Text

pub record SharedStateDecl : Type 0 where
  pub slot : Text
  pub access : Text
  pub schema : Text

pub record CostEstimate : Type 0 where
  pub prompt_tokens : ℕ  -- u32
  pub tools : ℕ  -- u32
  pub panels : ℕ  -- u32

pub record SkillManifest (V : Type 0) : Type 0 where
  pub id : Text
  pub persona : Persona
  pub tools : List (ToolRef V)
  pub compatibility : Compatibility
  pub shared_state : List SharedStateDecl
  pub cost_estimate : CostEstimate

pub record ComposedTool : Type 0 where
  pub call_name : Text
  pub tool_ref : Text
  pub contributors : List Text
  pub namespaced : Bool
