-- ===== src/Manifest/Canonical.antt =====
-- The canonical manifest (client/src-tauri/src/manifest.rs). The JSON values that it carries are a type
-- parameter `V`.
use hydropark_gym.Prelude.{Bool, Option, List}
use hydropark_gym.Prelude.Int.{ℤ}
use hydropark_gym.Prelude.Text.{Text}

pub record Requirements : Type 0 where
  pub min_model_tier : Text
  pub min_params_b : Option ℤ
  pub min_ram_gb : Option ℤ

pub record Price : Type 0 where
  pub amount_minor : ℤ
  pub currency : Text

pub record Pricing : Type 0 where
  pub free : Bool
  pub price : Option Price

pub record FewShot : Type 0 where
  pub role : Text
  pub content : Text

pub record Persona : Type 0 where
  pub role : Text
  pub system_prompt : Text
  pub compressed_prompt : Text
  pub few_shot : List FewShot

pub record CanonicalTool (V : Type 0) : Type 0 where
  pub tool_ref : Text
  pub config : V
  pub reads_state : List Text
  pub writes_state : List Text
  pub updates_widget : Option Text

pub record SharedStateSlot : Type 0 where
  pub slot : Text
  pub access : Text
  pub schema : Text

pub record Emit : Type 0 where
  pub name : Text
  pub to_chat : Bool

pub record Panel (V : Type 0) : Type 0 where
  pub widget_type : Text
  pub id : Text
  pub title : Option Text
  pub region : Text
  pub priority : ℤ
  pub props : V
  pub binds_state : Option Text
  pub binds_tool : Option Text
  pub emits : List Emit
  pub min_widget_version : Text

pub record Ui (V : Type 0) : Type 0 where
  pub panels : List (Panel V)

pub record Resources : Type 0 where
  pub icon : Option Text
  pub assets : List Text
  pub strings : List Text

pub record Localization : Type 0 where
  pub default_locale : Option Text
  pub unit_system_default : Text

pub record Compatibility : Type 0 where
  pub conflicts_with : List Text
  pub combine_priority : ℤ

pub record CostEstimate : Type 0 where
  pub prompt_tokens : ℤ
  pub tools : ℤ
  pub panels : ℤ

pub record CanonicalManifest (V : Type 0) : Type 0 where
  pub manifest_version : Text
  pub id : Text
  pub name : Text
  pub summary : Option Text
  pub version : Text
  pub status : Text
  pub category : Text
  pub min_app_version : Text
  pub requirements : Requirements
  pub pricing : Pricing
  pub persona : Persona
  pub capabilities : List Text
  pub tools : List (CanonicalTool V)
  pub shared_state : List SharedStateSlot
  pub ui : Ui V
  pub resources : Resources
  pub localization : Localization
  pub compatibility : Compatibility
  pub cost_estimate : Option CostEstimate
  pub signature : Option Text
  pub signing_key_id : Option Text
