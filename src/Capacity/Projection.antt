-- ===== src/Capacity/Projection.antt =====
-- `project_live` and what it is made of (client/src-tauri/src/capacity.rs).
use hydropark_gym.Prelude.{ℕ, ◌-◌, ◌/◌, max, List, [], ◌∷◌, ltb, if◌then◌else◌}
use hydropark_gym.Prelude.Words.{sat_add, sat_mul}
use hydropark_gym.Orchestrator.Manifest.{SkillManifest}

abbrev pub default_n_ctx : ℕ
default_n_ctx = 4096

abbrev pub reserve_fraction_denom : ℕ
reserve_fraction_denom = 4

abbrev pub min_reserve_tokens : ℕ
min_reserve_tokens = 512

abbrev pub per_tool_tokens : ℕ
per_tool_tokens = 8

abbrev pub per_panel_tokens : ℕ
per_panel_tokens = 16

pub data CapacityStatus : Type 0 where
  ok : CapacityStatus
  blocked : ℕ → CapacityStatus

pub record CapacityProjection : Type 0 where
  pub ctx_window : ℕ
  pub reserve_tokens : ℕ
  pub skill_tokens : ℕ
  pub used_tokens : ℕ
  pub remaining : ℕ
  pub status : CapacityStatus

unfoldable pub reserve_for : ℕ → ℕ
reserve_for n_ctx = max (n_ctx / reserve_fraction_denom) min_reserve_tokens

module _ {V : Type 0} where
  unfoldable pub skill_cost : SkillManifest V → ℕ
  skill_cost skill =
      let c = skill.cost_estimate in
      sat_add (sat_add c.prompt_tokens (sat_mul c.tools per_tool_tokens))
        (sat_mul c.panels per_panel_tokens)

  unfoldable pub skill_tokens_of : ℕ → List (SkillManifest V) → ℕ
  unfolding skill_cost
  skill_tokens_of acc [] = acc
  skill_tokens_of acc (s ∷ enabled) = skill_tokens_of (sat_add acc (skill_cost s)) enabled

  unfoldable pub project_live : List (SkillManifest V) → ℕ → ℕ → CapacityProjection
  unfolding reserve_for skill_tokens_of
  project_live enabled n_ctx live_transcript_tokens =
      let reserve_tokens = reserve_for n_ctx in
      let skill_tokens = skill_tokens_of 0 enabled in
      let used_tokens = sat_add (sat_add reserve_tokens live_transcript_tokens) skill_tokens in
      record {
        ctx_window = n_ctx;
        reserve_tokens = reserve_tokens;
        skill_tokens = skill_tokens;
        used_tokens = used_tokens;
        remaining = if ltb n_ctx used_tokens then 0 else n_ctx - used_tokens;
        status = if ltb n_ctx used_tokens then blocked (used_tokens - n_ctx) else ok;
      }

  unfoldable pub project : List (SkillManifest V) → ℕ → CapacityProjection
  unfolding project_live
  project enabled n_ctx = project_live enabled n_ctx 0
