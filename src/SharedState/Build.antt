-- ===== src/SharedState/Build.antt =====
-- A store for a set of skills (client/src-tauri/src/shared_state.rs).
use hydropark_gym.Prelude.{List, Result, ok, ◌>>=◌}
use hydropark_gym.Prelude.Text.{Text}
use hydropark_gym.Prelude.Json.{Json}
use hydropark_gym.Orchestrator.Manifest.{SharedStateDecl, SkillManifest}
use hydropark_gym.SharedState.Types.{SharedStateStore}
use hydropark_gym.SharedState.Store.{from_specs}
use hydropark_gym.SharedState.Resolve.{SlotError, resolve_decls, resolve_slots}

module _ {V : Type 0} ⦃json : Json V⦄ where
  unfoldable pub from_skills : List (SkillManifest V) → Result (SharedStateStore V) SlotError
  from_skills skills = resolve_slots skills >>= λ specs. ok (from_specs specs)

  unfoldable pub from_decls :
      List (Text × List SharedStateDecl) → Result (SharedStateStore V) SlotError
  from_decls skills = resolve_decls skills >>= λ specs. ok (from_specs specs)
