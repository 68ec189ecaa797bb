-- ===== src/Examples/Capacity.antt =====
-- Two skills in the default window (client/src-tauri/src/capacity.rs).
use hydropark_gym.Prelude.{ℕ, ◌≡◌, ◌≢◌, ◌≤◌, ◌↔◌, arith, [], ◌∷◌}
use hydropark_gym.Samples.Nats.{nat_float}
use hydropark_gym.Samples.Agents.{chef, baker, critic}
use hydropark_gym.Capacity.Projection.{ok, project_live}
use hydropark_gym.Capacity.Budget.{demand, ok-iff_fits}
use hydropark_gym.Capacity.Headroom.{HeadroomStatus, assess_headroom}

ok-iff_fits_example :
    ((project_live (chef ∷ baker ∷ []) 4096 100).status ≡ ok)
    ↔ (demand (chef ∷ baker ∷ []) 4096 100 ≤ 4096)
ok-iff_fits_example = ok-iff_fits (chef ∷ baker ∷ []) 4096 100 (omega arith)

critic_warned :
    assess_headroom (let rate : ℕ = 9 in rate) (project_live (critic ∷ []) 4096 0)
    ≢ HeadroomStatus.ok
unfolding project_live assess_headroom nat_float
critic_warned e = ground arith
