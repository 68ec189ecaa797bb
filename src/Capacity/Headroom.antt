-- ===== src/Capacity/Headroom.antt =====
-- `assess_headroom` (client/src-tauri/src/capacity.rs).
use hydropark_gym.Prelude.{ℕ, ◌≡◌, ◌≢◌, ◌≤◌, true, List, ◌++◌, arith, ltb, if◌then◌else◌}
use hydropark_gym.Prelude.Text.{Text, chars}
use hydropark_gym.Prelude.Decimal.{decimal}
use hydropark_gym.Prelude.Float.{Float}
use hydropark_gym.Orchestrator.Manifest.{SkillManifest}
use hydropark_gym.Capacity.Projection.{CapacityProjection, project_live}
use hydropark_gym.Capacity.Budget.{used-min, total_cost-append, ctx_window-project_live}

pub data HeadroomStatus : Type 0 where
  ok : HeadroomStatus
  warn : Text → HeadroomStatus

module _ {F : Type 0} ⦃float : Float F⦄ where
  unfoldable pub slow_reason : F → Text
  slow_reason tok_per_sec =
      chars "throughput "
      ++ (float.show 1 tok_per_sec
          ++ (chars " tok/s is below the Recommended-tier floor of "
              ++ (float.show 0 (float.decimal 80 1) ++ chars " tok/s — responses will feel slow")))

  unfoldable pub full_reason : F → CapacityProjection → Text
  full_reason fill projection =
      chars "context is "
      ++ (float.show 0 (float.mul fill (float.decimal 1000 1))
          ++ (chars "% full ("
              ++ (decimal projection.used_tokens
                  ++ (chars "/"
                      ++ (decimal projection.ctx_window
                          ++ chars
                              " tokens) — turns will slow as history grows; consider condensing old messages or dropping a skill")))))

  unfoldable pub fill_of : CapacityProjection → F
  fill_of projection =
      if ltb 0 projection.ctx_window
      then float.div (float.from_u32 projection.used_tokens) (float.from_u32 projection.ctx_window)
      else float.decimal 10 1

  unfoldable pub assess_headroom : F → CapacityProjection → HeadroomStatus
  unfolding slow_reason full_reason fill_of
  assess_headroom measured projection =
      if float.lt measured (float.decimal 80 1)
      then warn (slow_reason measured)
      else if float.ge (fill_of projection) (float.decimal 85 2)
      then warn (full_reason (fill_of projection) projection)
      else ok

-- Division by one positive window keeps the order, and so does the comparison with a bound.
pub record IsMonotone {F : Type 0} (float : Float F) : Type 0 where
  pub ge_grows :
      (a b c : ℕ) (bound : F)
      → a ≤ b
      → float.ge (float.div (float.from_u32 a) (float.from_u32 c)) bound ≡ true
      → float.ge (float.div (float.from_u32 b) (float.from_u32 c)) bound ≡ true

module _ {F V : Type 0} ⦃float : Float F⦄ (mono : IsMonotone float) where
  -- A warning stays when skills are added and the transcript grows, at the same throughput.
  pub warning-grows :
      (measured : F) (enabled more : List (SkillManifest V)) (n_ctx live later : ℕ)
      → live ≤ later
      → assess_headroom measured (project_live enabled n_ctx live) ≢ ok
      → assess_headroom measured (project_live (enabled ++ more) n_ctx later) ≢ ok
  unfolding assess_headroom
  warning-grows measured enabled more n_ctx live later h w e =
      let p = project_live enabled n_ctx live in
      let q = project_live (enabled ++ more) n_ctx later in
      let up : p.used_tokens ≤ q.used_tokens = omega (
        arith,
        used-min enabled n_ctx live,
        used-min (enabled ++ more) n_ctx later,
        total_cost-append enabled more,
      ) in
      w (
        ground (
          arith,
          ctx_window-project_live enabled n_ctx live,
          ctx_window-project_live (enabled ++ more) n_ctx later,
          mono.ge_grows p.used_tokens q.used_tokens n_ctx (float.decimal 85 2) up,
        ))
