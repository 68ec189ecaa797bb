-- ===== src/Capacity/Budget.antt =====
-- The capacity gate blocks exactly the combinations that do not fit
-- (client/src-tauri/src/capacity.rs).
use hydropark_gym.Prelude.{
  ℕ, ◌+◌, ◌-◌, ◌*◌, ◌/◌, ◌≤◌, ◌<◌, ◌≡◌, ◌≢◌, ◌↔◌, ◌⊎◌, refl, max, min, List, [], ◌∷◌, ◌++◌, arith,
  ltb, Bool-cases, inl, inr, if◌then◌else◌,
}
use hydropark_gym.Prelude.Words.{u32_max, sat_add}
use hydropark_gym.Orchestrator.Manifest.{SkillManifest}
use hydropark_gym.Capacity.Projection.{
  ok, blocked, min_reserve_tokens, skill_cost, skill_tokens_of, project_live,
}

module _ {V : Type 0} where
  -- what the skills cost, with no bound on the numbers
  abbrev pub cost : SkillManifest V → ℕ
  cost s = s.cost_estimate.prompt_tokens + s.cost_estimate.tools * 8 + s.cost_estimate.panels * 16

  abbrev pub total_cost : List (SkillManifest V) → ℕ
  total_cost [] = 0
  total_cost (s ∷ l) = cost s + total_cost l

  skill_cost-min : (s : SkillManifest V) → skill_cost s ≡ min (cost s) u32_max
  unfolding skill_cost
  skill_cost-min s = omega arith

  skill_tokens_of-min :
      (acc : ℕ) (l : List (SkillManifest V))
      → acc ≤ u32_max
      → skill_tokens_of acc l ≡ min (acc + total_cost l) u32_max
  unfolding skill_tokens_of
  skill_tokens_of-min acc [] h = omega arith
  skill_tokens_of-min acc (s ∷ l) h =
      omega (arith, skill_cost-min s, skill_tokens_of-min (sat_add acc (skill_cost s)) l)

  -- the tokens that the combination needs, with no bound on the numbers
  abbrev pub demand : List (SkillManifest V) → ℕ → ℕ → ℕ
  demand enabled n_ctx live = max (n_ctx / 4) min_reserve_tokens + live + total_cost enabled

  -- `used_tokens` is the demand, pinned at the largest `u32`.
  pub used-min :
      (enabled : List (SkillManifest V)) (n_ctx live : ℕ)
      → (project_live enabled n_ctx live).used_tokens ≡ min (demand enabled n_ctx live) u32_max
  unfolding project_live
  used-min enabled n_ctx live = omega (arith, skill_tokens_of-min 0 enabled)

  status-used :
      (enabled : List (SkillManifest V)) (n_ctx live : ℕ)
      → let p = project_live enabled n_ctx live in
        (p.status ≡ (if ltb n_ctx p.used_tokens then blocked (p.used_tokens - n_ctx) else ok))
        × (p.remaining ≡ (if ltb n_ctx p.used_tokens then 0 else n_ctx - p.used_tokens))
  unfolding project_live
  status-used enabled n_ctx live = (refl, refl)

  pub ok-iff_fits :
      (enabled : List (SkillManifest V)) (n_ctx live : ℕ)
      → n_ctx < u32_max
      → ((project_live enabled n_ctx live).status ≡ ok) ↔ (demand enabled n_ctx live ≤ n_ctx)
  ok-iff_fits enabled n_ctx live h =
      ground (arith, used-min enabled n_ctx live, (status-used enabled n_ctx live).0)

  -- A projection is open, and then what is used and what remains add up to the window, or it is
  -- blocked with nothing remaining, and the window and the overflow add up to what is used.
  pub accounting :
      (enabled : List (SkillManifest V)) (n_ctx live : ℕ)
      → let p = project_live enabled n_ctx live in
        (p.status ≡ ok) × (p.used_tokens + p.remaining ≡ n_ctx)
        ⊎ ((overflow : ℕ) × (p.status ≡ blocked overflow)
            × (0 < overflow)
            × (p.remaining ≡ 0)
            × (n_ctx + overflow ≡ p.used_tokens))
  accounting enabled n_ctx live =
      let p = project_live enabled n_ctx live in
      let (s, r) = status-used enabled n_ctx live in
      elim (Bool-cases (ltb n_ctx p.used_tokens)) [
        | inl t ↦
            inr (p.used_tokens - n_ctx, ground arith, ground arith, ground arith, ground arith)
        | inr t ↦ inl (ground arith, ground arith)
      ]

  pub ctx_window-project_live :
      (enabled : List (SkillManifest V)) (n_ctx live : ℕ)
      → (project_live enabled n_ctx live).ctx_window ≡ n_ctx
  unfolding project_live
  ctx_window-project_live enabled n_ctx live = refl

  pub total_cost-append :
      (l r : List (SkillManifest V)) → total_cost (l ++ r) ≡ total_cost l + total_cost r
  total_cost-append [] r = omega arith
  total_cost-append (s ∷ l) r = omega (arith, total_cost-append l r)

  -- A blocked combination stays blocked when skills are added and the transcript grows.
  pub blocked-grows :
      (enabled more : List (SkillManifest V)) (n_ctx live later : ℕ)
      → live ≤ later
      → (project_live enabled n_ctx live).status ≢ ok
      → (project_live (enabled ++ more) n_ctx later).status ≢ ok
  blocked-grows enabled more n_ctx live later h b e = b (
      ground (
        arith,
        used-min enabled n_ctx live,
        used-min (enabled ++ more) n_ctx later,
        total_cost-append enabled more,
        (status-used enabled n_ctx live).0,
        (status-used (enabled ++ more) n_ctx later).0,
      ))

  -- An exact fit is let through with nothing remaining and no overflow.
  exact_fit :
      (enabled : List (SkillManifest V)) (n_ctx live : ℕ)
      → n_ctx ≤ u32_max
      → demand enabled n_ctx live ≡ n_ctx
      → ((project_live enabled n_ctx live).status ≡ ok)
        × ((project_live enabled n_ctx live).remaining ≡ 0)
  exact_fit enabled n_ctx live h e =
      let (s, r) = status-used enabled n_ctx live in
      let u = used-min enabled n_ctx live in (ground arith, ground arith)
