-- ===== src/Turn/Runs.antt =====
-- A whole turn (client/src-tauri/src/turn.rs): it ends, and its transcript is a trace.
use hydropark_gym.Prelude.{
  ℕ, zero, suc, ◌+◌, ◌*◌, ◌≡◌, ◌≤◌, ◌<◌, refl, sym, ap, ◌∙◌, subst, false, none, some, List, [],
  ◌∷◌, ◌++◌, arith,
}
use mathlib.Core.List.{append_assoc}
use hydropark_gym.Prelude.Text.{Text}
use hydropark_gym.Prelude.Json.{Json}
use hydropark_gym.Prelude.Float.{Float}
use hydropark_gym.Turn.Types.{TurnConfig, Step}
use hydropark_gym.Turn.Machine.{
  Flow, go_on, stop, TurnState, World, turn_once, after_pass, run_loop, start, enough, run_turn,
}
use hydropark_gym.Turn.Trace.{Trace, notes, feedback_of, passes_left, Extends, Ends, IsPass}
use hydropark_gym.Turn.Loop.{turn_once-IsPass}

module _ {V : Type 0} ⦃json : Json V⦄ where
  feedback_of-append :
      (xs ys : List (Step V)) → feedback_of (xs ++ ys) ≡ feedback_of xs ++ feedback_of ys
  unfolding feedback_of
  feedback_of-append [] ys = refl
  feedback_of-append (x ∷ xs) ys =
      ap (λ z. notes x ++ z) (feedback_of-append xs ys) ∙ sym (append_assoc (notes x) _ _)

module _ {V F D S E R : Type 0} ⦃json : Json V⦄ ⦃float : Float F⦄ (world : World V F D S E R)
    (config : TurnConfig) where
  -- the loop came from `s` to `s'` by a whole trace
  abbrev IsRun : TurnState V E R → TurnState V E R → Type 0
  IsRun s s' =
      (new : List (Step V)) × (Extends config.max_tool_hops s s' new
        × Ends config.max_tool_hops false s new)

  IsRun-step :
      (s s₁ s' : TurnState V E R)
      → IsPass config.max_tool_hops false s (go_on, s₁)
      → IsRun s₁ s'
      → IsRun s s'
  IsRun-step s s₁ s' (new, ((p, q), (extend, m))) (more, ((p', q'), ends)) = (
    new ++ more,
    (
      (
        p' ∙ ap (λ z. z ++ more) p ∙ append_assoc s.steps new more,
        q'
            ∙ ap (λ z. z ++ feedback_of more) q
            ∙ append_assoc s.ctx.feedback (feedback_of new) (feedback_of more)
            ∙ ap (λ z. s.ctx.feedback ++ z) (sym (feedback_of-append new more)),
      ),
      extend more ends,
    ),
  )

  run_loop-IsRun :
      (fuel : ℕ) (s : TurnState V E R)
      → passes_left config.max_tool_hops s < fuel
      → (s' : TurnState V E R) × ((run_loop world config fuel s ≡ some s') × IsRun s s')
  unfolding run_loop
  run_loop-IsRun zero s h = absurd (omega arith)
  run_loop-IsRun (suc fuel) s h =
      at_pass (λ s₁ small. run_loop-IsRun fuel s₁ small) (turn_once world config s)
        (turn_once-IsPass world config s)
    where
      at_pass :
          ((s₁ : TurnState V E R)
            → passes_left config.max_tool_hops s₁ < fuel
            → (s' : TurnState V E R) × ((run_loop world config fuel s₁ ≡ some s') × IsRun s₁ s'))
          → (out : Flow × TurnState V E R) → IsPass config.max_tool_hops false s out
          → (s' : TurnState V E R) × ((after_pass (run_loop world config fuel) out ≡ some s')
              × IsRun s s')
      at_pass rec (stop, s') (new, (x, e)) = (s', (refl, (new, (x, e))))
      at_pass rec (go_on, s₁) (new, (x, (later, m))) =
          let (s', (p, run)) = rec s₁ (omega arith) in
          (s', (p, IsRun-step s s₁ s' (new, (x, (later, m))) run))

  -- Every turn ends, whatever the engine and the tools do, within 2 * `max_tool_hops` + 2 passes of
  -- the loop. The steps of its transcript are a trace of the specification, and the feedback that
  -- the model was given is, in order, the note of every step that has one: each tool result and
  -- each tool error among them.
  pub run_turn_total :
      (e : E) (r : R) (message : Text)
      → (s : TurnState V E R) × ((run_turn world config e r message ≡ some s)
          × (Trace config.max_tool_hops 0 none 0 false s.steps
              × (s.ctx.feedback ≡ feedback_of s.steps)))
  unfolding run_turn
  run_turn_total e r message =
      let (s, (p, (new, ((x, y), ends)))) =
        run_loop-IsRun (enough config) (start e r message) (omega arith) in
      (
        s,
        (
          p,
          (
            subst (Trace config.max_tool_hops 0 none 0 false) (sym x) ends,
            y ∙ ap feedback_of (sym x),
          ),
        ),
      )

  run_loop-more :
      (fuel more : ℕ) (s s' : TurnState V E R)
      → fuel ≤ more
      → run_loop world config fuel s ≡ some s'
      → run_loop world config more s ≡ some s'
  unfolding run_loop
  run_loop-more zero more s s' h e = absurd (ground arith)
  run_loop-more (suc fuel) zero s s' h e = absurd (omega arith)
  run_loop-more (suc fuel) (suc more) s s' h e =
      at_pass (λ s₁ p. run_loop-more fuel more s₁ s' (omega arith) p) (turn_once world config s) e
    where
      at_pass :
          ((s₁ : TurnState V E R)
            → run_loop world config fuel s₁ ≡ some s'
            → run_loop world config more s₁ ≡ some s')
          → (out : Flow × TurnState V E R) → after_pass (run_loop world config fuel) out ≡ some s'
          → after_pass (run_loop world config more) out ≡ some s'
      at_pass rec (stop, s₁) e = e
      at_pass rec (go_on, s₁) e = rec s₁ e

  -- The bound on the passes never shows: with any larger bound the loop returns the same state.
  pub run_turn_fuel :
      (fuel : ℕ) (e : E) (r : R) (message : Text)
      → 2 * config.max_tool_hops + 2 ≤ fuel
      → run_loop world config fuel (start e r message) ≡ run_turn world config e r message
  unfolding run_turn
  run_turn_fuel fuel e r message h =
      let (s, (p, _)) = run_turn_total e r message in
      run_loop-more (enough config) fuel (start e r message) s h p ∙ sym p
