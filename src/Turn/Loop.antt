-- ===== src/Turn/Loop.antt =====
-- The loop of a turn (client/src-tauri/src/turn.rs): it ends, and its transcript is a trace.
use hydropark_gym.Prelude.{
  suc, ◌+◌, ◌≡◌, ◌≤◌, ◌<◌, refl, sym, ap, ◌∙◌, subst, Bool, true, false, Option, some, [], ◌∷◌,
  ◌++◌, arith, Result, ok, err, leb, Bool-cases, inl, inr,
}
use mathlib.Core.List.{append_assoc, append-nil}
use hydropark_gym.Prelude.Text.{Text}
use hydropark_gym.Prelude.Json.{Json}
use hydropark_gym.Prelude.Float.{Float}
use hydropark_gym.Catalog.Names.{ToolName}
use hydropark_gym.Catalog.Types.{TypedArgs}
use hydropark_gym.Turn.Types.{
  ToolExecError, ToolRunner, TurnConfig, FallbackReason, Step, tool_error, tool_result,
  repair_attempt,
}
use hydropark_gym.Turn.Machine.{
  Flow, go_on, stop, Interpreted, valid, invalid, TurnState, add_step, record_run,
  execute_validated, handle_valid, is_duplicate, World, generated, on_repaired, repaired,
  on_generated, turn_once, max_duplicate_nudges,
}
use hydropark_gym.Turn.Trace.{
  Trace, prose, tool_ok, tool_err, hop_limit, skip, repair, give_up, feedback_of, passes_left,
  IsPass,
}

module _ {V F E R : Type 0} ⦃json : Json V⦄ (runner : ToolRunner V F R) (config : TurnConfig) where
  -- the state in which a new call is run
  abbrev accepted : ToolName → V → TurnState V E R → TurnState V E R
  accepted t args s = record s { last_executed = some (t, args); duplicate_nudges = 0 }

  execute_validated-IsPass :
      (r : Bool) (t : ToolName) (args : V) (typed : TypedArgs F) (s : TurnState V E R)
      → is_duplicate s.last_executed t args ≡ false
      → IsPass config.max_tool_hops r s
          (execute_validated runner config t args typed (accepted t args s))
  unfolding execute_validated feedback_of record_run
  execute_validated-IsPass r t args typed s fresh =
      elim (Bool-cases (leb config.max_tool_hops s.hops)) [
        | inl e ↦ rw e (_, ((refl, sym (append-nil s.ctx.feedback)), hop_limit (ground arith)))
        | inr e ↦
            let (outcome, q) = runner.run_tool s.runner t typed in
            rw e (at_outcome outcome q (ground arith))
      ]
    where
      at_outcome :
          (outcome : Result V ToolExecError) (q : R)
          → s.hops < config.max_tool_hops
          → IsPass config.max_tool_hops r s (
            go_on,
            record_run t
                (record (add_step (Step.tool_call t args) (accepted t args s)) {
                  hops = s.hops + 1;
                  runner = q;
                })
                outcome,
          )
      at_outcome (ok result) q small = (
        Step.tool_call t args ∷ tool_result t result ∷ [],
        (
          (append_assoc s.steps _ _, refl),
          ((λ rest later. tool_ok t args result small fresh later), omega arith),
        ),
      )
      at_outcome (err e) q small = (
        Step.tool_call t args ∷ tool_error t e ∷ [],
        (
          (append_assoc s.steps _ _, refl),
          ((λ rest later. tool_err t args e small fresh later), omega arith),
        ),
      )

  handle_valid-IsPass :
      (r : Bool) (t : ToolName) (args : V) (typed : TypedArgs F) (s : TurnState V E R)
      → IsPass config.max_tool_hops r s (handle_valid runner config t args typed s)
  unfolding handle_valid feedback_of
  handle_valid-IsPass r t args typed s = elim (Bool-cases (is_duplicate s.last_executed t args)) [
    | inr e ↦ rw e (execute_validated-IsPass r t args typed s e)
    | inl e ↦ elim (Bool-cases (leb max_duplicate_nudges s.duplicate_nudges)) [
      | inl n ↦ rw e (rw n (_, ((refl, sym (append-nil s.ctx.feedback)), prose _)))
      | inr n ↦
          let zero_nudges : s.duplicate_nudges ≡ 0 = ground arith in
          rw e (
            rw n
              (_, ((refl, refl), ((λ rest later. skip t args zero_nudges e later), omega arith))))
    ]
  ]

module _ {V F D S E R : Type 0} ⦃json : Json V⦄ ⦃float : Float F⦄ (world : World V F D S E R)
    (config : TurnConfig) where
  on_repaired-IsPass :
      (i : Interpreted V F) (s : TurnState V E R)
      → IsPass config.max_tool_hops true s (on_repaired world config (i, s))
  unfolding on_repaired feedback_of
  on_repaired-IsPass (Interpreted.prose text) s =
      (_, ((refl, sym (append-nil s.ctx.feedback)), prose text))
  on_repaired-IsPass (valid t args typed) s =
      handle_valid-IsPass world.runner config true t args typed s
  on_repaired-IsPass (invalid reason t parsed raw) s =
      (_, ((refl, sym (append-nil s.ctx.feedback)), give_up reason t parsed))

  -- a pass behind a repair is a pass
  repair-IsPass :
      (reason : FallbackReason) (t : Option ToolName) (raw : Text) (s s₁ : TurnState V E R)
      (out : Flow × TurnState V E R)
      → s₁ ≡ record (repaired reason t raw s) { engine = s₁.engine }
      → IsPass config.max_tool_hops true s₁ out
      → IsPass config.max_tool_hops false s out
  unfolding repaired feedback_of
  repair-IsPass reason t raw s s₁ (go_on, s') same (new, ((p, q), (later, m))) = (
    repair_attempt reason t raw ∷ new,
    (
      (
        p ∙ ap (λ z. z.steps ++ new) same ∙ append_assoc s.steps _ new,
        q ∙ ap (λ z. z.ctx.feedback ++ feedback_of new) same ∙ append_assoc s.ctx.feedback _ _,
      ),
      (
        (λ rest after. repair reason t raw (
            subst
              (λ z.
                Trace config.max_tool_hops z.hops z.last_executed z.duplicate_nudges true
                  (new ++ rest))
              same (later rest after))),
        subst (λ z. suc (passes_left config.max_tool_hops s') ≤ passes_left config.max_tool_hops z)
            same m,
      ),
    ),
  )
  repair-IsPass reason t raw s s₁ (stop, s') same (new, ((p, q), later)) = (
    repair_attempt reason t raw ∷ new,
    (
      (
        p ∙ ap (λ z. z.steps ++ new) same ∙ append_assoc s.steps _ new,
        q ∙ ap (λ z. z.ctx.feedback ++ feedback_of new) same ∙ append_assoc s.ctx.feedback _ _,
      ),
      repair reason t raw (
          subst (λ z. Trace config.max_tool_hops z.hops z.last_executed z.duplicate_nudges true new)
            same later),
    ),
  )

  on_generated-IsPass :
      (i : Interpreted V F) (s : TurnState V E R)
      → IsPass config.max_tool_hops false s (on_generated world config (i, s))
  unfolding on_generated feedback_of generated
  on_generated-IsPass (Interpreted.prose text) s =
      (_, ((refl, sym (append-nil s.ctx.feedback)), prose text))
  on_generated-IsPass (valid t args typed) s =
      handle_valid-IsPass world.runner config false t args typed s
  on_generated-IsPass (invalid reason t parsed raw) s =
      let (i, s₁) = generated world (repaired reason t raw s) in
      repair-IsPass reason t raw s (generated world (repaired reason t raw s)).1
        (on_repaired world config (generated world (repaired reason t raw s))) refl
        (on_repaired-IsPass (generated world (repaired reason t raw s)).0
          (generated world (repaired reason t raw s)).1)

  pub turn_once-IsPass :
      (s : TurnState V E R) → IsPass config.max_tool_hops false s (turn_once world config s)
  unfolding turn_once generated
  turn_once-IsPass s =
      let s₁ = (generated world s).1 in on_generated-IsPass (generated world s).0 s₁
