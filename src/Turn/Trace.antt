-- ===== src/Turn/Trace.antt =====
-- The traces of a turn (client/src-tauri/src/turn.rs), described without the machine.
use hydropark_gym.Prelude.{
  ℕ, suc, ◌+◌, ◌*◌, ◌-◌, ◌≡◌, ◌≤◌, ◌<◌, Bool, true, false, Option, some, List, [], ◌∷◌, ◌++◌,
}
use hydropark_gym.Prelude.Text.{Text}
use hydropark_gym.Prelude.Json.{Json}
use hydropark_gym.Catalog.Names.{ToolName}
use hydropark_gym.Turn.Types.{
  ToolExecError, FallbackReason, Step, tool_error, tool_result, repair_attempt, fallback,
  hop_limit_reached, duplicate_call_skipped, result_note, error_note, repair_note, duplicate_note,
}
use hydropark_gym.Turn.Machine.{is_duplicate, build_fallback, Flow, go_on, stop, TurnState}

-- The steps that may follow when `hops` tools have run, `last` ran last, the model has been told
-- `nudges` times in a row not to repeat it, and `repairing` says whether a repair was just asked for.
pub data Trace {V : Type 0} ⦃json : Json V⦄ (limit : ℕ)
    : (hops : ℕ) (last : Option (ToolName × V)) (nudges : ℕ) (repairing : Bool)
      → List (Step V)
      → Type 0 where
  prose :
      {h : ℕ} {l : Option (ToolName × V)} {n : ℕ} {r : Bool} (t : Text)
      → Trace limit h l n r (Step.prose t ∷ [])
  tool_ok :
      {h : ℕ} {l : Option (ToolName × V)} {n : ℕ} {r : Bool} {rest : List (Step V)} (t : ToolName)
      (args result : V)
      → h < limit
      → is_duplicate l t args ≡ false
      → Trace limit (h + 1) (some (t, args)) 0 false rest
      → Trace limit h l n r (Step.tool_call t args ∷ tool_result t result ∷ rest)
  tool_err :
      {h : ℕ} {l : Option (ToolName × V)} {n : ℕ} {r : Bool} {rest : List (Step V)} (t : ToolName)
      (args : V) (e : ToolExecError)
      → h < limit
      → is_duplicate l t args ≡ false
      → Trace limit (h + 1) (some (t, args)) 0 false rest
      → Trace limit h l n r (Step.tool_call t args ∷ tool_error t e ∷ rest)
  hop_limit :
      {h : ℕ} {l : Option (ToolName × V)} {n : ℕ} {r : Bool}
      → limit ≤ h
      → Trace limit h l n r (hop_limit_reached limit ∷ [])
  skip :
      {h : ℕ} {l : Option (ToolName × V)} {n : ℕ} {r : Bool} {rest : List (Step V)} (t : ToolName)
      (args : V)
      → n ≡ 0
      → is_duplicate l t args ≡ true
      → Trace limit h l (n + 1) false rest
      → Trace limit h l n r (duplicate_call_skipped t args ∷ rest)
  repair :
      {h : ℕ} {l : Option (ToolName × V)} {n : ℕ} {rest : List (Step V)} (reason : FallbackReason)
      (t : Option ToolName) (raw : Text)
      → Trace limit h l n true rest
      → Trace limit h l n false (repair_attempt reason t raw ∷ rest)
  give_up :
      {h : ℕ} {l : Option (ToolName × V)} {n : ℕ} (reason : FallbackReason) (t : Option ToolName)
      (parsed : Option V)
      → Trace limit h l n true (fallback (build_fallback reason t parsed) ∷ [])

module _ {V : Type 0} ⦃json : Json V⦄ where
  -- what the model is told of a step
  abbrev pub notes : Step V → List Text
  notes (tool_result t result) = result_note t result ∷ []
  notes (tool_error t e) = error_note t e ∷ []
  notes (repair_attempt _ _ raw) = repair_note raw ∷ []
  notes (duplicate_call_skipped t _) = duplicate_note t ∷ []
  notes _ = []

  unfoldable pub feedback_of : List (Step V) → List Text
  feedback_of [] = []
  feedback_of (step ∷ steps) = notes step ++ feedback_of steps

  module _ {E R : Type 0} (limit : ℕ) where
    -- how many more passes the loop may make
    abbrev pub passes_left : TurnState V E R → ℕ
    passes_left s = 2 * (limit - s.hops) + (1 - s.duplicate_nudges)

    -- a pass went from `s` to `s'` by `new`
    abbrev pub Extends : TurnState V E R → TurnState V E R → List (Step V) → Type 0
    Extends s s' new =
        (s'.steps ≡ s.steps ++ new) × (s'.ctx.feedback ≡ s.ctx.feedback ++ feedback_of new)

    abbrev pub Continues : Bool → TurnState V E R → TurnState V E R → List (Step V) → Type 0
    Continues r s s' new =
        ((rest : List (Step V))
          → Trace limit s'.hops s'.last_executed s'.duplicate_nudges false rest
          → Trace limit s.hops s.last_executed s.duplicate_nudges r (new ++ rest))
        × (suc (passes_left s') ≤ passes_left s)

    abbrev pub Ends : Bool → TurnState V E R → List (Step V) → Type 0
    Ends r s new = Trace limit s.hops s.last_executed s.duplicate_nudges r new

    -- what one pass does to the state, the loop going on or not
    abbrev pub IsPass : Bool → TurnState V E R → Flow × TurnState V E R → Type 0
    IsPass r s (go_on, s') = (new : List (Step V)) × (Extends s s' new × Continues r s s' new)
    IsPass r s (stop, s') = (new : List (Step V)) × (Extends s s' new × Ends r s new)
