-- ===== src/Turn/Machine.antt =====
-- The machine (client/src-tauri/src/turn.rs): one pass of its loop, and the loop on fuel.
use hydropark_gym.Prelude.{
  ℕ, zero, suc, ◌+◌, ◌*◌, Bool, false, ◌&&◌, Option, none, some, List, [], ◌∷◌, ◌++◌, Result, ok,
  err, if◌then◌else◌, leb,
}
use hydropark_gym.Prelude.Text.{Text, chars}
use hydropark_gym.Prelude.TreeMap.{insert}
use hydropark_gym.Prelude.Json.{Json}
use hydropark_gym.Prelude.Float.{Float}
use hydropark_gym.Catalog.Names.{ToolName, same_tool, from_ref}
use hydropark_gym.Catalog.Types.{TypedArgs, tool, ToolError, Serde, Chrono}
use hydropark_gym.Catalog.Args.{validate_and_parse}
use hydropark_gym.Grammar.{tool_call_grammar}
use hydropark_gym.Turn.Types.{
  GenOutput, Engine, ToolExecError, ToolRunner, TurnConfig, FallbackReason, malformed_json,
  unknown_tool, invalid_args, Fallback, Step, TurnContext, prompt, push_error, push_repair,
  push_duplicate_notice, push_result, tool_error, tool_result, repair_attempt, fallback,
  hop_limit_reached, duplicate_call_skipped,
}

pub data Flow : Type 0 where
  go_on stop : Flow

pub data Interpreted (V F : Type 0) : Type 0 where
  prose : Text → Interpreted V F
  valid : ToolName → V → TypedArgs F → Interpreted V F
  -- the reason, the tool, the parsed arguments and the raw text
  invalid : FallbackReason → Option ToolName → Option V → Text → Interpreted V F

-- the variables of `run_turn`, with its engine and its runner
pub record TurnState (V E R : Type 0) : Type 0 where
  pub engine : E
  pub runner : R
  pub ctx : TurnContext
  pub steps : List (Step V)
  pub hops : ℕ
  pub last_executed : Option (ToolName × V)
  pub duplicate_nudges : ℕ

abbrev pub max_duplicate_nudges : ℕ
max_duplicate_nudges = 1

unfoldable pub duplicate_giveup_prose : Text
duplicate_giveup_prose = chars "All set — that's already done, so I won't repeat it."

unfoldable pub clarifying_text : Text
clarifying_text =
    chars
      "Could you tell me what you would like me to do - start a timer, update a list, convert a unit, run a calculation, or do a date calculation?"

unfoldable pub build_fallback :
    {V : Type 0} → FallbackReason → Option ToolName → Option V → Fallback V
build_fallback reason none parsed_args = record {
  reason = reason;
  tool = none;
  parsed_args = parsed_args;
  clarifying_question = some clarifying_text;
}
build_fallback reason (some t) parsed_args = record {
  reason = reason;
  tool = some t;
  parsed_args = parsed_args;
  clarifying_question = none;
}

module _ {V : Type 0} ⦃json : Json V⦄ where
  -- `json!({ "name": name, "arguments": args }).to_string()`
  unfoldable pub raw_of : Text → V → Text
  raw_of name args =
      json.to_text
        (json.object (insert (chars "name") (json.string name) ((chars "arguments", args) ∷ [])))

  -- `last_executed.as_ref() == Some(&(tool, args))`
  unfoldable pub is_duplicate : Option (ToolName × V) → ToolName → V → Bool
  is_duplicate none t args = false
  is_duplicate (some (u, old)) t args = same_tool u t && json.eqb old args

module _ {V F D S : Type 0} ⦃json : Json V⦄ ⦃float : Float F⦄ (serde : Serde V F)
    (chrono : Chrono D S) where
  unfoldable pub interpret_call : Text → V → Result (TypedArgs F) ToolError → Interpreted V F
  interpret_call name args (ok typed) = valid (tool typed) args typed
  interpret_call name args (err (ToolError.unknown_tool _)) =
      invalid unknown_tool none (some args) (raw_of name args)
  interpret_call name args (err _) =
      invalid invalid_args (from_ref name) (some args) (raw_of name args)

  unfoldable pub interpret : GenOutput V → Interpreted V F
  unfolding interpret_call
  interpret (GenOutput.prose text) = prose text
  interpret (GenOutput.malformed raw) = invalid malformed_json none none raw
  interpret (GenOutput.tool_call name args) =
      interpret_call name args (validate_and_parse serde chrono name args)

module _ {V E R : Type 0} where
  abbrev pub add_step : Step V → TurnState V E R → TurnState V E R
  add_step step s = record s { steps = s.steps ++ (step ∷ []) }

module _ {V E R : Type 0} ⦃json : Json V⦄ where
  -- what the run of a tool leaves
  unfoldable pub record_run : ToolName → TurnState V E R → Result V ToolExecError → TurnState V E R
  record_run t s (ok result) =
      add_step (tool_result t result) (record s { ctx = push_result t result s.ctx })
  record_run t s (err error) =
      add_step (tool_error t error) (record s { ctx = push_error t error s.ctx })

module _ {V F E R : Type 0} ⦃json : Json V⦄ (runner : ToolRunner V F R) (config : TurnConfig) where
  unfoldable pub execute_validated :
      ToolName → V → TypedArgs F → TurnState V E R → Flow × TurnState V E R
  execute_validated t args typed s =
      if leb config.max_tool_hops s.hops
      then (stop, add_step (hop_limit_reached config.max_tool_hops) s)
      else (let (outcome, r) = runner.run_tool s.runner t typed in
          (
            go_on,
            record_run t
                (record (add_step (Step.tool_call t args) s) { hops = s.hops + 1; runner = r })
                outcome,
          ))

  unfoldable pub handle_valid :
      ToolName → V → TypedArgs F → TurnState V E R → Flow × TurnState V E R
  handle_valid t args typed s =
      let executed =
        execute_validated t args typed
          (record s { last_executed = some (t, args); duplicate_nudges = 0 }) in
      if is_duplicate s.last_executed t args
      then if leb max_duplicate_nudges s.duplicate_nudges
        then (stop, add_step (Step.prose duplicate_giveup_prose) s)
        else (
          go_on,
          add_step (duplicate_call_skipped t args) (record s {
            duplicate_nudges = s.duplicate_nudges + 1;
            ctx = push_duplicate_notice t s.ctx;
          }),
        )
      else executed

module _ {V E R : Type 0} where
  unfoldable pub repaired :
      FallbackReason → Option ToolName → Text → TurnState V E R → TurnState V E R
  repaired reason t raw s =
      add_step (repair_attempt reason t raw) (record s { ctx = push_repair raw s.ctx })

  -- `Flow::Continue => continue`, `Flow::Stop => break`
  abbrev pub after_pass :
      (TurnState V E R → Option (TurnState V E R))
      → Flow × TurnState V E R
      → Option (TurnState V E R)
  after_pass next (go_on, s) = next s
  after_pass next (stop, s) = some s

  abbrev pub start : E → R → Text → TurnState V E R
  start e r user_message = record {
    engine = e;
    runner = r;
    ctx = record { user_message = user_message; feedback = [] };
    steps = [];
    hops = 0;
    last_executed = none;
    duplicate_nudges = 0;
  }

-- enough passes for every turn
abbrev pub enough : TurnConfig → ℕ
enough config = 2 * config.max_tool_hops + 2

-- What the program runs a turn against: the engine, the tools, and the crates it parses with.
pub record World (V F D S E R : Type 0) : Type 0 where
  pub serde : Serde V F
  pub chrono : Chrono D S
  pub engine : Engine V E
  pub runner : ToolRunner V F R

module _ {V F D S E R : Type 0} ⦃json : Json V⦄ ⦃float : Float F⦄ (world : World V F D S E R) where
  -- `engine.generate(&ctx.prompt(), &grammar)`, interpreted
  unfoldable pub generated : TurnState V E R → Interpreted V F × TurnState V E R
  generated s =
      let (out, e) = world.engine.generate s.engine (prompt s.ctx) tool_call_grammar in
      (interpret world.serde world.chrono out, record s { engine = e })

module _ {V F D S E R : Type 0} ⦃json : Json V⦄ ⦃float : Float F⦄ (world : World V F D S E R)
    (config : TurnConfig) where
  -- the second match, behind the repair
  unfoldable pub on_repaired : Interpreted V F × TurnState V E R → Flow × TurnState V E R
  on_repaired (prose text, s) = (stop, add_step (Step.prose text) s)
  on_repaired (valid t args typed, s) = handle_valid world.runner config t args typed s
  on_repaired (invalid reason t parsed raw, s) =
      (stop, add_step (fallback (build_fallback reason t parsed)) s)

  unfoldable pub on_generated : Interpreted V F × TurnState V E R → Flow × TurnState V E R
  on_generated (prose text, s) = (stop, add_step (Step.prose text) s)
  on_generated (valid t args typed, s) = handle_valid world.runner config t args typed s
  on_generated (invalid reason t parsed raw, s) =
      on_repaired (generated world (repaired reason t raw s))

  -- one pass of the loop
  unfoldable pub turn_once : TurnState V E R → Flow × TurnState V E R
  turn_once s = on_generated (generated world s)

  -- the loop, with at most this many passes
  unfoldable pub run_loop : ℕ → TurnState V E R → Option (TurnState V E R)
  run_loop zero s = none
  run_loop (suc fuel) s = after_pass (run_loop fuel) (turn_once s)

  unfoldable pub run_turn : E → R → Text → Option (TurnState V E R)
  run_turn e r user_message = run_loop (enough config) (start e r user_message)
