-- ===== src/Turn/Types.antt =====
-- The data of a turn (client/src-tauri/src/turn.rs). `Engine` and `ToolRunner` are the traits: an
-- implementation is a state and a function that returns the next state.
use hydropark_gym.Prelude.{
  ℕ, Bool, true, false, Option, none, some, List, [], ◌∷◌, ◌++◌, Result, length, keep, any,
}
use hydropark_gym.Prelude.Text.{Text, chars}
use hydropark_gym.Prelude.Json.{Json}
use hydropark_gym.Catalog.Names.{ToolName, as_ref_str}
use hydropark_gym.Catalog.Types.{TypedArgs}

pub data GenOutput (V : Type 0) : Type 0 where
  prose : Text → GenOutput V
  tool_call : Text → V → GenOutput V
  malformed : Text → GenOutput V

pub record Engine (V E : Type 0) : Type 0 where
  -- the prompt, then the grammar
  pub generate : E → Text → Text → GenOutput V × E

-- `ToolExecError::Failed`
pub record ToolExecError : Type 0 where
  pub tool : ToolName
  pub reason : Text

pub record ToolRunner (V F R : Type 0) : Type 0 where
  pub run_tool : R → ToolName → TypedArgs F → Result V ToolExecError × R

pub record TurnConfig : Type 0 where
  pub max_tool_hops : ℕ

abbrev pub default_config : TurnConfig
default_config = record { max_tool_hops = 4 }

pub data FallbackReason : Type 0 where
  malformed_json unknown_tool invalid_args : FallbackReason

pub record Fallback (V : Type 0) : Type 0 where
  pub reason : FallbackReason
  pub tool : Option ToolName
  pub parsed_args : Option V
  pub clarifying_question : Option Text

pub data Step (V : Type 0) : Type 0 where
  prose : Text → Step V
  tool_call : ToolName → V → Step V
  tool_result : ToolName → V → Step V
  tool_error : ToolName → ToolExecError → Step V
  repair_attempt : FallbackReason → Option ToolName → Text → Step V
  fallback : Fallback V → Step V
  hop_limit_reached : ℕ → Step V
  duplicate_call_skipped : ToolName → V → Step V

module _ {V : Type 0} where
  abbrev is_tool_call : Step V → Bool
  is_tool_call (Step.tool_call _ _) = true
  is_tool_call _ = false

  abbrev is_tool_error : Step V → Bool
  is_tool_error (tool_error _ _) = true
  is_tool_error _ = false

  abbrev is_repair : Step V → Bool
  is_repair (repair_attempt _ _ _) = true
  is_repair _ = false

  abbrev is_duplicate_skip : Step V → Bool
  is_duplicate_skip (duplicate_call_skipped _ _) = true
  is_duplicate_skip _ = false

  abbrev is_hop_limit : Step V → Bool
  is_hop_limit (hop_limit_reached _) = true
  is_hop_limit _ = false

  -- The methods of `Transcript`, on its steps.
  unfoldable pub tool_calls : List (Step V) → ℕ
  tool_calls steps = length (keep is_tool_call steps)

  unfoldable pub tool_errors : List (Step V) → ℕ
  tool_errors steps = length (keep is_tool_error steps)

  unfoldable pub repairs : List (Step V) → ℕ
  repairs steps = length (keep is_repair steps)

  unfoldable pub duplicate_skips : List (Step V) → ℕ
  duplicate_skips steps = length (keep is_duplicate_skip steps)

  unfoldable pub hit_hop_limit : List (Step V) → Bool
  hit_hop_limit steps = any is_hop_limit steps

  unfoldable pub fallback_of : List (Step V) → Option (Fallback V)
  fallback_of [] = none
  fallback_of (fallback f ∷ steps) = some f
  fallback_of (_ ∷ steps) = fallback_of steps

  -- the last one, since the source searches from the end
  unfoldable pub final_prose : List (Step V) → Option Text
  final_prose [] = none
  final_prose (Step.prose t ∷ steps) = elim (final_prose steps) [ none ↦ some t | some u ↦ some u ]
  final_prose (_ ∷ steps) = final_prose steps

-- `TurnContext`
pub record TurnContext : Type 0 where
  pub user_message : Text
  pub feedback : List Text

-- every text on a line of its own, after what stands before it
unfoldable pub prompt_from : Text → List Text → Text
prompt_from p [] = p
prompt_from p (f ∷ feedback) = prompt_from (p ++ (chars "\n" ++ f)) feedback

unfoldable pub prompt : TurnContext → Text
prompt ctx = prompt_from (chars "<user>\n" ++ (ctx.user_message ++ chars "\n</user>")) ctx.feedback

abbrev push : Text → TurnContext → TurnContext
push note ctx = record ctx { feedback = ctx.feedback ++ (note ∷ []) }

-- `ToolExecError`'s `Display`
abbrev exec_error_text : ToolExecError → Text
exec_error_text e =
    chars "tool '" ++ (as_ref_str e.tool ++ (chars "' failed to execute: " ++ e.reason))

unfoldable pub error_note : ToolName → ToolExecError → Text
error_note tool e =
    chars "<tool_error tool=\""
    ++ (as_ref_str tool ++ (chars "\">" ++ (exec_error_text e ++ chars "</tool_error>")))

unfoldable pub repair_note : Text → Text
repair_note raw = chars "<repair>the previous tool call was invalid: " ++ (raw ++ chars "</repair>")

unfoldable pub duplicate_note : ToolName → Text
duplicate_note tool =
    chars "<duplicate_call tool=\""
    ++ (as_ref_str tool
        ++ chars
            "\">You already called this tool with the exact same arguments — it will not run again. Reply with ONE short plain-language sentence confirming it for the user instead of calling it again.</duplicate_call>")

abbrev pub push_error : ToolName → ToolExecError → TurnContext → TurnContext
push_error tool e ctx = push (error_note tool e) ctx

abbrev pub push_repair : Text → TurnContext → TurnContext
push_repair raw ctx = push (repair_note raw) ctx

abbrev pub push_duplicate_notice : ToolName → TurnContext → TurnContext
push_duplicate_notice tool ctx = push (duplicate_note tool) ctx

module _ {V : Type 0} ⦃json : Json V⦄ where
  unfoldable pub result_note : ToolName → V → Text
  result_note tool result =
      chars "<tool_result tool=\""
      ++ (as_ref_str tool ++ (chars "\">" ++ (json.to_text result ++ chars "</tool_result>")))

  abbrev pub push_result : ToolName → V → TurnContext → TurnContext
  push_result tool result ctx = push (result_note tool result) ctx
