-- ===== src/Examples/Turn.antt =====
-- A turn that sets a timer, repeats itself once and then says so (client/src-tauri/src/turn.rs).
use hydropark_gym.Prelude.{ℕ, ◌+◌, ◌≡◌, ◌≤◌, refl, false, none, some, List, [], ◌∷◌}
use hydropark_gym.Prelude.Text.{Text, chars, text_eqb, trim, trim_start, is_whitespace, is_empty}
use hydropark_gym.Prelude.TreeMap.{get}
use hydropark_gym.Samples.Doc.{Doc, num, str, obj, field, end, doc_json}
use hydropark_gym.Samples.Nats.{nat_float}
use hydropark_gym.Samples.Worlds.{kitchen}
use hydropark_gym.Catalog.Names.{start_timer, from_ref}
use hydropark_gym.Catalog.Getters.{as_object, require, req_string, req_u32}
use hydropark_gym.Catalog.Args.{parse_start_timer, parse_args, resolve, validate_and_parse}
use hydropark_gym.Turn.Types.{
  GenOutput, Step, tool_result, duplicate_call_skipped, default_config, tool_calls, duplicate_skips,
  repairs, result_note, duplicate_note,
}
use hydropark_gym.Turn.Machine.{
  TurnState, run_loop, run_turn, turn_once, generated, on_generated, handle_valid,
  execute_validated, record_run, is_duplicate, interpret, interpret_call,
}
use hydropark_gym.Turn.Trace.{Trace, feedback_of}
use hydropark_gym.Turn.Runs.{run_turn_total}
use hydropark_gym.Turn.Bounds.{
  EndsOnce, NoRepeat, run_turn_bounds, run_turn_ends, run_turn-NoRepeat,
}

abbrev eggs : Doc
eggs = obj (field (chars "duration_sec") (num 60) (field (chars "label") (str (chars "eggs")) end))

abbrev request : Text
request = chars "One minute for the eggs"

abbrev outputs : List (GenOutput Doc)
outputs =
    GenOutput.tool_call (chars "start_timer") eggs
    ∷ GenOutput.tool_call (chars "start_timer") eggs
    ∷ GenOutput.prose (chars "The timer runs.")
    ∷ []

abbrev eggs_steps : List (Step Doc)
eggs_steps =
    Step.tool_call start_timer eggs
    ∷ tool_result start_timer (num 0)
    ∷ duplicate_call_skipped start_timer eggs
    ∷ Step.prose (chars "The timer runs.")
    ∷ []

abbrev eggs_end : TurnState Doc (List (GenOutput Doc)) ℕ
eggs_end = record {
  engine = [];
  runner = 1;
  ctx = record {
    user_message = request;
    feedback = result_note start_timer (num 0) ∷ duplicate_note start_timer ∷ [];
  };
  steps = eggs_steps;
  hops = 1;
  last_executed = some (start_timer, eggs);
  duplicate_nudges = 1;
}

eggs_run : run_turn kitchen default_config outputs 0 request ≡ some eggs_end
unfolding run_turn run_loop turn_once generated on_generated handle_valid execute_validated
    record_run is_duplicate interpret interpret_call validate_and_parse resolve parse_args
    parse_start_timer req_u32 req_string require as_object from_ref text_eqb trim trim_start
    is_whitespace is_empty get kitchen doc_json
eggs_run = refl

run_turn_total_example :
    (s : TurnState Doc (List (GenOutput Doc)) ℕ) × ((run_turn kitchen default_config outputs 0
          request
        ≡ some s)
      × (Trace 4 0 none 0 false s.steps × (s.ctx.feedback ≡ feedback_of s.steps)))
run_turn_total_example = run_turn_total kitchen default_config outputs 0 request

run_turn_bounds_example :
    (tool_calls eggs_steps ≤ 4)
    × (duplicate_skips eggs_steps ≤ tool_calls eggs_steps)
    × (repairs eggs_steps ≤ tool_calls eggs_steps + duplicate_skips eggs_steps + 1)
run_turn_bounds_example = run_turn_bounds kitchen default_config outputs 0 request eggs_end eggs_run

run_turn_ends_example : EndsOnce eggs_steps
run_turn_ends_example = run_turn_ends kitchen default_config outputs 0 request eggs_end eggs_run

run_turn-NoRepeat_example : NoRepeat none eggs_steps
run_turn-NoRepeat_example =
    run_turn-NoRepeat kitchen default_config outputs 0 request eggs_end eggs_run
