-- ===== src/Grammar.antt =====
-- The grammar of the model's output (client/src-tauri/src/grammar.rs), line by line.
use hydropark_gym.Prelude.{List, [], ◌∷◌, ◌++◌, map, if◌then◌else◌, nat_eqb}
use hydropark_gym.Prelude.Text.{Text, chars, join}
use hydropark_gym.Catalog.Names.{
  ToolName, start_timer, convert_units, list_manage, calculate, date_math, all, as_ref_str,
}

-- `\n`
abbrev newline : Text
newline = 10 ∷ []

-- every line with its end
unfoldable lines : List Text → Text
lines [] = []
lines (l ∷ ls) = l ++ (newline ++ lines ls)

unfoldable pub header : Text
unfolding lines
header = lines (
    chars "# Hydropark tool-call GBNF (P1-02.2) - two-branch root: prose | one tool_call."
    ∷ chars "# Generated from the fixed tool_catalog; do not hand-edit."
    ∷ []
    ∷ [])

unfoldable pub start_timer_block : Text
unfolding lines
start_timer_block = lines (
    chars "# start_timer(label, duration_sec)"
    ∷ chars
        "start-timer-call ::= \"{\" ws \"\\\"name\\\"\" ws \":\" ws \"\\\"start_timer\\\"\" ws \",\" ws \"\\\"arguments\\\"\" ws \":\" ws start-timer-args ws \"}\""
    ∷ chars
        "start-timer-args ::= \"{\" ws \"\\\"label\\\"\" ws \":\" ws string ws \",\" ws \"\\\"duration_sec\\\"\" ws \":\" ws integer ws \"}\""
    ∷ [])

unfoldable pub convert_units_block : Text
unfolding lines
convert_units_block = lines (
    chars "# convert_units(domain, value, from_unit, to_unit)"
    ∷ chars
        "convert-units-call ::= \"{\" ws \"\\\"name\\\"\" ws \":\" ws \"\\\"convert_units\\\"\" ws \",\" ws \"\\\"arguments\\\"\" ws \":\" ws convert-units-args ws \"}\""
    ∷ chars
        "convert-units-args ::= \"{\" ws \"\\\"domain\\\"\" ws \":\" ws domain ws \",\" ws \"\\\"value\\\"\" ws \":\" ws number ws \",\" ws \"\\\"from_unit\\\"\" ws \":\" ws unit-id ws \",\" ws \"\\\"to_unit\\\"\" ws \":\" ws unit-id ws \"}\""
    ∷ chars "domain ::= \"\\\"mass\\\"\" | \"\\\"volume\\\"\" | \"\\\"temperature\\\"\""
    ∷ [])

unfoldable pub list_manage_block : Text
unfolding lines
list_manage_block = lines (
    chars "# list_manage(op, item?, items?)"
    ∷ chars
        "list-manage-call ::= \"{\" ws \"\\\"name\\\"\" ws \":\" ws \"\\\"list_manage\\\"\" ws \",\" ws \"\\\"arguments\\\"\" ws \":\" ws list-manage-args ws \"}\""
    ∷ chars
        "list-manage-args ::= \"{\" ws \"\\\"op\\\"\" ws \":\" ws list-op ( ws \",\" ws \"\\\"item\\\"\" ws \":\" ws item-object )? ( ws \",\" ws \"\\\"items\\\"\" ws \":\" ws item-array )? ws \"}\""
    ∷ chars
        "list-op ::= \"\\\"add\\\"\" | \"\\\"remove\\\"\" | \"\\\"check\\\"\" | \"\\\"uncheck\\\"\" | \"\\\"set_all\\\"\""
    ∷ chars "item-array ::= \"[\" ws ( item-object ( ws \",\" ws item-object )* )? ws \"]\""
    ∷ chars "item-object ::= \"{\" ws ( item-member ( ws \",\" ws item-member )* )? ws \"}\""
    ∷ chars
        "item-member ::= \"\\\"id\\\"\" ws \":\" ws string | \"\\\"name\\\"\" ws \":\" ws string | \"\\\"qty\\\"\" ws \":\" ws number | \"\\\"unit\\\"\" ws \":\" ws unit-id | \"\\\"checked\\\"\" ws \":\" ws boolean"
    ∷ [])

unfoldable pub calculate_block : Text
unfolding lines
calculate_block = lines (
    chars "# calculate(op, operands)"
    ∷ chars
        "calculate-call ::= \"{\" ws \"\\\"name\\\"\" ws \":\" ws \"\\\"calculate\\\"\" ws \",\" ws \"\\\"arguments\\\"\" ws \":\" ws calculate-args ws \"}\""
    ∷ chars
        "calculate-args ::= \"{\" ws \"\\\"op\\\"\" ws \":\" ws calc-op ws \",\" ws \"\\\"operands\\\"\" ws \":\" ws operands ws \"}\""
    ∷ chars "calc-op ::= \"\\\"add\\\"\" | \"\\\"sub\\\"\" | \"\\\"mul\\\"\" | \"\\\"div\\\"\""
    ∷ chars "operands ::= \"[\" ws number ( ws \",\" ws number )+ ws \"]\""
    ∷ [])

unfoldable pub date_math_block : Text
unfolding lines
date_math_block = lines (
    chars "# date_math(base, op, delta)"
    ∷ chars
        "date-math-call ::= \"{\" ws \"\\\"name\\\"\" ws \":\" ws \"\\\"date_math\\\"\" ws \",\" ws \"\\\"arguments\\\"\" ws \":\" ws date-math-args ws \"}\""
    ∷ chars
        "date-math-args ::= \"{\" ws \"\\\"base\\\"\" ws \":\" ws string ws \",\" ws \"\\\"op\\\"\" ws \":\" ws date-op ws \",\" ws \"\\\"delta\\\"\" ws \":\" ws delta ws \"}\""
    ∷ chars "date-op ::= \"\\\"add\\\"\" | \"\\\"sub\\\"\""
    ∷ chars "delta ::= \"{\" ws ( delta-member ( ws \",\" ws delta-member )* )? ws \"}\""
    ∷ chars
        "delta-member ::= \"\\\"days\\\"\" ws \":\" ws integer | \"\\\"hours\\\"\" ws \":\" ws integer | \"\\\"minutes\\\"\" ws \":\" ws integer"
    ∷ [])

unfoldable pub primitives : Text
unfolding lines
primitives = lines (
    chars "# --- shared JSON primitives ---"
    ∷ chars
        "unit-id ::= \"\\\"g\\\"\" | \"\\\"kg\\\"\" | \"\\\"oz\\\"\" | \"\\\"lb\\\"\" | \"\\\"ml\\\"\" | \"\\\"l\\\"\" | \"\\\"tsp\\\"\" | \"\\\"tbsp\\\"\" | \"\\\"fl_oz\\\"\" | \"\\\"cup\\\"\" | \"\\\"c\\\"\" | \"\\\"f\\\"\""
    ∷ chars "string ::= \"\\\"\" str-char* \"\\\"\""
    ∷ chars "str-char ::= [^\"\\\\] | \"\\\\\" [\"\\\\/bfnrt]"
    ∷ chars "integer ::= \"-\"? digit+"
    ∷ chars "number ::= \"-\"? digit+ ( \".\" digit+ )? ( [eE] ( \"-\" | \"+\" )? digit+ )?"
    ∷ chars "digit ::= [0-9]"
    ∷ chars "boolean ::= \"true\" | \"false\""
    ∷ chars "ws ::= [ \\t\\n]*"
    ∷ []
    ∷ chars "# --- prose branch: assistant free chat text (not a tool call) ---"
    ∷ chars "prose ::= prose-char+"
    ∷ chars "prose-char ::= [^<] | \"<\" [^t]"
    ∷ [])

-- `str::replace` of `_` by `-`
unfoldable pub hyphened : Text → Text
hyphened [] = []
hyphened (ch ∷ rest) = (if nat_eqb ch 95 then 45 else ch) ∷ hyphened rest

unfoldable pub tool_call_rule_name : ToolName → Text
tool_call_rule_name t = hyphened (as_ref_str t) ++ chars "-call"

unfoldable pub per_tool_block : ToolName → Text
per_tool_block start_timer = start_timer_block
per_tool_block convert_units = convert_units_block
per_tool_block list_manage = list_manage_block
per_tool_block calculate = calculate_block
per_tool_block date_math = date_math_block

-- the loop over the tools
unfoldable pub blocks : List ToolName → Text
blocks [] = []
blocks (t ∷ tools) = per_tool_block t ++ (newline ++ blocks tools)

unfoldable pub build_grammar : List ToolName → Text
build_grammar tools =
    header
    ++ (chars
          "root ::= tool-call | prose\ntool-call ::= \"<tool_call>\" ws call ws \"</tool_call>\"\ncall ::= "
        ++ (join (chars " | ") (map tool_call_rule_name tools)
            ++ (newline ++ (newline ++ (blocks tools ++ primitives)))))

unfoldable pub tool_call_grammar : Text
tool_call_grammar = build_grammar all
