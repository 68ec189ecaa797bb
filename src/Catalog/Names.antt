-- ===== src/Catalog/Names.antt =====
-- The five tools and their refs (client/src-tauri/src/tool_catalog.rs).
use hydropark_gym.Prelude.{◌≡◌, ◌↔◌, Bool, true, false, Option, some, List, [], ◌∷◌, arith, find?}
use hydropark_gym.Prelude.Text.{Text, chars, text_eqb, text_eqb_iff}

pub data ToolName : Type 0 where
  start_timer convert_units list_manage calculate date_math : ToolName

-- `ToolName::ALL`
abbrev pub all : List ToolName
all = start_timer ∷ convert_units ∷ list_manage ∷ calculate ∷ date_math ∷ []

abbrev pub as_ref_str : ToolName → Text
as_ref_str start_timer = chars "start_timer"
as_ref_str convert_units = chars "convert_units"
as_ref_str list_manage = chars "list_manage"
as_ref_str calculate = chars "calculate"
as_ref_str date_math = chars "date_math"

unfoldable pub from_ref : Text → Option ToolName
from_ref s = find? (λ t. text_eqb (as_ref_str t) s) all

-- `PartialEq` of `ToolName`
abbrev pub same_tool : ToolName → ToolName → Bool
same_tool start_timer start_timer = true
same_tool convert_units convert_units = true
same_tool list_manage list_manage = true
same_tool calculate calculate = true
same_tool date_math date_math = true
same_tool _ _ = false

same_tool_iff : (a b : ToolName) → (same_tool a b ≡ true) ↔ (a ≡ b)
same_tool_iff a b = ground arith

unfoldable pub is_stateful : ToolName → Bool
is_stateful start_timer = true
is_stateful list_manage = true
is_stateful _ = false

-- The ref of a tool resolves to that tool, and a text resolves to a tool only if it is its ref.
pub from_ref-as_ref_str : (s : Text) (t : ToolName) → (from_ref s ≡ some t) ↔ (as_ref_str t ≡ s)
unfolding from_ref
from_ref-as_ref_str s t = ground (
  arith,
  text_eqb_iff (as_ref_str start_timer) s,
  text_eqb_iff (as_ref_str convert_units) s,
  text_eqb_iff (as_ref_str list_manage) s,
  text_eqb_iff (as_ref_str calculate) s,
  text_eqb_iff (as_ref_str date_math) s,
)
