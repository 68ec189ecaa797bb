-- ===== src/Catalog/Types.antt =====
-- The contracts of the tools and their errors (client/src-tauri/src/tool_catalog.rs and ipc.rs), and
-- what they use of serde and chrono, which are parameters.
use hydropark_gym.Prelude.{ℕ, Bool, Option, List, Result}
use hydropark_gym.Prelude.Text.{Text}
use hydropark_gym.Prelude.Int.{ℤ}
use hydropark_gym.Catalog.Names.{ToolName}

pub data UnitDomain : Type 0 where
  mass volume temperature : UnitDomain

pub data UnitId : Type 0 where
  g kg oz lb ml l tsp tbsp fl_oz cup c f : UnitId

pub data ListOp : Type 0 where
  add remove check uncheck set_all : ListOp

pub data CalcOp : Type 0 where
  add sub mul div : CalcOp

pub data DateOp : Type 0 where
  add sub : DateOp

pub record StartTimerArgs : Type 0 where
  pub label : Text
  pub duration_sec : ℕ  -- u32

pub record DateDelta : Type 0 where
  pub days : ℤ
  pub hours : ℤ
  pub minutes : ℤ

pub record DateMathArgs : Type 0 where
  pub base : Text
  pub op : DateOp
  pub delta : DateDelta

module _ (F : Type 0) where
  pub record ConvertUnitsArgs : Type 0 where
    pub domain : UnitDomain
    pub value : F
    pub from_unit : UnitId
    pub to_unit : UnitId

  pub record IngredientItemPatch : Type 0 where
    pub id : Option Text
    pub name : Option Text
    pub qty : Option F
    pub unit : Option UnitId
    pub checked : Option Bool

  pub record ListManageArgs : Type 0 where
    pub op : ListOp
    pub item : Option IngredientItemPatch
    pub items : Option (List IngredientItemPatch)

  pub record CalculateArgs : Type 0 where
    pub op : CalcOp
    pub operands : List F

  pub data TypedArgs : Type 0 where
    start_timer : StartTimerArgs → TypedArgs
    convert_units : ConvertUnitsArgs → TypedArgs
    list_manage : ListManageArgs → TypedArgs
    calculate : CalculateArgs → TypedArgs
    date_math : DateMathArgs → TypedArgs

  -- the results of the stateless tools, which are all that the catalog makes
  pub data ToolResult : Type 0 where
    convert_units : F → UnitId → ToolResult
    calculate : F → ToolResult
    date_math : Text → ToolResult

-- `TypedArgs::tool`
abbrev pub tool : {F : Type 0} → TypedArgs F → ToolName
tool (TypedArgs.start_timer _) = ToolName.start_timer
tool (TypedArgs.convert_units _) = ToolName.convert_units
tool (TypedArgs.list_manage _) = ToolName.list_manage
tool (TypedArgs.calculate _) = ToolName.calculate
tool (TypedArgs.date_math _) = ToolName.date_math

pub data ToolError : Type 0 where
  unknown_tool : Text → ToolError
  invalid_args : Text → Text → ToolError
  execution_failed : Text → ToolError

-- `serde_json::from_value` at the types that the tools ask for, with its message, and `Value::as_f64`
pub record Serde (V F : Type 0) : Type 0 where
  pub as_f64 : V → Option F
  pub unit_domain : V → Result UnitDomain Text
  pub unit_id : V → Result UnitId Text
  pub list_op : V → Result ListOp Text
  pub calc_op : V → Result CalcOp Text
  pub date_op : V → Result DateOp Text
  pub item_patch : V → Result (IngredientItemPatch F) Text
  pub item_patches : V → Result (List (IngredientItemPatch F)) Text

-- chrono's date-times and durations
pub record Chrono (D S : Type 0) : Type 0 where
  pub parse_from_rfc3339 : Text → Result D Text
  pub try_minutes : ℤ → Option S
  pub checked_add_signed : D → S → Option D
  pub checked_sub_signed : D → S → Option D
  pub to_rfc3339 : D → Text
