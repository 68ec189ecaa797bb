-- ===== src/Routing/Routes.antt =====
-- The routing table (client/src-tauri/src/tool_routing.rs).
use hydropark_gym.Prelude.{Option, none, some, List, map, find?}
use hydropark_gym.Prelude.Text.{Text, text_eqb}

-- a `Slot` is its name
pub record ToolDecl : Type 0 where
  pub tool_ref : Text
  pub reads_state : List Text
  pub writes_state : List Text
  pub updates_widget : Option Text

pub data RouteTarget : Type 0 where
  widget : Text → RouteTarget
  chat : RouteTarget

pub record Route : Type 0 where
  pub reads : List Text
  pub writes : List Text
  pub target : RouteTarget

abbrev pub RoutingTable : Type 0
RoutingTable = List (Text × Route)

abbrev pub target_of : Option Text → RouteTarget
target_of none = chat
target_of (some w) = widget w

abbrev pub route_of : ToolDecl → Route
route_of t = record {
  reads = t.reads_state;
  writes = t.writes_state;
  target = target_of t.updates_widget;
}

unfoldable pub route_tools : List ToolDecl → RoutingTable
route_tools tools = map (λ t. (t.tool_ref, route_of t)) tools

abbrev second_of : Option (Text × Route) → Option Route
second_of none = none
second_of (some (r, route)) = some route

-- `RoutingTable::get`
unfoldable pub get_route : RoutingTable → Text → Option Route
get_route table tool_ref = second_of (find? (λ e. text_eqb e.0 tool_ref) table)
