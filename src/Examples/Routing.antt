-- ===== src/Examples/Routing.antt =====
-- A declaration of capabilities and a routing table (client/src-tauri/src/tool_routing.rs).
use hydropark_gym.Prelude.{◌≡◌, ◌≢◌, ◌↔◌, refl, All, none, some, [], ◌∷◌, ok, err, map}
use hydropark_gym.Prelude.Text.{chars, text_eqb}
use hydropark_gym.Routing.Capabilities.{
  timers, date_math, as_manifest_str, from_manifest_str, out_of_set, parse_capabilities,
}
use hydropark_gym.Routing.Declared.{DeclarationOutcome, parse_capabilities_lem}
use hydropark_gym.Routing.Routes.{ToolDecl, Route, chat, route_tools, get_route}
use hydropark_gym.Routing.Lookup.{IsRouted, get_route_iff}

network_refused :
    parse_capabilities (chars "timers" ∷ chars "network" ∷ []) ≡ err (out_of_set (chars "network"))
unfolding parse_capabilities from_manifest_str text_eqb
network_refused = refl

parse_capabilities_lem_example :
    DeclarationOutcome
      (chars "timers" ∷ chars "network" ∷ [])
      (parse_capabilities (chars "timers" ∷ chars "network" ∷ []))
    × (parse_capabilities (map as_manifest_str (timers ∷ date_math ∷ []))
        ≡ ok (timers ∷ date_math ∷ []))
parse_capabilities_lem_example =
    parse_capabilities_lem (chars "timers" ∷ chars "network" ∷ []) (timers ∷ date_math ∷ [])

abbrev timer_tool : ToolDecl
timer_tool = record {
  tool_ref = chars "start_timer";
  reads_state = [];
  writes_state = chars "timers" ∷ [];
  updates_widget = some (chars "timer_panel");
}

-- a second declaration of the same tool, by another skill
abbrev silent_timer : ToolDecl
silent_timer = record {
  tool_ref = chars "start_timer";
  reads_state = chars "timers" ∷ [];
  writes_state = [];
  updates_widget = none;
}

first_declaration :
    get_route (route_tools (silent_timer ∷ timer_tool ∷ [])) (chars "start_timer")
    ≡ some (record { reads = chars "timers" ∷ []; writes = []; target = chat })
unfolding get_route route_tools text_eqb
first_declaration = refl

get_route_iff_example :
    ((route : Route)
      → (get_route (route_tools (timer_tool ∷ silent_timer ∷ [])) (chars "start_timer")
          ≡ some route)
        ↔ IsRouted (timer_tool ∷ silent_timer ∷ []) (chars "start_timer") route)
    × ((get_route (route_tools (timer_tool ∷ silent_timer ∷ [])) (chars "start_timer") ≡ none)
        ↔ All (λ t. t.tool_ref ≢ chars "start_timer") (timer_tool ∷ silent_timer ∷ []))
get_route_iff_example = get_route_iff (timer_tool ∷ silent_timer ∷ []) (chars "start_timer")
