-- ===== src/Routing/Lookup.antt =====
-- What the routing table answers for a tool ref (client/src-tauri/src/tool_routing.rs).
use hydropark_gym.Prelude.{
  ◌≡◌, ◌≢◌, refl, ap, sym, ◌∙◌, ◌↔◌, ◌⊎◌, subst, arith, Option, none, some, some_eq, List, [], ◌∷◌,
  ◌++◌, All, Bool-cases, inl, inr,
}
use hydropark_gym.Prelude.Text.{Text, text_eqb, text_eqb_iff}
use hydropark_gym.Routing.Routes.{
  ToolDecl, Route, RouteTarget, widget, chat, target_of, route_of, route_tools, get_route,
}

-- the first declaration of a ref
abbrev pub IsFirst : List ToolDecl → Text → ToolDecl → Type 0
IsFirst tools tool_ref t =
    (before : List ToolDecl) × (behind : List ToolDecl) × (tools ≡ before ++ t ∷ behind)
    × All (λ d. d.tool_ref ≢ tool_ref) before
    × (t.tool_ref ≡ tool_ref)

-- the route reads and writes the slots that the declaration names, and its result goes to the widget
-- that the declaration names, or else to the chat
pub record Delivers (t : ToolDecl) (route : Route) : Type 0 where
  pub reads : route.reads ≡ t.reads_state
  pub writes : route.writes ≡ t.writes_state
  pub to_widget : (w : Text) → (route.target ≡ widget w) ↔ (t.updates_widget ≡ some w)
  pub to_chat : (route.target ≡ chat) ↔ (t.updates_widget ≡ none)

target-Delivers :
    (o : Option Text)
    → ((w : Text) → (target_of o ≡ widget w) ↔ (o ≡ some w)) × ((target_of o ≡ chat) ↔ (o ≡ none))
target-Delivers none = ((λ w. ground arith), ground arith)
target-Delivers (some v) = ((λ w. ground arith), ground arith)

route_of-Delivers : (t : ToolDecl) → Delivers t (route_of t)
route_of-Delivers t =
    let (to_widget, to_chat) = target-Delivers t.updates_widget in
    record { reads = refl; writes = refl; to_widget = to_widget; to_chat = to_chat }

target_unique :
    (o : Option Text) (target : RouteTarget)
    → ((w : Text) → (target ≡ widget w) ↔ (o ≡ some w))
    → ((target ≡ chat) ↔ (o ≡ none))
    → target ≡ target_of o
target_unique none target h k = k.1 refl
target_unique (some w) target h k = (h w).1 refl

Delivers-unique : (t : ToolDecl) (route : Route) → Delivers t route → route ≡ route_of t
Delivers-unique t route d =
    let target = target_unique t.updates_widget route.target d.to_widget d.to_chat in
    λ i. record { reads = d.reads i; writes = d.writes i; target = target i }

get_route-head :
    (t : ToolDecl) (tools : List ToolDecl) (tool_ref : Text)
    → t.tool_ref ≡ tool_ref
    → get_route (route_tools (t ∷ tools)) tool_ref ≡ some (route_of t)
unfolding get_route route_tools
get_route-head t tools tool_ref e = rw ((text_eqb_iff t.tool_ref tool_ref).1 e) refl

get_route-tail :
    (t : ToolDecl) (tools : List ToolDecl) (tool_ref : Text)
    → t.tool_ref ≢ tool_ref
    → get_route (route_tools (t ∷ tools)) tool_ref ≡ get_route (route_tools tools) tool_ref
unfolding get_route route_tools
get_route-tail t tools tool_ref n = elim (Bool-cases (text_eqb t.tool_ref tool_ref)) [
  | inl e ↦ absurd (n ((text_eqb_iff t.tool_ref tool_ref).0 e))
  | inr e ↦ rw e refl
]

ref-cases : (s t : Text) → (s ≡ t) ⊎ (s ≢ t)
ref-cases s t = elim (Bool-cases (text_eqb s t)) [
  | inl e ↦ inl ((text_eqb_iff s t).0 e)
  | inr e ↦ inr (λ same. absurd (ground (arith, (text_eqb_iff s t).1 same, e)))
]

abbrev pub IsRouted : List ToolDecl → Text → Route → Type 0
IsRouted tools tool_ref route = (t : ToolDecl) × IsFirst tools tool_ref t × Delivers t route

IsRouted-cons :
    (d : ToolDecl) (tools : List ToolDecl) (tool_ref : Text) (route : Route)
    → d.tool_ref ≢ tool_ref
    → IsRouted tools tool_ref route
    → IsRouted (d ∷ tools) tool_ref route
IsRouted-cons d tools tool_ref route n (t, (before, behind, e, a, same), delivers) =
    (t, (d ∷ before, behind, ap (λ z. d ∷ z) e, (n, a), same), delivers)

get_route-IsRouted :
    (tools : List ToolDecl) (tool_ref : Text) (route : Route)
    → get_route (route_tools tools) tool_ref ≡ some route
    → IsRouted tools tool_ref route
unfolding get_route route_tools
get_route-IsRouted [] tool_ref route e = absurd (ground arith)
get_route-IsRouted (t ∷ tools) tool_ref route e = elim (ref-cases t.tool_ref tool_ref) [
  | inl same ↦
      let head : route_of t ≡ route = some_eq (sym (get_route-head t tools tool_ref same) ∙ e) in
      (t, ([], tools, refl, tt, same), subst (Delivers t) head (route_of-Delivers t))
  | inr n ↦
      IsRouted-cons t tools tool_ref route n
        (get_route-IsRouted tools tool_ref route (sym (get_route-tail t tools tool_ref n) ∙ e))
]

get_route-first :
    (before behind : List ToolDecl) (t : ToolDecl) (tool_ref : Text)
    → All (λ d. d.tool_ref ≢ tool_ref) before
    → t.tool_ref ≡ tool_ref
    → get_route (route_tools (before ++ t ∷ behind)) tool_ref ≡ some (route_of t)
get_route-first [] behind t tool_ref a e = get_route-head t behind tool_ref e
get_route-first (d ∷ before) behind t tool_ref (n, a) e =
    get_route-tail d (before ++ t ∷ behind) tool_ref n
    ∙ get_route-first before behind t tool_ref a e

IsRouted-get_route :
    (tools : List ToolDecl) (tool_ref : Text) (route : Route)
    → IsRouted tools tool_ref route
    → get_route (route_tools tools) tool_ref ≡ some route
IsRouted-get_route tools tool_ref route (t, (before, behind, e, a, same), delivers) =
    ap (λ z. get_route (route_tools z) tool_ref) e
    ∙ get_route-first before behind t tool_ref a same
    ∙ ap some (sym (Delivers-unique t route delivers))

get_route-none :
    (tools : List ToolDecl) (tool_ref : Text)
    → get_route (route_tools tools) tool_ref ≡ none
    → All (λ t. t.tool_ref ≢ tool_ref) tools
get_route-none [] tool_ref e = tt
get_route-none (t ∷ tools) tool_ref e = elim (ref-cases t.tool_ref tool_ref) [
  | inl same ↦ absurd (ground (arith, get_route-head t tools tool_ref same, e))
  | inr n ↦ (n, get_route-none tools tool_ref (sym (get_route-tail t tools tool_ref n) ∙ e))
]

none-get_route :
    (tools : List ToolDecl) (tool_ref : Text)
    → All (λ t. t.tool_ref ≢ tool_ref) tools
    → get_route (route_tools tools) tool_ref ≡ none
unfolding get_route route_tools
none-get_route [] tool_ref a = refl
none-get_route (t ∷ tools) tool_ref (n, a) =
    get_route-tail t tools tool_ref n ∙ none-get_route tools tool_ref a

pub get_route_iff :
    (tools : List ToolDecl) (tool_ref : Text)
    → ((route : Route)
        → (get_route (route_tools tools) tool_ref ≡ some route) ↔ IsRouted tools tool_ref route)
      × ((get_route (route_tools tools) tool_ref ≡ none) ↔ All (λ t. t.tool_ref ≢ tool_ref) tools)
get_route_iff tools tool_ref = (
  (λ route. (get_route-IsRouted tools tool_ref route, IsRouted-get_route tools tool_ref route)),
  (get_route-none tools tool_ref, none-get_route tools tool_ref),
)
