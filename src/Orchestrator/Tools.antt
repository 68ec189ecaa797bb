-- ===== src/Orchestrator/Tools.antt =====
-- `compose_tools` (client/src-tauri/src/orchestrator.rs).
use hydropark_gym.Prelude.{
  Option, none, some, true, false, List, [], ◌∷◌, ◌++◌, map, any, length, leb, if◌then◌else◌,
}
use hydropark_gym.Prelude.Text.{Text, chars, text_eqb, text_cmp}
use hydropark_gym.Prelude.TreeMap.{BTreeMap, get, insert}
use hydropark_gym.Prelude.Sort.{sort_by}
use hydropark_gym.Prelude.Json.{Json}
use hydropark_gym.Orchestrator.Manifest.{ToolRef, SkillManifest, ComposedTool}

abbrev pub or_default {ℓ} : {A : Type ℓ} → Option (List A) → List A
or_default none = []
or_default (some l) = l

abbrev pub Groups : Type 0 → Type 0
Groups V = BTreeMap (List (Text × V))

module _ {V : Type 0} where
  -- the entry of the map built by `collect`, in which the last skill of an id stands
  unfoldable pub by_id : List (SkillManifest V) → Text → Option (SkillManifest V)
  by_id [] sid = none
  by_id (s ∷ rest) sid = elim (by_id rest sid) [
    | some t ↦ some t
    | none ↦ if text_eqb s.id sid then some s else none
  ]

  -- `groups.entry(ref).or_default().push((id, config))`
  unfoldable pub push_group : Text → Text × V → Groups V → Groups V
  push_group r entry groups = insert r (or_default (get r groups) ++ entry ∷ []) groups

  unfoldable pub push_tools : Text → List (ToolRef V) → Groups V → Groups V
  unfolding push_group
  push_tools sid [] groups = groups
  push_tools sid (t ∷ ts) groups = push_tools sid ts (push_group t.tool_ref (sid, t.config) groups)

  abbrev pub push_skill : Option (SkillManifest V) → Groups V → Groups V
  push_skill none groups = groups
  push_skill (some s) groups = push_tools s.id s.tools groups

  unfoldable pub gather : List (SkillManifest V) → List Text → Groups V → Groups V
  unfolding by_id push_tools
  gather enabled [] groups = groups
  gather enabled (sid ∷ order) groups = gather enabled order (push_skill (by_id enabled sid) groups)

  abbrev pub shared_tool : Text → List (Text × V) → ComposedTool
  shared_tool tref contributors = record {
    call_name = tref;
    tool_ref = tref;
    contributors = map (λ c. c.0) contributors;
    namespaced = false;
  }

  -- `<skill_id>.<ref>`
  abbrev pub namespaced_tool : Text → Text × V → ComposedTool
  namespaced_tool tref c = record {
    call_name = c.0 ++ (chars "." ++ tref);
    tool_ref = tref;
    contributors = c.0 ∷ [];
    namespaced = true;
  }

module _ {V : Type 0} ⦃json : Json V⦄ where
  -- the distinct configurations, in the order of their first occurrence
  unfoldable pub distinct_from : List V → List (Text × V) → List V
  distinct_from seen [] = seen
  distinct_from seen ((sid, cfg) ∷ rest) =
      distinct_from (if any (λ c. json.eqb c cfg) seen then seen else seen ++ cfg ∷ []) rest

  unfoldable pub compose_group : Text → List (Text × V) → List ComposedTool
  unfolding distinct_from
  compose_group tref contributors =
      if leb (length (distinct_from [] contributors)) 1
      then shared_tool tref contributors ∷ []
      else map (namespaced_tool tref) contributors

  unfoldable pub compose_groups : Groups V → List ComposedTool
  unfolding compose_group
  compose_groups [] = []
  compose_groups ((tref, contributors) ∷ groups) =
      compose_group tref contributors ++ compose_groups groups

  unfoldable pub compose_tools : List (SkillManifest V) → List Text → List ComposedTool
  unfolding gather compose_groups
  compose_tools enabled order =
      sort_by (λ t. t.call_name) text_cmp (compose_groups (gather enabled order []))
