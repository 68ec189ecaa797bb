-- ===== src/Orchestrator/Merge.antt =====
-- `merge` and its parts (client/src-tauri/src/orchestrator.rs).
use hydropark_gym.Prelude.{
  Option, none, some, Bool, false, not, ◌||◌, List, [], ◌∷◌, ◌++◌, map, Ordering, any, find?, keep,
  is_gt, Result, ok, err, if◌then◌else◌,
}
use hydropark_gym.Prelude.Int.{ℤ, int_cmp}
use hydropark_gym.Prelude.Text.{Text, chars, text_eqb, text_cmp, trim, is_empty, join}
use hydropark_gym.Prelude.Order.{lex}
use hydropark_gym.Prelude.Sort.{sort_by, max_by}
use hydropark_gym.Prelude.Json.{Json}
use hydropark_gym.Orchestrator.Manifest.{SkillManifest, ComposedTool, is_eligible}
use hydropark_gym.Orchestrator.Tools.{compose_tools}

pub data MergeError : Type 0 where
  conflict : Text → Text → MergeError

pub record MergedAgent : Type 0 where
  pub order : List Text
  pub primary : Option Text
  pub persona : Text
  pub tools : List ComposedTool

-- `opt == Some(id)`
abbrev pub is_some_id : Option Text → Text → Bool
is_some_id none i = false
is_some_id (some p) i = text_eqb p i

-- by priority, and of two equal ones the smaller id is the greater
abbrev pub primary_cmp : ℤ × Text → ℤ × Text → Ordering
primary_cmp = lex int_cmp (λ a b. text_cmp b a)

-- by priority descending, then by id ascending
abbrev pub rank_cmp : ℤ × Text → ℤ × Text → Ordering
rank_cmp = lex (λ a b. int_cmp b a) text_cmp

-- `parts.push(…)` unless the text is empty
abbrev pub push_text : Text → Text → List Text
push_text text line = if is_empty text then [] else line ∷ []

module _ {V : Type 0} where
  -- `a.compatibility.conflicts_with.iter().any(|c| c == &b.id)`
  unfoldable pub declares : SkillManifest V → SkillManifest V → Bool
  declares a b = any (λ c. text_eqb c b.id) a.compatibility.conflicts_with

  -- the pair of ids, the smaller one first
  unfoldable pub conflict_of : SkillManifest V → SkillManifest V → MergeError
  conflict_of a b = if is_gt (text_cmp a.id b.id) then conflict b.id a.id else conflict a.id b.id

  -- the inner loop, over the skills behind `a`
  unfoldable pub conflict_with : SkillManifest V → List (SkillManifest V) → Option MergeError
  unfolding declares conflict_of
  conflict_with a [] = none
  conflict_with a (b ∷ bs) =
      if declares a b || declares b a then some (conflict_of a b) else conflict_with a bs

  -- the outer loop
  unfoldable pub find_conflict : List (SkillManifest V) → Option MergeError
  unfolding conflict_with
  find_conflict [] = none
  find_conflict (a ∷ rest) = elim (conflict_with a rest) [
    | none ↦ find_conflict rest
    | some e ↦ some e
  ]

  -- what skills are sorted by
  abbrev pub rank : SkillManifest V → ℤ × Text
  rank s = (s.compatibility.combine_priority, s.id)

  unfoldable pub highest : List (SkillManifest V) → Option Text
  unfolding max_by
  highest [] = none
  highest (s ∷ rest) = let best = max_by rank primary_cmp s rest in some best.id

  unfoldable pub eligible : List (SkillManifest V) → List (SkillManifest V)
  eligible = keep (λ s. is_eligible s.persona.role)

  abbrev pub accept_hint : Option (SkillManifest V) → Option Text
  accept_hint none = none
  accept_hint (some s) = if is_eligible s.persona.role then some s.id else none

  unfoldable pub hinted : List (SkillManifest V) → Option Text → Option Text
  hinted enabled none = none
  hinted enabled (some h) = accept_hint (find? (λ s. text_eqb s.id h) enabled)

  unfoldable pub choose_primary : List (SkillManifest V) → Option Text → Option Text
  unfolding highest eligible hinted
  choose_primary enabled hint = elim (hinted enabled hint) [
    | some p ↦ some p
    | none ↦ highest (eligible enabled)
  ]

  unfoldable pub secondaries : List (SkillManifest V) → Option Text → List (SkillManifest V)
  secondaries enabled primary_id =
      sort_by rank rank_cmp (keep (λ s. not (is_some_id primary_id s.id)) enabled)

  -- `primary_id.as_ref().and_then(|pid| enabled.iter().find(|s| &s.id == pid))`
  unfoldable pub primary_skill : List (SkillManifest V) → Option Text → Option (SkillManifest V)
  primary_skill enabled none = none
  primary_skill enabled (some pid) = find? (λ s. text_eqb s.id pid) enabled

  abbrev pub ids : List (SkillManifest V) → List Text
  ids = map (λ s. s.id)

  abbrev pub lead : Option (SkillManifest V) → List Text
  lead none = []
  lead (some p) = p.id ∷ []

  abbrev pub lead_prompt : Option (SkillManifest V) → List Text
  lead_prompt none = []
  lead_prompt (some p) = let sp = trim p.persona.system_prompt in push_text sp sp

  unfoldable pub compressed_lines : List (SkillManifest V) → List Text
  unfolding trim is_empty
  compressed_lines [] = []
  compressed_lines (s ∷ rest) =
      let compressed = trim s.persona.compressed_prompt in
      push_text compressed (chars "Also available - " ++ (s.id ++ (chars ": " ++ compressed)))
      ++ compressed_lines rest

  unfoldable pub persona_parts :
      Text → Option (SkillManifest V) → List (SkillManifest V) → List Text
  unfolding compressed_lines trim is_empty
  persona_parts base primary rest =
      let b = trim base in push_text b b ++ (lead_prompt primary ++ compressed_lines rest)

  unfoldable pub assemble_persona : Text → Option (SkillManifest V) → List (SkillManifest V) → Text
  unfolding persona_parts join
  assemble_persona base primary rest = join (10 ∷ 10 ∷ []) (persona_parts base primary rest)

module _ {V : Type 0} ⦃json : Json V⦄ where
  unfoldable pub merged : Text → List (SkillManifest V) → Option Text → MergedAgent
  unfolding choose_primary secondaries primary_skill assemble_persona compose_tools
  merged base_preamble enabled primary_hint =
      let primary_id = choose_primary enabled primary_hint in
      let rest = secondaries enabled primary_id in
      let primary = primary_skill enabled primary_id in
      let order = lead primary ++ ids rest in
      record {
        order = order;
        primary = primary_id;
        persona = assemble_persona base_preamble primary rest;
        tools = compose_tools enabled order;
      }

  unfoldable pub merge : Text → List (SkillManifest V) → Option Text → Result MergedAgent MergeError
  unfolding find_conflict merged
  merge base_preamble enabled primary_hint = elim (find_conflict enabled) [
    | some e ↦ err e
    | none ↦ ok (merged base_preamble enabled primary_hint)
  ]
