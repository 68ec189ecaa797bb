-- ===== src/Examples/Orchestrator.antt =====
-- Merges of a chef, a baker and a critic (client/src-tauri/src/orchestrator.rs).
use mathlib.Core.List.{Perm}
use hydropark_gym.Prelude.{
  ◌≡◌, ◌≢◌, inl, refl, arith, true, false, none, some, List, [], ◌∷◌, ◌++◌, In, All, map, Distinct,
  ok, err, Permᴰ,
}
use hydropark_gym.Prelude.Text.{Text, chars, text_eqb, text_cmp}
use hydropark_gym.Prelude.Int.{int_cmp}
use hydropark_gym.Prelude.Sort.{Ordered, max_by}
use hydropark_gym.Samples.Doc.{Doc, null, num, doc_json}
use hydropark_gym.Samples.Agents.{chef, baker, critic}
use hydropark_gym.Orchestrator.Manifest.{SkillManifest}
use hydropark_gym.Orchestrator.Merge.{
  conflict, MergedAgent, ids, merge, merged, find_conflict, conflict_with, conflict_of, declares,
  choose_primary, hinted, eligible, highest, rank, rank_cmp,
}
use hydropark_gym.Orchestrator.Conflicts.{
  Clash, Before, Reports, merge-blocked_sound, merge_ok-no_Clash,
}
use hydropark_gym.Orchestrator.Leader.{PrimaryOutcome, choose_primary_lem}
use hydropark_gym.Orchestrator.Ordering.{id_list, merge-order_perm, merge-order_sorted}
use hydropark_gym.Orchestrator.Tools.{compose_group, shared_tool, namespaced_tool}
use hydropark_gym.Orchestrator.Namespacing.{compose_group_lem}
use hydropark_gym.Orchestrator.Determinism.{merge-perm}

abbrev base : Text
base = chars "You help in a kitchen."

abbrev kitchen : List (SkillManifest Doc)
kitchen = chef ∷ baker ∷ []

abbrev team : MergedAgent
team = merged base kitchen none

kitchen_merges : merge base kitchen none ≡ ok team
unfolding merge find_conflict conflict_with declares text_eqb
kitchen_merges = refl

kitchen_swapped : Perm kitchen (baker ∷ chef ∷ [])
kitchen_swapped = ∣ Permᴰ.swap refl refl ∣₁

kitchen-Distinct : Distinct (ids kitchen)
kitchen-Distinct = ((λ e. ground arith, tt), (tt, tt))

merge-perm_example : merge base (baker ∷ chef ∷ []) none ≡ ok team
merge-perm_example =
    merge-perm base none kitchen (baker ∷ chef ∷ []) team kitchen_swapped kitchen-Distinct
      kitchen_merges

merge-order_perm_example : Perm team.order (ids kitchen)
merge-order_perm_example = merge-order_perm base kitchen none team kitchen-Distinct kitchen_merges

merge-order_sorted_example :
    (rest : List (SkillManifest Doc)) × (team.order ≡ id_list team.primary ++ ids rest)
    × Ordered rank rank_cmp rest
    × ((s : SkillManifest Doc) → In s rest → In s kitchen × (team.primary ≢ some s.id))
merge-order_sorted_example = merge-order_sorted base kitchen none team kitchen_merges

critic_blocks :
    merge base (chef ∷ critic ∷ []) none ≡ err (conflict (chars "chef") (chars "critic"))
unfolding merge find_conflict conflict_with conflict_of declares text_eqb text_cmp
critic_blocks = refl

merge-blocked_sound_example :
    (a b : SkillManifest Doc) × Before a b (chef ∷ critic ∷ [])
    × Clash a b
    × Reports (conflict (chars "chef") (chars "critic")) a b
merge-blocked_sound_example =
    merge-blocked_sound base (chef ∷ critic ∷ []) none (conflict (chars "chef") (chars "critic"))
      critic_blocks

chef-Before-baker : Before chef baker kitchen
chef-Before-baker = inl (refl, inl refl)

merge_ok-no_Clash_example : ¬ Clash chef baker
merge_ok-no_Clash_example =
    merge_ok-no_Clash base kitchen none team kitchen_merges chef baker chef-Before-baker

chef_leads : choose_primary kitchen none ≡ some (chars "chef")
unfolding choose_primary hinted eligible highest max_by text_cmp int_cmp
chef_leads = refl

choose_primary_lem_example : PrimaryOutcome kitchen none (choose_primary kitchen none)
choose_primary_lem_example = choose_primary_lem kitchen none kitchen-Distinct

abbrev timers : List (Text × Doc)
timers = (chars "baker", num 1) ∷ []

compose_group_lem_example :
    (All (λ d. doc_json.eqb null d.1 ≡ true) timers
      → compose_group (chars "start_timer") ((chars "chef", null) ∷ timers)
        ≡ shared_tool (chars "start_timer") ((chars "chef", null) ∷ timers) ∷ [])
    × ((d : Text × Doc)
        → In d timers
        → doc_json.eqb null d.1 ≡ false
        → compose_group (chars "start_timer") ((chars "chef", null) ∷ timers)
          ≡ map (namespaced_tool (chars "start_timer")) ((chars "chef", null) ∷ timers))
compose_group_lem_example = compose_group_lem (chars "start_timer") (chars "chef", null) timers
