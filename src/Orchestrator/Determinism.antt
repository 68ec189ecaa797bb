-- ===== src/Orchestrator/Determinism.antt =====
-- The composed agent does not depend on the order in which the enabled skills are listed
-- (client/src-tauri/src/orchestrator.rs).
use mathlib.Core.List.{Perm}
use mathlib.Core.Logic.{∥∥₁_elim}
use hydropark_gym.Prelude.{
  ◌≡◌, refl, sym, ap, ◌≢◌, ◌∙◌, inl, inr, Option, none, some, false, List, [], ◌∷◌, ◌++◌, arith,
  All, Distinct, find?, is_gt, Option-cases, map, Permᴰ, map-permᴰ, permᴰ_symm, Distinct-perm,
  Result, ok,
}
use hydropark_gym.Prelude.Text.{Text, text_eqb, text_eqb_iff, text_cmp}
use hydropark_gym.Prelude.Perms.{
  find?_sound, find?_perm, keep-permᴰ, Distinct-keep, In-perm, In-map, All-at,
}
use hydropark_gym.Prelude.Order.{eq_of_le_le}
use hydropark_gym.Prelude.Sort.{sort_by-eq_of_permᴰ, sort_by}
use hydropark_gym.Prelude.Json.{Json}
use hydropark_gym.Orchestrator.Manifest.{SkillManifest, is_eligible}
use hydropark_gym.Orchestrator.Tools.{
  by_id, gather, push_skill, Groups, compose_tools, compose_groups,
}
use hydropark_gym.Orchestrator.Merge.{
  MergedAgent, MergeError, accept_hint, ids, rank, primary_cmp, highest, hinted, choose_primary,
  secondaries, primary_skill, find_conflict, merged, merge, lead,
}
use hydropark_gym.Orchestrator.Primary.{
  rank_cmp-IsLinear, primary_cmp-IsLinear, highest_sound, highest-ne-none,
}
use hydropark_gym.Orchestrator.Clashes.{find_conflict-perm}

module _ {V : Type 0} where
  find_by_id-perm :
      (i : Text) {xs ys : List (SkillManifest V)}
      → Permᴰ xs ys
      → Distinct (ids xs)
      → find? (λ s. text_eqb s.id i) xs ≡ find? (λ s. text_eqb s.id i) ys
  find_by_id-perm i p d =
      find?_perm (λ s. s.id) (λ s. text_eqb s.id i)
        (λ a b t u. (text_eqb_iff a.id i).0 t ∙ sym ((text_eqb_iff b.id i).0 u)) p d

  hinted-perm :
      (hint : Option Text) {xs ys : List (SkillManifest V)}
      → Permᴰ xs ys
      → Distinct (ids xs)
      → hinted xs hint ≡ hinted ys hint
  unfolding hinted
  hinted-perm none p d = refl
  hinted-perm (some h) p d = ap accept_hint (find_by_id-perm h p d)

  -- the skill that leads is the same, since the order of ranks is linear
  highest-perm : {xs ys : List (SkillManifest V)} → Permᴰ xs ys → highest xs ≡ highest ys
  highest-perm {xs} {ys} p = elim (Option-cases (highest xs)) [
    | inl e ↦ elim (Option-cases (highest ys)) [
      | inl f ↦ e ∙ sym f
      | inr (j, f) ↦
          let (t, k, q, up) = highest_sound ys j f in
          absurd (highest-ne-none xs t (In-perm t (permᴰ_symm p) k) e)
    ]
    | inr (i, e) ↦ elim (Option-cases (highest ys)) [
      | inl f ↦
          let (s, k, q, up) = highest_sound xs i e in
          absurd (highest-ne-none ys s (In-perm s p k) f)
      | inr (j, f) ↦
          let (s, k, q, up) = highest_sound xs i e in
          let (t, l, r, vp) = highest_sound ys j f in
          let same : rank s ≡ rank t =
            eq_of_le_le primary_cmp-IsLinear (rank s) (rank t)
              (All-at (λ z. is_gt (primary_cmp (rank z) (rank t)) ≡ false) s ys vp (In-perm s p k))
              (All-at (λ z. is_gt (primary_cmp (rank z) (rank s)) ≡ false) t xs up
                (In-perm t (permᴰ_symm p) l)) in
          e ∙ ap some (sym q ∙ ap (λ z. z.1) same ∙ r) ∙ sym f
    ]
  ]

  choose_primary-perm :
      (hint : Option Text) {xs ys : List (SkillManifest V)}
      → Permᴰ xs ys
      → Distinct (ids xs)
      → choose_primary xs hint ≡ choose_primary ys hint
  unfolding choose_primary
  choose_primary-perm hint p d =
      let best = highest-perm (keep-permᴰ (λ s. is_eligible s.persona.role) p) in
      ground (arith, hinted-perm hint p d, best)

  Distinct-rank : (l : List (SkillManifest V)) → Distinct (ids l) → Distinct (map rank l)
  Distinct-rank [] d = tt
  Distinct-rank (s ∷ l) (n, d) = (ranks l n, Distinct-rank l d)
    where
      ranks :
          (r : List (SkillManifest V))
          → All (λ i. s.id ≢ i) (ids r)
          → All (λ k. rank s ≢ k) (map rank r)
      ranks [] h = tt
      ranks (t ∷ r) (h, hs) = (λ e. h (ap (λ k. k.1) e), ranks r hs)

  secondaries-perm :
      (primary_id : Option Text) {xs ys : List (SkillManifest V)}
      → Permᴰ xs ys
      → Distinct (ids xs)
      → secondaries xs primary_id ≡ secondaries ys primary_id
  unfolding secondaries
  secondaries-perm primary_id {xs} p d =
      sort_by-eq_of_permᴰ rank rank_cmp-IsLinear (keep-permᴰ _ p)
        (Distinct-rank _ (Distinct-keep (λ s. s.id) _ xs d))

  primary_skill-perm :
      (primary_id : Option Text) {xs ys : List (SkillManifest V)}
      → Permᴰ xs ys
      → Distinct (ids xs)
      → primary_skill xs primary_id ≡ primary_skill ys primary_id
  unfolding primary_skill
  primary_skill-perm none p d = refl
  primary_skill-perm (some i) p d = find_by_id-perm i p d

  -- with distinct ids the map by id holds the first skill of an id, which is the only one
  by_id-find? :
      (l : List (SkillManifest V)) (i : Text)
      → Distinct (ids l)
      → by_id l i ≡ find? (λ s. text_eqb s.id i) l
  unfolding by_id
  by_id-find? [] i d = refl
  by_id-find? (s ∷ l) i (n, d) = elim (Option-cases (by_id l i)) [
    | inl e ↦ ground (arith, by_id-find? l i d)
    | inr (t, e) ↦
        let ih = by_id-find? l i d in
        let (j, u) = find?_sound (λ z. text_eqb z.id i) l (sym ih ∙ e) in
        let other : s.id ≢ t.id =
          All-at (λ k. s.id ≢ k) t.id (ids l) n (In-map (λ z. z.id) t l j) in
        ground (arith, ih, text_eqb_iff s.id i, text_eqb_iff t.id i)
  ]

  by_id-perm :
      (i : Text) {xs ys : List (SkillManifest V)}
      → Permᴰ xs ys
      → Distinct (ids xs)
      → by_id xs i ≡ by_id ys i
  by_id-perm i {xs} {ys} p d =
      by_id-find? xs i d
      ∙ find_by_id-perm i p d
      ∙ sym (by_id-find? ys i (Distinct-perm (map-permᴰ (λ s. s.id) p) d))

  gather-perm :
      (xs ys : List (SkillManifest V)) (order : List Text) (groups : Groups V)
      → ((i : Text) → by_id xs i ≡ by_id ys i)
      → gather xs order groups ≡ gather ys order groups
  unfolding gather
  gather-perm xs ys [] groups same = refl
  gather-perm xs ys (i ∷ order) groups same =
      gather-perm xs ys order (push_skill (by_id xs i) groups) same
      ∙ ap (λ s. gather ys order (push_skill s groups)) (same i)

Result-set : IsSet (Result MergedAgent MergeError)
Result-set = hlevel

module _ {V : Type 0} ⦃json : Json V⦄ where
  compose_tools-perm :
      (order : List Text) {xs ys : List (SkillManifest V)}
      → Permᴰ xs ys
      → Distinct (ids xs)
      → compose_tools xs order ≡ compose_tools ys order
  unfolding compose_tools
  compose_tools-perm order {xs} {ys} p d =
      ap (λ g. sort_by (λ t. t.call_name) text_cmp (compose_groups g))
        (gather-perm xs ys order [] (λ i. by_id-perm i p d))

  merged-perm :
      (base : Text) (hint : Option Text) {xs ys : List (SkillManifest V)}
      → Permᴰ xs ys
      → Distinct (ids xs)
      → merged base xs hint ≡ merged base ys hint
  unfolding merged
  merged-perm base hint {xs} {ys} p d = cc (
    choose_primary-perm hint p d,
    secondaries-perm (choose_primary xs hint) p d,
    primary_skill-perm (choose_primary xs hint) p d,
    compose_tools-perm
        (lead (primary_skill xs (choose_primary xs hint))
          ++ ids (secondaries xs (choose_primary xs hint)))
        p d,
  )

  merge-permᴰ :
      (base : Text) (hint : Option Text) {xs ys : List (SkillManifest V)} (m : MergedAgent)
      → Permᴰ xs ys
      → Distinct (ids xs)
      → merge base xs hint ≡ ok m
      → merge base ys hint ≡ ok m
  unfolding merge
  merge-permᴰ base hint {xs} {ys} m p d h = elim (Option-cases (find_conflict xs)) [
    | inl n ↦ ground (arith, find_conflict-perm p d n, merged-perm base hint p d)
    | inr (e, f) ↦ absurd (ground arith)
  ]

  -- With distinct skill ids, a merge that succeeds gives the same agent for every order in which the
  -- same skills are enabled.
  pub merge-perm :
      (base : Text) (hint : Option Text) (xs ys : List (SkillManifest V)) (m : MergedAgent)
      → Perm xs ys
      → Distinct (ids xs)
      → merge base xs hint ≡ ok m
      → merge base ys hint ≡ ok m
  merge-perm base hint xs ys m p d h =
      ∥∥₁_elim p (Result-set (merge base ys hint) (ok m)) (λ q. merge-permᴰ base hint m q d h)
