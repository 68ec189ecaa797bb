-- ===== src/Orchestrator/Ordering.antt =====
-- The merge order (client/src-tauri/src/orchestrator.rs).
use mathlib.Core.List.{Perm}
use hydropark_gym.Prelude.{
  ◌≡◌, refl, sym, ap, subst, ◌≢◌, inl, inr, Option, none, some, not, List, [], ◌∷◌, ◌++◌, arith, In,
  All, Distinct, keep, find?, Option-cases, Permᴰ, permᴰ_refl, permᴰ_symm, map-permᴰ, ok,
}
use hydropark_gym.Prelude.Text.{Text, text_eqb, text_eqb_iff}
use hydropark_gym.Prelude.Perms.{In-keep, In-perm, find?_sound, find?_complete, All-at, In-map}
use hydropark_gym.Prelude.Sort.{Ordered, sort_by-permᴰ, sort_by-Ordered}
use hydropark_gym.Prelude.Json.{Json}
use hydropark_gym.Orchestrator.Manifest.{SkillManifest}
use hydropark_gym.Orchestrator.Merge.{
  MergedAgent, ids, rank, rank_cmp, choose_primary, secondaries, primary_skill, merged, merge,
  is_some_id, lead,
}
use hydropark_gym.Orchestrator.Primary.{rank_cmp-IsLinear, Candidate, choose_primary-In}

abbrev pub id_list : Option Text → List Text
id_list none = []
id_list (some p) = p ∷ []

module _ {V : Type 0} where
  others : List (SkillManifest V) → Text → List (SkillManifest V)
  others l p = keep (λ s. not (text_eqb p s.id)) l

  -- behind a skill that is not in a list, the filter keeps the list
  others-All : (l : List (SkillManifest V)) (p : Text) → All (λ i. p ≢ i) (ids l) → others l p ≡ l
  unfolding others
  others-All [] p h = refl
  others-All (s ∷ l) p (n, h) = ground (arith, text_eqb_iff p s.id, others-All l p h)

  -- one skill in front of all others is a rearrangement
  front-permᴰ :
      (l : List (SkillManifest V)) (s : SkillManifest V)
      → Distinct (ids l)
      → In s l
      → Permᴰ (s ∷ others l s.id) l
  unfolding others
  front-permᴰ [] s d i = elim i [ ]
  front-permᴰ (t ∷ l) s (n, d) (inl e) =
      let none_left : others l s.id ≡ l =
        others-All l s.id (subst (λ z. All (λ i. z ≢ i) (ids l)) (ap (λ z. z.id) e) n) in
      let q : others (t ∷ l) s.id ≡ l =
        ground (arith, text_eqb_iff s.id t.id, none_left, ap (λ (z : SkillManifest V). z.id) e) in
      subst (λ z. Permᴰ (s ∷ z) (t ∷ l)) (sym q) (Permᴰ.cons (sym e) (permᴰ_refl l))
  front-permᴰ (t ∷ l) s (n, d) (inr i) =
      let differs : t.id ≢ s.id =
        All-at (λ k. t.id ≢ k) s.id (ids l) n (In-map (λ z. z.id) s l i) in
      let q : others (t ∷ l) s.id ≡ t ∷ others l s.id = ground (arith, text_eqb_iff s.id t.id) in
      subst (λ z. Permᴰ (s ∷ z) (t ∷ l)) (sym q)
        (Permᴰ.trans (Permᴰ.swap refl refl) (Permᴰ.cons refl (front-permᴰ l s d i)))

  -- without a primary skill nothing is filtered out
  keep_all : (l : List (SkillManifest V)) → keep (λ s. not (is_some_id none s.id)) l ≡ l
  keep_all [] = refl
  keep_all (s ∷ l) = ap (◌∷◌ s) (keep_all l)

  secondaries-permᴰ :
      (l : List (SkillManifest V)) (p : Option Text)
      → Permᴰ (keep (λ s. not (is_some_id p s.id)) l) (secondaries l p)
  unfolding secondaries
  secondaries-permᴰ l p = sort_by-permᴰ rank rank_cmp-IsLinear _

  led_permᴰ :
      (l : List (SkillManifest V)) (p : Text)
      → Distinct (ids l)
      → (s : SkillManifest V) × Candidate l s × (s.id ≡ p)
      → Permᴰ (lead (find? (λ s. text_eqb s.id p) l) ++ ids (secondaries l (some p))) (ids l)
  unfolding others
  led_permᴰ l p d (s, (i, x), q) = elim (Option-cases (find? (λ z. text_eqb z.id p) l)) [
    | inl n ↦ absurd (find?_complete (λ z. text_eqb z.id p) l s i ((text_eqb_iff s.id p).1 q) n)
    | inr (t, f) ↦
        let (j, u) = find?_sound (λ z. text_eqb z.id p) l f in
        let same : t.id ≡ p = (text_eqb_iff t.id p).0 u in
        let behind : Permᴰ (t ∷ secondaries l (some p)) (t ∷ others l t.id) =
          subst (λ k. Permᴰ (t ∷ secondaries l (some p)) (t ∷ others l k)) (sym same)
            (Permᴰ.cons refl (permᴰ_symm (secondaries-permᴰ l (some p)))) in
        rw f (map-permᴰ (λ z. z.id) (Permᴰ.trans behind (front-permᴰ l t d j)))
  ]

  order_permᴰ :
      (l : List (SkillManifest V)) (hint : Option Text)
      → Distinct (ids l)
      → Permᴰ
          (lead (primary_skill l (choose_primary l hint))
            ++ ids (secondaries l (choose_primary l hint)))
          (ids l)
  unfolding primary_skill
  order_permᴰ l hint d = elim (Option-cases (choose_primary l hint)) [
    | inl e ↦ rw e (
        map-permᴰ (λ s. s.id)
          (subst (λ z. Permᴰ (secondaries l none) z) (keep_all l)
            (permᴰ_symm (secondaries-permᴰ l none))))
    | inr (p, e) ↦ rw e (led_permᴰ l p d (choose_primary-In l hint p e))
  ]

  secondaries-Ordered :
      (l : List (SkillManifest V)) (p : Option Text) → Ordered rank rank_cmp (secondaries l p)
  unfolding secondaries
  secondaries-Ordered l p = sort_by-Ordered rank rank_cmp-IsLinear _

  secondaries-In :
      (l : List (SkillManifest V)) (p : Option Text) (s : SkillManifest V)
      → In s (secondaries l p)
      → In s l × (p ≢ some s.id)
  secondaries-In l p s i =
      let (j, t) =
        In-keep (λ z. not (is_some_id p z.id)) l s
          (In-perm s (permᴰ_symm (secondaries-permᴰ l p)) i) in
      (j, λ e. ground (arith, text_eqb_iff s.id s.id))

  lead-id_list :
      (l : List (SkillManifest V)) (hint : Option Text)
      → lead (primary_skill l (choose_primary l hint)) ≡ id_list (choose_primary l hint)
  unfolding primary_skill
  lead-id_list l hint = elim (Option-cases (choose_primary l hint)) [
    | inl e ↦ rw e
    | inr (p, e) ↦ rw e (led (choose_primary-In l hint p e))
  ]
    where
      led :
          {p : Text}
          → (s : SkillManifest V) × Candidate l s × (s.id ≡ p)
          → lead (find? (λ z. text_eqb z.id p) l) ≡ p ∷ []
      led {p} (s, (i, x), q) = elim (Option-cases (find? (λ z. text_eqb z.id p) l)) [
        | inl n ↦ absurd (find?_complete (λ z. text_eqb z.id p) l s i ((text_eqb_iff s.id p).1 q) n)
        | inr (t, f) ↦
            rw f (
              ap (λ k. k ∷ []) ((text_eqb_iff t.id p).0 (find?_sound (λ z. text_eqb z.id p) l f).1))
      ]

module _ {V : Type 0} ⦃json : Json V⦄ where
  -- With distinct ids the merge order holds the id of each enabled skill exactly once.
  pub merge-order_perm :
      (base : Text) (enabled : List (SkillManifest V)) (hint : Option Text) (m : MergedAgent)
      → Distinct (ids enabled)
      → merge base enabled hint ≡ ok m
      → Perm m.order (ids enabled)
  unfolding merge merged
  merge-order_perm base enabled hint m d h =
      subst (λ z. Perm z (ids enabled)) (ground arith) ∣ order_permᴰ enabled hint d ∣₁

  -- The merge order is the primary skill, if one leads, and then enabled skills other than it, of
  -- which none has a lower priority than a later one, nor the same priority and a greater id.
  pub merge-order_sorted :
      (base : Text) (enabled : List (SkillManifest V)) (hint : Option Text) (m : MergedAgent)
      → merge base enabled hint ≡ ok m
      → (rest : List (SkillManifest V)) × (m.order ≡ id_list m.primary ++ ids rest)
        × Ordered rank rank_cmp rest
        × ((s : SkillManifest V) → In s rest → In s enabled × (m.primary ≢ some s.id))
  unfolding merge merged
  merge-order_sorted base enabled hint m h =
      let p = choose_primary enabled hint in
      (
        secondaries enabled p,
        ground (arith, lead-id_list enabled hint),
        secondaries-Ordered enabled p,
        λ s i. let (j, n) = secondaries-In enabled p s i in (j, λ e. n (ground arith)),
      )
