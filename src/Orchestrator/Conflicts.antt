-- ===== src/Orchestrator/Conflicts.antt =====
-- When `merge` blocks a combination (client/src-tauri/src/orchestrator.rs).
use hydropark_gym.Prelude.{
  ◌≡◌, refl, sym, subst, ◌≢◌, ◌⊎◌, inl, inr, Option, none, some, true, false, ◌||◌, List, [], ◌∷◌,
  arith, In, any, is_gt, Bool-cases, Option-cases, ok, err,
}
use hydropark_gym.Prelude.Text.{Text, text_eqb, text_eqb_iff, text_cmp, text_cmp-IsLinear}
use hydropark_gym.Prelude.Order.{le_of_gt}
use hydropark_gym.Prelude.Json.{Json}
use hydropark_gym.Orchestrator.Manifest.{SkillManifest}
use hydropark_gym.Orchestrator.Merge.{
  MergeError, MergedAgent, conflict, declares, conflict_of, conflict_with, find_conflict, merge,
}

any_id→In : (i : Text) (l : List Text) → any (λ c. text_eqb c i) l ≡ true → In i l
any_id→In i [] h = ground arith
any_id→In i (c ∷ l) h = ground (arith, text_eqb_iff c i, any_id→In i l)

In→any_id : (i : Text) (l : List Text) → In i l → any (λ c. text_eqb c i) l ≡ true
In→any_id i [] h = elim h [ ]
In→any_id i (c ∷ l) (inl e) = ground (arith, text_eqb_iff c i)
In→any_id i (c ∷ l) (inr h) = ground (arith, In→any_id i l h)

module _ {V : Type 0} where
  -- one of the two names the other in `conflicts_with`
  abbrev pub Clash : SkillManifest V → SkillManifest V → Type 0
  Clash a b = In b.id a.compatibility.conflicts_with ⊎ In a.id b.compatibility.conflicts_with

  -- `a` stands before `b` in the list
  abbrev pub Before : SkillManifest V → SkillManifest V → List (SkillManifest V) → Type 0
  Before a b [] = ⊥
  Before a b (s ∷ rest) = (s ≡ a) × In b rest ⊎ Before a b rest

  Clash-test : (a b : SkillManifest V) → (declares a b || declares b a) ≡ true → Clash a b
  unfolding declares
  Clash-test a b h = elim (Bool-cases (declares a b)) [
    | inl e ↦ inl (any_id→In b.id a.compatibility.conflicts_with e)
    | inr e ↦ inr (any_id→In a.id b.compatibility.conflicts_with (ground arith))
  ]

  test-Clash : (a b : SkillManifest V) → Clash a b → (declares a b || declares b a) ≡ true
  unfolding declares
  test-Clash a b (inl h) = ground (arith, In→any_id b.id a.compatibility.conflicts_with h)
  test-Clash a b (inr h) = ground (arith, In→any_id a.id b.compatibility.conflicts_with h)

  -- what an error reports of the pair that it is about
  abbrev pub Reports : MergeError → SkillManifest V → SkillManifest V → Type 0
  Reports (conflict x y) a b =
      ((x ≡ a.id) × (y ≡ b.id) ⊎ (x ≡ b.id) × (y ≡ a.id)) × (is_gt (text_cmp x y) ≡ false)

  conflict_of-Reports : (a b : SkillManifest V) → Reports (conflict_of a b) a b
  unfolding conflict_of
  conflict_of-Reports a b = elim (Bool-cases (is_gt (text_cmp a.id b.id))) [
    | inl e ↦ rw e (inr (refl, refl), le_of_gt text_cmp-IsLinear a.id b.id e)
    | inr e ↦ rw e (inl (refl, refl), e)
  ]

  conflict_with_sound :
      (a : SkillManifest V) (l : List (SkillManifest V)) (e : MergeError)
      → conflict_with a l ≡ some e
      → (b : SkillManifest V) × In b l × Clash a b × Reports e a b
  unfolding conflict_with
  conflict_with_sound a [] e h = ground arith
  conflict_with_sound a (b ∷ l) e h = elim (Bool-cases (declares a b || declares b a)) [
    | inl t ↦
        let q : conflict_of a b ≡ e = ground arith in
        (b, inl refl, Clash-test a b t, subst (λ x. Reports x a b) q (conflict_of-Reports a b))
    | inr f ↦ let (x, i, c, r) = conflict_with_sound a l e (ground arith) in (x, inr i, c, r)
  ]

  conflict_with_complete :
      (a b : SkillManifest V) (l : List (SkillManifest V))
      → In b l
      → Clash a b
      → conflict_with a l ≢ none
  unfolding conflict_with
  conflict_with_complete a b [] i c = elim i [ ]
  conflict_with_complete a b (s ∷ l) (inl e) c =
      let t : (declares a s || declares s a) ≡ true = test-Clash a s (subst (Clash a) (sym e) c) in
      ground arith
  conflict_with_complete a b (s ∷ l) (inr i) c = ground (arith, conflict_with_complete a b l i c)

  pub find_conflict_sound :
      (l : List (SkillManifest V)) (e : MergeError)
      → find_conflict l ≡ some e
      → (a b : SkillManifest V) × Before a b l × Clash a b × Reports e a b
  unfolding find_conflict
  find_conflict_sound [] e h = ground arith
  find_conflict_sound (a ∷ l) e h = elim (Option-cases (conflict_with a l)) [
    | inl n ↦ let (x, y, i, c, r) = find_conflict_sound l e (ground arith) in (x, y, inr i, c, r)
    | inr (d, s) ↦
        let q : d ≡ e = ground arith in
        let (b, i, c, r) = conflict_with_sound a l d s in
        (a, b, inl (refl, i), c, subst (λ x. Reports x a b) q r)
  ]

  pub find_conflict_complete :
      (l : List (SkillManifest V)) (a b : SkillManifest V)
      → Before a b l
      → Clash a b
      → find_conflict l ≢ none
  unfolding find_conflict
  find_conflict_complete [] a b i c = elim i [ ]
  find_conflict_complete (s ∷ l) a b (inl (e, i)) c =
      ground (arith, conflict_with_complete s b l i (subst (λ x. Clash x b) (sym e) c))
  find_conflict_complete (s ∷ l) a b (inr i) c = ground (arith, find_conflict_complete l a b i c)

module _ {V : Type 0} ⦃json : Json V⦄ where
  -- A blocked merge names two enabled skills of which one lists the other in `conflicts_with`, the
  -- smaller id first.
  pub merge-blocked_sound :
      (base : Text) (enabled : List (SkillManifest V)) (hint : Option Text) (e : MergeError)
      → merge base enabled hint ≡ err e
      → (a b : SkillManifest V) × Before a b enabled × Clash a b × Reports e a b
  unfolding merge
  merge-blocked_sound base enabled hint e h = find_conflict_sound enabled e (ground arith)

  -- A merge that succeeds has no two enabled skills of which one lists the other.
  pub merge_ok-no_Clash :
      (base : Text) (enabled : List (SkillManifest V)) (hint : Option Text) (m : MergedAgent)
      → merge base enabled hint ≡ ok m
      → (a b : SkillManifest V) → Before a b enabled
      → ¬ Clash a b
  unfolding merge
  merge_ok-no_Clash base enabled hint m h a b i c =
      ground (arith, find_conflict_complete enabled a b i c)
