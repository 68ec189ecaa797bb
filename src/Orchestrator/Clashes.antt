-- ===== src/Orchestrator/Clashes.antt =====
-- Whether the enabled skills conflict does not depend on the order in which they are listed
-- (client/src-tauri/src/orchestrator.rs).
use hydropark_gym.Prelude.{
  ◌≡◌, sym, ap, ◌≢◌, ◌⊎◌, ◌∙◌, inl, inr, none, List, [], ◌∷◌, In, Distinct, Option-cases, Permᴰ,
  map-permᴰ, permᴰ_symm, Distinct-perm,
}
use hydropark_gym.Prelude.Perms.{In-perm, In-map, All-at}
use hydropark_gym.Orchestrator.Manifest.{SkillManifest}
use hydropark_gym.Orchestrator.Merge.{ids, find_conflict}
use hydropark_gym.Orchestrator.Conflicts.{Before, find_conflict_sound, find_conflict_complete}

swap_sum : {A B : Type 0} → A ⊎ B → B ⊎ A
swap_sum (inl a) = inr a
swap_sum (inr b) = inl b

module _ {V : Type 0} where
  Before-of_In :
      (l : List (SkillManifest V)) (a b : SkillManifest V)
      → In a l
      → In b l
      → a.id ≢ b.id
      → Before a b l ⊎ Before b a l
  Before-of_In [] a b i j n = elim i [ ]
  Before-of_In (s ∷ l) a b (inl e) (inl f) n = absurd (n (ap (λ z. z.id) (sym e ∙ f)))
  Before-of_In (s ∷ l) a b (inl e) (inr j) n = inl (inl (e, j))
  Before-of_In (s ∷ l) a b (inr i) (inl f) n = inr (inl (f, i))
  Before-of_In (s ∷ l) a b (inr i) (inr j) n = elim (Before-of_In l a b i j n) [
    | inl h ↦ inl (inr h)
    | inr h ↦ inr (inr h)
  ]

  In-of_Before :
      (l : List (SkillManifest V)) (a b : SkillManifest V)
      → Distinct (ids l)
      → Before a b l
      → In a l × In b l × (a.id ≢ b.id)
  In-of_Before [] a b d h = elim h [ ]
  In-of_Before (s ∷ l) a b (n, d) (inl (e, j)) = (
    inl e,
    inr j,
    λ q. All-at (λ i. s.id ≢ i) b.id (ids l) n (In-map (λ z. z.id) b l j) (ap (λ z. z.id) e ∙ q),
  )
  In-of_Before (s ∷ l) a b (n, d) (inr h) =
      let (i, j, q) = In-of_Before l a b d h in (inr i, inr j, q)

  pub find_conflict-perm :
      {xs ys : List (SkillManifest V)}
      → Permᴰ xs ys
      → Distinct (ids xs)
      → find_conflict xs ≡ none
      → find_conflict ys ≡ none
  find_conflict-perm {xs} {ys} p d h = elim (Option-cases (find_conflict ys)) [
    | inl n ↦ n
    | inr (e, f) ↦
        let (a, b, bf, c, r) = find_conflict_sound ys e f in
        let (i, j, q) = In-of_Before ys a b (Distinct-perm (map-permᴰ (λ s. s.id) p) d) bf in
        let back = permᴰ_symm p in
        absurd (elim (Before-of_In xs a b (In-perm a back i) (In-perm b back j) q) [
          | inl g ↦ find_conflict_complete xs a b g c h
          | inr g ↦ find_conflict_complete xs b a g (swap_sum c) h
        ])
  ]
