-- ===== src/Orchestrator/Leader.antt =====
-- The leading skill on every branch (`choose_primary` of client/src-tauri/src/orchestrator.rs).
use hydropark_gym.Prelude.{
  ◌≡◌, sym, ap, ◌≢◌, ◌⊎◌, ◌∙◌, inl, inr, Option, none, some, false, List, Distinct, is_gt,
  Option-cases, Bool-cases, arith,
}
use hydropark_gym.Prelude.Text.{Text, text_eqb, text_eqb_iff}
use hydropark_gym.Orchestrator.Manifest.{SkillManifest}
use hydropark_gym.Orchestrator.Merge.{ids, rank, primary_cmp, choose_primary}
use hydropark_gym.Orchestrator.Primary.{
  Candidate, choose_primary-In, choose_primary-auto, choose_primary-hint, choose_primary-none_iff,
}

names : (hint : Option Text) (p : Text) → (hint ≡ some p) ⊎ (hint ≢ some p)
names none p = inr (λ e. cc)
names (some h) p = elim (Bool-cases (text_eqb h p)) [
  | inl t ↦ inl (ap some ((text_eqb_iff h p).0 t))
  | inr t ↦ inr (λ e. absurd (ground (arith, text_eqb_iff h p)))
]

module _ {V : Type 0} where
  -- the hint names no skill that may lead, and none that may has a higher rank than `s`
  abbrev pub LeadsByRank : List (SkillManifest V) → Option Text → SkillManifest V → Type 0
  LeadsByRank enabled hint s =
      ((t : SkillManifest V) → Candidate enabled t → hint ≢ some t.id)
      × ((t : SkillManifest V)
          → Candidate enabled t
          → is_gt (primary_cmp (rank t) (rank s)) ≡ false)

  abbrev pub PrimaryOutcome : List (SkillManifest V) → Option Text → Option Text → Type 0
  PrimaryOutcome enabled hint none = (s : SkillManifest V) → ¬ Candidate enabled s
  PrimaryOutcome enabled hint (some p) =
      (s : SkillManifest V) × Candidate enabled s
      × (s.id ≡ p)
      × ((hint ≡ some p) ⊎ LeadsByRank enabled hint s)

  -- With distinct skill ids: if no skill leads, then no enabled skill may lead. If one leads, it is
  -- enabled and may lead, and either the hint names it, or the hint names no enabled skill that may
  -- lead and none of these has a higher priority, or the same priority and a smaller id.
  pub choose_primary_lem :
      (enabled : List (SkillManifest V)) (hint : Option Text)
      → Distinct (ids enabled)
      → PrimaryOutcome enabled hint (choose_primary enabled hint)
  choose_primary_lem enabled hint d = elim (Option-cases (choose_primary enabled hint)) [
    | inl n ↦ rw n ((choose_primary-none_iff enabled hint).0 n)
    | inr (p, e) ↦ rw e (elim (names hint p) [
      | inl named ↦ let (s, c, q) = choose_primary-In enabled hint p e in (s, c, q, inl named)
      | inr other ↦
          let (s, c, q, up) = choose_primary-auto enabled hint p other e in
          let unnamed = λ (t : SkillManifest V) (k : Candidate enabled t) (h : hint ≡ some t.id).
            let led : choose_primary enabled hint ≡ some t.id =
              ap (choose_primary enabled) h ∙ choose_primary-hint enabled t d k in
            other (h ∙ sym led ∙ e) in
          (s, c, q, inr (unnamed, up))
    ])
  ]
