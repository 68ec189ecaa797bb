-- ===== src/Orchestrator/Primary.antt =====
-- Which skill leads (`choose_primary` of client/src-tauri/src/orchestrator.rs).
use hydropark_gym.Prelude.{
  ◌≡◌, refl, ap, ◌≢◌, ◌↔◌, ◌∙◌, inl, inr, Option, none, some, true, false, List, [], ◌∷◌, arith, In,
  All, Distinct, find?, is_gt, Option-cases,
}
use hydropark_gym.Prelude.Int.{int_cmp-IsLinear}
use hydropark_gym.Prelude.Text.{Text, text_eqb, text_eqb_iff, text_cmp-IsLinear}
use hydropark_gym.Prelude.Order.{IsLinear, lex-IsLinear, flip-IsLinear}
use hydropark_gym.Prelude.Perms.{In-keep, keep-In, eq_of_key, find?_sound, find?_complete, All-at}
use hydropark_gym.Prelude.Sort.{max_by, max_by_picks, max_by_upper}
use hydropark_gym.Orchestrator.Manifest.{SkillManifest, is_eligible}
use hydropark_gym.Orchestrator.Merge.{
  ids, rank, primary_cmp, rank_cmp, highest, eligible, hinted, choose_primary,
}

pub primary_cmp-IsLinear : IsLinear primary_cmp
primary_cmp-IsLinear = lex-IsLinear int_cmp-IsLinear (flip-IsLinear text_cmp-IsLinear)

pub rank_cmp-IsLinear : IsLinear rank_cmp
rank_cmp-IsLinear = lex-IsLinear (flip-IsLinear int_cmp-IsLinear) text_cmp-IsLinear

module _ {V : Type 0} where
  abbrev pub IsEligible : SkillManifest V → Type 0
  IsEligible s = is_eligible s.persona.role ≡ true

  -- `s` is an enabled skill that may lead
  abbrev pub Candidate : List (SkillManifest V) → SkillManifest V → Type 0
  Candidate enabled s = In s enabled × IsEligible s

  eligible-Candidate :
      (enabled : List (SkillManifest V)) (s : SkillManifest V)
      → In s (eligible enabled)
      → Candidate enabled s
  unfolding eligible
  eligible-Candidate enabled s i = In-keep (λ z. is_eligible z.persona.role) enabled s i

  Candidate-eligible :
      (enabled : List (SkillManifest V)) (s : SkillManifest V)
      → Candidate enabled s
      → In s (eligible enabled)
  unfolding eligible
  Candidate-eligible enabled s (i, x) = keep-In (λ z. is_eligible z.persona.role) enabled s i x

  hinted_sound :
      (enabled : List (SkillManifest V)) (hint : Option Text) (p : Text)
      → hinted enabled hint ≡ some p
      → (s : SkillManifest V) × Candidate enabled s × (s.id ≡ p) × (hint ≡ some p)
  unfolding hinted
  hinted_sound enabled none p h = ground arith
  hinted_sound enabled (some i) p h = elim (Option-cases (find? (λ s. text_eqb s.id i) enabled)) [
    | inl n ↦ absurd (ground arith)
    | inr (s, f) ↦
        let (j, t) = find?_sound (λ x. text_eqb x.id i) enabled f in
        let same : s.id ≡ i = (text_eqb_iff s.id i).0 t in
        (s, (j, ground arith), ground arith, ground arith)
  ]

  -- A hint that names an enabled skill which may lead makes that skill the primary one.
  pub choose_primary-hint :
      (enabled : List (SkillManifest V)) (s : SkillManifest V)
      → Distinct (ids enabled)
      → Candidate enabled s
      → choose_primary enabled (some s.id) ≡ some s.id
  unfolding choose_primary
  choose_primary-hint enabled s d (i, x) =
      elim (Option-cases (find? (λ t. text_eqb t.id s.id) enabled)) [
        | inl n ↦ absurd (
            find?_complete (λ t. text_eqb t.id s.id) enabled s i ((text_eqb_iff s.id s.id).1 refl)
              n)
        | inr (t, f) ↦
            let (j, e) = find?_sound (λ y. text_eqb y.id s.id) enabled f in
            let same : t ≡ s =
              eq_of_key (λ y. y.id) t s enabled d j i ((text_eqb_iff t.id s.id).0 e) in
            ground (arith, f, same, x)
      ]

  pub highest_sound :
      (l : List (SkillManifest V)) (p : Text)
      → highest l ≡ some p
      → (s : SkillManifest V) × In s l
        × (s.id ≡ p)
        × All (λ t. is_gt (primary_cmp (rank t) (rank s)) ≡ false) l
  unfolding highest
  highest_sound [] p h = absurd (ground arith)
  highest_sound (s ∷ l) p h = (
    max_by rank primary_cmp s l,
    max_by_picks rank primary_cmp s l,
    some_id h,
    max_by_upper rank primary_cmp-IsLinear s l,
  )
    where
      some_id : {a b : Text} → some a ≡ some b → a ≡ b
      some_id e = ground arith

  pub highest-ne-none :
      (l : List (SkillManifest V)) (s : SkillManifest V) → In s l → highest l ≢ none
  unfolding highest
  highest-ne-none [] s i = elim i [ ]
  highest-ne-none (t ∷ l) s i = ground arith

  -- A primary skill that the hint does not name is one that may lead, and none that may lead has a
  -- higher priority, or the same priority and a smaller id.
  pub choose_primary-auto :
      (enabled : List (SkillManifest V)) (hint : Option Text) (p : Text)
      → hint ≢ some p
      → choose_primary enabled hint ≡ some p
      → (s : SkillManifest V) × Candidate enabled s
        × (s.id ≡ p)
        × ((t : SkillManifest V)
            → Candidate enabled t
            → is_gt (primary_cmp (rank t) (rank s)) ≡ false)
  unfolding choose_primary
  choose_primary-auto enabled hint p n h = elim (Option-cases (hinted enabled hint)) [
    | inl e ↦
        let (s, i, q, up) = highest_sound (eligible enabled) p (ground arith) in
        (
          s,
          eligible-Candidate enabled s i,
          q,
          λ t c.
              All-at (λ z. is_gt (primary_cmp (rank z) (rank s)) ≡ false) t (eligible enabled) up
                (Candidate-eligible enabled t c),
        )
    | inr (q, e) ↦
        let same : q ≡ p = ground arith in
        absurd (n ((hinted_sound enabled hint q e).3 ∙ ap some same))
  ]

  none_of_no_Candidate :
      (enabled : List (SkillManifest V)) (hint : Option Text)
      → ((s : SkillManifest V) → ¬ Candidate enabled s)
      → choose_primary enabled hint ≡ none
  unfolding choose_primary
  none_of_no_Candidate enabled hint f = elim (Option-cases (hinted enabled hint)) [
    | inr (q, e) ↦ let (s, c, p, h) = hinted_sound enabled hint q e in absurd (f s c)
    | inl e ↦ elim (Option-cases (highest (eligible enabled))) [
      | inl n ↦ ground arith
      | inr (q, g) ↦
          let (s, i, p, up) = highest_sound (eligible enabled) q g in
          absurd (f s (eligible-Candidate enabled s i))
    ]
  ]

  -- The base agent leads exactly when no enabled skill may lead, whatever the hint.
  pub choose_primary-none_iff :
      (enabled : List (SkillManifest V)) (hint : Option Text)
      → (choose_primary enabled hint ≡ none) ↔ ((s : SkillManifest V) → ¬ Candidate enabled s)
  unfolding choose_primary
  choose_primary-none_iff enabled hint = (
    λ h s c.
        let some_best = highest-ne-none (eligible enabled) s (Candidate-eligible enabled s c) in
        absurd (ground arith),
    none_of_no_Candidate enabled hint,
  )

  -- the primary id is the id of an enabled skill
  pub choose_primary-In :
      (enabled : List (SkillManifest V)) (hint : Option Text) (p : Text)
      → choose_primary enabled hint ≡ some p
      → (s : SkillManifest V) × Candidate enabled s × (s.id ≡ p)
  unfolding choose_primary
  choose_primary-In enabled hint p h = elim (Option-cases (hinted enabled hint)) [
    | inl e ↦
        let (s, i, q, up) = highest_sound (eligible enabled) p (ground arith) in
        (s, eligible-Candidate enabled s i, q)
    | inr (q, e) ↦
        let same : q ≡ p = ground arith in
        let (s, c, r, x) = hinted_sound enabled hint q e in (s, c, r ∙ same)
  ]
