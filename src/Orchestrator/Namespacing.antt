-- ===== src/Orchestrator/Namespacing.antt =====
-- When a tool is shared and when it is namespaced (client/src-tauri/src/orchestrator.rs).
use hydropark_gym.Prelude.{
  ◌≡◌, ◌≤◌, refl, sym, ap, ◌∙◌, subst, arith, Bool, true, false, List, [], ◌∷◌, ◌++◌, map, any,
  length, length-append, All, In, Bool-cases, inl, inr, if◌then◌else◌, leb,
}
use hydropark_gym.Prelude.Text.{Text}
use hydropark_gym.Prelude.Json.{Json}
use hydropark_gym.Orchestrator.Tools.{distinct_from, compose_group, shared_tool, namespaced_tool}

module _ {V : Type 0} ⦃json : Json V⦄ where
  -- the configurations seen so far are never taken out
  length-distinct_from :
      (seen : List V) (l : List (Text × V)) → length seen ≤ length (distinct_from seen l)
  unfolding distinct_from
  length-distinct_from seen [] = omega arith
  length-distinct_from seen ((sid, cfg) ∷ rest) =
      elim (Bool-cases (any (λ c. json.eqb c cfg) seen)) [
        | inl e ↦
            subst
              (λ b.
                length seen ≤ length (distinct_from (if b then seen else seen ++ cfg ∷ []) rest))
              (sym e) (length-distinct_from seen rest)
        | inr e ↦
            subst
              (λ b.
                length seen ≤ length (distinct_from (if b then seen else seen ++ cfg ∷ []) rest))
              (sym e)
              (omega (
                arith,
                length-append seen (cfg ∷ []),
                length-distinct_from (seen ++ cfg ∷ []) rest,
              ))
      ]

  any_one : (v cfg : V) (b : Bool) → json.eqb v cfg ≡ b → any (λ c. json.eqb c cfg) (v ∷ []) ≡ b
  any_one v cfg true e = ground (arith, e)
  any_one v cfg false e = ground (arith, e)

  -- a configuration that all the others are equal to is the only one
  distinct_from_agree :
      (v : V) (l : List (Text × V))
      → All (λ d. json.eqb v d.1 ≡ true) l
      → distinct_from (v ∷ []) l ≡ v ∷ []
  unfolding distinct_from
  distinct_from_agree v [] a = refl
  distinct_from_agree v ((sid, cfg) ∷ rest) (e, a) =
      ap (λ b. distinct_from (if b then v ∷ [] else (v ∷ []) ++ cfg ∷ []) rest)
        (any_one v cfg true e)
      ∙ distinct_from_agree v rest a

  -- one that differs is counted
  distinct_from_differ :
      (v : V) (l : List (Text × V)) (d : Text × V)
      → In d l
      → json.eqb v d.1 ≡ false
      → 2 ≤ length (distinct_from (v ∷ []) l)
  unfolding distinct_from
  distinct_from_differ v [] d i e = elim i [ ]
  distinct_from_differ v ((sid, cfg) ∷ rest) d i e = elim (Bool-cases (json.eqb v cfg)) [
    | inl f ↦
        subst (λ b. 2 ≤ length (distinct_from (if b then v ∷ [] else (v ∷ []) ++ cfg ∷ []) rest))
          (sym (any_one v cfg true f)) (behind (λ j. distinct_from_differ v rest d j e) f i)
    | inr f ↦
        subst (λ b. 2 ≤ length (distinct_from (if b then v ∷ [] else (v ∷ []) ++ cfg ∷ []) rest))
          (sym (any_one v cfg false f)) (omega (arith, length-distinct_from (v ∷ cfg ∷ []) rest))
  ]
    where
      behind :
          (In d rest → 2 ≤ length (distinct_from (v ∷ []) rest))
          → json.eqb v cfg ≡ true
          → In d ((sid, cfg) ∷ rest)
          → 2 ≤ length (distinct_from (v ∷ []) rest)
      behind later f (inl q) = absurd (ground (arith, f, e, ap (λ z. json.eqb v z.1) q))
      behind later f (inr j) = later j

  pub compose_group_lem :
      (tref : Text) (c : Text × V) (cs : List (Text × V))
      → (All (λ d. json.eqb c.1 d.1 ≡ true) cs
          → compose_group tref (c ∷ cs) ≡ shared_tool tref (c ∷ cs) ∷ [])
        × ((d : Text × V)
            → In d cs
            → json.eqb c.1 d.1 ≡ false
            → compose_group tref (c ∷ cs) ≡ map (namespaced_tool tref) (c ∷ cs))
  unfolding compose_group distinct_from
  compose_group_lem tref c cs = (
    λ a.
        ap
          (λ l.
            if leb (length l) 1
            then shared_tool tref (c ∷ cs) ∷ []
            else map (namespaced_tool tref) (c ∷ cs))
          (distinct_from_agree c.1 cs a),
    λ d i e.
        let two = distinct_from_differ c.1 cs d i e in
        let more : leb (length (distinct_from (c.1 ∷ []) cs)) 1 ≡ false = ground (arith, two) in
        ap (λ b. if b then shared_tool tref (c ∷ cs) ∷ [] else map (namespaced_tool tref) (c ∷ cs))
          more,
  )
