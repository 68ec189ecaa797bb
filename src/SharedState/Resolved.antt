-- ===== src/SharedState/Resolved.antt =====
-- What a resolution of slots gives (client/src-tauri/src/shared_state.rs).
use mathlib.Core.List.{append_assoc, append-nil}
use hydropark_gym.Prelude.{
  ◌≡◌, refl, sym, ap, ◌∙◌, subst, arith, ◌++◌, Bool, Option, none, some, List, [], ◌∷◌, Result, ok,
  err, map_err, >>=-eq-ok, if◌then◌else◌, Bool-cases, inl, inr, All,
}
use hydropark_gym.Prelude.Text.{Text, text_eqb, text_eqb_iff}
use hydropark_gym.Prelude.TreeMap.{BTreeMap, get, insert, get-insert}
use hydropark_gym.Orchestrator.Manifest.{SharedStateDecl}
use hydropark_gym.SharedState.Types.{SlotType, SlotSpec}
use hydropark_gym.SharedState.Compat.{types_compatible}
use hydropark_gym.SharedState.ParseTotal.{parse_slot_type}
use hydropark_gym.SharedState.Resolve.{
  Decl, decl_of, Groups, pushed, bad_schema_of, group_decls, group_skills, incompatible_of,
  check_against, check_pairs, spec_of, specs_of, resolve_decls,
}

-- the declaration, if its schema is a type
abbrev parsed : Text → SharedStateDecl → Result SlotType Text → List Decl
parsed skill d (ok ty) = decl_of skill d ty ∷ []
parsed skill d (err _) = []

-- the declarations of one slot by one skill
abbrev pub declared_by : Text → Text → List SharedStateDecl → List Decl
declared_by slot skill [] = []
declared_by slot skill (d ∷ decls) =
    let rest = declared_by slot skill decls in
    if text_eqb d.slot slot then parsed skill d (parse_slot_type d.schema) ++ rest else rest

-- the declarations of one slot, in merge order
abbrev pub declared : Text → List (Text × List SharedStateDecl) → List Decl
declared slot [] = []
declared slot ((skill, decls) ∷ skills) = declared_by slot skill decls ++ declared slot skills

abbrev members : Option (Decl × List Decl) → List Decl
members none = []
members (some (d, rest)) = d ∷ rest

members-pushed :
    (g : Option (Decl × List Decl)) (d : Decl) → members (some (pushed g d)) ≡ members g ++ (d ∷ [])
members-pushed none d = refl
members-pushed (some (x, xs)) d = refl

members-insert :
    (name slot : Text) (d : Decl) (groups : Groups)
    → members (get slot (insert name (pushed (get name groups) d) groups))
      ≡ members (get slot groups) ++ (if text_eqb name slot then d ∷ [] else [])
members-insert name slot d groups = elim (Bool-cases (text_eqb name slot)) [
  | inl e ↦
      let group = pushed (get name groups) d in
      let here : get slot (insert name group groups) ≡ some group =
        ground (arith, get-insert name slot group groups, e) in
      ap members here
      ∙ members-pushed (get name groups) d
      ∙ ap (λ z. members (get z groups) ++ (d ∷ [])) ((text_eqb_iff name slot).0 e)
      ∙ ap (λ b. members (get slot groups) ++ (if b then d ∷ [] else [])) (sym e)
  | inr e ↦
      let group = pushed (get name groups) d in
      let there : get slot (insert name group groups) ≡ get slot groups =
        ground (arith, get-insert name slot group groups, e) in
      ap members there
      ∙ sym (append-nil (members (get slot groups)))
      ∙ ap (λ b. members (get slot groups) ++ (if b then d ∷ [] else [])) (sym e)
]

-- one step of the grouping, in front of what the others add
declared-step :
    (name slot : Text) (d : Decl) (g rest : List Decl)
    → (g ++ (if text_eqb name slot then d ∷ [] else [])) ++ rest
      ≡ g ++ (if text_eqb name slot then (d ∷ []) ++ rest else rest)
declared-step name slot d g rest = elim (Bool-cases (text_eqb name slot)) [
  | inl e ↦
      ap (λ b. (g ++ (if b then d ∷ [] else [])) ++ rest) e
      ∙ append_assoc g (d ∷ []) rest
      ∙ ap (λ b. g ++ (if b then (d ∷ []) ++ rest else rest)) (sym e)
  | inr e ↦
      ap (λ b. (g ++ (if b then d ∷ [] else [])) ++ rest) e
      ∙ append_assoc g [] rest
      ∙ ap (λ b. g ++ (if b then (d ∷ []) ++ rest else rest)) (sym e)
]

group_decls-members :
    (skill slot : Text) (decls : List SharedStateDecl) (groups groups' : Groups)
    → group_decls skill decls groups ≡ ok groups'
    → members (get slot groups') ≡ members (get slot groups) ++ declared_by slot skill decls
unfolding group_decls
group_decls-members skill slot [] groups groups' h =
    let same : groups ≡ groups' = ground arith in
    ap (λ g. members (get slot g)) (sym same) ∙ sym (append-nil (members (get slot groups)))
group_decls-members skill slot (d ∷ decls) groups groups' h =
    let (ty, p, q) = >>=-eq-ok (map_err (bad_schema_of skill d) (parse_slot_type d.schema)) _ h in
    let typed : parse_slot_type d.schema ≡ ok ty = ground arith in
    let one = decl_of skill d ty in
    let rest = declared_by slot skill decls in
    group_decls-members skill slot decls (insert d.slot (pushed (get d.slot groups) one) groups)
      groups' q
    ∙ ap (λ z. z ++ rest) (members-insert d.slot slot one groups)
    ∙ declared-step d.slot slot one (members (get slot groups)) rest
    ∙ ap
        (λ r.
          members (get slot groups)
          ++ (if text_eqb d.slot slot then parsed skill d r ++ rest else rest))
        (sym typed)

group_skills-members :
    (slot : Text) (skills : List (Text × List SharedStateDecl)) (groups groups' : Groups)
    → group_skills skills groups ≡ ok groups'
    → members (get slot groups') ≡ members (get slot groups) ++ declared slot skills
unfolding group_skills
group_skills-members slot [] groups groups' h =
    let same : groups ≡ groups' = ground arith in
    ap (λ g. members (get slot g)) (sym same) ∙ sym (append-nil (members (get slot groups)))
group_skills-members slot ((skill, decls) ∷ skills) groups groups' h =
    let (mid, p, q) = >>=-eq-ok (group_decls skill decls groups) _ h in
    group_skills-members slot skills mid groups' q
    ∙ ap (λ z. z ++ declared slot skills) (group_decls-members skill slot decls groups mid p)
    ∙ append_assoc (members (get slot groups)) (declared_by slot skill decls) (declared slot skills)

-- every two of the declarations are of compatible types
abbrev pub AllCompatible : List Decl → Type 0
AllCompatible [] = Unit {0}
AllCompatible (a ∷ decls) =
    All (λ b. types_compatible a.ty b.ty ≡ ok tt) decls × AllCompatible decls

check_against-All :
    (slot : Text) (a : Decl) (decls : List Decl)
    → check_against slot a decls ≡ ok tt
    → All (λ b. types_compatible a.ty b.ty ≡ ok tt) decls
unfolding check_against
check_against-All slot a [] h = tt
check_against-All slot a (b ∷ decls) h =
    let (u, p, q) =
      >>=-eq-ok (map_err (incompatible_of slot a b) (types_compatible a.ty b.ty)) _ h in
    (ground arith, check_against-All slot a decls q)

check_pairs-AllCompatible :
    (slot : Text) (decls : List Decl) → check_pairs slot decls ≡ ok tt → AllCompatible decls
unfolding check_pairs
check_pairs-AllCompatible slot [] h = tt
check_pairs-AllCompatible slot (a ∷ decls) h =
    let (u, p, q) = >>=-eq-ok (check_against slot a decls) _ h in
    (check_against-All slot a decls p, check_pairs-AllCompatible slot decls q)

-- the composed contract of the declarations of a slot
abbrev pub spec_for : List Decl → Option SlotSpec
spec_for [] = none
spec_for (d ∷ rest) = some (spec_of d rest)

-- the statement at the first slot, the test of whose name is `b`
abbrev IsResolved : Decl → List Decl → BTreeMap SlotSpec → Groups → Text → Bool → Type 0
IsResolved d rest more groups slot b =
    let group = if b then some (d, rest) else get slot groups in
    ((if b then some (spec_of d rest) else get slot more) ≡ spec_for (members group))
    × AllCompatible (members group)

specs_of-get :
    (slot : Text) (groups : Groups) (specs : BTreeMap SlotSpec)
    → specs_of groups ≡ ok specs
    → (get slot specs ≡ spec_for (members (get slot groups)))
      × AllCompatible (members (get slot groups))
unfolding specs_of get
specs_of-get slot [] specs h =
    let same : [] ≡ specs = ground arith in (ap (get slot) (sym same), tt)
specs_of-get slot ((name, (d, rest)) ∷ groups) specs h =
    let (u, p, h₁) = >>=-eq-ok (check_pairs name (d ∷ rest)) _ h in
    let (more, q, h₂) = >>=-eq-ok (specs_of groups) _ h₁ in
    let same : (name, spec_of d rest) ∷ more ≡ specs = ground arith in
    let group = get slot ((name, (d, rest)) ∷ groups) in
    subst (λ z. (get slot z ≡ spec_for (members group)) × AllCompatible (members group)) same
      (elim (Bool-cases (text_eqb name slot)) [
        | inl e ↦
            subst (IsResolved d rest more groups slot) (sym e)
              (refl, check_pairs-AllCompatible name (d ∷ rest) p)
        | inr e ↦
            subst (IsResolved d rest more groups slot) (sym e) (specs_of-get slot groups more q)
      ])

-- A resolution that succeeds gives for every slot the contract composed of the declarations of
-- that slot, in merge order, and no contract if there is none: the declared types widened from the
-- first one on, the first declarer with write access as the writer, and all declarers. The types of
-- every two of these declarations are compatible.
pub resolve_decls_sound :
    (skills : List (Text × List SharedStateDecl)) (specs : BTreeMap SlotSpec) (slot : Text)
    → resolve_decls skills ≡ ok specs
    → (get slot specs ≡ spec_for (declared slot skills)) × AllCompatible (declared slot skills)
unfolding resolve_decls get
resolve_decls_sound skills specs slot h =
    let (groups, p, q) = >>=-eq-ok (group_skills skills []) _ h in
    subst (λ l. (get slot specs ≡ spec_for l) × AllCompatible l)
      (group_skills-members slot skills [] groups p) (specs_of-get slot groups specs q)
