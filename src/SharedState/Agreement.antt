-- ===== src/SharedState/Agreement.antt =====
-- Compatibility does not depend on the order of the two declarations
-- (client/src-tauri/src/shared_state.rs).
use hydropark_gym.Prelude.{
  ◌≡◌, sym, ap, ◌∙◌, subst, arith, true, false, some, some_eq, ok, ◌>>=◌, >>=-eq-ok, Bool-cases,
  Option-cases, inl, inr, ◌↔◌,
}
use hydropark_gym.Prelude.Text.{Text, text_eqb}
use hydropark_gym.SharedState.Types.{SlotType, scalar, list, struct, Fields, end, field}
use hydropark_gym.SharedState.Compat.{get_field, required_type, no_extra, types_compatible, common}
use hydropark_gym.SharedState.Fields.{
  AreMap, IsMap, scalars_sym, required_type-cons, required_type-head, common-Agree, Agree-common,
  no_extra-Covered, Covered-no_extra,
}

common-no_extra :
    (a b : Fields)
    → common a b >>= (λ _. no_extra a b) ≡ ok tt
    → (common a b ≡ ok tt) × (no_extra a b ≡ ok tt)
common-no_extra a b h = let (u, p, q) = >>=-eq-ok (common a b) _ h in (p, q)

no_extra-common :
    (a b : Fields)
    → common a b ≡ ok tt
    → no_extra a b ≡ ok tt
    → common a b >>= (λ _. no_extra a b) ≡ ok tt
no_extra-common a b p q = ground (arith, p, q)

-- the type of a field of a record with names of their own is of that kind too
required-IsMap :
    (f : Fields) (n : Text) (t : SlotType) → AreMap f → required_type n f ≡ some t → IsMap t
unfolding AreMap get_field
required-IsMap end n t w e = absurd (ground arith)
required-IsMap (field m ty false rest) n t (fresh, (u, w)) e = elim (Bool-cases (text_eqb m n)) [
  | inl f ↦ absurd (ground (arith, f))
  | inr f ↦ required-IsMap rest n t w (sym (required_type-cons n m ty false rest f) ∙ e)
]
required-IsMap (field m ty true rest) n t (fresh, (u, w)) e = elim (Bool-cases (text_eqb m n)) [
  | inl f ↦ subst IsMap (some_eq (sym (required_type-head n m ty true rest f) ∙ e)) u
  | inr f ↦ required-IsMap rest n t w (sym (required_type-cons n m ty true rest f) ∙ e)
]

-- `a` is compatible with whatever it is compatible with, the other way round
abbrev Turns : SlotType → Type 0
Turns a =
    (b : SlotType) → IsMap a → IsMap b → types_compatible a b ≡ ok tt → types_compatible b a ≡ ok tt

abbrev TurnsAll : Fields → Type 0
TurnsAll f = (n : Text) (t : SlotType) → required_type n f ≡ some t → Turns t

fields_turn :
    (a b : Fields)
    → TurnsAll a
    → AreMap a
    → AreMap b
    → common a b >>= (λ _. no_extra a b) ≡ ok tt
    → common b a >>= (λ _. no_extra b a) ≡ ok tt
fields_turn a b turn wa wb h =
    let (p, q) = common-no_extra a b h in
    let agree = common-Agree a b p in
    let covered = no_extra-Covered a b q in
    no_extra-common b a
      (Agree-common b a wb (λ n tb e. elim (Option-cases (required_type n a)) [
        | inl x ↦ absurd (covered n tb e x)
        | inr (ta, x) ↦
            let (tb', (f, c)) = agree n ta x in
            let same : tb' ≡ tb = some_eq (sym f ∙ e) in
            (
              ta,
              (
                x,
                turn n ta x tb (required-IsMap a n ta wa x) (required-IsMap b n tb wb e)
                    (ap (λ z. types_compatible ta z) (sym same) ∙ c),
              ),
            )
      ]))
      (Covered-no_extra b a wa
        (λ n ta e g. let (tb, (f, c)) = agree n ta e in ground (arith, f, g)))

mutual
  unfolding types_compatible IsMap get_field

  types_turn : (a : SlotType) → Turns a
  types_turn (scalar ka) (scalar kb) wa wb h = scalars_sym ka kb h
  types_turn (scalar ka) (list rb) wa wb h = absurd (ground arith)
  types_turn (scalar ka) (struct rb) wa wb h = absurd (ground arith)
  types_turn (list ra) (list rb) wa wb h = fields_turn ra rb (fields_all ra) wa wb h
  types_turn (list ra) (scalar kb) wa wb h = absurd (ground arith)
  types_turn (list ra) (struct rb) wa wb h = absurd (ground arith)
  types_turn (struct ra) (struct rb) wa wb h = fields_turn ra rb (fields_all ra) wa wb h
  types_turn (struct ra) (scalar kb) wa wb h = absurd (ground arith)
  types_turn (struct ra) (list rb) wa wb h = absurd (ground arith)

  fields_all : (f : Fields) → TurnsAll f
  fields_all end n t e = absurd (ground arith)
  fields_all (field m ty false rest) n t e = elim (Bool-cases (text_eqb m n)) [
    | inl f ↦ absurd (ground (arith, f))
    | inr f ↦ fields_all rest n t (sym (required_type-cons n m ty false rest f) ∙ e)
  ]
  fields_all (field m ty true rest) n t e = elim (Bool-cases (text_eqb m n)) [
    | inl f ↦
        subst Turns (some_eq (sym (required_type-head n m ty true rest f) ∙ e)) (types_turn ty)
    | inr f ↦ fields_all rest n t (sym (required_type-cons n m ty true rest f) ∙ e)
  ]

-- Two slot types whose records have no two fields of one name are compatible in one order exactly
-- if they are in the other.
pub types_compatible_comm :
    (a b : SlotType)
    → IsMap a
    → IsMap b
    → (types_compatible a b ≡ ok tt) ↔ (types_compatible b a ≡ ok tt)
types_compatible_comm a b wa wb = (types_turn a b wa wb, types_turn b a wb wa)
