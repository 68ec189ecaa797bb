-- ===== src/SharedState/Fields.antt =====
-- What the two loops over the fields of records check (client/src-tauri/src/shared_state.rs).
use hydropark_gym.Prelude.{
  ◌≡◌, ◌≢◌, refl, sym, ap, ◌∙◌, arith, Bool, true, false, none, some, some_eq, List, [], ◌∷◌, ok,
  Bool-cases, Option-cases, Result-cases, inl, inr, ◌↔◌,
}
use hydropark_gym.Prelude.Text.{Text, text_eqb, text_eqb_iff}
use hydropark_gym.SharedState.Types.{
  ScalarKind, enum, SlotType, scalar, list, struct, Fields, end, field,
}
use hydropark_gym.SharedState.Compat.{
  variants_eqb, scalars_compatible, get_field, if_required, required_type, no_extra,
  types_compatible, common,
}

unfoldable mutual
  -- the fields of every record have names of their own, as in a map
  pub IsMap : SlotType → Type 0
  IsMap (scalar _) = Unit {0}
  IsMap (list f) = AreMap f
  IsMap (struct f) = AreMap f

  pub AreMap : Fields → Type 0
  AreMap end = Unit {0}
  AreMap (field n ty req rest) = (get_field n rest ≡ none) × (IsMap ty × AreMap rest)

variants_eqb_iff : (x y : List Text) → (variants_eqb x y ≡ true) ↔ (x ≡ y)
unfolding variants_eqb
variants_eqb_iff [] [] = ground arith
variants_eqb_iff [] (w ∷ y) = ground arith
variants_eqb_iff (v ∷ x) [] = ground arith
variants_eqb_iff (v ∷ x) (w ∷ y) = ground (arith, text_eqb_iff v w, variants_eqb_iff x y)

pub scalars_sym :
    (a b : ScalarKind) → scalars_compatible a b ≡ ok tt → scalars_compatible b a ≡ ok tt
unfolding scalars_compatible
scalars_sym (enum x) (enum y) h = ground (arith, variants_eqb_iff x y, variants_eqb_iff y x)
scalars_sym a b h = ground arith

-- a field of a record behind the first one
pub required_type-cons :
    (name n : Text) (ty : SlotType) (req : Bool) (rest : Fields)
    → text_eqb n name ≡ false
    → required_type name (field n ty req rest) ≡ required_type name rest
unfolding get_field
required_type-cons name n ty req rest h = ground (arith, h)

pub required_type-head :
    (name n : Text) (ty : SlotType) (req : Bool) (rest : Fields)
    → text_eqb n name ≡ true
    → required_type name (field n ty req rest) ≡ if_required (some (ty, req))
unfolding get_field
required_type-head name n ty req rest h = ground (arith, h)

-- what the first loop checks
abbrev pub Agree : Fields → Fields → Type 0
Agree a b =
    (n : Text) (ta : SlotType)
    → required_type n a ≡ some ta
    → (tb : SlotType) × ((required_type n b ≡ some tb) × (types_compatible ta tb ≡ ok tt))

common-field :
    (m : Text) (ty : SlotType) (rest b : Fields)
    → common (field m ty true rest) b ≡ ok tt
    → (tb : SlotType) × ((required_type m b ≡ some tb)
        × ((types_compatible ty tb ≡ ok tt) × (common rest b ≡ ok tt)))
unfolding common
common-field m ty rest b h = elim (Option-cases (required_type m b)) [
  | inl e ↦ absurd (ground (arith, e))
  | inr (tb, e) ↦ elim (Result-cases (types_compatible ty tb)) [
    | inl (u, p) ↦ (tb, (e, (p, ground (arith, e, p))))
    | inr (x, p) ↦ absurd (ground (arith, e, p))
  ]
]

field-common :
    (m : Text) (ty tb : SlotType) (rest b : Fields)
    → required_type m b ≡ some tb
    → types_compatible ty tb ≡ ok tt
    → common rest b ≡ ok tt
    → common (field m ty true rest) b ≡ ok tt
unfolding common
field-common m ty tb rest b e p q = ground (arith, e, p, q)

pub common-Agree : (a b : Fields) → common a b ≡ ok tt → Agree a b
unfolding common get_field
common-Agree end b h n ta e = absurd (ground arith)
common-Agree (field m ty false rest) b h n ta e = elim (Bool-cases (text_eqb m n)) [
  | inl t ↦ absurd (ground (arith, t))
  | inr t ↦ common-Agree rest b h n ta (sym (required_type-cons n m ty false rest t) ∙ e)
]
common-Agree (field m ty true rest) b h n ta e =
    let (tb, (f, (p, q))) = common-field m ty rest b h in
    elim (Bool-cases (text_eqb m n)) [
      | inl t ↦
          let same : ty ≡ ta = some_eq (sym (required_type-head n m ty true rest t) ∙ e) in
          let name : m ≡ n = (text_eqb_iff m n).0 t in
          (
            tb,
            (
              ap (λ z. required_type z b) (sym name) ∙ f,
              ap (λ z. types_compatible z tb) (sym same) ∙ p,
            ),
          )
      | inr t ↦ common-Agree rest b q n ta (sym (required_type-cons n m ty true rest t) ∙ e)
    ]

-- a required field behind the first one is required in the whole record
required_type-behind :
    (m n : Text) (ty t : SlotType) (req : Bool) (rest : Fields)
    → get_field m rest ≡ none
    → required_type n rest ≡ some t
    → required_type n (field m ty req rest) ≡ some t
required_type-behind m n ty t req rest fresh e = elim (Bool-cases (text_eqb m n)) [
  | inr f ↦ required_type-cons n m ty req rest f ∙ e
  | inl f ↦
      let gone : get_field n rest ≡ none =
        ap (λ z. get_field z rest) (sym ((text_eqb_iff m n).0 f)) ∙ fresh in
      absurd (ground (arith, gone))
]

pub Agree-common : (a b : Fields) → AreMap a → Agree a b → common a b ≡ ok tt
unfolding common AreMap
Agree-common end b w h = refl
Agree-common (field m ty false rest) b (fresh, (u, w)) h =
    Agree-common rest b w (λ n ta e. h n ta (required_type-behind m n ty ta false rest fresh e))
Agree-common (field m ty true rest) b (fresh, (u, w)) h =
    let (tb, (f, p)) = h m ty (required_type-head m m ty true rest ((text_eqb_iff m m).1 refl)) in
    field-common m ty tb rest b f p
      (Agree-common rest b w (λ n ta e. h n ta (required_type-behind m n ty ta true rest fresh e)))

-- what the second loop checks
abbrev pub Covered : Fields → Fields → Type 0
Covered a b = (n : Text) (t : SlotType) → required_type n b ≡ some t → required_type n a ≢ none

pub no_extra-Covered : (a b : Fields) → no_extra a b ≡ ok tt → Covered a b
unfolding no_extra get_field
no_extra-Covered a end h n t e g = absurd (ground arith)
no_extra-Covered a (field m ty false rest) h n t e g = elim (Bool-cases (text_eqb m n)) [
  | inl f ↦ absurd (ground (arith, f))
  | inr f ↦ no_extra-Covered a rest h n t (sym (required_type-cons n m ty false rest f) ∙ e) g
]
no_extra-Covered a (field m ty true rest) h n t e g = elim (Option-cases (required_type m a)) [
  | inl x ↦ absurd (ground (arith, x))
  | inr (ta, x) ↦ elim (Bool-cases (text_eqb m n)) [
    | inl f ↦
        let name : m ≡ n = (text_eqb_iff m n).0 f in
        absurd (ground (arith, x, ap (λ z. required_type z a) name, g))
    | inr f ↦
        let rest_ok : no_extra a rest ≡ ok tt = ground (arith, x) in
        no_extra-Covered a rest rest_ok n t (sym (required_type-cons n m ty true rest f) ∙ e) g
  ]
]

pub Covered-no_extra : (a b : Fields) → AreMap b → Covered a b → no_extra a b ≡ ok tt
unfolding no_extra AreMap
Covered-no_extra a end w h = refl
Covered-no_extra a (field m ty false rest) (fresh, (u, w)) h =
    Covered-no_extra a rest w (λ n t e. h n t (required_type-behind m n ty t false rest fresh e))
Covered-no_extra a (field m ty true rest) (fresh, (u, w)) h =
    let tail : no_extra a rest ≡ ok tt =
      Covered-no_extra a rest w
        (λ n t e. h n t (required_type-behind m n ty t true rest fresh e)) in
    elim (Option-cases (required_type m a)) [
      | inl x ↦ absurd (h m ty (required_type-head m m ty true rest ((text_eqb_iff m m).1 refl)) x)
      | inr (ta, x) ↦ ground (arith, x, tail)
    ]
