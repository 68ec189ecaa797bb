-- ===== src/Manifest/Clean.antt =====
-- What follows when a piece of the validation reports nothing (client/src-tauri/src/manifest.rs).
use hydropark_gym.Prelude.{
  ◌≡◌, refl, ap, sym, ◌∙◌, arith, ℕ, ◌+◌, Bool, true, Option, none, some, List, [], ◌∷◌, ◌++◌, map,
  All, Bool-cases, Option-cases, inl, inr,
}
use hydropark_gym.Prelude.Text.{Text}
use hydropark_gym.Prelude.TreeMap.{BTreeMap}
use hydropark_gym.Prelude.Json.{Json}
use hydropark_gym.Manifest.Issues.{
  ValidationIssue, Issues, in_order, when_some, expect, found, each_from, each,
}
use hydropark_gym.Manifest.Access.{
  or_else, value_get, then_str, str_at, elements, strings_of, objects_of,
}

pub append-nil : {A : Type 0} (xs ys : List A) → xs ++ ys ≡ [] → (xs ≡ []) × (ys ≡ [])
append-nil [] ys e = (refl, e)
append-nil (x ∷ xs) ys e = absurd (ground arith)

pub in_order-nil : (parts : List Issues) → in_order parts ≡ [] → All (λ issues. issues ≡ []) parts
in_order-nil [] e = tt
in_order-nil (issues ∷ parts) e =
    let (p, q) = append-nil issues (in_order parts) e in (p, in_order-nil parts q)

-- the element passes the body of a loop at its place
abbrev pub Passes : {A : Type 0} → (ℕ → A → Issues) → A → Type 0
Passes f x = (i : ℕ) × (f i x ≡ [])

module _ {A : Type 0} where
  pub each_from-nil :
      (f : ℕ → A → Issues) (i : ℕ) (xs : List A) → each_from f i xs ≡ [] → All (Passes f) xs
  unfolding each_from
  each_from-nil f i [] e = tt
  each_from-nil f i (x ∷ xs) e =
      let (p, q) = append-nil (f i x) (each_from f (i + 1) xs) e in
      ((i, p), each_from-nil f (i + 1) xs q)

  pub found-nil :
      (o : Option A) (i : ValidationIssue) (rest : A → Issues)
      → found o (i ∷ []) rest ≡ []
      → (x : A) × (o ≡ some x) × (rest x ≡ [])
  found-nil none i rest e = absurd (ground arith)
  found-nil (some x) i rest e = (x, refl, e)

  pub when_some-nil :
      (o : Option A) (f : A → Issues) → when_some o f ≡ [] → (x : A) → o ≡ some x → f x ≡ []
  when_some-nil none f e x h = absurd (ground arith)
  when_some-nil (some y) f e x h = let same : y ≡ x = ground arith in ap f (sym same) ∙ e

  pub expect-nil :
      (o : Option A) (is_ok : A → Bool) (bad : A → ValidationIssue) (i : ValidationIssue)
      → expect o is_ok (λ x. bad x ∷ []) (i ∷ []) ≡ []
      → (x : A) × (o ≡ some x) × (is_ok x ≡ true)
  expect-nil none is_ok bad i e = absurd (ground arith)
  expect-nil (some x) is_ok bad i e = elim (Bool-cases (is_ok x)) [
    | inl t ↦ (x, refl, t)
    | inr f ↦ absurd (ground (arith, e, f))
  ]

  pub All-of_map :
      {B : Type 0} (P : B → Type 0) (g : A → B) (xs : List A)
      → All (λ x. P (g x)) xs
      → All P (map g xs)
  All-of_map P g [] a = tt
  All-of_map P g (x ∷ xs) (p, a) = (p, All-of_map P g xs a)

module _ {V : Type 0} ⦃json : Json V⦄ where
  -- the loop over an optional array
  pub array-nil :
      (o : Option V) (i : ValidationIssue) (f : ℕ → V → Issues)
      → when_some o (λ v. found (json.as_array v) (i ∷ []) (λ arr. each f arr)) ≡ []
      → All (Passes f) (elements o)
  array-nil none i f e = tt
  array-nil (some v) i f e =
      let (arr, h, k) = found-nil (json.as_array v) i (λ arr. each f arr) e in
      rw (h, All, elements) (each_from-nil f 0 arr k)

  pub strings-All :
      (f : V → Option Text) (Q : Text → Type 0) (vs : List V)
      → All (λ v. (s : Text) → f v ≡ some s → Q s) vs
      → All Q (strings_of f vs)
  strings-All f Q [] a = tt
  strings-All f Q (v ∷ vs) (p, a) = elim (Option-cases (f v)) [
    | inl e ↦ rw (e, All, strings_of) (strings-All f Q vs a)
    | inr (s, e) ↦ rw (e, All, strings_of) (p s e, strings-All f Q vs a)
  ]

  pub objects-All :
      (Q : BTreeMap V → Type 0) (vs : List V)
      → All (λ v. (o : BTreeMap V) → json.as_object v ≡ some o → Q o) vs
      → All Q (objects_of vs)
  objects-All Q [] a = tt
  objects-All Q (v ∷ vs) (p, a) = elim (Option-cases (json.as_object v)) [
    | inl e ↦ rw (e, All, objects_of) (objects-All Q vs a)
    | inr (o, e) ↦ rw (e, All, objects_of) (p o e, objects-All Q vs a)
  ]

  -- an object with a string under the key
  abbrev pub IsNamed : Text → V → Type 0
  IsNamed key v =
      (o : BTreeMap V) × (json.as_object v ≡ some o) × ((s : Text) × (str_at o key ≡ some s))

  -- the names that the references are checked against are those of the canonical entries
  pub names_of_objects :
      (key : Text) (vs : List V)
      → All (IsNamed key) vs
      → strings_of (λ v. then_str (value_get key v)) vs
        ≡ map (λ o. or_else (str_at o key) []) (objects_of vs)
  names_of_objects key [] a = refl
  names_of_objects key (v ∷ vs) ((o, e, (s, h)), a) =
      rw (strings_of, objects_of, value_get, e, h, names_of_objects key vs a) refl
