-- ===== src/Prelude/Sort.antt =====
-- `slice::sort_by` by a comparison of keys: the stable sort, as insertion from the right.
use Prim.Native.Nat.{Ordering}
use mathlib.Core.Path.{◌≡◌, refl, sym, ap, ap₂, subst, ◌∙◌}
use mathlib.Core.Logic.{◌≢◌, inl, inr}
use mathlib.Core.Bool.{false}
use mathlib.Core.List.{List, [], ◌∷◌, map, Permᴰ}
use native.Mathlib.Omega.{arith}
use hydropark_gym.Prelude.Tests.{is_gt, Bool-cases, if◌then◌else◌}
use hydropark_gym.Prelude.Lists.{
  All, In, Distinct, All-perm, All-map, permᴰ_refl, Distinct-perm, map-permᴰ,
}
use hydropark_gym.Prelude.Order.{IsLinear, le_trans, le_of_gt}

module _ {ℓ κ} {A : Type ℓ} {K : Type κ} (key : A → K) (cmp : K → K → Ordering) where
  unfoldable pub insert_by : A → List A → List A
  insert_by x [] = x ∷ []
  insert_by x (y ∷ ys) = elim (cmp (key x) (key y)) [
    | Ordering.lt ↦ x ∷ y ∷ ys
    | Ordering.eq ↦ x ∷ y ∷ ys
    | Ordering.gt ↦ y ∷ insert_by x ys
  ]

  unfoldable pub sort_by : List A → List A
  unfolding insert_by
  sort_by [] = []
  sort_by (x ∷ xs) = insert_by x (sort_by xs)

  -- `Iterator::max_by` over `acc` and the list: of equal maxima the last
  unfoldable pub max_by : A → List A → A
  max_by acc [] = acc
  max_by acc (x ∷ xs) = max_by (if is_gt (cmp (key acc) (key x)) then acc else x) xs

  -- each element is at most every later one
  abbrev pub Ordered : List A → Type ℓ
  Ordered [] = Unit
  Ordered (x ∷ xs) = All (λ y. is_gt (cmp (key x) (key y)) ≡ false) xs × Ordered xs

module _ {ℓ κ} {A : Type ℓ} {K : Type κ} (key : A → K) {cmp : K → K → Ordering}
    (lin : IsLinear cmp) where
  insert_by-permᴰ : (x : A) (l : List A) → Permᴰ (x ∷ l) (insert_by key cmp x l)
  unfolding insert_by
  insert_by-permᴰ x [] = permᴰ_refl (x ∷ [])
  insert_by-permᴰ x (y ∷ l) =
      elim (cmp (key x) (key y))
        as (λ o. Permᴰ (x ∷ y ∷ l) (elim o [
          | Ordering.lt ↦ x ∷ y ∷ l
          | Ordering.eq ↦ x ∷ y ∷ l
          | Ordering.gt ↦ y ∷ insert_by key cmp x l
        ])) [
          | Ordering.lt ↦ permᴰ_refl (x ∷ y ∷ l)
          | Ordering.eq ↦ permᴰ_refl (x ∷ y ∷ l)
          | Ordering.gt ↦ Permᴰ.trans (Permᴰ.swap refl refl) (Permᴰ.cons refl (insert_by-permᴰ x l))
        ]

  pub sort_by-permᴰ : (l : List A) → Permᴰ l (sort_by key cmp l)
  unfolding sort_by
  sort_by-permᴰ [] = Permᴰ.nil
  sort_by-permᴰ (x ∷ l) =
      Permᴰ.trans (Permᴰ.cons refl (sort_by-permᴰ l)) (insert_by-permᴰ x (sort_by key cmp l))

  -- one step of `insert_by` on its comparison
  insert_step : A → A → List A → List A → Ordering → List A
  insert_step x y l rest = elim [
    | Ordering.lt ↦ x ∷ y ∷ l
    | Ordering.eq ↦ x ∷ y ∷ l
    | Ordering.gt ↦ y ∷ rest
  ]

  below-All :
      (x y : A) (l : List A)
      → is_gt (cmp (key x) (key y)) ≡ false
      → All (λ z. is_gt (cmp (key y) (key z)) ≡ false) l
      → All (λ z. is_gt (cmp (key x) (key z)) ≡ false) l
  below-All x y l h b =
      All-map (λ z. is_gt (cmp (key y) (key z)) ≡ false) (λ z. is_gt (cmp (key x) (key z)) ≡ false)
        l (λ z k. le_trans lin (key x) (key y) (key z) h k) b

  step-Ordered :
      (x y : A) (l rest : List A) (o : Ordering)
      → cmp (key x) (key y) ≡ o
      → Ordered key cmp (y ∷ l)
      → (is_gt (cmp (key y) (key x)) ≡ false → All (λ z. is_gt (cmp (key y) (key z)) ≡ false) rest)
      → Ordered key cmp rest
      → Ordered key cmp (insert_step x y l rest o)
  unfolding insert_step
  step-Ordered x y l rest Ordering.lt e (b, s) f r =
      ((ground arith, below-All x y l (ground arith) b), (b, s))
  step-Ordered x y l rest Ordering.eq e (b, s) f r =
      ((ground arith, below-All x y l (ground arith) b), (b, s))
  step-Ordered x y l rest Ordering.gt e (b, s) f r = (f (le_of_gt lin _ _ (ground arith)), r)

  insert_by-Ordered :
      (x : A) (l : List A) → Ordered key cmp l → Ordered key cmp (insert_by key cmp x l)
  unfolding insert_by insert_step
  insert_by-Ordered x [] o = (tt, tt)
  insert_by-Ordered x (y ∷ l) (b, o) =
      step-Ordered x y l (insert_by key cmp x l) (cmp (key x) (key y)) refl (b, o)
        (λ h. All-perm (λ z. is_gt (cmp (key y) (key z)) ≡ false) (insert_by-permᴰ x l) (h, b))
        (insert_by-Ordered x l o)

  pub sort_by-Ordered : (l : List A) → Ordered key cmp (sort_by key cmp l)
  unfolding sort_by
  sort_by-Ordered [] = tt
  sort_by-Ordered (x ∷ l) = insert_by-Ordered x (sort_by key cmp l) (sort_by-Ordered l)

  insert_by_comm :
      (x y : A) (l : List A)
      → key x ≢ key y
      → insert_by key cmp x (insert_by key cmp y l) ≡ insert_by key cmp y (insert_by key cmp x l)
  unfolding insert_by
  insert_by_comm x y [] ne = ground (
    arith,
    lin.eq_of_cmp (key x) (key y),
    lin.lt_of_gt (key x) (key y),
    lin.gt_of_lt (key x) (key y),
  )
  insert_by_comm x y (z ∷ l) ne = ground (
    arith,
    lin.eq_of_cmp (key x) (key y),
    lin.eq_of_cmp (key x) (key z),
    lin.eq_of_cmp (key y) (key z),
    lin.cmp_self (key z),
    lin.lt_of_gt (key x) (key y),
    lin.gt_of_lt (key x) (key y),
    lin.lt_of_gt (key x) (key z),
    lin.gt_of_lt (key x) (key z),
    lin.lt_of_gt (key y) (key z),
    lin.gt_of_lt (key y) (key z),
    lin.lt_trans (key x) (key y) (key z),
    lin.lt_trans (key y) (key x) (key z),
    lin.lt_trans (key x) (key z) (key y),
    lin.lt_trans (key y) (key z) (key x),
    insert_by_comm x y l ne,
  )

  pub sort_by-eq_of_permᴰ :
      {xs ys : List A}
      → Permᴰ xs ys
      → Distinct (map key xs)
      → sort_by key cmp xs ≡ sort_by key cmp ys
  unfolding sort_by
  sort_by-eq_of_permᴰ Permᴰ.nil d = refl
  sort_by-eq_of_permᴰ (Permᴰ.cons e p) (n, d) = ap₂ (insert_by key cmp) e (sort_by-eq_of_permᴰ p d)
  sort_by-eq_of_permᴰ (Permᴰ.swap {a = a} {b = b} {l = l} e f) ((n, p), (q, d)) =
      insert_by_comm a b (sort_by key cmp l) n
      ∙ ap₂ (λ x y. insert_by key cmp x (insert_by key cmp y (sort_by key cmp l))) f e
  sort_by-eq_of_permᴰ (Permᴰ.trans p q) d =
      sort_by-eq_of_permᴰ p d ∙ sort_by-eq_of_permᴰ q (Distinct-perm (map-permᴰ key p) d)

  -- `max_by` returns one of the values, and none is above it
  pub max_by_upper :
      (acc : A) (l : List A)
      → All (λ x. is_gt (cmp (key x) (key (max_by key cmp acc l))) ≡ false) (acc ∷ l)
  unfolding max_by
  max_by_upper acc [] = (ground (arith, lin.cmp_self (key acc)), tt)
  max_by_upper acc (x ∷ l) = elim (Bool-cases (is_gt (cmp (key acc) (key x)))) [
    | inl h ↦
        let (u, us) = max_by_upper acc l in
        subst Upper (sym (ap (λ b. max_by key cmp (if b then acc else x) l) h))
          (u, (le_trans lin (key x) (key acc) _ (le_of_gt lin (key acc) (key x) h) u, us))
    | inr h ↦
        let (u, us) = max_by_upper x l in
        subst Upper (sym (ap (λ b. max_by key cmp (if b then acc else x) l) h))
          (le_trans lin (key acc) (key x) _ h u, (u, us))
  ]
    where
      Upper : A → Type 0
      Upper m = All (λ z. is_gt (cmp (key z) (key m)) ≡ false) (acc ∷ x ∷ l)

-- the value is one of the list
pub max_by_picks :
    {A K : Type 0} (key : A → K) (cmp : K → K → Ordering) (acc : A) (l : List A)
    → In (max_by key cmp acc l) (acc ∷ l)
unfolding max_by
max_by_picks key cmp acc [] = inl refl
max_by_picks key cmp acc (x ∷ l) = elim (Bool-cases (is_gt (cmp (key acc) (key x)))) [
  | inl h ↦
      subst (λ m. In m (acc ∷ x ∷ l)) (sym (ap (λ b. max_by key cmp (if b then acc else x) l) h))
        (elim (max_by_picks key cmp acc l) [ inl e ↦ inl e | inr i ↦ inr (inr i) ])
  | inr h ↦
      subst (λ m. In m (acc ∷ x ∷ l)) (sym (ap (λ b. max_by key cmp (if b then acc else x) l) h))
        (elim (max_by_picks key cmp x l) [ inl e ↦ inr (inl e) | inr i ↦ inr (inr i) ])
]
