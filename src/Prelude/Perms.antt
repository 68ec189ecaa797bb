-- ===== src/Prelude/Perms.antt =====
-- Rearrangements of a list: what searches, filters and membership make of them.
use mathlib.Core.Path.{◌≡◌, refl, sym, ap, ap₂, subst, ◌∙◌}
use mathlib.Core.Logic.{◌≢◌, inl, inr}
use mathlib.Core.Bool.{Bool, true, false}
use mathlib.Core.Option.{none, some}
use mathlib.Core.List.{List, [], ◌∷◌, map, Permᴰ}
use native.Mathlib.Omega.{arith}
use hydropark_gym.Prelude.Tests.{Bool-cases, Option-cases, if◌then◌else◌}
use hydropark_gym.Prelude.Lists.{All, In, Distinct, keep, find?, permᴰ_refl, permᴰ_symm}

module _ {A : Type 0} where
  pub In-perm : {xs ys : List A} (a : A) → Permᴰ xs ys → In a xs → In a ys
  In-perm a (Permᴰ.nil) i = i
  In-perm a (Permᴰ.cons e p) (inl x) = inl (sym e ∙ x)
  In-perm a (Permᴰ.cons e p) (inr i) = inr (In-perm a p i)
  In-perm a (Permᴰ.swap e f) (inl x) = inr (inl (sym e ∙ x))
  In-perm a (Permᴰ.swap e f) (inr (inl x)) = inl (sym f ∙ x)
  In-perm a (Permᴰ.swap e f) (inr (inr i)) = inr (inr i)
  In-perm a (Permᴰ.trans p q) i = In-perm a q (In-perm a p i)

  pub All-at : (P : A → Type 0) (a : A) (xs : List A) → All P xs → In a xs → P a
  All-at P a [] p i = elim i [ ]
  All-at P a (x ∷ xs) (p, ps) (inl e) = subst P e p
  All-at P a (x ∷ xs) (p, ps) (inr i) = All-at P a xs ps i

  keep_cons :
      (t u : Bool) {a b : A} {l l' : List A}
      → t ≡ u
      → a ≡ b
      → Permᴰ l l'
      → Permᴰ (if t then a ∷ l else l) (if u then b ∷ l' else l')
  keep_cons true true h e p = Permᴰ.cons e p
  keep_cons true false h e p = absurd (ground arith)
  keep_cons false true h e p = absurd (ground arith)
  keep_cons false false h e p = p

  keep_swap :
      (t u : Bool) (a b : A) (l : List A)
      → Permᴰ
          (if t then a ∷ (if u then b ∷ l else l) else (if u then b ∷ l else l))
          (if u then b ∷ (if t then a ∷ l else l) else (if t then a ∷ l else l))
  keep_swap true true a b l = Permᴰ.swap refl refl
  keep_swap true false a b l = permᴰ_refl (a ∷ l)
  keep_swap false true a b l = permᴰ_refl (b ∷ l)
  keep_swap false false a b l = permᴰ_refl l

  pub keep-permᴰ : (p : A → Bool) {xs ys : List A} → Permᴰ xs ys → Permᴰ (keep p xs) (keep p ys)
  keep-permᴰ p Permᴰ.nil = Permᴰ.nil
  keep-permᴰ p (Permᴰ.cons {a = a} {b = b} e d) = keep_cons (p a) (p b) (ap p e) e (keep-permᴰ p d)
  keep-permᴰ p (Permᴰ.swap {a = a} {b = b} {l = l} e f) =
      subst (λ z. Permᴰ (keep p (a ∷ b ∷ l)) (keep p z)) (ap₂ (λ x y. x ∷ y ∷ l) f e)
        (keep_swap (p a) (p b) a b (keep p l))
  keep-permᴰ p (Permᴰ.trans d f) = Permᴰ.trans (keep-permᴰ p d) (keep-permᴰ p f)

  pub In-keep : (p : A → Bool) (l : List A) (a : A) → In a (keep p l) → In a l × (p a ≡ true)
  In-keep p [] a i = elim i [ ]
  In-keep p (x ∷ l) a i = elim (Bool-cases (p x)) [
    | inl t ↦ elim (subst (λ b. In a (if b then x ∷ keep p l else keep p l)) t i) [
      | inl e ↦ (inl e, subst (λ z. p z ≡ true) e t)
      | inr j ↦ let (k, u) = In-keep p l a j in (inr k, u)
    ]
    | inr t ↦
        let (k, u) = In-keep p l a (subst (λ b. In a (if b then x ∷ keep p l else keep p l)) t i) in
        (inr k, u)
  ]

  pub keep-In : (p : A → Bool) (l : List A) (a : A) → In a l → p a ≡ true → In a (keep p l)
  keep-In p [] a i h = elim i [ ]
  keep-In p (x ∷ l) a (inl e) h =
      subst (λ b. In a (if b then x ∷ keep p l else keep p l)) (sym (ap p e ∙ h)) (inl e)
  keep-In p (x ∷ l) a (inr i) h = elim (Bool-cases (p x)) [
    | inl t ↦
        subst (λ b. In a (if b then x ∷ keep p l else keep p l)) (sym t) (inr (keep-In p l a i h))
    | inr t ↦ subst (λ b. In a (if b then x ∷ keep p l else keep p l)) (sym t) (keep-In p l a i h)
  ]

  pub find?_sound : (p : A → Bool) (l : List A) {a : A} → find? p l ≡ some a → In a l × (p a ≡ true)
  find?_sound p [] h = ground arith
  find?_sound p (x ∷ l) {a} h = elim (Bool-cases (p x)) [
    | inl t ↦ let q : x ≡ a = ground arith in (inl q, subst (λ z. p z ≡ true) q t)
    | inr t ↦ let r = find?_sound p l {a = a} (ground arith) in (inr r.0, r.1)
  ]

  pub find?_complete : (p : A → Bool) (l : List A) (a : A) → In a l → p a ≡ true → find? p l ≢ none
  find?_complete p [] a i h = elim i [ ]
  find?_complete p (x ∷ l) a (inl e) h = let t : p x ≡ true = ap p e ∙ h in ground arith
  find?_complete p (x ∷ l) a (inr i) h = ground (arith, find?_complete p l a i h)

-- values that a key tells apart
module _ {A : Type 0} {K : Type 0} (key : A → K) where
  pub In-map : (a : A) (l : List A) → In a l → In (key a) (map key l)
  In-map a [] i = i
  In-map a (x ∷ l) (inl e) = inl (ap key e)
  In-map a (x ∷ l) (inr i) = inr (In-map a l i)

  pub eq_of_key :
      (a b : A) (l : List A) → Distinct (map key l) → In a l → In b l → key a ≡ key b → a ≡ b
  eq_of_key a b [] d i j e = elim i [ ]
  eq_of_key a b (x ∷ l) (n, d) (inl p) (inl q) e = sym p ∙ q
  eq_of_key a b (x ∷ l) (n, d) (inl p) (inr j) e =
      absurd (All-at (λ k. key x ≢ k) (key b) (map key l) n (In-map b l j) (ap key p ∙ e))
  eq_of_key a b (x ∷ l) (n, d) (inr i) (inl q) e =
      absurd (All-at (λ k. key x ≢ k) (key a) (map key l) n (In-map a l i) (ap key q ∙ sym e))
  eq_of_key a b (x ∷ l) (n, d) (inr i) (inr j) e = eq_of_key a b l d i j e

  All-map-keep :
      (P : K → Type 0) (p : A → Bool) (l : List A) → All P (map key l) → All P (map key (keep p l))
  All-map-keep P p [] h = h
  All-map-keep P p (x ∷ l) (h, hs) = elim (Bool-cases (p x)) [
    | inl e ↦ rw e (h, All-map-keep P p l hs)
    | inr e ↦ rw e (All-map-keep P p l hs)
  ]

  pub Distinct-keep :
      (p : A → Bool) (l : List A) → Distinct (map key l) → Distinct (map key (keep p l))
  Distinct-keep p [] d = d
  Distinct-keep p (x ∷ l) (n, d) = elim (Bool-cases (p x)) [
    | inl e ↦ rw e (All-map-keep (λ k. key x ≢ k) p l n, Distinct-keep p l d)
    | inr e ↦ rw e (Distinct-keep p l d)
  ]

  -- a test that only one value passes finds the same value in every arrangement
  pub find?_perm :
      (p : A → Bool) {xs ys : List A}
      → ((a b : A) → p a ≡ true → p b ≡ true → key a ≡ key b)
      → Permᴰ xs ys
      → Distinct (map key xs)
      → find? p xs ≡ find? p ys
  find?_perm p {xs} {ys} one d n = elim (Option-cases (find? p xs)) [
    | inl none_x ↦ elim (Option-cases (find? p ys)) [
      | inl none_y ↦ none_x ∙ sym none_y
      | inr (b, y) ↦
          let (j, t) = find?_sound p ys y in
          absurd (find?_complete p xs b (In-perm b (permᴰ_symm d) j) t none_x)
    ]
    | inr (a, x) ↦ elim (Option-cases (find? p ys)) [
      | inl none_y ↦
          let (i, t) = find?_sound p xs x in absurd (find?_complete p ys a (In-perm a d i) t none_y)
      | inr (b, y) ↦
          let (i, t) = find?_sound p xs x in
          let (j, u) = find?_sound p ys y in
          x ∙ ap some (eq_of_key a b xs n i (In-perm b (permᴰ_symm d) j) (one a b t u)) ∙ sym y
    ]
  ]
