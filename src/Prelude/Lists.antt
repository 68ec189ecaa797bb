-- ===== src/Prelude/Lists.antt =====
-- Lists measured by native numbers, predicates over lists by recursion, and searches.
use Prim.Native.Nat.{ℕ, suc, ◌+◌}
use mathlib.Core.Path.{◌≡◌, refl, sym, ap, subst, ◌∙◌}
use mathlib.Core.Logic.{◌≢◌, ◌⊎◌}
use mathlib.Core.Bool.{Bool, true, false, ◌||◌, ◌&&◌}
use mathlib.Core.Option.{Option, none, some}
use mathlib.Core.List.{List, [], ◌∷◌, ◌++◌, map, Permᴰ}
use native.Mathlib.Omega.{arith}
use hydropark_gym.Prelude.Tests.{if◌then◌else◌}

module _ {ℓ} {A : Type ℓ} where
  abbrev pub length : List A → ℕ
  length [] = 0
  length (x ∷ xs) = suc (length xs)

  pub length-append : (xs ys : List A) → length (xs ++ ys) ≡ length xs + length ys
  length-append [] ys = omega arith
  length-append (x ∷ xs) ys = omega (arith, length-append xs ys)

  -- `Iterator::any`, `find`, `filter`: one pass from the left.
  abbrev pub any : (A → Bool) → List A → Bool
  any p [] = false
  any p (x ∷ xs) = p x || any p xs

  -- `Iterator::all`
  abbrev pub all : (A → Bool) → List A → Bool
  all p [] = true
  all p (x ∷ xs) = p x && all p xs

  abbrev pub find? : (A → Bool) → List A → Option A
  find? p [] = none
  find? p (x ∷ xs) = if p x then some x else find? p xs

  abbrev pub keep : (A → Bool) → List A → List A
  keep p [] = []
  keep p (x ∷ xs) = let rest = keep p xs in if p x then x ∷ rest else rest

-- A predicate of every element, by recursion into tuples.
abbrev pub All {ℓ κ} : {A : Type ℓ} → (A → Type κ) → List A → Type κ
All P [] = Unit
All P (x ∷ xs) = P x × All P xs

-- Membership with its place, by recursion.
abbrev pub In : {A : Type 0} → A → List A → Type 0
In a [] = ⊥
In a (x ∷ xs) = (x ≡ a) ⊎ In a xs

module _ {ℓ κ} {A : Type ℓ} (P : A → Type κ) where
  pub All-append : (xs ys : List A) → All P xs → All P ys → All P (xs ++ ys)
  All-append [] ys p q = q
  All-append (x ∷ xs) ys (p, ps) q = (p, All-append xs ys ps q)

  pub All-perm : {xs ys : List A} → Permᴰ xs ys → All P xs → All P ys
  All-perm Permᴰ.nil p = p
  All-perm (Permᴰ.cons e d) (p, ps) = (subst P e p, All-perm d ps)
  All-perm (Permᴰ.swap e f) (p, (q, ps)) = (subst P f q, (subst P e p, ps))
  All-perm (Permᴰ.trans d f) p = All-perm f (All-perm d p)

  pub All-map {μ} : (Q : A → Type μ) (xs : List A) → ((x : A) → P x → Q x) → All P xs → All Q xs
  All-map Q [] h p = tt
  All-map Q (x ∷ xs) h (p, ps) = (h x p, All-map Q xs h ps)

-- no two values are equal
abbrev pub Distinct {ℓ} : {A : Type ℓ} → List A → Type ℓ
Distinct [] = Unit
Distinct (x ∷ xs) = All (λ y. x ≢ y) xs × Distinct xs

pub map-permᴰ {ℓ κ} :
    {A : Type ℓ} {B : Type κ} (f : A → B) {xs ys : List A}
    → Permᴰ xs ys
    → Permᴰ (map f xs) (map f ys)
map-permᴰ f Permᴰ.nil = Permᴰ.nil
map-permᴰ f (Permᴰ.cons e d) = Permᴰ.cons (ap f e) (map-permᴰ f d)
map-permᴰ f (Permᴰ.swap e d) = Permᴰ.swap (ap f e) (ap f d)
map-permᴰ f (Permᴰ.trans d e) = Permᴰ.trans (map-permᴰ f d) (map-permᴰ f e)

module _ {ℓ} {A : Type ℓ} where
  pub permᴰ_refl : (xs : List A) → Permᴰ xs xs
  permᴰ_refl [] = Permᴰ.nil
  permᴰ_refl (x ∷ xs) = Permᴰ.cons refl (permᴰ_refl xs)

  pub permᴰ_symm : {xs ys : List A} → Permᴰ xs ys → Permᴰ ys xs
  permᴰ_symm Permᴰ.nil = Permᴰ.nil
  permᴰ_symm (Permᴰ.cons e p) = Permᴰ.cons (sym e) (permᴰ_symm p)
  permᴰ_symm (Permᴰ.swap e f) = Permᴰ.swap (sym f) (sym e)
  permᴰ_symm (Permᴰ.trans p q) = Permᴰ.trans (permᴰ_symm q) (permᴰ_symm p)

  Distinct-swap :
      {a b a' b' : A} (l : List A) → a ≡ b' → b ≡ a' → Distinct (a ∷ b ∷ l) → Distinct (a' ∷ b' ∷ l)
  Distinct-swap {a} {b} {a'} {b'} l e f ((n, p), (q, d)) = (
    ((λ x. n (e ∙ sym x ∙ sym f)), subst (λ x. All (λ y. x ≢ y) l) f q),
    (subst (λ x. All (λ y. x ≢ y) l) e p, d),
  )

  pub Distinct-perm : {xs ys : List A} → Permᴰ xs ys → Distinct xs → Distinct ys
  Distinct-perm Permᴰ.nil d = d
  Distinct-perm (Permᴰ.cons {a = a} {b = b} {l₂ = l} e p) (n, d) =
      (subst (λ x. All (λ y. x ≢ y) l) e (All-perm (λ y. a ≢ y) p n), Distinct-perm p d)
  Distinct-perm (Permᴰ.swap {l = l} e f) d = Distinct-swap l e f d
  Distinct-perm (Permᴰ.trans p q) d = Distinct-perm q (Distinct-perm p d)
