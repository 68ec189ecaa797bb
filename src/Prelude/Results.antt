-- ===== src/Prelude/Results.antt =====
-- Rust's `Result`, and its `?` as a bind.
use mathlib.Core.Path.{◌≡◌, refl}
use mathlib.Core.Logic.{◌⊎◌, inl, inr}
use mathlib.Core.Option.{Option, none, some}
use native.Mathlib.Omega.{arith}

pub data Result {ℓ κ} (A : Type ℓ) (E : Type κ) : Type (ℓ ⊔ κ) where
  ok : A → Result A E
  err : E → Result A E

-- `r?` followed by the rest of the function
module _ {ℓ κ μ} {A : Type ℓ} {B : Type κ} {E : Type μ} where
  infixl 5 ◌>>=◌
  abbrev pub ◌>>=◌ : Result A E → (A → Result B E) → Result B E
  err e >>= rest = err e
  ok a >>= rest = rest a

  -- what a success of `r >>= rest` is made of
  pub >>=-eq-ok :
      (r : Result A E) (rest : A → Result B E) {out : B}
      → (r >>= rest) ≡ ok out
      → (a : A) × (r ≡ ok a) × (rest a ≡ ok out)
  >>=-eq-ok (err e) rest q = absurd (ground arith)
  >>=-eq-ok (ok a) rest q = (a, refl, q)

module _ {ℓ κ} {A : Type ℓ} {E : Type κ} where
  -- `Option::ok_or`
  abbrev pub ok_or : Option A → E → Result A E
  ok_or none e = err e
  ok_or (some a) e = ok a

  pub Result-cases : (r : Result A E) → ((a : A) × (r ≡ ok a)) ⊎ ((e : E) × (r ≡ err e))
  Result-cases (ok a) = inl (a, refl)
  Result-cases (err e) = inr (e, refl)

-- `Result::map_err`
abbrev pub map_err {ℓ κ μ} :
    {A : Type ℓ} {E : Type κ} {F : Type μ} → (E → F) → Result A E → Result A F
map_err f (ok a) = ok a
map_err f (err e) = err (f e)
