-- ===== src/Prelude/Decimal.antt =====
-- `Display` of an unsigned integer: its decimal digits.
use Prim.Native.Nat.{ℕ, zero, suc, ◌+◌, ◌-◌, ◌*◌, ◌/◌, ◌%◌, ◌≤◌, ◌<◌}
use mathlib.Core.Path.{◌≡◌, refl, ap, ◌∙◌, sym}
use mathlib.Core.Logic.{◌≢◌, inl, inr}
use mathlib.Core.List.{[], ◌∷◌, ◌++◌}
use native.Mathlib.Omega.{arith}
use hydropark_gym.Prelude.Tests.{ltb, if◌then◌else◌, Bool-cases}
use hydropark_gym.Prelude.Lists.{All, All-append}
use hydropark_gym.Prelude.Text.{Text}

-- `fuel` digits at most
unfoldable pub digits_of : ℕ → ℕ → Text
digits_of zero n = []
digits_of (suc fuel) n =
    let front = digits_of fuel (n / 10) in
    if ltb n 10 then (48 + n) ∷ [] else front ++ (48 + n % 10) ∷ []

unfoldable pub decimal : ℕ → Text
unfolding digits_of
decimal n = digits_of (suc n) n

-- the number that digits stand for
unfoldable pub value_from : ℕ → Text → ℕ
value_from acc [] = acc
value_from acc (c ∷ s) = value_from (acc * 10 + (c - 48)) s

value_from-append :
    (acc c : ℕ) (s : Text) → value_from acc (s ++ c ∷ []) ≡ value_from acc s * 10 + (c - 48)
unfolding value_from
value_from-append acc c [] = refl
value_from-append acc c (d ∷ s) = value_from-append (acc * 10 + (d - 48)) c s

value-digits_of : (fuel n : ℕ) → n < fuel → value_from 0 (digits_of fuel n) ≡ n
unfolding digits_of
value-digits_of zero n h = absurd (omega arith)
value-digits_of (suc fuel) n h = elim (Bool-cases (ltb n 10)) [
  | inl t ↦ rw t (unfold value_from in ground arith)
  | inr t ↦
      let small : n / 10 < fuel = ground arith in
      rw t (
        value_from-append 0 (48 + n % 10) (digits_of fuel (n / 10))
        ∙ omega (arith, value-digits_of fuel (n / 10) small))
]

pub value-decimal : (n : ℕ) → value_from 0 (decimal n) ≡ n
unfolding decimal
value-decimal n = value-digits_of (suc n) n (omega arith)

-- Two numbers with the same digits are equal.
pub decimal-injective : (n m : ℕ) → decimal n ≡ decimal m → n ≡ m
decimal-injective n m h = sym (value-decimal n) ∙ ap (value_from 0) h ∙ value-decimal m

-- the codes of the digits
abbrev pub IsDigit : ℕ → Type 0
IsDigit c = (48 ≤ c) × (c ≤ 57)

digits_of-IsDigit : (fuel n : ℕ) → All IsDigit (digits_of fuel n)
unfolding digits_of
digits_of-IsDigit zero n = tt
digits_of-IsDigit (suc fuel) n = elim (Bool-cases (ltb n 10)) [
  | inl t ↦ rw t ((ground arith), tt)
  | inr t ↦ rw t (
      All-append IsDigit (digits_of fuel (n / 10)) ((48 + n % 10) ∷ [])
        (digits_of-IsDigit fuel (n / 10)) ((omega arith), tt))
]

pub decimal-IsDigit : (n : ℕ) → All IsDigit (decimal n)
unfolding decimal
decimal-IsDigit n = digits_of-IsDigit (suc n) n

append_last-ne-nil : (s : Text) (c : ℕ) → s ++ c ∷ [] ≢ []
append_last-ne-nil [] c e = cc
append_last-ne-nil (d ∷ s) c e = cc

digits_of-ne-nil : (fuel n : ℕ) → digits_of (suc fuel) n ≢ []
unfolding digits_of
digits_of-ne-nil fuel n = elim (Bool-cases (ltb n 10)) [
  | inl t ↦ rw t (λ e. cc)
  | inr t ↦ rw t (append_last-ne-nil (digits_of fuel (n / 10)) (48 + n % 10))
]

pub decimal-ne-nil : (n : ℕ) → decimal n ≢ []
unfolding decimal
decimal-ne-nil n = digits_of-ne-nil n n
