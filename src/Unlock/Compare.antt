-- ===== src/Unlock/Compare.antt =====
-- The comparison without early exit is equality (client/src-tauri/src/unlock.rs).
use Prim.Native.Nat.{bit_or, bit_xor, bit_or-bitwise, bit_xor-bitwise, digits, differ}
use hydropark_gym.Prelude.{
  ℕ, zero, suc, ◌/◌, ◌%◌, ◌≤◌, max, ◌≡◌, ◌↔◌, refl, sym, ap, ◌∙◌, true, [], ◌∷◌, length, arith,
}
use hydropark_gym.Unlock.Sha256.{Bytes}
use hydropark_gym.Unlock.Codes.{differences, ct_eq}

eq_of_differ : (x y : ℕ) → differ x y ≡ 0 → x ≡ y
eq_of_differ zero y h = sym h
eq_of_differ (suc x) zero h = absurd (omega arith)
eq_of_differ (suc x) (suc y) h = ap suc (eq_of_differ x y h)

differ_self : (x : ℕ) → differ x x ≡ 0
differ_self zero = refl
differ_self (suc x) = differ_self x

abbrev xor_digits : ℕ → ℕ → ℕ → ℕ
xor_digits n a b = digits (λ c. c) differ n a b

abbrev or_digits : ℕ → ℕ → ℕ → ℕ
or_digits n a b = digits (λ c. c) max n a b

eq_of_xor_digits : (n a b : ℕ) → a ≤ n → xor_digits n a b ≡ 0 → a ≡ b
eq_of_xor_digits zero zero b p h = sym h
eq_of_xor_digits zero (suc a) b p h = absurd (omega arith)
eq_of_xor_digits (suc n) zero b p h = sym h
eq_of_xor_digits (suc n) (suc a) b p h =
    let low = eq_of_differ (suc a % 2) (b % 2) (omega arith) in
    let high = eq_of_xor_digits n (suc a / 2) (b / 2) (omega arith) (omega arith) in omega arith

xor_digits_self : (n a : ℕ) → a ≤ n → xor_digits n a a ≡ 0
xor_digits_self zero zero p = refl
xor_digits_self zero (suc a) p = absurd (omega arith)
xor_digits_self (suc n) zero p = refl
xor_digits_self (suc n) (suc a) p =
    omega (arith, differ_self (suc a % 2), xor_digits_self n (suc a / 2) (omega arith))

zero_of_or_digits : (n a b : ℕ) → a ≤ n → or_digits n a b ≡ 0 → (a ≡ 0) × (b ≡ 0)
zero_of_or_digits zero zero b p h = (refl, h)
zero_of_or_digits zero (suc a) b p h = absurd (omega arith)
zero_of_or_digits (suc n) zero b p h = (refl, h)
zero_of_or_digits (suc n) (suc a) b p h =
    let (x, y) = zero_of_or_digits n (suc a / 2) (b / 2) (omega arith) (omega arith) in
    (omega arith, omega arith)

eq_of_bit_xor : (a b : ℕ) → bit_xor a b ≡ 0 → a ≡ b
eq_of_bit_xor a b h = eq_of_xor_digits a a b (omega arith) (sym (bit_xor-bitwise a b) ∙ h)

bit_xor_self : (a : ℕ) → bit_xor a a ≡ 0
bit_xor_self a = bit_xor-bitwise a a ∙ xor_digits_self a a (omega arith)

zero_of_bit_or : (a b : ℕ) → bit_or a b ≡ 0 → (a ≡ 0) × (b ≡ 0)
zero_of_bit_or a b h = zero_of_or_digits a a b (omega arith) (sym (bit_or-bitwise a b) ∙ h)

eq_of_differences :
    (diff : ℕ) (xs ys : Bytes)
    → length xs ≡ length ys
    → differences diff xs ys ≡ 0
    → (diff ≡ 0) × (xs ≡ ys)
unfolding differences
eq_of_differences diff [] [] l h = (h, refl)
eq_of_differences diff [] (y ∷ ys) l h = absurd (omega arith)
eq_of_differences diff (x ∷ xs) [] l h = absurd (omega arith)
eq_of_differences diff (x ∷ xs) (y ∷ ys) l h =
    let (d, e) = eq_of_differences (bit_or diff (bit_xor x y)) xs ys (omega arith) h in
    let (z, w) = zero_of_bit_or diff (bit_xor x y) d in let same = eq_of_bit_xor x y w in (z, cc)

differences_self : (xs : Bytes) → differences 0 xs xs ≡ 0
unfolding differences
differences_self [] = refl
differences_self (x ∷ xs) = rw (bit_xor_self x) (differences_self xs)

pub ct_eq_iff : (xs ys : Bytes) → (ct_eq xs ys ≡ true) ↔ (xs ≡ ys)
unfolding ct_eq
ct_eq_iff xs ys = (
  λ h. (eq_of_differences 0 xs ys (ground arith) (ground arith)).1,
  λ e. rw e (ground (arith, differences_self ys)),
)
