-- ===== src/Prelude/Parsing.antt =====
-- `str::split` on a character, `u64::from_str`, and both on printed numbers.
use hydropark_gym.Prelude.Tests.{ltb, leb, nat_eqb, if◌then◌else◌}
use hydropark_gym.Prelude.Lists.{All, All-append}
use hydropark_gym.Prelude.Text.{Text, is_whitespace, trim, trim_start, is_empty}
use hydropark_gym.Prelude.Decimal.{
  decimal, value_from, value-decimal, IsDigit, decimal-IsDigit, decimal-ne-nil,
}
use Prim.Native.Nat.{ℕ, ◌+◌, ◌-◌, ◌*◌, ◌^◌, ◌≤◌, ◌<◌}
use mathlib.Core.Path.{◌≡◌, refl, ap, ◌∙◌}
use mathlib.Core.Logic.{◌≢◌}
use mathlib.Core.Bool.{Bool, true, false, ◌&&◌}
use mathlib.Core.Option.{Option, none, some}
use mathlib.Core.List.{List, [], ◌∷◌, ◌++◌, reverse, reverse-append, reverse-reverse}
use native.Mathlib.Omega.{arith}

-- puts a character in front of the first piece
abbrev pub push_front : ℕ → List Text → List Text
push_front c [] = (c ∷ []) ∷ []
push_front c (p ∷ ps) = (c ∷ p) ∷ ps

-- `str::split(sep)`: the pieces between the separators, one more than there are separators
unfoldable pub split_on : ℕ → Text → List Text
split_on sep [] = [] ∷ []
split_on sep (c ∷ s) =
    let rest = split_on sep s in if nat_eqb c sep then [] ∷ rest else push_front c rest

-- `str::split(stop).next()`: what stands before the first character that `stop` takes
unfoldable pub until : (ℕ → Bool) → Text → Text
until stop [] = []
until stop (c ∷ s) = if stop c then [] else c ∷ until stop s

abbrev pub u64_limit : ℕ
u64_limit = 2 ^ 64

abbrev pub is_digit : ℕ → Bool
is_digit c = leb 48 c && leb c 57

-- the loop of `u64::from_str`, which refuses at the digit that overflows
unfoldable pub parse_digits : ℕ → Text → Option ℕ
parse_digits acc [] = some acc
parse_digits acc (c ∷ s) =
    let rest = parse_digits (acc * 10 + (c - 48)) s in
    if is_digit c then (if ltb (acc * 10 + (c - 48)) u64_limit then rest else none) else none

-- `u64::from_str`: a sign `+` and at least one digit
unfoldable pub parse_u64 : Text → Option ℕ
unfolding parse_digits
parse_u64 [] = none
parse_u64 (c ∷ s) =
    if nat_eqb c b'+'
    then (if is_empty s then none else parse_digits 0 s)
    else parse_digits 0 (c ∷ s)

value_from_grows : (acc : ℕ) (s : Text) → acc ≤ value_from acc s
unfolding value_from
value_from_grows acc [] = omega arith
value_from_grows acc (c ∷ s) = omega (arith, value_from_grows (acc * 10 + (c - 48)) s)

parse_digits-value :
    (acc : ℕ) (s : Text)
    → All IsDigit s
    → value_from acc s < u64_limit
    → parse_digits acc s ≡ some (value_from acc s)
unfolding parse_digits value_from
parse_digits-value acc [] d h = refl
parse_digits-value acc (c ∷ s) d h =
    ground
      (arith, value_from_grows (acc * 10 + (c - 48)) s, parse_digits-value (acc * 10 + (c - 48)) s)

parse_u64-digits :
    (s : Text)
    → s ≢ []
    → All IsDigit s
    → value_from 0 s < u64_limit
    → parse_u64 s ≡ some (value_from 0 s)
unfolding parse_u64
parse_u64-digits [] n d h = absurd (n refl)
parse_u64-digits (c ∷ s) n d h = ground (arith, parse_digits-value 0 (c ∷ s))

pub parse_u64-decimal : (n : ℕ) → n < u64_limit → parse_u64 (decimal n) ≡ some n
parse_u64-decimal n h =
    parse_u64-digits (decimal n) (decimal-ne-nil n) (decimal-IsDigit n)
      (omega (arith, value-decimal n))
    ∙ ap some (value-decimal n)

-- Texts without a given kind of character.
module _ (q : ℕ → Bool) where
  abbrev pub Avoids : Text → Type 0
  Avoids s = All (λ c. q c ≡ false) s

  pub until-Avoids : (s : Text) → Avoids s → until q s ≡ s
  unfolding until
  until-Avoids [] a = refl
  until-Avoids (c ∷ s) a = ground (arith, until-Avoids s a.1)

  pub until-append :
      (s : Text) (c : ℕ) (r : Text) → Avoids s → q c ≡ true → until q (s ++ c ∷ r) ≡ s
  unfolding until
  until-append [] c r a h = rw h
  until-append (d ∷ s) c r a h = ground (arith, until-append s c r a.1 h)

pub split_on-Avoids : (sep : ℕ) (s : Text) → Avoids (λ c. nat_eqb c sep) s → split_on sep s ≡ s ∷ []
unfolding split_on
split_on-Avoids sep [] a = refl
split_on-Avoids sep (c ∷ s) a = rw (a.0, split_on-Avoids sep s a.1)

pub split_on-append :
    (sep : ℕ) (s r : Text)
    → Avoids (λ c. nat_eqb c sep) s
    → split_on sep (s ++ sep ∷ r) ≡ s ∷ split_on sep r
unfolding split_on
split_on-append sep [] r a = ground arith
split_on-append sep (c ∷ s) r a = rw (a.0, split_on-append sep s r a.1)

reverse-Avoids : (q : ℕ → Bool) (s : Text) → Avoids q s → Avoids q (reverse s)
reverse-Avoids q [] a = tt
reverse-Avoids q (c ∷ s) a =
    rw (reverse-append (c ∷ []) s)
      (All-append (λ d. q d ≡ false) (reverse s) (c ∷ []) (reverse-Avoids q s a.1) (a.0, tt))

trim_start-Avoids : (s : Text) → Avoids is_whitespace s → trim_start s ≡ s
unfolding trim_start
trim_start-Avoids [] a = refl
trim_start-Avoids (c ∷ s) a = rw a.0 refl

-- a text without white space is trimmed
pub trim-Avoids : (s : Text) → Avoids is_whitespace s → trim s ≡ s
unfolding trim
trim-Avoids s a =
    rw (trim_start-Avoids s a, trim_start-Avoids (reverse s) (reverse-Avoids is_whitespace s a))
      (reverse-reverse s)

-- the digits, and the characters that a printed version may have beside them
pub Avoids-of_range :
    (q : ℕ → Bool) (P : ℕ → Type 0)
    → ((c : ℕ) → P c → q c ≡ false)
    → (s : Text) → All P s
    → Avoids q s
Avoids-of_range q P h [] a = tt
Avoids-of_range q P h (c ∷ s) a = (h c a.0, Avoids-of_range q P h s a.1)
