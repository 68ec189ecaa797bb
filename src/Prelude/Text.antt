-- ===== src/Prelude/Text.antt =====
-- Rust's `str` as the list of its `char`s. `Ord` on `str` compares bytes, which for UTF-8 is the
-- order of the code points.
use Prim.Native.Char.{code}
use Prim.Native.String.{String}
use mathlib.Core.List.{List, [], ◌∷◌, ◌++◌, reverse}
use hydropark_gym.Prelude.Tests.{nat_eqb, leb, if◌then◌else◌}
use hydropark_gym.Prelude.Order.{IsLinear}
use Prim.Native.Nat.{ℕ, ◌+◌, ◌-◌, compare, Ordering}
use mathlib.Core.Path.{◌≡◌, refl}
use mathlib.Core.Logic.{◌↔◌}
use mathlib.Core.Bool.{Bool, true, false, ◌&&◌, ◌||◌}
use mathlib.Core.Option.{Option, none, some}
use native.Mathlib.Omega.{arith}

abbrev pub Text : Type 0
Text = List ℕ

-- The text of a literal.
abbrev pub chars : String → Text
chars String.[] = []
chars (String.◌∷◌ c s) = code c ∷ chars s

unfoldable pub text_eqb : Text → Text → Bool
text_eqb [] [] = true
text_eqb (a ∷ s) (b ∷ t) = nat_eqb a b && text_eqb s t
text_eqb _ _ = false

pub text_eqb_iff : (s t : Text) → (text_eqb s t ≡ true) ↔ (s ≡ t)
unfolding text_eqb
text_eqb_iff [] [] = ground arith
text_eqb_iff [] (b ∷ t) = ground arith
text_eqb_iff (a ∷ s) [] = ground arith
text_eqb_iff (a ∷ s) (b ∷ t) = ground (arith, text_eqb_iff s t)

unfoldable pub text_cmp : Text → Text → Ordering
text_cmp [] [] = Ordering.eq
text_cmp [] (b ∷ t) = Ordering.lt
text_cmp (a ∷ s) [] = Ordering.gt
text_cmp (a ∷ s) (b ∷ t) = elim (compare a b) [
  | Ordering.lt ↦ Ordering.lt
  | Ordering.eq ↦ text_cmp s t
  | Ordering.gt ↦ Ordering.gt
]

text_cmp_self : (s : Text) → text_cmp s s ≡ Ordering.eq
unfolding text_cmp
text_cmp_self [] = refl
text_cmp_self (a ∷ s) = ground (arith, text_cmp_self s)

text_eq_of_cmp : (s t : Text) → text_cmp s t ≡ Ordering.eq → s ≡ t
unfolding text_cmp
text_eq_of_cmp [] [] h = refl
text_eq_of_cmp [] (b ∷ t) h = ground arith
text_eq_of_cmp (a ∷ s) [] h = ground arith
text_eq_of_cmp (a ∷ s) (b ∷ t) h = ground (arith, text_eq_of_cmp s t)

text_gt_of_lt : (s t : Text) → text_cmp s t ≡ Ordering.lt → text_cmp t s ≡ Ordering.gt
unfolding text_cmp
text_gt_of_lt [] [] h = ground arith
text_gt_of_lt [] (b ∷ t) h = refl
text_gt_of_lt (a ∷ s) [] h = ground arith
text_gt_of_lt (a ∷ s) (b ∷ t) h = ground (arith, text_gt_of_lt s t)

text_lt_of_gt : (s t : Text) → text_cmp s t ≡ Ordering.gt → text_cmp t s ≡ Ordering.lt
unfolding text_cmp
text_lt_of_gt [] [] h = ground arith
text_lt_of_gt [] (b ∷ t) h = ground arith
text_lt_of_gt (a ∷ s) [] h = refl
text_lt_of_gt (a ∷ s) (b ∷ t) h = ground (arith, text_lt_of_gt s t)

text_lt_trans :
    (s t u : Text)
    → text_cmp s t ≡ Ordering.lt
    → text_cmp t u ≡ Ordering.lt
    → text_cmp s u ≡ Ordering.lt
unfolding text_cmp
text_lt_trans [] [] u h k = ground arith
text_lt_trans [] (b ∷ t) [] h k = ground arith
text_lt_trans [] (b ∷ t) (c ∷ u) h k = refl
text_lt_trans (a ∷ s) [] u h k = ground arith
text_lt_trans (a ∷ s) (b ∷ t) [] h k = ground arith
text_lt_trans (a ∷ s) (b ∷ t) (c ∷ u) h k = ground (arith, text_lt_trans s t u)

pub text_cmp-IsLinear : IsLinear text_cmp
text_cmp-IsLinear = record {
  cmp_self = text_cmp_self;
  eq_of_cmp = text_eq_of_cmp;
  gt_of_lt = text_gt_of_lt;
  lt_of_gt = text_lt_of_gt;
  lt_trans = text_lt_trans;
}

-- `char::is_whitespace` on the code points of Unicode's White_Space.
unfoldable pub is_whitespace : ℕ → Bool
is_whitespace c =
    (leb 9 c && leb c 13)
    || nat_eqb c 32
    || nat_eqb c 0x85
    || nat_eqb c 0xa0
    || nat_eqb c 0x1680
    || (leb 0x2000 c && leb c 0x200a)
    || nat_eqb c 0x2028
    || nat_eqb c 0x2029
    || nat_eqb c 0x202f
    || nat_eqb c 0x205f
    || nat_eqb c 0x3000

unfoldable pub trim_start : Text → Text
unfolding is_whitespace
trim_start [] = []
trim_start (c ∷ s) = if is_whitespace c then trim_start s else c ∷ s

-- `str::trim`
unfoldable pub trim : Text → Text
unfolding trim_start
trim s = reverse (trim_start (reverse (trim_start s)))

unfoldable pub is_empty {ℓ} : {A : Type ℓ} → List A → Bool
is_empty [] = true
is_empty (c ∷ s) = false

-- `str::strip_prefix`
unfoldable pub strip_prefix : Text → Text → Option Text
strip_prefix [] s = some s
strip_prefix (a ∷ p) [] = none
strip_prefix (a ∷ p) (b ∷ s) = if nat_eqb a b then strip_prefix p s else none

abbrev reversed : Option Text → Option Text
reversed none = none
reversed (some s) = some (reverse s)

-- `str::strip_suffix`
unfoldable pub strip_suffix : Text → Text → Option Text
strip_suffix suffix s = reversed (strip_prefix (reverse suffix) (reverse s))

-- `str::starts_with`, `str::ends_with`
abbrev pub starts_with : Text → Text → Bool
starts_with p s = elim (strip_prefix p s) [ none ↦ false | some r ↦ true ]

abbrev pub ends_with : Text → Text → Bool
ends_with suffix s = elim (strip_suffix suffix s) [ none ↦ false | some r ↦ true ]

-- `[&str]::join`
unfoldable pub join : Text → List Text → Text
join sep [] = []
join sep (t ∷ []) = t
join sep (t ∷ u ∷ ts) = t ++ (sep ++ join sep (u ∷ ts))

-- `char::to_ascii_lowercase`, `char::to_ascii_uppercase`
abbrev pub to_ascii_lowercase : ℕ → ℕ
to_ascii_lowercase c = if leb 65 c && leb c 90 then c + 32 else c

abbrev pub to_ascii_uppercase : ℕ → ℕ
to_ascii_uppercase c = if leb 97 c && leb c 122 then c - 32 else c

-- `char::is_ascii_digit` and the like, on bytes
abbrev pub is_ascii_lowercase : ℕ → Bool
is_ascii_lowercase b = leb 97 b && leb b 122

abbrev pub is_ascii_uppercase : ℕ → Bool
is_ascii_uppercase b = leb 65 b && leb b 90

abbrev pub is_ascii_digit : ℕ → Bool
is_ascii_digit b = leb 48 b && leb b 57

abbrev pub is_ascii_alphanumeric : ℕ → Bool
is_ascii_alphanumeric b = is_ascii_digit b || is_ascii_uppercase b || is_ascii_lowercase b
