-- ===== src/Prelude/Utf8.antt =====
-- UTF-8: the bytes of a text, and slices by byte positions.
use Prim.Native.Nat.{ℕ, zero, suc, ◌+◌, ◌-◌, ◌/◌, ◌%◌, ◌^◌, ◌≤◌, ◌<◌}
use mathlib.Core.Path.{◌≡◌, refl, ap, ◌∙◌}
use mathlib.Core.Logic.{inl, inr}
use mathlib.Core.Option.{Option, none, some}
use mathlib.Core.List.{List, [], ◌∷◌, ◌++◌}
use native.Mathlib.Omega.{arith}
use hydropark_gym.Prelude.Tests.{leb, ltb, if◌then◌else◌, Bool-cases, Option-cases}
use hydropark_gym.Prelude.Lists.{length, All}
use hydropark_gym.Prelude.Text.{Text}

-- `char::len_utf8`
unfoldable pub len_utf8 : ℕ → ℕ
len_utf8 c = if ltb c 0x80 then 1 else if ltb c 0x800 then 2 else if ltb c 0x10000 then 3 else 4

-- `str::len`
abbrev pub byte_len : Text → ℕ
byte_len [] = 0
byte_len (c ∷ s) = len_utf8 c + byte_len s

abbrev tail_byte : ℕ → ℕ
tail_byte n = 0x80 + n % 0x40

abbrev pub encode_utf8 : ℕ → List ℕ
encode_utf8 c =
    if ltb c 0x80
    then c ∷ []
    else if ltb c 0x800
    then (0xc0 + c / 2 ^ 6) ∷ tail_byte c ∷ []
    else if ltb c 0x10000
    then (0xe0 + c / 2 ^ 12) ∷ tail_byte (c / 2 ^ 6) ∷ tail_byte c ∷ []
    else (0xf0 + c / 2 ^ 18) ∷ tail_byte (c / 2 ^ 12) ∷ tail_byte (c / 2 ^ 6) ∷ tail_byte c ∷ []

-- `str::as_bytes`
abbrev pub as_bytes : Text → List ℕ
as_bytes [] = []
as_bytes (c ∷ s) = encode_utf8 c ++ as_bytes s

-- `&s[n..]`: `none` is the panic, out of range or inside a character
unfoldable pub skip_bytes : ℕ → Text → Option Text
skip_bytes zero s = some s
skip_bytes (suc n) [] = none
skip_bytes (suc n) (c ∷ s) =
    let rest = skip_bytes (suc n - len_utf8 c) s in if leb (len_utf8 c) (suc n) then rest else none

abbrev pub push : ℕ → Option Text → Option Text
push c none = none
push c (some s) = some (c ∷ s)

-- `&s[..n]`
unfoldable pub take_bytes : ℕ → Text → Option Text
take_bytes zero s = some []
take_bytes (suc n) [] = none
take_bytes (suc n) (c ∷ s) =
    let rest = push c (take_bytes (suc n - len_utf8 c) s) in
    if leb (len_utf8 c) (suc n) then rest else none

abbrev pub IsAscii : ℕ → Type 0
IsAscii c = c < 0x80

-- what stands before a byte position, and behind it
pub take-skip :
    (n : ℕ) (s t r : Text)
    → take_bytes n s ≡ some t
    → skip_bytes n s ≡ some r
    → (s ≡ t ++ r) × (byte_len t ≡ n)
unfolding take_bytes skip_bytes
take-skip zero s t r h k = ground arith
take-skip (suc n) [] t r h k = absurd (ground arith)
take-skip (suc n) (c ∷ s) t r h k = elim (Bool-cases (leb (len_utf8 c) (suc n))) [
  | inr over ↦ absurd (ground arith)
  | inl fits ↦ elim (Option-cases (take_bytes (suc n - len_utf8 c) s)) [
    | inl stuck ↦ absurd (ground arith)
    | inr (t', e) ↦
        let (whole, long) = take-skip (suc n - len_utf8 c) s t' r e (ground arith) in
        let front : t ≡ c ∷ t' = ground arith in
        rw front (ap (λ (x : Text). c ∷ x) whole, ground arith)
  ]
]

len_utf8_pos : (c : ℕ) → 0 < len_utf8 c
unfolding len_utf8
len_utf8_pos c = ground arith

take_bytes-cons :
    (n c : ℕ) (s : Text)
    → len_utf8 c ≤ n
    → take_bytes n (c ∷ s) ≡ push c (take_bytes (n - len_utf8 c) s)
unfolding take_bytes
take_bytes-cons zero c s h = absurd (omega (arith, len_utf8_pos c))
take_bytes-cons (suc n) c s h = ground arith

skip_bytes-cons :
    (n c : ℕ) (s : Text) → len_utf8 c ≤ n → skip_bytes n (c ∷ s) ≡ skip_bytes (n - len_utf8 c) s
unfolding skip_bytes
skip_bytes-cons zero c s h = absurd (omega (arith, len_utf8_pos c))
skip_bytes-cons (suc n) c s h = ground arith

add-sub : (a b : ℕ) → a + b - a ≡ b
add-sub a b = omega arith

-- a slice that ends at a character's edge
pub take-append : (t r : Text) → take_bytes (byte_len t) (t ++ r) ≡ some t
unfolding take_bytes
take-append [] r = refl
take-append (c ∷ t) r =
    take_bytes-cons (len_utf8 c + byte_len t) c (t ++ r) (omega arith)
    ∙ rw (add-sub (len_utf8 c) (byte_len t), take-append t r) refl

pub skip-append : (t r : Text) → skip_bytes (byte_len t) (t ++ r) ≡ some r
unfolding skip_bytes
skip-append [] r = refl
skip-append (c ∷ t) r =
    skip_bytes-cons (len_utf8 c + byte_len t) c (t ++ r) (omega arith)
    ∙ rw (add-sub (len_utf8 c) (byte_len t)) (skip-append t r)

pub byte_len-append : (s t : Text) → byte_len (s ++ t) ≡ byte_len s + byte_len t
byte_len-append [] t = omega arith
byte_len-append (c ∷ s) t = omega (arith, byte_len-append s t)

pub byte_len-ascii : (s : Text) → All IsAscii s → byte_len s ≡ length s
unfolding len_utf8
byte_len-ascii [] a = refl
byte_len-ascii (c ∷ s) a = ground (arith, byte_len-ascii s a.1)

-- the bytes of an ASCII text are its code points
pub as_bytes-ascii : (s : Text) → All IsAscii s → as_bytes s ≡ s
as_bytes-ascii [] a = refl
as_bytes-ascii (c ∷ s) a = ground (arith, as_bytes-ascii s a.1)

-- a text whose bytes are ASCII has these as its code points
pub ascii_of_bytes : (s t : Text) → All IsAscii t → as_bytes s ≡ t → s ≡ t
ascii_of_bytes [] t a h = h
ascii_of_bytes (c ∷ s) [] a h = absurd (ground arith)
ascii_of_bytes (c ∷ s) (d ∷ t) a h = ground (arith, ascii_of_bytes s t a.1)

-- a character of the text lies across the byte position
abbrev pub Straddles : ℕ → Text → Type 0
Straddles n s =
    (p : Text) × (c : ℕ) × (t : Text) × (s ≡ p ++ c ∷ t)
    × (byte_len p < n)
    × (n < byte_len p + len_utf8 c)

pub take-none : (n : ℕ) (s : Text) → n ≤ byte_len s → take_bytes n s ≡ none → Straddles n s
unfolding take_bytes
take-none zero s l h = absurd (ground arith)
take-none (suc n) [] l h = absurd (omega arith)
take-none (suc n) (c ∷ s) l h = elim (Bool-cases (leb (len_utf8 c) (suc n))) [
  | inr over ↦ ([], c, s, refl, omega arith, ground arith)
  | inl fits ↦ elim (Option-cases (take_bytes (suc n - len_utf8 c) s)) [
    | inr (t, e) ↦ absurd (ground arith)
    | inl e ↦
        let (p, d, t, w, x, y) = take-none (suc n - len_utf8 c) s (ground arith) e in
        (c ∷ p, d, t, ap (λ (z : Text). c ∷ z) w, ground arith, ground arith)
  ]
]

take_across :
    (n : ℕ) (p : Text) (c : ℕ) (t : Text)
    → byte_len p < n
    → n < byte_len p + len_utf8 c
    → take_bytes n (p ++ c ∷ t) ≡ none
unfolding take_bytes
take_across zero p c t x y = absurd (omega arith)
take_across (suc n) [] c t x y = ground arith
take_across (suc n) (d ∷ p) c t x y = ground (arith, take_across (suc n - len_utf8 d) p c t)

pub Straddles-take : (n : ℕ) (s : Text) → Straddles n s → take_bytes n s ≡ none
Straddles-take n s (p, c, t, w, x, y) = rw w (take_across n p c t x y)

-- where a slice begins if one ends there
pub skip-some :
    (n : ℕ) (s t : Text) → take_bytes n s ≡ some t → (r : Text) × (skip_bytes n s ≡ some r)
unfolding take_bytes skip_bytes
skip-some zero s t h = (s, refl)
skip-some (suc n) [] t h = absurd (ground arith)
skip-some (suc n) (c ∷ s) t h = elim (Bool-cases (leb (len_utf8 c) (suc n))) [
  | inr over ↦ absurd (ground arith)
  | inl fits ↦ elim (Option-cases (take_bytes (suc n - len_utf8 c) s)) [
    | inl e ↦ absurd (ground arith)
    | inr (t', e) ↦ let (r, f) = skip-some (suc n - len_utf8 c) s t' e in (r, ground arith)
  ]
]
