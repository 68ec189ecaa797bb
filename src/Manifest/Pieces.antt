-- ===== src/Manifest/Pieces.antt =====
-- Pieces and prefixes of texts that are put together, and texts of ASCII classes
-- (client/src-tauri/src/manifest.rs).
use hydropark_gym.Prelude.{
  ◌≡◌, refl, ap, sym, ◌∙◌, subst, arith, ℕ, ◌+◌, ◌/◌, ◌%◌, ◌^◌, ◌<◌, ◌≤◌, Bool, true, false, some,
  some_eq, List, [], ◌∷◌, ◌++◌, nat_eqb, ltb, all, All, Option-cases, Bool-cases, inl, inr,
}
use mathlib.Core.List.{reverse, reverse-append, reverse-reverse}
use hydropark_gym.Prelude.Text.{Text, strip_prefix, strip_suffix}
use hydropark_gym.Prelude.Utf8.{as_bytes, encode_utf8}
use hydropark_gym.Prelude.Parsing.{split_on, push_front}

abbrev pub on_last : Text → List Text → List Text
on_last t [] = []
on_last t (x ∷ []) = (x ++ t) ∷ []
on_last t (x ∷ y ∷ ys) = x ∷ on_last t (y ∷ ys)

split_on-cons : (sep : ℕ) (s : Text) → (x : Text) × (xs : List Text) × (split_on sep s ≡ x ∷ xs)
unfolding split_on
split_on-cons sep [] = ([], [], refl)
split_on-cons sep (c ∷ s) = elim (Bool-cases (nat_eqb c sep)) [
  | inl t ↦ ([], split_on sep s, ground (arith, t))
  | inr f ↦ let (x, xs, e) = split_on-cons sep s in (c ∷ x, xs, ground (arith, f, e))
]

on_last-push_front :
    (c : ℕ) (t x : Text) (xs : List Text)
    → on_last t (push_front c (x ∷ xs)) ≡ push_front c (on_last t (x ∷ xs))
on_last-push_front c t x [] = refl
on_last-push_front c t x (y ∷ ys) = refl

on_last-skip : (t x : Text) (xs : List Text) → on_last t ([] ∷ x ∷ xs) ≡ [] ∷ on_last t (x ∷ xs)
on_last-skip t x xs = refl

-- what holds no separator goes to the last piece
pub split_on-on_last :
    (sep : ℕ) (s t : Text)
    → split_on sep t ≡ t ∷ []
    → split_on sep (s ++ t) ≡ on_last t (split_on sep s)
unfolding split_on
split_on-on_last sep [] t e = e
split_on-on_last sep (c ∷ s) t e =
    let (x, xs, h) = split_on-cons sep s in
    let rest = split_on-on_last sep s t e ∙ ap (on_last t) h in
    elim (Bool-cases (nat_eqb c sep)) [
      | inl d ↦ rw (split_on, d, h, rest) refl
      | inr d ↦ rw (split_on, d, h, rest) (sym (on_last-push_front c t x xs))
    ]

-- the first byte of a character beyond ASCII is beyond ASCII
encode_head :
    (c : ℕ)
    → ltb c 0x80 ≡ false
    → (b : ℕ) × (rest : List ℕ) × (encode_utf8 c ≡ b ∷ rest) × (0x80 ≤ b)
encode_head c e = elim (Bool-cases (ltb c 0x800)) [
  | inl t ↦ (0xc0 + c / 2 ^ 6, (0x80 + c % 0x40) ∷ [], ground (arith, e, t), omega arith)
  | inr f ↦ elim (Bool-cases (ltb c 0x10000)) [
    | inl t ↦ (
      0xe0 + c / 2 ^ 12,
      (0x80 + c / 2 ^ 6 % 0x40) ∷ (0x80 + c % 0x40) ∷ [],
      ground (arith, e, f, t),
      omega arith,
    )
    | inr g ↦ (
      0xf0 + c / 2 ^ 18,
      (0x80 + c / 2 ^ 12 % 0x40) ∷ (0x80 + c / 2 ^ 6 % 0x40) ∷ (0x80 + c % 0x40) ∷ [],
      ground (arith, e, f, g),
      omega arith,
    )
  ]
]

-- texts whose bytes are all of an ASCII class
pub ascii_of_all :
    (p : ℕ → Bool)
    → ((b : ℕ) → p b ≡ true → b < 0x80)
    → (s : Text) → all p (as_bytes s) ≡ true
    → All (λ c. p c ≡ true) s
ascii_of_all p h [] e = tt
ascii_of_all p h (c ∷ s) e = elim (Bool-cases (ltb c 0x80)) [
  | inl t ↦
      let one : encode_utf8 c ≡ c ∷ [] = ground (arith, t) in
      let both = ap (λ z. all p (z ++ as_bytes s)) (sym one) ∙ e in
      (ground (arith, both), ascii_of_all p h s (ground (arith, both)))
  | inr f ↦
      let (b, rest, head, big) = encode_head c f in
      let both = ap (λ z. all p (z ++ as_bytes s)) (sym head) ∙ e in
      let low : b < 0x80 = h b (ground (arith, both)) in absurd (omega (arith, low, big))
]

-- `strip_prefix` finds what `++` put together
pub strip_prefix-append : (p s r : Text) → strip_prefix p s ≡ some r → s ≡ p ++ r
unfolding strip_prefix
strip_prefix-append [] s r e = some_eq e
strip_prefix-append (a ∷ p) [] r e = absurd (ground arith)
strip_prefix-append (a ∷ p) (b ∷ s) r e = elim (Bool-cases (nat_eqb a b)) [
  | inl t ↦
      let same : b ≡ a = ground (arith, t) in
      ap (λ z. z ∷ s) same ∙ ap (λ z. a ∷ z) (strip_prefix-append p s r (ground (arith, e, t)))
  | inr f ↦ absurd (ground (arith, e, f))
]

pub strip_suffix-append : (t s r : Text) → strip_suffix t s ≡ some r → s ≡ r ++ t
unfolding strip_suffix
strip_suffix-append t s r e = elim (Option-cases (strip_prefix (reverse t) (reverse s))) [
  | inl h ↦ absurd (ground (arith, e, h))
  | inr (q, h) ↦
      let same : reverse q ≡ r = ground (arith, e, h) in
      sym (reverse-reverse s)
      ∙ ap reverse (strip_prefix-append (reverse t) (reverse s) q h)
      ∙ reverse-append (reverse t) q
      ∙ ap (λ z. reverse q ++ z) (reverse-reverse t)
      ∙ ap (λ z. z ++ t) same
]

-- what holds of the separator and in every piece holds throughout
pub All-of_pieces :
    (P : ℕ → Type 0) (sep : ℕ) → P sep → (s : Text) → All (All P) (split_on sep s) → All P s
unfolding split_on
All-of_pieces P sep h [] a = tt
All-of_pieces P sep h (c ∷ s) a = elim (Bool-cases (nat_eqb c sep)) [
  | inl d ↦
      let same : sep ≡ c = ground (arith, d) in
      let piece : split_on sep (c ∷ s) ≡ [] ∷ split_on sep s = ground (arith, d) in
      let rest : All (All P) ([] ∷ split_on sep s) = subst (All (All P)) piece a in
      (subst P same h, All-of_pieces P sep h s rest.1)
  | inr d ↦
      let (x, xs, e) = split_on-cons sep s in
      let piece : split_on sep (c ∷ s) ≡ (c ∷ x) ∷ xs = ground (arith, d, e) in
      let rest : All (All P) ((c ∷ x) ∷ xs) = subst (All (All P)) piece a in
      (rest.0.0, All-of_pieces P sep h s (subst (All (All P)) (sym e) (rest.0.1, rest.1)))
]
