-- ===== src/SharedState/Pieces.antt =====
-- The parts of a text are no longer than the text (client/src-tauri/src/shared_state.rs).
use mathlib.Core.List.{reverse, reverse-cons}
use hydropark_gym.Prelude.{
  ℕ, ◌+◌, ◌≡◌, ◌≤◌, ◌<◌, refl, ap, ◌∙◌, subst, arith, ◌++◌, not, ◌||◌, some, List, [], ◌∷◌, length,
  length-append, All, All-append, Bool-cases, Option-cases, inl, inr,
}
use hydropark_gym.Prelude.Int.{ℤ}
use hydropark_gym.Prelude.Text.{strip_suffix, Text, trim, trim_start, is_empty, strip_prefix}
use hydropark_gym.SharedState.Splitting.{splits, deeper, split_from, split_first_from, between}

length-reverse : {A : Type 0} (l : List A) → length (reverse l) ≡ length l
length-reverse [] = refl
length-reverse (x ∷ l) =
    ap length (reverse-cons x l)
    ∙ omega (arith, length-append (reverse l) (x ∷ []), length-reverse l)

length-trim_start : (s : Text) → length (trim_start s) ≤ length s
unfolding trim_start
length-trim_start [] = omega arith
length-trim_start (c ∷ s) = ground (arith, length-trim_start s)

pub length-trim : (s : Text) → length (trim s) ≤ length s
unfolding trim
length-trim s = omega (
  arith,
  length-reverse (trim_start (reverse (trim_start s))),
  length-trim_start (reverse (trim_start s)),
  length-reverse (trim_start s),
  length-trim_start s,
)

length-strip_prefix : (p s r : Text) → strip_prefix p s ≡ some r → length r + length p ≡ length s
unfolding strip_prefix
length-strip_prefix [] s r h = let same : s ≡ r = ground arith in omega (arith, ap length same)
length-strip_prefix (a ∷ p) [] r h = absurd (ground arith)
length-strip_prefix (a ∷ p) (b ∷ s) r h =
    let q : strip_prefix p s ≡ some r = ground arith in omega (arith, length-strip_prefix p s r q)

length-strip_suffix : (p s r : Text) → strip_suffix p s ≡ some r → length r + length p ≡ length s
unfolding strip_suffix
length-strip_suffix p s r h = elim (Option-cases (strip_prefix (reverse p) (reverse s))) [
  | inl e ↦ absurd (ground (arith, e))
  | inr (q, e) ↦
      let same : reverse q ≡ r = ground (arith, e) in
      omega (
        arith,
        ap length same,
        length-reverse q,
        length-reverse p,
        length-reverse s,
        length-strip_prefix (reverse p) (reverse s) q e,
      )
]

-- what stands between a prefix and a suffix is shorter by both
pub length-between :
    (p q s r : Text) → between p q s ≡ some r → length r + length p + length q ≡ length s
length-between p q s r h = elim (Option-cases (strip_prefix p s)) [
  | inl e ↦ absurd (ground (arith, e))
  | inr (t, e) ↦
      let f : strip_suffix q t ≡ some r = ground (arith, e) in
      omega (arith, length-strip_prefix p s t e, length-strip_suffix q t r f)
]

-- every piece of a split is no longer than the text
pub pieces_short :
    (sep : ℕ) (depth : ℤ) (cur : Text) (out : List Text) (s : Text) (n : ℕ)
    → length cur + length s ≤ n
    → All (λ p. length p ≤ n) out
    → All (λ p. length p ≤ n) (split_from sep depth cur out s)
unfolding split_from
pieces_short sep depth cur out [] n h a =
    elim (Bool-cases (not (is_empty (trim cur)) || not (is_empty out))) [
      | inl e ↦ rw e (
          All-append (λ p. length p ≤ n) out (trim cur ∷ []) a (omega (arith, length-trim cur), tt))
      | inr e ↦ rw e a
    ]
pieces_short sep depth cur out (ch ∷ s) n h a = elim (Bool-cases (splits sep depth ch)) [
  | inl e ↦
      let step : split_from sep depth [] (out ++ (trim cur ∷ [])) s
          ≡ split_from sep depth cur out (ch ∷ s) =
        ground (arith, e) in
      subst (All (λ p. length p ≤ n)) step (
        pieces_short sep depth [] (out ++ (trim cur ∷ [])) s n (omega arith) (
          All-append (λ p. length p ≤ n) out (trim cur ∷ []) a
            (omega (arith, length-trim cur), tt)))
  | inr e ↦
      let step : split_from sep (deeper ch depth) (cur ++ (ch ∷ [])) out s
          ≡ split_from sep depth cur out (ch ∷ s) =
        ground (arith, e) in
      subst (All (λ p. length p ≤ n)) step (
        pieces_short sep (deeper ch depth) (cur ++ (ch ∷ [])) out s n
          (omega (arith, length-append cur (ch ∷ []))) a)
]

-- so is what stands behind the first separator
pub behind_short :
    (sep : ℕ) (depth : ℤ) (before s : Text) (r : Text × Text)
    → split_first_from sep depth before s ≡ some r
    → length r.1 < length s
unfolding split_first_from
behind_short sep depth before [] r h = absurd (ground arith)
behind_short sep depth before (ch ∷ s) r h = elim (Bool-cases (splits sep depth ch)) [
  | inl e ↦
      let same : (before, s) ≡ r = ground (arith, e) in omega (arith, ap (λ z. length z.1) same)
  | inr e ↦
      let q : split_first_from sep (deeper ch depth) (before ++ (ch ∷ [])) s ≡ some r =
        ground (arith, e) in
      omega (arith, behind_short sep (deeper ch depth) (before ++ (ch ∷ [])) s r q)
]
