-- ===== src/Version/RoundTrip.antt =====
-- Printed versions are parsed back (client/src-tauri/src/templates.rs).
use hydropark_gym.Prelude.{
  ℕ, ◌<◌, ◌≡◌, ◌⊎◌, inl, inr, refl, ◌≢◌, false, [], ◌∷◌, ◌++◌, ok, All, All-append, All-map,
  nat_eqb, arith,
}
use hydropark_gym.Prelude.Text.{Text, is_whitespace, is_empty}
use hydropark_gym.Prelude.Decimal.{decimal, IsDigit, decimal-IsDigit, decimal-ne-nil}
use hydropark_gym.Prelude.Parsing.{
  Avoids, Avoids-of_range, split_on, split_on-append, split_on-Avoids, until-Avoids, trim-Avoids,
  parse_u64-decimal, u64_limit,
}
use hydropark_gym.Version.Semver.{SemVer, parse, parse_parts, display, is_suffix_start, new}

-- the components are `u64`
abbrev pub IsWord : SemVer → Type 0
IsWord v = (v.major < u64_limit) × (v.minor < u64_limit) × (v.patch < u64_limit)

-- a digit or a dot
abbrev pub IsCore : ℕ → Type 0
IsCore c = IsDigit c ⊎ (c ≡ 46)

Core-of_digits : (n : ℕ) → All IsCore (decimal n)
Core-of_digits n = All-map IsDigit IsCore (decimal n) (λ c d. inl d) (decimal-IsDigit n)

pub display-IsCore : (v : SemVer) → All IsCore (display v)
unfolding display
display-IsCore v = All-append IsCore (decimal v.major) _ (Core-of_digits v.major) (
  inr refl,
  All-append IsCore (decimal v.minor) _ (Core-of_digits v.minor) (inr refl, Core-of_digits v.patch),
)

core-not-suffix : (c : ℕ) → IsCore c → is_suffix_start c ≡ false
core-not-suffix c (inl d) = ground arith
core-not-suffix c (inr d) = ground arith

pub core-not-space : (c : ℕ) → IsCore c → is_whitespace c ≡ false
unfolding is_whitespace
core-not-space c (inl d) = ground arith
core-not-space c (inr d) = ground arith

digits-no-dot : (n : ℕ) → Avoids (λ c. nat_eqb c 46) (decimal n)
digits-no-dot n = Avoids-of_range _ IsDigit (λ c d. ground arith) (decimal n) (decimal-IsDigit n)

append-not_empty : (s r : Text) → s ≢ [] → is_empty (s ++ r) ≡ false
unfolding is_empty
append-not_empty [] r n = absurd (n refl)
append-not_empty (c ∷ s) r n = refl

display-not_empty : (v : SemVer) → is_empty (display v) ≡ false
unfolding display
display-not_empty v = append-not_empty (decimal v.major) _ (decimal-ne-nil v.major)

display-split :
    (v : SemVer)
    → split_on 46 (display v) ≡ decimal v.major ∷ decimal v.minor ∷ decimal v.patch ∷ []
unfolding display
display-split v = rw (
  split_on-append 46 (decimal v.major) (decimal v.minor ++ 46 ∷ decimal v.patch)
      (digits-no-dot v.major),
  split_on-append 46 (decimal v.minor) (decimal v.patch) (digits-no-dot v.minor),
  split_on-Avoids 46 (decimal v.patch) (digits-no-dot v.patch),
)

parse_parts-numbers :
    (s : Text) (v : SemVer)
    → IsWord v
    → parse_parts s 0 (new 0 0 0) (decimal v.major ∷ decimal v.minor ∷ decimal v.patch ∷ []) ≡ ok v
unfolding parse_parts
parse_parts-numbers s v w =
    rw (parse_u64-decimal v.major w.0, parse_u64-decimal v.minor w.1, parse_u64-decimal v.patch w.2)

pub parse-display : (v : SemVer) → IsWord v → parse (display v) ≡ ok v
unfolding parse
parse-display v w =
    let core = display-IsCore v in
    rw
      (
        until-Avoids is_suffix_start (display v)
            (Avoids-of_range _ IsCore core-not-suffix (display v) core),
        trim-Avoids (display v) (Avoids-of_range _ IsCore core-not-space (display v) core),
        display-not_empty v,
        display-split v,
      )
      (parse_parts-numbers (display v) v w)
