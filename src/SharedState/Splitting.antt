-- ===== src/SharedState/Splitting.antt =====
-- How the parser of slot types takes a text apart (client/src-tauri/src/shared_state.rs). The depth
-- of brackets is an `i32`, which wraps in a release build.
use hydropark_gym.Prelude.{
  ℕ, ◌++◌, Bool, true, false, not, ◌&&◌, ◌||◌, Option, none, some, List, [], ◌∷◌, if◌then◌else◌,
  nat_eqb,
}
use hydropark_gym.Prelude.Int.{ℤ, pos, negsuc, ◌+ℤ◌, wrapping_i32}
use hydropark_gym.Prelude.Text.{Text, text_eqb, trim, is_empty, strip_prefix, strip_suffix}

-- the brackets `<`, `{`, `(` and `>`, `}`, `)`
abbrev pub opens : ℕ → Bool
opens ch = nat_eqb ch 60 || nat_eqb ch 123 || nat_eqb ch 40

abbrev pub closes : ℕ → Bool
closes ch = nat_eqb ch 62 || nat_eqb ch 125 || nat_eqb ch 41

abbrev pub deeper : ℕ → ℤ → ℤ
deeper ch depth =
    if opens ch
    then wrapping_i32 (depth +ℤ pos 1)
    else if closes ch
    then wrapping_i32 (depth +ℤ negsuc 0)
    else depth

abbrev pub at_top : ℤ → Bool
at_top (pos n) = nat_eqb n 0
at_top (negsuc n) = false

-- a separator outside all brackets
abbrev pub splits : ℕ → ℤ → ℕ → Bool
splits sep depth ch = not (opens ch) && not (closes ch) && nat_eqb ch sep && at_top depth

-- the loop of `split_top_level`
unfoldable pub split_from : ℕ → ℤ → Text → List Text → Text → List Text
split_from sep depth cur out [] =
    if not (is_empty (trim cur)) || not (is_empty out) then out ++ (trim cur ∷ []) else out
split_from sep depth cur out (ch ∷ s) = elim (splits sep depth ch) [
  | true ↦ split_from sep depth [] (out ++ (trim cur ∷ [])) s
  | false ↦ split_from sep (deeper ch depth) (cur ++ (ch ∷ [])) out s
]

unfoldable pub split_top_level : Text → ℕ → List Text
split_top_level s sep = split_from sep (pos 0) [] [] s

-- the loop of `split_first_top_level`, with what stands before
unfoldable pub split_first_from : ℕ → ℤ → Text → Text → Option (Text × Text)
split_first_from sep depth before [] = none
split_first_from sep depth before (ch ∷ s) = elim (splits sep depth ch) [
  | true ↦ some (before, s)
  | false ↦ split_first_from sep (deeper ch depth) (before ++ (ch ∷ [])) s
]

unfoldable pub split_first_top_level : Text → ℕ → Option (Text × Text)
split_first_top_level s sep = split_first_from sep (pos 0) [] s

-- the text between a prefix and a suffix
abbrev pub strip_suffix_of : Text → Option Text → Option Text
strip_suffix_of suffix none = none
strip_suffix_of suffix (some s) = strip_suffix suffix s

abbrev pub between : Text → Text → Text → Option Text
between prefix suffix s = strip_suffix_of suffix (strip_prefix prefix s)

-- `Vec::dedup`
unfoldable pub dedup : List Text → List Text
dedup [] = []
dedup (v ∷ []) = v ∷ []
dedup (v ∷ w ∷ vs) = let rest = dedup (w ∷ vs) in if text_eqb v w then rest else v ∷ rest
