-- ===== src/Templates/Pins.antt =====
-- Version pins (client/src-tauri/src/templates.rs).
use hydropark_gym.Prelude.{
  ℕ, ◌+◌, ◌%◌, ◌^◌, Bool, not, ◌&&◌, none, some, ◌++◌, is_gt, ltb, Result, ok, ◌>>=◌, if◌then◌else◌,
}
use hydropark_gym.Prelude.Text.{Text, chars, trim, strip_prefix}
use hydropark_gym.Version.Semver
use hydropark_gym.Version.Semver.{SemVer, semver_cmp, semver_eqb, new}

pub data RangeOp : Type 0 where
  exact : RangeOp
  greater_eq : RangeOp
  caret : RangeOp

pub record VersionConstraint : Type 0 where
  pub op : RangeOp
  pub base : SemVer

-- `VersionConstraint::at_least`
abbrev pub at_least : SemVer → VersionConstraint
at_least base = record { op = greater_eq; base = base }

-- `u64` additions, which wrap in a release build
abbrev pub next_word : ℕ → ℕ
next_word n = (n + 1) % 2 ^ 64

unfoldable pub caret_ceiling : SemVer → SemVer
caret_ceiling base =
    if ltb 0 base.major
    then new (next_word base.major) 0 0
    else if ltb 0 base.minor
    then new 0 (next_word base.minor) 0
    else new 0 0 (next_word base.patch)

-- `>=` and `<` of the derived order
abbrev pub at_or_above : SemVer → SemVer → Bool
at_or_above v w = not (is_gt (semver_cmp w v))

abbrev pub below : SemVer → SemVer → Bool
below v w = is_gt (semver_cmp w v)

-- the `match` of `matches`
unfoldable pub matches_op : RangeOp → SemVer → SemVer → Bool
unfolding caret_ceiling
matches_op exact base version = semver_eqb version base
matches_op greater_eq base version = at_or_above version base
matches_op caret base version = at_or_above version base && below version (caret_ceiling base)

-- `VersionConstraint::matches`
unfoldable pub matches : VersionConstraint → SemVer → Bool
unfolding matches_op
matches pin version = matches_op pin.op pin.base version

-- the operator and the rest of the text
abbrev pub split_op : Text → RangeOp × Text
split_op s = elim (strip_prefix (chars ">=") s) [
  | some r ↦ (greater_eq, r)
  | none ↦ elim (strip_prefix (chars "^") s) [
    | some r ↦ (caret, r)
    | none ↦ elim (strip_prefix (chars "=") s) [ some r ↦ (exact, r) | none ↦ (exact, s) ]
  ]
]

-- `VersionConstraint::from_str`
unfoldable pub parse_pin : Text → Result VersionConstraint Text
parse_pin s =
    let (op, rest) = split_op (trim s) in
    Semver.parse (trim rest) >>= λ base. ok (record { op = op; base = base })

abbrev pub op_text : RangeOp → Text
op_text exact = chars "="
op_text greater_eq = chars ">="
op_text caret = chars "^"

-- `Display`
unfoldable pub display_pin : VersionConstraint → Text
display_pin pin = op_text pin.op ++ Semver.display pin.base
