-- ===== src/Templates/Ranges.antt =====
-- Pins as ranges of versions, and their printed form (client/src-tauri/src/templates.rs).
use hydropark_gym.Prelude.{
  ◌+◌, ◌≤◌, ◌<◌, ◌≡◌, ◌⊎◌, ◌↔◌, refl, true, false, ok, arith, ◌++◌, All-append,
}
use hydropark_gym.Prelude.Text.{Text, is_whitespace, strip_prefix}
use hydropark_gym.Prelude.Parsing.{Avoids, Avoids-of_range, trim-Avoids, u64_limit}
use hydropark_gym.Version.Semver
use hydropark_gym.Version.Semver.{SemVer}
use hydropark_gym.Version.RoundTrip.{IsWord, IsCore, display-IsCore, core-not-space, parse-display}
use hydropark_gym.Templates.Pins.{
  RangeOp, exact, greater_eq, caret, VersionConstraint, matches, matches_op, parse_pin, display_pin,
  op_text, split_op,
}

-- `v` is `w` or a later version
abbrev pub AtLeast : SemVer → SemVer → Type 0
AtLeast v w =
    (w.major < v.major)
    ⊎ ((w.major ≡ v.major) × (w.minor < v.minor))
    ⊎ ((w.major ≡ v.major) × (w.minor ≡ v.minor) × (w.patch ≤ v.patch))

-- `v` has the components of `w` up to the first that is not 0 (the patch if all are 0)
abbrev pub SameLine : SemVer → SemVer → Type 0
SameLine v w =
    ((0 < w.major) × (v.major ≡ w.major))
    ⊎ ((w.major ≡ 0) × (0 < w.minor) × (v.major ≡ 0) × (v.minor ≡ w.minor))
    ⊎ ((w.major ≡ 0) × (w.minor ≡ 0) × (v.major ≡ 0) × (v.minor ≡ 0) × (v.patch ≡ w.patch))

-- the versions that a pin admits
abbrev pub Admits : RangeOp → SemVer → SemVer → Type 0
Admits exact base v = v ≡ base
Admits greater_eq base v = AtLeast v base
Admits caret base v = AtLeast v base × SameLine v base

-- no component is the last `u64`
abbrev pub HasNext : SemVer → Type 0
HasNext v = (v.major + 1 < u64_limit) × (v.minor + 1 < u64_limit) × (v.patch + 1 < u64_limit)

Admits-op :
    (op : RangeOp) (base v : SemVer)
    → HasNext base
    → (matches_op op base v ≡ true) ↔ Admits op base v
unfolding matches_op
Admits-op exact base v h = (λ m. ground arith, λ a. ground arith)
Admits-op greater_eq base v h = (λ m. ground arith, λ a. ground arith)
Admits-op caret base v h = (λ m. ground arith, λ a. ground arith)

-- A pin with components below the last `u64` admits exactly a range: `=` the base itself, `>=` the
-- base and every later version, and `^` those of them that agree with the base up to its first
-- component that is not 0.
pub matches_iff :
    (pin : VersionConstraint) (v : SemVer)
    → HasNext pin.base
    → (matches pin v ≡ true) ↔ Admits pin.op pin.base v
unfolding matches
matches_iff pin v h = Admits-op pin.op pin.base v h

op_text-no_space : (op : RangeOp) → Avoids is_whitespace (op_text op)
unfolding is_whitespace
op_text-no_space exact = (refl, tt)
op_text-no_space greater_eq = (refl, (refl, tt))
op_text-no_space caret = (refl, tt)

display-no_space : (v : SemVer) → Avoids is_whitespace (Semver.display v)
display-no_space v =
    Avoids-of_range is_whitespace IsCore core-not-space (Semver.display v) (display-IsCore v)

split-op_text : (op : RangeOp) (r : Text) → split_op (op_text op ++ r) ≡ (op, r)
unfolding strip_prefix
split-op_text exact r = refl
split-op_text greater_eq r = refl
split-op_text caret r = refl

-- The printed form of a pin, whose components are below 2^64, is parsed back to the pin.
pub parse_pin-display_pin :
    (pin : VersionConstraint) → IsWord pin.base → parse_pin (display_pin pin) ≡ ok pin
unfolding parse_pin display_pin
parse_pin-display_pin pin w =
    rw
      (
        trim-Avoids (op_text pin.op ++ Semver.display pin.base) (
            All-append (λ c. is_whitespace c ≡ false) (op_text pin.op) (Semver.display pin.base)
              (op_text-no_space pin.op) (display-no_space pin.base)),
        split-op_text pin.op (Semver.display pin.base),
        trim-Avoids (Semver.display pin.base) (display-no_space pin.base),
        parse-display pin.base w,
      )
      refl
