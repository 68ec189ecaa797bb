-- ===== src/Version/Order.antt =====
-- The order of versions is linear, and its tests as inequalities
-- (client/src-tauri/src/templates.rs).
use hydropark_gym.Prelude.{◌<◌, ◌≡◌, ◌⊎◌, arith, IsLinear}
use hydropark_gym.Version.Semver.{SemVer, semver_cmp}

-- `v` is older than `w`
abbrev pub Older : SemVer → SemVer → Type 0
Older v w =
    (v.major < w.major)
    ⊎ ((v.major ≡ w.major) × (v.minor < w.minor))
    ⊎ ((v.major ≡ w.major) × (v.minor ≡ w.minor) × (v.patch < w.patch))

pub semver_cmp-IsLinear : IsLinear semver_cmp
semver_cmp-IsLinear = record {
  cmp_self = λ a. ground arith;
  eq_of_cmp = λ a b h. ground arith;
  gt_of_lt = λ a b h. ground arith;
  lt_of_gt = λ a b h. ground arith;
  lt_trans = λ a b c h k. ground arith;
}
