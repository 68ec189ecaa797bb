-- ===== src/Version/Semver.antt =====
-- Semantic versions (client/src-tauri/src/templates.rs; skill_manager.rs holds a copy of the same
-- code). The components are `u64`.
use hydropark_gym.Prelude.{
  ℕ, ◌+◌, Bool, true, false, ◌||◌, List, [], ◌∷◌, ◌++◌, compare, Ordering, then_with, Result, ok,
  err, ok_or, ◌>>=◌, nat_eqb, leb, if◌then◌else◌,
}
use hydropark_gym.Prelude.Text.{Text, chars, trim, is_empty}
use hydropark_gym.Prelude.Decimal.{decimal}
use hydropark_gym.Prelude.Parsing.{split_on, until, parse_u64}

pub record SemVer : Type 0 where
  pub major : ℕ
  pub minor : ℕ
  pub patch : ℕ

-- the derived `Ord`
abbrev pub semver_cmp : SemVer → SemVer → Ordering
semver_cmp v w =
    then_with (compare v.major w.major)
      (then_with (compare v.minor w.minor) (compare v.patch w.patch))

-- the derived `PartialEq`
abbrev pub semver_eqb : SemVer → SemVer → Bool
semver_eqb v w = elim (semver_cmp v w) [ Ordering.eq ↦ true | _ ↦ false ]

abbrev pub new : ℕ → ℕ → ℕ → SemVer
new major minor patch = record { major = major; minor = minor; patch = patch }

-- where the release core ends
abbrev pub is_suffix_start : ℕ → Bool
is_suffix_start c = nat_eqb c b'-' || nat_eqb c b'+'

abbrev pub quoted : Text → Text
quoted s = b'\'' ∷ (s ++ b'\'' ∷ [])

-- the error for a part that is no `u64`
abbrev invalid_part : Text → Text → Text
invalid_part s part =
    chars "invalid version component " ++ (quoted part ++ (chars " in " ++ quoted s))

abbrev parse_part : Text → Text → Result ℕ Text
parse_part s part = ok_or (parse_u64 part) (invalid_part s part)

-- `nums[i] = n`
abbrev set_num : ℕ → ℕ → SemVer → SemVer
set_num i n nums =
    if nat_eqb i 0
    then record nums { major = n }
    else if nat_eqb i 1
    then record nums { minor = n }
    else record nums { patch = n }

-- the loop over the parts, from the `i`-th on
unfoldable pub parse_parts : Text → ℕ → SemVer → List Text → Result SemVer Text
parse_parts s i nums [] = ok nums
parse_parts s i nums (part ∷ parts) =
    if leb 3 i
    then err (chars "too many version components in " ++ quoted s)
    else parse_part s part >>= λ n. parse_parts s (i + 1) (set_num i n nums) parts

-- `SemVer::from_str`
unfoldable pub parse : Text → Result SemVer Text
unfolding parse_parts
parse s =
    let core = trim (until is_suffix_start s) in
    if is_empty core
    then err (chars "empty version string: " ++ quoted s)
    else parse_parts s 0 (new 0 0 0) (split_on b'.' core)

-- `Display`
unfoldable pub display : SemVer → Text
display v = decimal v.major ++ b'.' ∷ (decimal v.minor ++ b'.' ∷ decimal v.patch)
