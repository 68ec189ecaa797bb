-- ===== src/Manifest/Formats.antt =====
-- The format predicates of a manifest (client/src-tauri/src/manifest.rs).
use hydropark_gym.Prelude.{
  ℕ, Bool, true, false, not, ◌&&◌, ◌||◌, Option, none, some, List, [], ◌∷◌, leb, nat_eqb, length,
  all, if◌then◌else◌,
}
use hydropark_gym.Prelude.Text.{
  Text, chars, text_eqb, starts_with, ends_with, strip_prefix, strip_suffix, is_empty,
  is_ascii_lowercase, is_ascii_uppercase, is_ascii_digit, is_ascii_alphanumeric,
}
use hydropark_gym.Prelude.Utf8.{as_bytes, byte_len}
use hydropark_gym.Prelude.Parsing.{split_on}

abbrev in_front : ℕ → Option (Text × Text) → Option (Text × Text)
in_front c none = none
in_front c (some (s, t)) = some (c ∷ s, t)

-- `str::split_once`
unfoldable pub split_once : ℕ → Text → Option (Text × Text)
split_once sep [] = none
split_once sep (c ∷ s) =
    let rest = in_front c (split_once sep s) in if nat_eqb c sep then some ([], s) else rest

-- `bytes().all(..)` on a text that is not empty
abbrev pub all_bytes : (ℕ → Bool) → Text → Bool
all_bytes p s = not (is_empty s) && all p (as_bytes s)

abbrev starts_with_zero : List ℕ → Bool
starts_with_zero [] = false
starts_with_zero (b ∷ bytes) = nat_eqb b b'0'

unfoldable pub is_num_id : Text → Bool
unfolding is_empty
is_num_id s =
    text_eqb s (chars "0")
    || (not (is_empty s) && not (starts_with_zero (as_bytes s)) && all is_ascii_digit (as_bytes s))

unfoldable pub is_dot_dash_alnum : Text → Bool
unfolding is_empty
is_dot_dash_alnum s = all_bytes (λ b. is_ascii_alphanumeric b || nat_eqb b b'.' || nat_eqb b b'-') s

-- a text cut in front of its separator, and whether what stands behind it is well-formed
abbrev cut : ℕ → Text → Text × Bool
cut sep s = elim (split_once sep s) [
  | none ↦ (s, true)
  | some (front, behind) ↦ (front, is_dot_dash_alnum behind)
]

unfoldable pub is_semver : Text → Bool
unfolding split_once is_dot_dash_alnum is_num_id
is_semver s =
    let (rest, build) = cut b'+' s in
    let (core, pre) = cut b'-' rest in
    let parts = split_on b'.' core in
    build && pre && nat_eqb (length parts) 3 && all is_num_id parts

unfoldable pub is_widget_version : Text → Bool
unfolding is_empty
is_widget_version s =
    let parts = split_on b'.' s in
    (nat_eqb (length parts) 2 || nat_eqb (length parts) 3) && all (all_bytes is_ascii_digit) parts

abbrev pub is_slug_byte : ℕ → Bool
is_slug_byte b = is_ascii_lowercase b || is_ascii_digit b

unfoldable pub is_skill_id : Text → Bool
unfolding is_empty split_on
is_skill_id s =
    leb 2 (byte_len s) && leb (byte_len s) 64 && all (all_bytes is_slug_byte) (split_on b'-' s)

abbrev is_ident_byte : ℕ → Bool
is_ident_byte b = is_ascii_lowercase b || is_ascii_digit b || nat_eqb b b'_'

abbrev starts_with_lowercase : List ℕ → Bool
starts_with_lowercase [] = false
starts_with_lowercase (b ∷ bytes) = is_ascii_lowercase b

unfoldable pub is_ident_name : Text → Bool
is_ident_name s =
    let b = as_bytes s in
    leb 1 (length b) && leb (length b) 48 && starts_with_lowercase b && all is_ident_byte b

-- the `match` of `is_locale` on the bytes
abbrev locale_bytes : List ℕ → Bool
locale_bytes (a ∷ b ∷ []) = is_ascii_lowercase a && is_ascii_lowercase b
locale_bytes (a ∷ b ∷ c ∷ d ∷ e ∷ []) =
    is_ascii_lowercase a
    && is_ascii_lowercase b
    && nat_eqb c b'-'
    && is_ascii_uppercase d
    && is_ascii_uppercase e
locale_bytes _ = false

unfoldable pub is_locale : Text → Bool
is_locale s = locale_bytes (as_bytes s)

abbrev pub is_path_byte : ℕ → Bool
is_path_byte b = is_ascii_alphanumeric b || nat_eqb b b'_' || nat_eqb b b'-'

abbrev pub is_path_stem : Option Text → Bool
is_path_stem none = false
is_path_stem (some stem) = not (is_empty stem) && all (all_bytes is_path_byte) (split_on b'/' stem)

unfoldable pub is_svg_asset_path : Text → Bool
unfolding is_empty strip_suffix strip_prefix split_on
is_svg_asset_path s = leb (byte_len s) 128 && is_path_stem (strip_suffix (chars ".svg") s)

unfoldable pub is_currency : Text → Bool
is_currency s = nat_eqb (byte_len s) 3 && all is_ascii_uppercase (as_bytes s)

unfoldable pub is_slot_schema_shape : Text → Bool
unfolding strip_suffix strip_prefix
is_slot_schema_shape s =
    text_eqb s (chars "scalar")
    || text_eqb s (chars "list")
    || text_eqb s (chars "record")
    || ((starts_with (chars "scalar<") s
          || starts_with (chars "list<") s
          || starts_with (chars "record<") s)
        && ends_with (chars ">") s)
