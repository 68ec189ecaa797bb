-- ===== src/Routing/Capabilities.antt =====
-- The closed set of capabilities (client/src-tauri/src/tool_routing.rs).
use hydropark_gym.Prelude.{
  ◌++◌, Option, List, [], ◌∷◌, Result, ok, ok_or, ◌>>=◌, find?, map, if◌then◌else◌,
}
use hydropark_gym.Prelude.Text.{Text, chars, text_eqb, is_empty, join}

pub data Capability : Type 0 where
  timers unit_conversion list_management calculation date_math : Capability

-- `Capability::ALL`
abbrev pub all : List Capability
all = timers ∷ unit_conversion ∷ list_management ∷ calculation ∷ date_math ∷ []

abbrev pub as_manifest_str : Capability → Text
as_manifest_str timers = chars "timers"
as_manifest_str unit_conversion = chars "unit_conversion"
as_manifest_str list_management = chars "list_management"
as_manifest_str calculation = chars "calculation"
as_manifest_str date_math = chars "date_math"

abbrev pub disclosure_phrase : Capability → Text
disclosure_phrase timers = chars "set timers"
disclosure_phrase unit_conversion = chars "convert units"
disclosure_phrase list_management = chars "manage a list"
disclosure_phrase calculation = chars "do calculations"
disclosure_phrase date_math = chars "do date math"

unfoldable pub from_manifest_str : Text → Option Capability
from_manifest_str s = find? (λ c. text_eqb (as_manifest_str c) s) all

pub data CapabilityError : Type 0 where
  out_of_set : Text → CapabilityError

-- `map` and `collect` into a `Result`: the first error is the result
unfoldable pub parse_capabilities : List Text → Result (List Capability) CapabilityError
parse_capabilities [] = ok []
parse_capabilities (s ∷ declared) = ok_or (from_manifest_str s) (out_of_set s) >>= λ c.
    parse_capabilities declared >>= λ caps. ok (c ∷ caps)

unfoldable pub disclose : List Capability → Text
disclose caps =
    if is_empty caps
    then chars "This skill uses no special capabilities."
    else chars "This skill can: " ++ join (chars ", ") (map disclosure_phrase caps)
