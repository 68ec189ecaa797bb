-- ===== src/Manifest/Issues.antt =====
-- The issues that the validation reports (client/src-tauri/src/manifest.rs). A validator returns the
-- issues that it pushes, in order.
use hydropark_gym.Prelude.{
  ℕ, ◌+◌, Bool, true, false, ◌||◌, Option, none, some, List, [], ◌∷◌, ◌++◌, ltb, any, length,
  Ordering, if◌then◌else◌,
}
use hydropark_gym.Prelude.Int.{ℤ, pos, int_cmp}
use hydropark_gym.Prelude.Text.{Text, chars, text_eqb}
use hydropark_gym.Prelude.TreeMap.{BTreeMap, get}
use hydropark_gym.Prelude.Decimal.{decimal}
use hydropark_gym.Prelude.Json.{Json}

pub data Code : Type 0 where
  missing_field : Code
  invalid_type : Code
  invalid_enum : Code
  invalid_length : Code
  out_of_range : Code
  invalid_semver : Code
  invalid_format : Code
  invalid_asset_path : Code
  invalid_slot_schema : Code
  invalid_pricing : Code
  unknown_tool_ref : Code
  unknown_capability : Code
  unknown_widget_type : Code
  unknown_state_ref : Code
  unknown_property : Code
  duplicate_panel_id : Code
  undeclared_default_locale : Code

pub record ValidationIssue : Type 0 where
  pub code : Code
  pub message : Text
  pub pointer : Text

abbrev pub Issues : Type 0
Issues = List ValidationIssue

abbrev pub new : Code → Text → Text → ValidationIssue
new code message pointer = record { code = code; message = message; pointer = pointer }

abbrev pub push : Code → Text → Text → Issues
push code message pointer = new code message pointer ∷ []

-- `[&str]::contains`
abbrev pub contains : List Text → Text → Bool
contains set s = any (λ t. text_eqb t s) set

-- `front'value'behind`
abbrev pub quoting : Text → Text → Text → Text
quoting front value behind = front ++ (b'\'' ∷ (value ++ (b'\'' ∷ behind)))

-- `/key`, `base/i`
abbrev pub ptr : Text → Text
ptr key = b'/' ∷ key

abbrev pub at_index : Text → ℕ → Text
at_index base i = base ++ (b'/' ∷ decimal i)

abbrev pub at_key : Text → Text → Text
at_key base key = base ++ (b'/' ∷ key)

-- `if let Some(x) = o { .. }`
abbrev pub when_some : {A : Type 0} → Option A → (A → Issues) → Issues
when_some none f = []
when_some (some x) f = f x

-- `match o { Some(x) if ok(x) => {}, Some(x) => push(bad), None => push(absent) }`
abbrev pub expect : {A : Type 0} → Option A → (A → Bool) → (A → Issues) → Issues → Issues
expect none is_ok bad absent = absent
expect (some x) is_ok bad absent = if is_ok x then [] else bad x

-- the rest for the value that a `match` finds, or the issue of its other arm
abbrev pub found : {A : Type 0} → Option A → Issues → (A → Issues) → Issues
found none absent rest = absent
found (some x) absent rest = rest x

-- what validators push one after another
abbrev pub in_order : List Issues → Issues
in_order [] = []
in_order (issues ∷ rest) = issues ++ in_order rest

-- a loop over `iter().enumerate()`, from the `i`-th on
unfoldable pub each_from : {A : Type 0} → (ℕ → A → Issues) → ℕ → List A → Issues
each_from f i [] = []
each_from f i (x ∷ xs) = f i x ++ each_from f (i + 1) xs

abbrev pub each : {A : Type 0} → (ℕ → A → Issues) → List A → Issues
each f xs = each_from f 0 xs

abbrev below : ℤ → ℤ → Bool
below a b = elim (int_cmp a b) [ Ordering.lt ↦ true | _ ↦ false ]

-- `required field 'key' is missing`
abbrev pub is_missing : Text → Text → Issues
is_missing key pointer =
    push missing_field (quoting (chars "required field ") key (chars " is missing")) pointer

-- `'key' must be ..`
abbrev pub must_be : Code → Text → Text → Text → Issues
must_be code key what pointer = push code (quoting [] key (chars " must be " ++ what)) pointer

-- `check_len`
unfoldable pub check_len : Text → ℕ → ℕ → Text → Issues
check_len s min max pointer =
    let n = length s in
    if ltb n min
    then push invalid_length (chars "must be at least " ++ (decimal min ++ chars " character(s)"))
        pointer
    else if ltb max n
    then push invalid_length (chars "must be at most " ++ (decimal max ++ chars " character(s)"))
        pointer
    else []

module _ {V : Type 0} ⦃json : Json V⦄ where
  -- a required field of the kind that `view` tells, with the arms for a missing field and for another
  -- type
  abbrev pub required :
      {A : Type 0} → BTreeMap V → (V → Option A) → Text → Text → Text → (A → Issues) → Issues
  required obj view key what pointer rest =
      found (get key obj) (is_missing key pointer)
        (λ v. found (view v) (must_be invalid_type key what pointer) rest)

  -- `req_string`, with what its caller does with the string
  abbrev pub req_string : BTreeMap V → Text → (Text → Issues) → Issues
  req_string obj key rest = required obj json.as_str key (chars "a string") (ptr key) rest

  -- an optional string field, whose arms are an accepted string, another string and another type
  abbrev pub optional_string : BTreeMap V → Text → Text → (Text → Bool) → (Text → Issues) → Issues
  optional_string obj key pointer is_ok bad =
      when_some (get key obj) (λ v.
        expect (json.as_str v) is_ok bad (must_be invalid_type key (chars "a string") pointer))

  unfoldable pub req_int : V → ℕ → ℕ → Text → Text → Issues
  req_int v min max field pointer =
      found (json.as_i64 v) (must_be invalid_type field (chars "an integer") pointer) (λ n.
        if below n (pos min) || below (pos max) n
        then must_be out_of_range field
            (chars "in " ++ (decimal min ++ (chars "..=" ++ decimal max))) pointer
        else [])

  -- an optional array of strings of a format
  abbrev pub strings_at : BTreeMap V → Text → Text → (Text → Bool) → (Text → Issues) → Text → Issues
  strings_at obj key pointer is_ok bad what = when_some (get key obj) (λ v.
      found (json.as_array v) (must_be invalid_type key (chars "an array") pointer) (λ arr.
        each
          (λ i e.
            expect (json.as_str e) is_ok (λ s. bad (at_index pointer i))
              (push invalid_type (what ++ chars " must be a string") (at_index pointer i)))
          arr))
