-- ===== src/SharedState/ParseTotal.antt =====
-- The parser of slot types ends (client/src-tauri/src/shared_state.rs).
use hydropark_gym.Prelude.{
  ℕ, zero, suc, ◌≡◌, ◌≢◌, ◌≤◌, ◌<◌, refl, sym, ap, ◌∙◌, arith, Bool, not, ◌||◌, Option, none, some,
  List, [], ◌∷◌, length, Result, ok, err, All, Bool-cases, Option-cases, inl, inr,
}
use hydropark_gym.Prelude.Int.{pos}
use hydropark_gym.Prelude.Text.{strip_suffix, Text, chars, text_eqb, trim, is_empty}
use hydropark_gym.SharedState.Types.{SlotType, struct, Fields, end}
use hydropark_gym.SharedState.Splitting.{split_top_level, split_first_top_level, between}
use hydropark_gym.SharedState.Schema.{
  Parse, then_parse, list_of, add_field, all_name_chars, field_name, parse_named, parse_field_at,
  parse_field, parse_pieces, parse_record_fields, parse_item, parse_record, parse_list,
  parse_scalar, parse_trimmed, parse_at,
}
use hydropark_gym.SharedState.Pieces.{length-trim, length-between, pieces_short, behind_short}

-- a step that ends, and whose continuations end
then_parse_total :
    {A B : Type 0} (p : Parse A) (k : A → Parse B)
    → p ≢ none
    → ((a : A) → k a ≢ none)
    → then_parse p k ≢ none
then_parse_total none k h f = absurd (h refl)
then_parse_total (some (err e)) k h f = λ q. ground arith
then_parse_total (some (ok a)) k h f = f a

some_total : {A : Type 0} (r : Result A Text) → some r ≢ none
some_total r q = ground arith

split_first_short :
    (text : Text) (r : Text × Text)
    → split_first_top_level text 58 ≡ some r
    → length r.1 < length text
unfolding split_first_top_level
split_first_short text r e = behind_short 58 (pos 0) [] text r e

module _ (parse_type : Text → Parse SlotType) (n : ℕ)
    (total : (s : Text) → length s < n → parse_type s ≢ none) where
  parse_named_total :
      (raw : Text) (name : Text × Bool) (ty_raw : Text)
      → length ty_raw < n
      → parse_named parse_type raw name ty_raw ≢ none
  unfolding parse_named
  parse_named_total raw (name, required) ty_raw h q =
      let ends =
        then_parse_total {B = Text × (SlotType × Bool)} (parse_type (trim ty_raw))
          (λ ty. some (ok (name, (ty, required))))
          (total (trim ty_raw) (omega (arith, length-trim ty_raw)))
          (λ ty. some_total (ok (name, (ty, required)))) in
      elim (Bool-cases (is_empty name || not (all_name_chars name))) [
        | inl e ↦ ground (arith, e)
        | inr e ↦ ends (ground (arith, e))
      ]

  parse_field_total : (text : Text) → length text ≤ n → parse_field parse_type text ≢ none
  unfolding parse_field parse_field_at
  parse_field_total text h q = elim (Option-cases (split_first_top_level text 58)) [
    | inl e ↦ ground (arith, e)
    | inr (r, e) ↦
        parse_named_total (trim r.0) (field_name (trim r.0) (strip_suffix (chars "?") (trim r.0)))
          r.1 (omega (arith, split_first_short text r e))
          (sym (ap (parse_field_at parse_type text) e) ∙ q)
  ]

  parse_pieces_total :
      (fields : Fields) (pieces : List Text)
      → All (λ p. length p ≤ n) pieces
      → parse_pieces parse_type fields pieces ≢ none
  unfolding parse_pieces
  parse_pieces_total fields [] a q = ground arith
  parse_pieces_total fields (raw ∷ pieces) (h, a) q = elim (Bool-cases (is_empty (trim raw))) [
    | inl e ↦ parse_pieces_total fields pieces a (ground (arith, e))
    | inr e ↦
        then_parse_total (parse_field parse_type (trim raw))
          (λ f.
            then_parse (some (add_field f.0 f.1 fields))
              (λ more. parse_pieces parse_type more pieces))
          (parse_field_total (trim raw) (omega (arith, length-trim raw)))
          (λ f.
            then_parse_total (some (add_field f.0 f.1 fields))
              (λ more. parse_pieces parse_type more pieces) (λ z. ground arith)
              (λ more. parse_pieces_total more pieces a))
          (ground (arith, e))
  ]

  parse_record_fields_total :
      (inner : Text) → length inner ≤ n → parse_record_fields parse_type inner ≢ none
  unfolding parse_record_fields split_top_level
  parse_record_fields_total inner h =
      parse_pieces_total end (split_top_level inner 44)
        (pieces_short 44 (pos 0) [] [] inner n (omega arith) tt)

  parse_item_total : (inner : Text) → length inner < n → parse_item parse_type inner ≢ none
  parse_item_total inner h q =
      let ends =
        then_parse_total (parse_type inner) (λ ty. some (list_of ty)) (total inner h)
          (λ ty. some_total (list_of ty)) in
      elim (Bool-cases (text_eqb inner (chars "item"))) [
        | inl e ↦ ground (arith, e)
        | inr e ↦ ends (ground (arith, e))
      ]

  parse_record_total :
      (s : Text) (o : Option Text)
      → length s ≤ n
      → between (chars "record{") (chars "}") s ≡ o
      → parse_record parse_type s o ≢ none
  parse_record_total s none h e = λ q. ground arith
  parse_record_total s (some inner) h e =
      then_parse_total (parse_record_fields parse_type inner) (λ r. some (ok (struct r)))
        (parse_record_fields_total inner
          (omega (arith, length-between (chars "record{") (chars "}") s inner e)))
        (λ r. some_total (ok (struct r)))

  parse_list_total :
      (s : Text) (o : Option Text)
      → length s ≤ n
      → between (chars "list<") (chars ">") s ≡ o
      → parse_list parse_type s o ≢ none
  parse_list_total s (some inner) h e =
      parse_item_total (trim inner)
        (omega (arith, length-trim inner, length-between (chars "list<") (chars ">") s inner e))
  parse_list_total s none h e = λ q. elim (Bool-cases (text_eqb s (chars "record"))) [
    | inl f ↦ ground (arith, f)
    | inr f ↦
        parse_record_total s (between (chars "record{") (chars "}") s) h refl (ground (arith, f))
  ]

  parse_scalar_total :
      (s : Text) (o : Option Text) → length s ≤ n → parse_scalar parse_type s o ≢ none
  parse_scalar_total s (some inner) h = some_total _
  parse_scalar_total s none h = parse_list_total s (between (chars "list<") (chars ">") s) h refl

  parse_trimmed_total : (s : Text) → length s ≤ n → parse_trimmed parse_type s ≢ none
  unfolding parse_trimmed
  parse_trimmed_total s h q = elim (Bool-cases (is_empty s)) [
    | inl e ↦ ground (arith, e)
    | inr e ↦ elim (Bool-cases (text_eqb s (chars "scalar"))) [
      | inl f ↦ ground (arith, e, f)
      | inr f ↦
          parse_scalar_total s (between (chars "scalar<") (chars ">") s) h (ground (arith, e, f))
    ]
  ]

pub parse_at_total : (n : ℕ) (s : Text) → length s < n → parse_at n s ≢ none
unfolding parse_at
parse_at_total zero s h = absurd (omega arith)
parse_at_total (suc n) s h =
    parse_trimmed_total (parse_at n) n (λ t k. parse_at_total n t k) (trim s)
      (omega (arith, length-trim s))

-- the result that the parse has
abbrev pub result_of : (p : Parse SlotType) → p ≢ none → Result SlotType Text
result_of none h = absurd (h refl)
result_of (some r) h = r

-- the parser, with more fuel than the text is long
unfoldable pub parse_slot_type : Text → Result SlotType Text
parse_slot_type schema =
    result_of (parse_at (suc (length schema)) schema)
      (parse_at_total (suc (length schema)) schema (omega arith))

-- The parser of slot types ends on every schema: with any fuel above the length of the schema it
-- has a result.
pub parse_at-ends :
    (fuel : ℕ) (schema : Text)
    → length schema < fuel
    → (r : Result SlotType Text) × (parse_at fuel schema ≡ some r)
parse_at-ends fuel schema h = elim (Option-cases (parse_at fuel schema)) [
  | inl e ↦ absurd (parse_at_total fuel schema h e)
  | inr r ↦ r
]
