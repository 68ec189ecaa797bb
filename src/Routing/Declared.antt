-- ===== src/Routing/Declared.antt =====
-- What a declaration of capabilities is accepted as (client/src-tauri/src/tool_routing.rs).
use hydropark_gym.Prelude.{
  ◌≡◌, refl, ap, ap₂, sym, ◌∙◌, ◌↔◌, arith, none, some, List, [], ◌∷◌, ◌++◌, Result, ok, err, ok_or,
  >>=-eq-ok, map, Option-cases, Result-cases, inl, inr,
}
use hydropark_gym.Prelude.Text.{Text, text_eqb_iff}
use hydropark_gym.Routing.Capabilities.{
  Capability, timers, unit_conversion, list_management, calculation, date_math, as_manifest_str,
  from_manifest_str, CapabilityError, out_of_set, parse_capabilities,
}

from_manifest_str-as_manifest_str :
    (s : Text) (c : Capability) → (from_manifest_str s ≡ some c) ↔ (as_manifest_str c ≡ s)
unfolding from_manifest_str
from_manifest_str-as_manifest_str s c = ground (
  arith,
  text_eqb_iff (as_manifest_str timers) s,
  text_eqb_iff (as_manifest_str unit_conversion) s,
  text_eqb_iff (as_manifest_str list_management) s,
  text_eqb_iff (as_manifest_str calculation) s,
  text_eqb_iff (as_manifest_str date_math) s,
)

parse_of_tokens : (caps : List Capability) → parse_capabilities (map as_manifest_str caps) ≡ ok caps
unfolding parse_capabilities
parse_of_tokens [] = refl
parse_of_tokens (c ∷ caps) =
    let p = (from_manifest_str-as_manifest_str (as_manifest_str c) c).1 refl in
    let q = parse_of_tokens caps in rw p (rw q refl)

tokens_of_parse :
    (declared : List Text) (caps : List Capability)
    → parse_capabilities declared ≡ ok caps
    → map as_manifest_str caps ≡ declared
unfolding parse_capabilities
tokens_of_parse [] caps h =
    let same : [] ≡ caps = ground arith in ap (map as_manifest_str) (sym same)
tokens_of_parse (s ∷ declared) caps h =
    let (c, p, h₁) = >>=-eq-ok (ok_or (from_manifest_str s) (out_of_set s)) _ h in
    let (rest, q, h₂) = >>=-eq-ok (parse_capabilities declared) _ h₁ in
    let same : c ∷ rest ≡ caps = ground arith in
    let token : as_manifest_str c ≡ s = (from_manifest_str-as_manifest_str s c).0 (ground arith) in
    ap (map as_manifest_str) (sym same) ∙ ap₂ (◌∷◌) token (tokens_of_parse declared rest q)

-- the first token of a declaration that is outside the set
abbrev pub IsFirstOutside : List Text → Text → Type 0
IsFirstOutside declared v =
    (before : List Capability) × ((behind : List Text) × ((declared
          ≡ map as_manifest_str before ++ v ∷ behind)
        × (from_manifest_str v ≡ none)))

parse_capabilities_err :
    (declared : List Text) (v : Text)
    → parse_capabilities declared ≡ err (out_of_set v)
    → IsFirstOutside declared v
unfolding parse_capabilities
parse_capabilities_err [] v h = absurd (ground arith)
parse_capabilities_err (s ∷ declared) v h = elim (Option-cases (from_manifest_str s)) [
  | inl e ↦
      let same : s ≡ v = ground (arith, e) in
      ([], (declared, (ap (λ z. z ∷ declared) same, ap from_manifest_str (sym same) ∙ e)))
  | inr (c, e) ↦ elim (Result-cases (parse_capabilities declared)) [
    | inl (caps, p) ↦ absurd (ground (arith, e, p))
    | inr (out_of_set w, p) ↦
        let same : w ≡ v = ground (arith, e, p) in
        let (before, (behind, (q, n))) =
          parse_capabilities_err declared v (p ∙ ap (λ z. err (out_of_set z)) same) in
        let token : s ≡ as_manifest_str c = sym ((from_manifest_str-as_manifest_str s c).0 e) in
        (c ∷ before, (behind, (ap₂ (◌∷◌) token q, n)))
  ]
]

abbrev pub DeclarationOutcome : List Text → Result (List Capability) CapabilityError → Type 0
DeclarationOutcome declared (ok caps) = map as_manifest_str caps ≡ declared
DeclarationOutcome declared (err (out_of_set v)) = IsFirstOutside declared v

-- A declaration is accepted as the capabilities whose tokens it lists, in order, or refused with its
-- first token outside the set, the tokens before which are tokens of capabilities. A list of tokens
-- of capabilities is accepted as these.
pub parse_capabilities_lem :
    (declared : List Text) (caps : List Capability)
    → DeclarationOutcome declared (parse_capabilities declared)
      × (parse_capabilities (map as_manifest_str caps) ≡ ok caps)
parse_capabilities_lem declared caps = (
  elim (Result-cases (parse_capabilities declared)) [
    | inl (found, e) ↦ rw e (tokens_of_parse declared found e)
    | inr (out_of_set v, e) ↦ rw e (parse_capabilities_err declared v e)
  ],
  parse_of_tokens caps,
)
