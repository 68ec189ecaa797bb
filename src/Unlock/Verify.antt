-- ===== src/Unlock/Verify.antt =====
-- Which codes are valid (client/src-tauri/src/unlock.rs).
use mathlib.Core.List.{append-nil}
use hydropark_gym.Prelude.{
  ◌+◌, ◌≡◌, ◌≢◌, ◌↔◌, inl, inr, refl, sym, ap, ap₂, ◌∙◌, subst, true, Option, none, some, [], ◌∷◌,
  ◌++◌, nat_eqb, arith, Bool-cases, Option-cases, some_eq,
}
use hydropark_gym.Prelude.Text.{starts_with, Text, strip_prefix}
use hydropark_gym.Prelude.Utf8.{
  as_bytes, byte_len, skip_bytes, take_bytes, len_utf8, take-skip, take-append, skip-append,
  byte_len-append, ascii_of_bytes,
}
use hydropark_gym.Unlock.Codes.{
  tag_for, ct_eq, canonicalize, code_head, canon_len, VerifyOutcome, valid, malformed, slice, taken,
  judged, judge, verify_canonical, verify,
}
use hydropark_gym.Unlock.Compare.{ct_eq_iff}
use hydropark_gym.Unlock.Tags.{tag-IsAscii, tag-bytes, byte_len-tag}

pub starts_with_rest : (p s : Text) → starts_with p s ≡ true → (r : Text) × (s ≡ p ++ r)
unfolding strip_prefix
starts_with_rest [] s h = (s, refl)
starts_with_rest (a ∷ p) [] h = absurd (ground arith)
starts_with_rest (a ∷ p) (b ∷ s) h = elim (Bool-cases (nat_eqb a b)) [
  | inr differ ↦ absurd (ground arith)
  | inl same ↦
      let (r, e) = starts_with_rest p s (ground arith) in let head : a ≡ b = ground arith in (r, cc)
]

pub starts_with-append : (p r : Text) → starts_with p (p ++ r) ≡ true
unfolding strip_prefix
starts_with-append [] r = refl
starts_with-append (a ∷ p) r = ground (arith, starts_with-append p r)

-- the slices of a code behind its head
pub slices_of :
    (r : Text)
    → (slice 5 8 (code_head ++ r) ≡ take_bytes 8 r)
      × (skip_bytes 13 (code_head ++ r) ≡ skip_bytes 8 r)
      × (byte_len (code_head ++ r) ≡ 5 + byte_len r)
unfolding skip_bytes len_utf8
slices_of r = (refl, refl, omega arith)

pub take_all : (s : Text) → take_bytes (byte_len s) s ≡ some s
take_all s = subst (λ t. take_bytes (byte_len s) t ≡ some s) (append-nil s) (take-append s [])

-- the tag of the nonce is what the code presents
judged-valid :
    (n nonce presented : Text)
    → judged n presented ≡ valid nonce
    → (n ≡ nonce) × (presented ≡ tag_for n)
judged-valid n nonce presented h =
    elim (Bool-cases (ct_eq (as_bytes presented) (as_bytes (tag_for n)))) [
      | inr differ ↦ absurd (ground arith)
      | inl same ↦
          let bytes = (ct_eq_iff (as_bytes presented) (as_bytes (tag_for n))).0 same in
          (ground arith, ascii_of_bytes presented (tag_for n) (tag-IsAscii n) (bytes ∙ tag-bytes n))
    ]

judged-tag : (n : Text) → judged n (tag_for n) ≡ valid n
judged-tag n = rw ((ct_eq_iff (as_bytes (tag_for n)) (as_bytes (tag_for n))).1 refl) refl

judge_parts :
    (a b : Option Text) (o : VerifyOutcome)
    → judge a b ≡ some o
    → (n : Text) × (p : Text) × (a ≡ some n) × (b ≡ some p) × (judged n p ≡ o)
judge_parts none b o h = absurd (ground arith)
judge_parts (some n) none o h = absurd (ground arith)
judge_parts (some n) (some p) o h = (n, p, refl, refl, some_eq h)

-- the second slice is taken from what stands behind the nonce
slice_parts :
    (r presented : Text)
    → slice 13 16 (code_head ++ r) ≡ some presented
    → (t : Text) × (skip_bytes 8 r ≡ some t) × (take_bytes 16 t ≡ some presented)
slice_parts r presented h = elim (Option-cases (skip_bytes 13 (code_head ++ r))) [
  | inl n ↦ absurd (ground arith)
  | inr (t, e) ↦ (t, sym ((slices_of r).1) ∙ e, ground arith)
]

-- the body of a code that is as long as a code is, and begins as one
body_valid :
    (r nonce : Text)
    → byte_len r ≡ 24
    → judge (slice 5 8 (code_head ++ r)) (slice 13 16 (code_head ++ r)) ≡ some (valid nonce)
    → (byte_len nonce ≡ 8) × (r ≡ nonce ++ tag_for nonce)
body_valid r nonce l h =
    let (n, p, a, b, j) =
      judge_parts (slice 5 8 (code_head ++ r)) (slice 13 16 (code_head ++ r)) (valid nonce) h in
    let (t, s, k) = slice_parts r p b in
    let (whole, long) = take-skip 8 r n t (sym ((slices_of r).0) ∙ a) s in
    let (same, tag) = judged-valid n nonce p j in
    let rest : byte_len t ≡ 16 = omega (arith, byte_len-append n t, ap byte_len whole) in
    let all : t ≡ p = some_eq (sym (take_all t) ∙ rw rest k) in
    (rw (sym same) long, whole ∙ rw (all, tag, same) refl)

body-tag :
    (nonce : Text)
    → byte_len nonce ≡ 8
    → let r = nonce ++ tag_for nonce in
      judge (slice 5 8 (code_head ++ r)) (slice 13 16 (code_head ++ r)) ≡ some (valid nonce)
body-tag nonce l =
    let tag = tag_for nonce in
    let r = nonce ++ tag in
    let a : slice 5 8 (code_head ++ r) ≡ some nonce =
      (slices_of r).0 ∙ ap (λ k. take_bytes k r) (sym l) ∙ take-append nonce tag in
    let behind : skip_bytes 13 (code_head ++ r) ≡ some tag =
      (slices_of r).1 ∙ ap (λ k. skip_bytes k r) (sym l) ∙ skip-append nonce tag in
    let b : slice 13 16 (code_head ++ r) ≡ some tag =
      ap (taken 16) behind ∙ ap (λ k. take_bytes k tag) (sym (byte_len-tag nonce)) ∙ take_all tag in
    ap₂ judge a b ∙ ap some (judged-tag nonce)

some_malformed : (nonce : Text) → some malformed ≢ some (valid nonce)
some_malformed nonce e = cc

-- what a text is that is not refused as malformed
shape_of :
    (s nonce : Text)
    → verify_canonical s ≡ some (valid nonce)
    → (byte_len s ≡ 29)
      × (starts_with code_head s ≡ true)
      × (judge (slice 5 8 s) (slice 13 16 s) ≡ some (valid nonce))
unfolding verify_canonical
shape_of s nonce h = elim (Bool-cases (nat_eqb (byte_len s) canon_len)) [
  | inr wrong ↦ absurd (some_malformed nonce (sym (rw wrong refl) ∙ h))
  | inl long ↦ elim (Bool-cases (starts_with code_head s)) [
    | inr wrong ↦ absurd (some_malformed nonce (sym (rw (long, wrong) refl) ∙ h))
    | inl head ↦ (ground (arith), head, sym (rw (long, head) refl) ∙ h)
  ]
]

canonical_iff :
    (s nonce : Text)
    → (verify_canonical s ≡ some (valid nonce))
      ↔ ((byte_len nonce ≡ 8) × (s ≡ code_head ++ (nonce ++ tag_for nonce)))
unfolding verify_canonical
canonical_iff s nonce = (
  λ h.
      let (l, head, j) = shape_of s nonce h in
      let (r, e) = starts_with_rest code_head s head in
      let long : byte_len r ≡ 24 = omega (arith, (slices_of r).2, ap byte_len e) in
      let (eight, whole) =
        body_valid r nonce long
          (subst (λ t. judge (slice 5 8 t) (slice 13 16 t) ≡ some (valid nonce)) e j) in
      (eight, e ∙ ap (λ (t : Text). code_head ++ t) whole),
  λ k.
      let r = nonce ++ tag_for nonce in
      let long : nat_eqb (byte_len (code_head ++ r)) canon_len ≡ true =
        ground
          (arith, (slices_of r).2, byte_len-append nonce (tag_for nonce), byte_len-tag nonce) in
      rw (k.1, long, starts_with-append code_head r) (body-tag nonce k.0),
)

-- A text is accepted, with the nonce `nonce`, exactly if its significant characters are the head of
-- a code, a nonce of eight bytes, and the tag of this nonce, whatever their case and whatever stands
-- between them.
pub verify_iff :
    (user_input nonce : Text)
    → (verify user_input ≡ some (valid nonce))
      ↔ ((byte_len nonce ≡ 8) × (canonicalize user_input ≡ code_head ++ (nonce ++ tag_for nonce)))
unfolding verify
verify_iff user_input nonce = canonical_iff (canonicalize user_input) nonce
