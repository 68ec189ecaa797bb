-- ===== src/Unlock/Panics.antt =====
-- The texts on which the check of a code panics (client/src-tauri/src/unlock.rs).
use hydropark_gym.Prelude.{
  ◌≡◌, ◌≢◌, ◌↔◌, inl, inr, refl, sym, ap, ◌∙◌, subst, true, Option, none, some, ◌++◌, nat_eqb,
  arith, Bool-cases,
}
use hydropark_gym.Prelude.Text.{starts_with, Text}
use hydropark_gym.Prelude.Utf8.{byte_len, take_bytes, take-skip, byte_len-append}
use hydropark_gym.Unlock.Codes.{
  canonicalize, code_head, canon_len, malformed, slice, taken, judge, verify_canonical, verify,
}
use hydropark_gym.Prelude.Utf8.{Straddles, take-none, Straddles-take, skip-some}
use hydropark_gym.Unlock.Verify.{starts_with_rest, starts_with-append, slices_of, take_all}

judge-none :
    (a b : Option Text) → judge a b ≡ none → ((n : Text) → a ≡ some n → b ≢ none) → a ≡ none
judge-none none b h k = refl
judge-none (some n) none h k = absurd (k n refl refl)
judge-none (some n) (some p) h k = absurd (ground arith)

-- the second slice is there if the first is
second_slice :
    (r n : Text) → byte_len r ≡ 24 → take_bytes 8 r ≡ some n → slice 13 16 (code_head ++ r) ≢ none
second_slice r n l h e =
    let (t, s) = skip-some 8 r n h in
    let (whole, long) = take-skip 8 r n t h s in
    let rest : byte_len t ≡ 16 = omega (arith, byte_len-append n t, ap byte_len whole) in
    let here : slice 13 16 (code_head ++ r) ≡ some t =
      ap (taken 16) ((slices_of r).1 ∙ s) ∙ ap (λ k. take_bytes k t) (sym rest) ∙ take_all t in
    cc

malformed-ne-none : some malformed ≢ none
malformed-ne-none e = cc

panic_shape :
    (s : Text)
    → verify_canonical s ≡ none
    → (byte_len s ≡ 29)
      × (starts_with code_head s ≡ true)
      × (judge (slice 5 8 s) (slice 13 16 s) ≡ none)
unfolding verify_canonical
panic_shape s h = elim (Bool-cases (nat_eqb (byte_len s) canon_len)) [
  | inr wrong ↦ absurd (malformed-ne-none (sym (rw wrong refl) ∙ h))
  | inl long ↦ elim (Bool-cases (starts_with code_head s)) [
    | inr wrong ↦ absurd (malformed-ne-none (sym (rw (long, wrong) refl) ∙ h))
    | inl head ↦ (ground arith, head, sym (rw (long, head) refl) ∙ h)
  ]
]

-- a code's length and head, with a character across the end of the nonce
abbrev pub SplitsNonce : Text → Type 0
SplitsNonce s = (r : Text) × (s ≡ code_head ++ r) × (byte_len r ≡ 24) × Straddles 8 r

panics_iff : (s : Text) → (verify_canonical s ≡ none) ↔ SplitsNonce s
unfolding verify_canonical
panics_iff s = (
  λ h.
      let (l, head, j) = panic_shape s h in
      let (r, e) = starts_with_rest code_head s head in
      let long : byte_len r ≡ 24 = omega (arith, (slices_of r).2, ap byte_len e) in
      let first_none =
        judge-none (slice 5 8 (code_head ++ r)) (slice 13 16 (code_head ++ r))
          (subst (λ t. judge (slice 5 8 t) (slice 13 16 t) ≡ none) e j)
          (λ n q. second_slice r n long (sym ((slices_of r).0) ∙ q)) in
      (r, e, long, take-none 8 r (omega arith) (sym ((slices_of r).0) ∙ first_none)),
  λ k.
      let (r, e, long, across) = k in
      let fits : nat_eqb (byte_len (code_head ++ r)) canon_len ≡ true =
        ground (arith, (slices_of r).2) in
      let cut : slice 5 8 (code_head ++ r) ≡ none = (slices_of r).0 ∙ Straddles-take 8 r across in
      rw (e, fits, starts_with-append code_head r, cut) refl,
)

-- The check panics on exactly these texts: their significant characters take 29 bytes and begin as a
-- code does, and one of them lies across the end of the eight bytes of the nonce.
pub verify-none_iff :
    (user_input : Text) → (verify user_input ≡ none) ↔ SplitsNonce (canonicalize user_input)
unfolding verify
verify-none_iff user_input = panics_iff (canonicalize user_input)
