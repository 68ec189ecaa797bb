-- ===== src/Examples/Unlock.antt =====
-- The code that the tests of the repository pin, and a text on which the check panics
-- (client/src-tauri/src/unlock.rs).
use hydropark_gym.Prelude.{
  ℕ, ◌≡◌, ◌↔◌, refl, sym, some_eq, true, false, Bool, Option, none, some, [], ◌∷◌, ◌++◌, arith,
}
use hydropark_gym.Prelude.Int.{ℤ, pos, negsuc}
use hydropark_gym.Prelude.Text.{Text, chars, strip_prefix}
use hydropark_gym.Prelude.Utf8.{byte_len, len_utf8, skip_bytes, take_bytes}
use hydropark_gym.Unlock.Sha256.{sha256, hmac_sha256}
use hydropark_gym.Unlock.Codes.{
  verify, valid, bad_signature, canonicalize, code_head, tag_for, ct_eq, b32, signed_text,
}
use hydropark_gym.Unlock.Verify.{verify_iff}
use hydropark_gym.Unlock.Panics.{SplitsNonce, verify-none_iff}
use hydropark_gym.Unlock.Redeem.{
  UnlockState, Files, Format, unlock_redeem, mark_unlocked_via_purchase, accepted, unlock_status,
  read_state, write_state, apply_unlock,
}
use hydropark_gym.Unlock.Persists.{IsFaithful, IsUnlocked, app_after, unlock_redeem-persists}

-- the digest of the empty message
sha256_empty :
    sha256 []
    ≡ 0xe3 ∷ 0xb0 ∷ 0xc4 ∷ 0x42 ∷ 0x98 ∷ 0xfc ∷ 0x1c ∷ 0x14 ∷ 0x9a ∷ 0xfb ∷ 0xf4 ∷ 0xc8 ∷ 0x99
      ∷ 0x6f ∷ 0xb9 ∷ 0x24 ∷ 0x27 ∷ 0xae ∷ 0x41 ∷ 0xe4 ∷ 0x64 ∷ 0x9b ∷ 0x93 ∷ 0x4c ∷ 0xa4 ∷ 0x95
      ∷ 0x99 ∷ 0x1b ∷ 0x78 ∷ 0x52 ∷ 0xb8 ∷ 0x55 ∷ []
unfolding sha256
sha256_empty = refl

abbrev code : Text
code = chars "  hp0 ca 000g40r4 p04f ahyy xghj h115 "

code_valid : verify code ≡ some (valid (chars "000G40R4"))
unfolding verify canonicalize len_utf8 strip_prefix skip_bytes take_bytes ct_eq tag_for b32
    hmac_sha256 signed_text
code_valid = refl

verify_iff_example : (verify code ≡ some (valid (chars "000G40R4"))) ↔ (
    (byte_len (chars "000G40R4") ≡ 8)
    × (canonicalize code ≡ code_head ++ (chars "000G40R4" ++ tag_for (chars "000G40R4"))))
verify_iff_example = verify_iff code (chars "000G40R4")

tampered : verify (chars "HP0-CA-000G40R4-P04F-AHYY-XGHJ-H11Z") ≡ some bad_signature
unfolding verify canonicalize len_utf8 strip_prefix skip_bytes take_bytes ct_eq tag_for b32
    hmac_sha256 signed_text
tampered = refl

-- a capital I with a dot, whose low byte is that of the digit 0
abbrev dotted : Text
dotted = chars "HP0CA0000000" ++ 0x130 ∷ chars "000000000000000"

dotted_panics : verify dotted ≡ none
unfolding verify canonicalize len_utf8 strip_prefix skip_bytes take_bytes
dotted_panics = refl

verify-none_iff_example : (verify dotted ≡ none) ↔ SplitsNonce (canonicalize dotted)
verify-none_iff_example = verify-none_iff dotted

-- Files that hold one text, and a printed form in which the nonce stands behind a flag.
abbrev one_file : Files (Option Text)
one_file = record { has_dir = λ f. true; read = λ f. f; write = λ f t. (true, some t) }

abbrev redeemed_at : ℕ → Text → UnlockState
redeemed_at ms nonce = record {
  cooking_assistant = record {
    unlocked = true;
    nonce = some nonce;
    redeemed_at_ms = some (pos ms);
  };
}

-- It prints the states that a redemption leaves: the time, and behind it the nonce.
print_parts : Bool → Option Text → Option ℤ → Option Text
print_parts true (some nonce) (some (pos ms)) = some (ms ∷ nonce)
print_parts _ _ _ = none

abbrev print_state : UnlockState → Option Text
print_state s = let u = s.cooking_assistant in print_parts u.unlocked u.nonce u.redeemed_at_ms

abbrev parse_state : Text → Option UnlockState
parse_state [] = none
parse_state (ms ∷ nonce) = some (redeemed_at ms nonce)

abbrev flat_format : Format
flat_format = record { from_str = parse_state; to_string_pretty = print_state }

parse_parts :
    (b : Bool) (n : Option Text) (ms : Option ℤ) (t : Text)
    → print_parts b n ms ≡ some t
    → parse_state t
      ≡ some
          (record { cooking_assistant = record { unlocked = b; nonce = n; redeemed_at_ms = ms } })
unfolding print_parts
parse_parts true (some nonce) (some (pos ms)) t h = rw (sym (some_eq h)) refl
parse_parts true (some nonce) (some (negsuc ms)) t h = absurd (ground arith)
parse_parts true (some nonce) none t h = absurd (ground arith)
parse_parts true none ms t h = absurd (ground arith)
parse_parts false n ms t h = absurd (ground arith)

flat_format-IsFaithful : IsFaithful one_file flat_format
flat_format-IsFaithful = record {
  stored = λ f t h. refl;
  same_dir = λ f t. refl;
  printed =
      λ s t h. let u = s.cooking_assistant in parse_parts u.unlocked u.nonce u.redeemed_at_ms t h;
}

unlock_redeem-persists_example :
    let app = app_after one_file flat_format (pos 5) none (some (chars "000G40R4")) in
    (unlock_redeem one_file flat_format (pos 5) (none, false) code
      ≡ some (accepted one_file flat_format (unlock_status one_file flat_format none), app))
    × IsUnlocked one_file flat_format app.0 (chars "000G40R4")
    × IsUnlocked one_file flat_format
        (mark_unlocked_via_purchase one_file flat_format (pos 9) app).0
        (chars "000G40R4")
unfolding write_state read_state apply_unlock print_parts
unlock_redeem-persists_example =
    unlock_redeem-persists one_file flat_format flat_format-IsFaithful (pos 5) (pos 9) none false
      code (chars "000G40R4") code_valid refl refl
