-- ===== src/Unlock/Codes.antt =====
-- The code scheme: what a user types, brought to its significant characters, and the check of its
-- tag (client/src-tauri/src/unlock.rs).
use Prim.Native.Nat.{bit_or, bit_xor}
use hydropark_gym.Prelude.{
  ℕ, zero, suc, ◌+◌, ◌-◌, ◌*◌, ◌/◌, ◌%◌, ◌^◌, Bool, false, not, ◌||◌, Option, none, some, [], ◌∷◌,
  ◌++◌, length, nat_eqb, leb, ltb, if◌then◌else◌,
}
use hydropark_gym.Prelude.Text.{Text, chars, starts_with, to_ascii_uppercase}
use hydropark_gym.Prelude.Utf8.{as_bytes, byte_len, skip_bytes, take_bytes}
use hydropark_gym.Unlock.Sha256.{Bytes, word, hmac_sha256}

abbrev pub shared_secret : Bytes
shared_secret = chars "hp0-unlock-shared-secret::throwaway::not-a-license-key"

abbrev pub sign_prefix : Text
sign_prefix = chars "HP0"

abbrev pub product : Text
product = chars "cooking-assistant"

abbrev pub cooking_assistant_skill_id : Text
cooking_assistant_skill_id = chars "cooking-assistant"

-- Crockford's alphabet, which has no I, L, O and U
abbrev pub alphabet : Bytes
alphabet = chars "0123456789ABCDEFGHJKMNPQRSTVWXYZ"

abbrev pub tag_bytes : ℕ
tag_bytes = 10

abbrev pub canon_len : ℕ
canon_len = 5 + 8 + 16

-- what each code begins with
abbrev pub code_head : Text
code_head = chars "HP0CA"

abbrev pub contains : Bytes → ℕ → Bool
contains [] c = false
contains (b ∷ bs) c = nat_eqb b c || contains bs c

-- the `match` of `canonicalize`
abbrev pub look_alike : ℕ → ℕ
look_alike c = if nat_eqb c b'O' then b'0' else if nat_eqb c b'I' || nat_eqb c b'L' then b'1' else c

-- `c as u8` keeps the low byte of a character
unfoldable pub canonicalize : Text → Text
canonicalize [] = []
canonicalize (ch ∷ input) =
    let c = look_alike (to_ascii_uppercase ch) in
    let rest = canonicalize input in if contains alphabet (c % 2 ^ 8) then c ∷ rest else rest

-- an index into the alphabet, which the mask keeps in it
abbrev pub letter_at : Bytes → ℕ → ℕ
letter_at [] i = 0
letter_at (b ∷ bs) zero = b
letter_at (b ∷ bs) (suc i) = letter_at bs i

abbrev pub letter : ℕ → ℕ
letter n = letter_at alphabet (n % 2 ^ 5)

-- the inner loop of `b32`, which gives letters while there are five bits: the letters and the bits
-- left; `fuel` bounds the rounds
abbrev pub emit : ℕ → ℕ → ℕ → Text × ℕ
emit zero bits value = ([], bits)
emit (suc fuel) bits value =
    let more = emit fuel (bits - 5) value in
    if leb 5 bits then (letter (value / 2 ^ (bits - 5)) ∷ more.0, more.1) else ([], bits)

-- the loop over the bytes; a round never has more than 12 bits
unfoldable pub b32_from : ℕ → ℕ → Bytes → Text
b32_from bits value [] = if ltb 0 bits then letter (value * 2 ^ (5 - bits)) ∷ [] else []
b32_from bits value (byte ∷ rest) =
    let next = word (value * 2 ^ 8) + byte in
    let (out, left) = emit 3 (bits + 8) next in out ++ b32_from left next rest

unfoldable pub b32 : Bytes → Text
unfolding b32_from
b32 bytes = b32_from 0 0 bytes

abbrev pub first : ℕ → Bytes → Bytes
first zero bytes = []
first (suc n) [] = []
first (suc n) (b ∷ bytes) = b ∷ first n bytes

unfoldable pub signed_text : Text → Text
signed_text nonce8 = sign_prefix ++ b'|' ∷ (product ++ b'|' ∷ nonce8)

unfoldable pub tag_for : Text → Text
unfolding signed_text
tag_for nonce8 = b32 (first tag_bytes (hmac_sha256 shared_secret (as_bytes (signed_text nonce8))))

-- the loop of `ct_eq`
unfoldable pub differences : ℕ → Bytes → Bytes → ℕ
differences diff (a ∷ xs) (b ∷ ys) = differences (bit_or diff (bit_xor a b)) xs ys
differences diff _ _ = diff

unfoldable pub ct_eq : Bytes → Bytes → Bool
unfolding differences
ct_eq xs ys =
    if not (nat_eqb (length xs) (length ys)) then false else nat_eqb (differences 0 xs ys) 0

pub data VerifyOutcome : Type 0 where
  valid : (nonce : Text) → VerifyOutcome
  malformed : VerifyOutcome
  bad_signature : VerifyOutcome

-- `&s[from..from + len]`
abbrev pub taken : ℕ → Option Text → Option Text
taken len none = none
taken len (some s) = take_bytes len s

abbrev pub slice : ℕ → ℕ → Text → Option Text
slice from len s = taken len (skip_bytes from s)

abbrev pub judged : Text → Text → VerifyOutcome
judged nonce8 presented =
    if ct_eq (as_bytes presented) (as_bytes (tag_for nonce8)) then valid nonce8 else bad_signature

-- the two slices of a code, either of which panics off a character's edge
abbrev pub judge : Option Text → Option Text → Option VerifyOutcome
judge (some nonce8) (some presented) = some (judged nonce8 presented)
judge _ _ = none

unfoldable pub verify_canonical : Text → Option VerifyOutcome
verify_canonical s =
    if not (nat_eqb (byte_len s) canon_len) || not (starts_with code_head s)
    then some malformed
    else judge (slice 5 8 s) (slice 13 16 s)

-- `verify`; `none` is a panic
unfoldable pub verify : Text → Option VerifyOutcome
unfolding verify_canonical
verify user_input = verify_canonical (canonicalize user_input)
