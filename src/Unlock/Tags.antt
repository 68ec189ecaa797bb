-- ===== src/Unlock/Tags.antt =====
-- The tag of a nonce is sixteen letters of the alphabet, as bytes and as characters
-- (client/src-tauri/src/unlock.rs).
use hydropark_gym.Prelude.{
  ℕ, zero, suc, ◌+◌, ◌-◌, ◌%◌, ◌^◌, ◌≡◌, inl, inr, refl, ◌∙◌, [], ◌∷◌, ◌++◌, length, All,
  All-append, leb, ltb, ◌*◌, ◌/◌, arith, Bool-cases,
}
use hydropark_gym.Prelude.Text.{Text}
use hydropark_gym.Prelude.Utf8.{IsAscii, as_bytes, byte_len, byte_len-ascii, as_bytes-ascii}
use hydropark_gym.Unlock.Sha256.{
  Bytes, word, Words, words_bytes, sha256, hmac_sha256, xor_pad, block_key,
}
use hydropark_gym.Unlock.Codes.{
  alphabet, letter, emit, tag_bytes, letter_at, b32, b32_from, first, tag_for, signed_text,
  shared_secret,
}

letter_at-IsAscii : (l : Bytes) (n : ℕ) → All IsAscii l → IsAscii (letter_at l n)
letter_at-IsAscii [] n a = omega arith
letter_at-IsAscii (b ∷ l) zero a = a.0
letter_at-IsAscii (b ∷ l) (suc n) a = letter_at-IsAscii l n a.1

alphabet-IsAscii : All IsAscii alphabet
alphabet-IsAscii = omega arith

letter-IsAscii : (n : ℕ) → IsAscii (letter n)
letter-IsAscii n = letter_at-IsAscii alphabet (n % 2 ^ 5) alphabet-IsAscii

emit-IsAscii : (fuel bits value : ℕ) → All IsAscii (emit fuel bits value).0
emit-IsAscii zero bits value = tt
emit-IsAscii (suc fuel) bits value = elim (Bool-cases (leb 5 bits)) [
  | inr few ↦ rw few tt
  | inl enough ↦
      rw enough (letter-IsAscii (value / 2 ^ (bits - 5)), emit-IsAscii fuel (bits - 5) value)
]

b32_from-IsAscii : (bits value : ℕ) (bytes : Bytes) → All IsAscii (b32_from bits value bytes)
unfolding b32_from
b32_from-IsAscii bits value [] = elim (Bool-cases (ltb 0 bits)) [
  | inl some_left ↦ rw some_left (letter-IsAscii (value * 2 ^ (5 - bits)), tt)
  | inr none_left ↦ rw none_left tt
]
b32_from-IsAscii bits value (byte ∷ rest) =
    let next = word (value * 2 ^ 8) + byte in
    All-append IsAscii (emit 3 (bits + 8) next).0 (b32_from (emit 3 (bits + 8) next).1 next rest)
      (emit-IsAscii 3 (bits + 8) next) (b32_from-IsAscii (emit 3 (bits + 8) next).1 next rest)

pub tag-IsAscii : (nonce : Text) → All IsAscii (tag_for nonce)
unfolding tag_for b32
tag-IsAscii nonce =
    b32_from-IsAscii 0 0
      (first tag_bytes (hmac_sha256 shared_secret (as_bytes (signed_text nonce))))

-- ten bytes give sixteen letters
length-b32_ten :
    (x0 x1 x2 x3 x4 x5 x6 x7 x8 x9 : ℕ)
    → length (b32 (x0 ∷ x1 ∷ x2 ∷ x3 ∷ x4 ∷ x5 ∷ x6 ∷ x7 ∷ x8 ∷ x9 ∷ [])) ≡ 16
unfolding b32
length-b32_ten x0 x1 x2 x3 x4 x5 x6 x7 x8 x9 = refl

length-b32_words : (v : Words) → length (b32 (first tag_bytes (words_bytes v))) ≡ 16
length-b32_words v = length-b32_ten _ _ _ _ _ _ _ _ _ _

sha256_words : (msg : Bytes) → (v : Words) × (sha256 msg ≡ words_bytes v)
unfolding sha256
sha256_words msg = (_, refl)

hmac_words : (key msg : Bytes) → (v : Words) × (hmac_sha256 key msg ≡ words_bytes v)
unfolding hmac_sha256
hmac_words key msg =
    sha256_words (xor_pad 0x5c (block_key key) ++ sha256 (xor_pad 0x36 (block_key key) ++ msg))

length-tag : (nonce : Text) → length (tag_for nonce) ≡ 16
unfolding tag_for
length-tag nonce =
    let (v, e) = hmac_words shared_secret (as_bytes (signed_text nonce)) in
    rw e (length-b32_words v)

pub tag-bytes : (nonce : Text) → as_bytes (tag_for nonce) ≡ tag_for nonce
tag-bytes nonce = as_bytes-ascii (tag_for nonce) (tag-IsAscii nonce)

pub byte_len-tag : (nonce : Text) → byte_len (tag_for nonce) ≡ 16
byte_len-tag nonce = byte_len-ascii (tag_for nonce) (tag-IsAscii nonce) ∙ length-tag nonce
