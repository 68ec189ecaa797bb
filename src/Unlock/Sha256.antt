-- ===== src/Unlock/Sha256.antt =====
-- SHA-256 and HMAC-SHA256 (client/src-tauri/src/unlock.rs). A byte is a number below 2^8 and a word
-- one below 2^32; additions of words wrap.
use Prim.Native.Nat.{bit_and, bit_xor}
use hydropark_gym.Prelude.{
  ℕ, zero, suc, ◌+◌, ◌-◌, ◌*◌, ◌/◌, ◌%◌, ◌^◌, true, false, List, [], ◌∷◌, ◌++◌, map, length,
  nat_eqb, ltb, if◌then◌else◌,
}

abbrev pub Bytes : Type 0
Bytes = List ℕ

abbrev pub word : ℕ → ℕ
word n = n % 2 ^ 32

infixl 65 ◌⊞◌
abbrev pub ◌⊞◌ : ℕ → ℕ → ℕ
a ⊞ b = word (a + b)

infixl 60 ◌⊕◌
abbrev pub ◌⊕◌ : ℕ → ℕ → ℕ
a ⊕ b = bit_xor a b

-- `u32::rotate_right`, and `>>`
abbrev pub rotate_right : ℕ → ℕ → ℕ
rotate_right x n = x / 2 ^ n + x % 2 ^ n * 2 ^ (32 - n)

abbrev pub shift_right : ℕ → ℕ → ℕ
shift_right x n = x / 2 ^ n

-- `!x`
abbrev pub complement : ℕ → ℕ
complement x = 2 ^ 32 - 1 - x

-- the working variables, and the hash
pub record Words : Type 0 where
  pub a : ℕ
  pub b : ℕ
  pub c : ℕ
  pub d : ℕ
  pub e : ℕ
  pub f : ℕ
  pub g : ℕ
  pub h : ℕ

abbrev pub sha256_h0 : Words
sha256_h0 = record {
  a = 0x6a09e667;
  b = 0xbb67ae85;
  c = 0x3c6ef372;
  d = 0xa54ff53a;
  e = 0x510e527f;
  f = 0x9b05688c;
  g = 0x1f83d9ab;
  h = 0x5be0cd19;
}

abbrev pub sha256_k : List ℕ
sha256_k =
    0x428a2f98 ∷ 0x71374491 ∷ 0xb5c0fbcf ∷ 0xe9b5dba5 ∷ 0x3956c25b ∷ 0x59f111f1 ∷ 0x923f82a4
    ∷ 0xab1c5ed5 ∷ 0xd807aa98 ∷ 0x12835b01 ∷ 0x243185be ∷ 0x550c7dc3 ∷ 0x72be5d74 ∷ 0x80deb1fe
    ∷ 0x9bdc06a7 ∷ 0xc19bf174 ∷ 0xe49b69c1 ∷ 0xefbe4786 ∷ 0x0fc19dc6 ∷ 0x240ca1cc ∷ 0x2de92c6f
    ∷ 0x4a7484aa ∷ 0x5cb0a9dc ∷ 0x76f988da ∷ 0x983e5152 ∷ 0xa831c66d ∷ 0xb00327c8 ∷ 0xbf597fc7
    ∷ 0xc6e00bf3 ∷ 0xd5a79147 ∷ 0x06ca6351 ∷ 0x14292967 ∷ 0x27b70a85 ∷ 0x2e1b2138 ∷ 0x4d2c6dfc
    ∷ 0x53380d13 ∷ 0x650a7354 ∷ 0x766a0abb ∷ 0x81c2c92e ∷ 0x92722c85 ∷ 0xa2bfe8a1 ∷ 0xa81a664b
    ∷ 0xc24b8b70 ∷ 0xc76c51a3 ∷ 0xd192e819 ∷ 0xd6990624 ∷ 0xf40e3585 ∷ 0x106aa070 ∷ 0x19a4c116
    ∷ 0x1e376c08 ∷ 0x2748774c ∷ 0x34b0bcb5 ∷ 0x391c0cb3 ∷ 0x4ed8aa4a ∷ 0x5b9cca4f ∷ 0x682e6ff3
    ∷ 0x748f82ee ∷ 0x78a5636f ∷ 0x84c87814 ∷ 0x8cc70208 ∷ 0x90befffa ∷ 0xa4506ceb ∷ 0xbef9a3f7
    ∷ 0xc67178f2 ∷ []

-- the loop that pads with zeros
unfoldable pub pad_zeros : ℕ → Bytes → Bytes
pad_zeros zero bytes = bytes
pad_zeros (suc fuel) bytes =
    let rest = pad_zeros fuel (bytes ++ 0 ∷ []) in
    if nat_eqb (length bytes % 64) 56 then bytes else rest

-- `to_be_bytes` of a `u32` and of a `u64`
abbrev pub be_bytes32 : ℕ → Bytes
be_bytes32 n = n / 2 ^ 24 % 256 ∷ n / 2 ^ 16 % 256 ∷ n / 2 ^ 8 % 256 ∷ n % 256 ∷ []

abbrev pub be_bytes64 : ℕ → Bytes
be_bytes64 n = be_bytes32 (n / 2 ^ 32 % 2 ^ 32) ++ be_bytes32 (n % 2 ^ 32)

-- the message with its padding: 64 rounds reach the length asked for
unfoldable pub padded : Bytes → Bytes
unfolding pad_zeros
padded msg = pad_zeros 64 (msg ++ 0x80 ∷ []) ++ be_bytes64 (length msg * 8 % 2 ^ 64)

-- `chunks_exact(64)`, with `left` bytes to go in the chunk at hand
unfoldable pub chunks_from : ℕ → Bytes → Bytes → List Bytes
chunks_from left chunk [] = []
chunks_from left chunk (x ∷ xs) = elim (ltb left 2) [
  | true ↦ (chunk ++ x ∷ []) ∷ chunks_from 64 [] xs
  | false ↦ chunks_from (left - 1) (chunk ++ x ∷ []) xs
]

-- `u32::from_be_bytes` on each four bytes of a block
unfoldable pub be_words : Bytes → List ℕ
be_words (p ∷ q ∷ r ∷ s ∷ rest) = (p * 2 ^ 24 + q * 2 ^ 16 + r * 2 ^ 8 + s) ∷ be_words rest
be_words _ = []

-- an index into the schedule, which has it
abbrev pub at : List ℕ → ℕ → ℕ
at [] i = 0
at (x ∷ xs) zero = x
at (x ∷ xs) (suc i) = at xs i

abbrev pub next_w : List ℕ → ℕ → ℕ
next_w w i =
    let s0 =
      rotate_right (at w (i - 15)) 7
      ⊕ rotate_right (at w (i - 15)) 18
      ⊕ shift_right (at w (i - 15)) 3 in
    let s1 =
      rotate_right (at w (i - 2)) 17
      ⊕ rotate_right (at w (i - 2)) 19
      ⊕ shift_right (at w (i - 2)) 10 in
    at w (i - 16) ⊞ s0 ⊞ at w (i - 7) ⊞ s1

-- the schedule from index `i` on, with `left` words to go
unfoldable pub extend : ℕ → ℕ → List ℕ → List ℕ
extend zero i w = w
extend (suc left) i w = extend left (i + 1) (w ++ next_w w i ∷ [])

-- one round
unfoldable pub round : ℕ → ℕ → Words → Words
round k w v =
    let s1 = rotate_right v.e 6 ⊕ rotate_right v.e 11 ⊕ rotate_right v.e 25 in
    let ch = bit_and v.e v.f ⊕ bit_and (complement v.e) v.g in
    let t1 = v.h ⊞ s1 ⊞ ch ⊞ k ⊞ w in
    let s0 = rotate_right v.a 2 ⊕ rotate_right v.a 13 ⊕ rotate_right v.a 22 in
    let maj = bit_and v.a v.b ⊕ bit_and v.a v.c ⊕ bit_and v.b v.c in
    let t2 = s0 ⊞ maj in
    record { a = t1 ⊞ t2; b = v.a; c = v.b; d = v.c; e = v.d ⊞ t1; f = v.e; g = v.f; h = v.g }

-- the rounds over the table and the schedule
unfoldable pub rounds : List ℕ → List ℕ → Words → Words
unfolding round
rounds (k ∷ ks) (w ∷ ws) v = rounds ks ws (round k w v)
rounds _ _ v = v

abbrev pub add_words : Words → Words → Words
add_words x y = record {
  a = x.a ⊞ y.a;
  b = x.b ⊞ y.b;
  c = x.c ⊞ y.c;
  d = x.d ⊞ y.d;
  e = x.e ⊞ y.e;
  f = x.f ⊞ y.f;
  g = x.g ⊞ y.g;
  h = x.h ⊞ y.h;
}

-- one block
unfoldable pub compress : Words → Bytes → Words
unfolding be_words extend rounds
compress h block = add_words h (rounds sha256_k (extend 48 16 (be_words block)) h)

unfoldable pub compress_all : Words → List Bytes → Words
compress_all h [] = h
compress_all h (block ∷ blocks) = compress_all (compress h block) blocks

abbrev pub words_bytes : Words → Bytes
words_bytes v =
    be_bytes32 v.a
    ++ (be_bytes32 v.b
        ++ (be_bytes32 v.c
            ++ (be_bytes32 v.d
                ++ (be_bytes32 v.e ++ (be_bytes32 v.f ++ (be_bytes32 v.g ++ be_bytes32 v.h))))))

unfoldable pub sha256 : Bytes → Bytes
unfolding padded chunks_from compress compress_all
sha256 msg = words_bytes (compress_all sha256_h0 (chunks_from 64 [] (padded msg)))

-- `zip` with a constant pad: `pad ^ k0[i]` for every byte of the block
abbrev pub xor_pad : ℕ → Bytes → Bytes
xor_pad pad k0 = map (λ x. bit_xor pad x) k0

abbrev pub zeros : ℕ → Bytes
zeros zero = []
zeros (suc n) = 0 ∷ zeros n

-- the key, hashed if it is longer than a block, filled up with zeros
unfoldable pub block_key : Bytes → Bytes
block_key key =
    let used = if ltb 64 (length key) then sha256 key else key in used ++ zeros (64 - length used)

unfoldable pub hmac_sha256 : Bytes → Bytes → Bytes
unfolding block_key sha256
hmac_sha256 key msg =
    let k0 = block_key key in sha256 (xor_pad 0x5c k0 ++ sha256 (xor_pad 0x36 k0 ++ msg))
