-- ===== src/Unlock/Padding.antt =====
-- The loops of the hash's padding and of the base32 encoder end by their own tests
-- (client/src-tauri/src/unlock.rs).
use hydropark_gym.Prelude.{
  ℕ, zero, suc, ◌-◌, ◌*◌, ◌%◌, ◌^◌, ◌≤◌, ◌<◌, ◌≡◌, ◌≢◌, [], ◌∷◌, ◌++◌, length, length-append,
  nat_eqb, arith, Bool-cases, inl, inr,
}
use hydropark_gym.Unlock.Sha256.{Bytes, pad_zeros, padded, be_bytes64}
use hydropark_gym.Unlock.Codes.{emit}

-- with fuel for the zeros that are missing, the length is eight short of a block
length-pad_zeros :
    (fuel : ℕ) (bytes : Bytes)
    → (120 - length bytes % 64) % 64 < fuel
    → length (pad_zeros fuel bytes) % 64 ≡ 56
unfolding pad_zeros
length-pad_zeros zero bytes h = absurd (omega arith)
length-pad_zeros (suc fuel) bytes h = elim (Bool-cases (nat_eqb (length bytes % 64) 56)) [
  | inl done ↦ rw done (ground arith)
  | inr more ↦
      let longer = length-append bytes (0 ∷ []) in
      let missing : length bytes % 64 ≢ 56 = λ e. absurd (ground arith) in
      rw more (length-pad_zeros fuel (bytes ++ 0 ∷ []) (rw longer (ground arith)))
]

-- a padded message is made of whole blocks
length-padded : (msg : Bytes) → length (padded msg) % 64 ≡ 0
unfolding padded
length-padded msg =
    let start = msg ++ 0x80 ∷ [] in
    omega (
      arith,
      length-append (pad_zeros 64 start) (be_bytes64 (length msg * 8 % 2 ^ 64)),
      length-pad_zeros 64 start (omega arith),
    )

-- three rounds use up the bits of a byte behind at most four others
emit_left : (bits value : ℕ) → bits ≤ 12 → (emit 3 bits value).1 < 5
emit_left bits value h = ground arith
