-- ===== src/Unlock/Persists.antt =====
-- A redeemed code stays redeemed (client/src-tauri/src/unlock.rs).
use hydropark_gym.Prelude.{
  ◌≡◌, refl, ap, ◌∙◌, Bool, true, Option, none, some, Option-cases, Bool-cases, inl, inr, arith,
}
use hydropark_gym.Prelude.Int.{ℤ}
use hydropark_gym.Prelude.Text.{Text}
use hydropark_gym.Unlock.Codes.{valid, verify}
use hydropark_gym.Unlock.Redeem.{
  UnlockState, Files, Format, App, apply_unlock, read_state, write_state, mark_unlocked,
  unlock_redeem, unlock_status, accepted, mark_unlocked_via_purchase,
}

-- What is written is read again, and what is printed is parsed again.
pub record IsFaithful {F : Type 0} (files : Files F) (format : Format) : Type 0 where
  pub stored :
      (f : F) (t : Text) → (files.write f t).0 ≡ true → files.read (files.write f t).1 ≡ some t
  pub same_dir : (f : F) (t : Text) → files.has_dir (files.write f t).1 ≡ files.has_dir f
  pub printed :
      (s : UnlockState) (t : Text) → format.to_string_pretty s ≡ some t → format.from_str t ≡ some s

module _ {F : Type 0} (files : Files F) (format : Format) where
  -- the state that a redeemed code asks to be written
  abbrev pub next_state : ℤ → F → Option Text → UnlockState
  next_state now_ms f nonce = (apply_unlock now_ms (read_state files format f) nonce).0

  -- whether a redemption gets to write its state
  abbrev pub Written : ℤ → F → Option Text → Type 0
  Written now_ms f nonce = (write_state files format f (next_state now_ms f nonce)).0 ≡ true

  -- the files and the open gate behind a redemption
  abbrev pub app_after : ℤ → F → Option Text → App files format
  app_after now_ms f nonce = ((write_state files format f (next_state now_ms f nonce)).1, true)

  -- the skill is unlocked in the files, by the code with this nonce
  abbrev pub IsUnlocked : F → Text → Type 0
  IsUnlocked f nonce =
      (unlock_status files format f ≡ true)
      × ((read_state files format f).cooking_assistant.nonce ≡ some nonce)

module _ {F : Type 0} (files : Files F) (format : Format) (law : IsFaithful files format) where
  read-write :
      (f : F) (s : UnlockState)
      → (write_state files format f s).0 ≡ true
      → read_state files format (write_state files format f s).1 ≡ s
  unfolding read_state write_state
  read-write f s h = elim (Bool-cases (files.has_dir f)) [
    | inr no_dir ↦ absurd (ground arith)
    | inl dir ↦ elim (Option-cases (format.to_string_pretty s)) [
      | inl unprinted ↦ absurd (ground arith)
      | inr (t, e) ↦
          let done : (files.write f t).0 ≡ true = ground arith in
          rw (dir, e, law.same_dir f t, dir, law.stored f t done, law.printed s t e) refl
    ]
  ]

  -- Where what is written and printed is read and parsed again: a code that the check accepts, and
  -- whose state can be written, is redeemed with a result that says whether the skill was unlocked
  -- before; the gate of the session is then open, and the files have the skill unlocked with the
  -- nonce of the code. So they have it behind a later purchase whose state can be written.
  pub unlock_redeem-persists :
      (now_ms later_ms : ℤ) (f : F) (gate : Bool) (code nonce : Text)
      → verify code ≡ some (valid nonce)
      → Written files format now_ms f (some nonce)
      → Written files format later_ms (app_after files format now_ms f (some nonce)).0 none
      → let app = app_after files format now_ms f (some nonce) in
        (unlock_redeem files format now_ms (f, gate) code
          ≡ some (accepted files format (unlock_status files format f), app))
        × IsUnlocked files format app.0 nonce
        × IsUnlocked files format (mark_unlocked_via_purchase files format later_ms app).0 nonce
  unfolding unlock_redeem mark_unlocked_via_purchase unlock_status mark_unlocked apply_unlock
  unlock_redeem-persists now_ms later_ms f gate code nonce v w w' =
      let app = app_after files format now_ms f (some nonce) in
      let held = read-write f (next_state files format now_ms f (some nonce)) w in
      let held' = read-write app.0 (next_state files format later_ms app.0 none) w' in
      (
        rw v refl,
        (ap (λ s. s.cooking_assistant.unlocked) held, ap (λ s. s.cooking_assistant.nonce) held),
        (
          ap (λ s. s.cooking_assistant.unlocked) held',
          ap (λ s. s.cooking_assistant.nonce) held' ∙ ap (λ s. s.cooking_assistant.nonce) held,
        ),
      )
