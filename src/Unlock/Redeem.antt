-- ===== src/Unlock/Redeem.antt =====
-- Redeeming a code, the persisted state and the gate of the session
-- (client/src-tauri/src/unlock.rs). Files and serde's JSON are parameters: `F` is the state of the
-- file system below the app-data directory.
use hydropark_gym.Prelude.{Bool, true, false, Option, none, some, if◌then◌else◌}
use hydropark_gym.Prelude.Int.{ℤ}
use hydropark_gym.Prelude.Text.{Text, chars}
use hydropark_gym.Unlock.Codes.{
  VerifyOutcome, valid, malformed, bad_signature, verify, cooking_assistant_skill_id,
}

pub record SkillUnlock : Type 0 where
  pub unlocked : Bool
  pub nonce : Option Text
  pub redeemed_at_ms : Option ℤ

pub record UnlockState : Type 0 where
  pub cooking_assistant : SkillUnlock

-- the derived `Default`
abbrev pub default : UnlockState
default = record {
  cooking_assistant = record { unlocked = false; nonce = none; redeemed_at_ms = none };
}

pub record RedeemResult : Type 0 where
  pub is_ok : Bool
  pub status : Option Text
  pub skill_id : Option Text
  pub reason : Option Text
  pub message : Option Text

-- What the module uses of the file system: whether the app-data directory is known, the text of
-- `unlock.json`, and a write of it with the directories above it, which may fail.
pub record Files (F : Type 0) : Type 0 where
  pub has_dir : F → Bool
  pub read : F → Option Text
  pub write : F → Text → Bool × F

-- serde's reading and writing of the state
pub record Format : Type 0 where
  pub from_str : Text → Option UnlockState
  pub to_string_pretty : UnlockState → Option Text

-- the first of two options
abbrev pub or_else : Option Text → Option Text → Option Text
or_else none b = b
or_else (some a) b = some a

unfoldable pub apply_unlock : ℤ → UnlockState → Option Text → UnlockState × Bool
apply_unlock now_ms state nonce =
    let before = state.cooking_assistant in
    (
      record {
        cooking_assistant = record {
          unlocked = true;
          nonce = or_else nonce before.nonce;
          redeemed_at_ms = some now_ms;
        };
      },
      before.unlocked,
    )

module _ {F : Type 0} (files : Files F) (format : Format) where
  -- the files, and the gate that `skill_enable` reads
  abbrev pub App : Type 0
  App = F × Bool

  abbrev pub or_default : Option UnlockState → UnlockState
  or_default none = default
  or_default (some s) = s

  abbrev pub parsed : Option Text → UnlockState
  parsed none = default
  parsed (some text) = or_default (format.from_str text)

  unfoldable pub read_state : F → UnlockState
  read_state f = if files.has_dir f then parsed (files.read f) else default

  abbrev pub written : F → Option Text → Bool × F
  written f none = (false, f)
  written f (some text) = files.write f text

  -- whether the state is written, and the files behind the attempt; the directories are made before
  -- the state is printed, which the files do not show
  unfoldable pub write_state : F → UnlockState → Bool × F
  write_state f s = if files.has_dir f then written f (format.to_string_pretty s) else (false, f)

  -- `mark_unlocked`, at the time `now_ms`: a failed write is passed over
  unfoldable pub mark_unlocked : ℤ → App → Option Text → Bool × App
  unfolding apply_unlock
  mark_unlocked now_ms (f, gate) nonce =
      let (next, already) = apply_unlock now_ms (read_state f) nonce in
      (already, ((write_state f next).1, true))

  abbrev pub refused : Text → Text → RedeemResult
  refused reason message = record {
    is_ok = false;
    status = none;
    skill_id = none;
    reason = some reason;
    message = some message;
  }

  abbrev pub accepted : Bool → RedeemResult
  accepted already = record {
    is_ok = true;
    status = some (if already then chars "already_unlocked" else chars "unlocked");
    skill_id = some cooking_assistant_skill_id;
    reason = none;
    message = none;
  }

  abbrev pub redeemed : ℤ → App → VerifyOutcome → RedeemResult × App
  redeemed now_ms app malformed =
      (refused (chars "malformed") (chars "That doesn't look like a Hydropark unlock code."), app)
  redeemed now_ms app bad_signature = (
    refused (chars "bad_signature")
        (chars "That code isn't valid — check it against the one in your email."),
    app,
  )
  redeemed now_ms app (valid nonce) =
      let (already, app') = mark_unlocked now_ms app (some nonce) in (accepted already, app')

  abbrev pub redeem_outcome : ℤ → App → Option VerifyOutcome → Option (RedeemResult × App)
  redeem_outcome now_ms app none = none
  redeem_outcome now_ms app (some outcome) = some (redeemed now_ms app outcome)

  -- `unlock_redeem`; `none` is a panic
  unfoldable pub unlock_redeem : ℤ → App → Text → Option (RedeemResult × App)
  unlock_redeem now_ms app code = redeem_outcome now_ms app (verify code)

  unfoldable pub mark_unlocked_via_purchase : ℤ → App → App
  unfolding mark_unlocked
  mark_unlocked_via_purchase now_ms app = (mark_unlocked now_ms app none).1

  -- `is_cooking_assistant_unlocked`, `unlock_status`
  unfoldable pub unlock_status : F → Bool
  unfolding read_state
  unlock_status f = (read_state f).cooking_assistant.unlocked
