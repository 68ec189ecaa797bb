-- ===== src/SharedState/Numbered.antt =====
-- The ids that a slot has given out (client/src-tauri/src/shared_state.rs).
use hydropark_gym.Prelude.{
  ℕ, suc, ◌+◌, ◌^◌, ◌%◌, ◌≤◌, ◌<◌, ◌≡◌, sym, ap, ◌∙◌, subst, some, inl, inr, arith, if◌then◌else◌,
  Bool-cases, some_eq,
}
use hydropark_gym.Prelude.Text.{Text, text_eqb, text_eqb_iff}
use hydropark_gym.Prelude.TreeMap.{BTreeMap, get, insert, get-insert}
use hydropark_gym.SharedState.Types.{entries, Slot, SharedStateStore}
use hydropark_gym.SharedState.Store.{entry_id, or_zero, next_seq}

abbrev pub u64_span : ℕ
u64_span = 2 ^ 64

-- `id` was given out: it is an id of some skill, whose count has come to it
abbrev pub IsGiven : BTreeMap ℕ → Text → Type 0
IsGiven seq id = (a : Text) × (n : ℕ) × (id ≡ entry_id a n) × (n ≤ or_zero (get a seq))

pub seq-step :
    (a b : Text) (seq : BTreeMap ℕ) (k : ℕ)
    → suc k < u64_span
    → ((c : Text) → or_zero (get c seq) ≤ k)
    → (or_zero (get b seq) ≤ or_zero (get b (insert a (next_seq a seq) seq)))
      × (or_zero (get b (insert a (next_seq a seq) seq)) ≤ suc k)
unfolding next_seq
seq-step a b seq k small h =
    ground
      (arith, get-insert a b ((or_zero (get a seq) + 1) % 2 ^ 64) seq, text_eqb_iff a b, h a, h b)

module _ {V : Type 0} where
  -- a slot after at most `k` operations
  pub record IsNumbered (k : ℕ) (s : Slot V) : Type 0 where
    pub counted : (a : Text) → or_zero (get a s.seq) ≤ k
    pub given :
        (m : BTreeMap V)
        → s.value ≡ entries m
        → (id : Text) (v : V) → get id m ≡ some v
        → IsGiven s.seq id

  abbrev pub AllNumbered : ℕ → SharedStateStore V → Type 0
  AllNumbered k store = (name : Text) (s : Slot V) → get name store ≡ some s → IsNumbered k s

  IsNumbered-weaken : (k : ℕ) {s : Slot V} → IsNumbered k s → IsNumbered (suc k) s
  IsNumbered-weaken k h = record { counted = λ a. omega (arith, h.counted a); given = h.given }

  pub weaken :
      (k : ℕ) (store : SharedStateStore V) → AllNumbered k store → AllNumbered (suc k) store
  weaken k store h name s g = IsNumbered-weaken k (h name s g)

  pub entries_eq : {m n : BTreeMap V} → entries m ≡ entries n → m ≡ n
  entries_eq e = ground arith

  -- one slot is replaced
  pub AllNumbered-insert :
      (k : ℕ) (name : Text) (s : Slot V) (store : SharedStateStore V)
      → AllNumbered k store
      → IsNumbered (suc k) s
      → AllNumbered (suc k) (insert name s store)
  AllNumbered-insert k name s store h n other t g = elim (Bool-cases (text_eqb name other)) [
    | inl e ↦
        let same : s ≡ t = some_eq (
          sym (get-insert name other s store ∙ ap (λ b. if b then some s else get other store) e)
          ∙ g) in
        subst (IsNumbered (suc k)) same n
    | inr e ↦ IsNumbered-weaken k (
        h other t (
          sym (get-insert name other s store ∙ ap (λ b. if b then some s else get other store) e)
          ∙ g))
  ]
