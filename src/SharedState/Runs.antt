-- ===== src/SharedState/Runs.antt =====
-- Any sequence of operations on the store, and what holds of the store behind it
-- (client/src-tauri/src/shared_state.rs).
use hydropark_gym.Prelude.{
  ℕ, suc, ◌+◌, ◌<◌, ◌≡◌, subst, inl, inr, List, [], ◌∷◌, arith, Bool-cases, length,
}
use hydropark_gym.Prelude.Text.{Text, text_eqb}
use hydropark_gym.Prelude.TreeMap.{BTreeMap, get}
use hydropark_gym.Prelude.Json.{Json}
use hydropark_gym.SharedState.Types.{SlotType, SlotSpec, SharedStateStore}
use hydropark_gym.SharedState.Store.{from_specs, empty_value, set, append, patch}
use hydropark_gym.SharedState.Numbered.{u64_span, IsNumbered, AllNumbered, entries_eq}
use hydropark_gym.SharedState.Preserved.{set-AllNumbered, append-AllNumbered, patch-AllNumbered}

-- the calls that the program can make
pub data Op (V : Type 0) : Type 0 where
  set_op : Text → Text → V → Op V
  append_op : Text → Text → V → Op V
  patch_op : Text → Text → V → Op V

module _ {V : Type 0} ⦃json : Json V⦄ where
  unfoldable pub apply : Op V → SharedStateStore V → SharedStateStore V
  apply (set_op slot skill v) store = (set slot skill v store).1
  apply (append_op slot skill item) store = (append slot skill item store).1
  apply (patch_op slot id fields) store = (patch slot id fields store).1

  unfoldable pub run : List (Op V) → SharedStateStore V → SharedStateStore V
  run [] store = store
  run (o ∷ ops) store = run ops (apply o store)

  apply-AllNumbered :
      (o : Op V) (store : SharedStateStore V) (k : ℕ)
      → suc k < u64_span
      → AllNumbered k store
      → AllNumbered (suc k) (apply o store)
  unfolding apply
  apply-AllNumbered (set_op slot a v) store k small h = set-AllNumbered slot a v store k h
  apply-AllNumbered (append_op slot a v) store k small h =
      append-AllNumbered slot a v store k small h
  apply-AllNumbered (patch_op slot i v) store k small h = patch-AllNumbered slot i v store k h

  pub run-AllNumbered :
      (ops : List (Op V)) (store : SharedStateStore V) (k n : ℕ)
      → k + length ops ≡ n
      → n < u64_span
      → AllNumbered k store
      → AllNumbered n (run ops store)
  unfolding run
  run-AllNumbered [] store k n e small h =
      let same : k ≡ n = omega arith in subst (λ j. AllNumbered j store) same h
  run-AllNumbered (o ∷ ops) store k n e small h =
      run-AllNumbered ops (apply o store) (suc k) n (omega arith) small
        (apply-AllNumbered o store k (omega arith) h)

  pub from_specs-AllNumbered :
      (specs : BTreeMap SlotSpec) → AllNumbered {V = V} 0 (from_specs specs)
  unfolding from_specs get
  from_specs-AllNumbered [] name s g = absurd (ground arith)
  from_specs-AllNumbered ((j, spec) ∷ specs) name s g = elim (Bool-cases (text_eqb j name)) [
    | inl t ↦ subst (IsNumbered 0) (ground arith) (new_slot-IsNumbered spec spec.ty)
    | inr t ↦ from_specs-AllNumbered specs name s (ground arith)
  ]
    where
      new_slot-IsNumbered :
          (spec : SlotSpec) (ty : SlotType)
          → IsNumbered {V = V} 0
              (record { ty = spec.ty; writer = spec.writer; value = empty_value ty; seq = [] })
      new_slot-IsNumbered spec (SlotType.list f) = record {
        counted = λ a. omega arith;
        given = λ m e id v q. absurd (ground (arith, entries_eq e));
      }
      new_slot-IsNumbered spec _ = record {
        counted = λ a. omega arith;
        given = λ m e id v q. absurd (ground arith);
      }
