-- ===== src/SharedState/Writes.antt =====
-- Who may set a slot, and what a patch leaves alone (client/src-tauri/src/shared_state.rs).
use hydropark_gym.Prelude.{
  ◌≡◌, ◌≢◌, refl, sym, ap, subst, ◌↔◌, arith, true, false, Option, none, some, Result, ok, err,
  if◌then◌else◌, Bool-cases, inl, inr,
}
use hydropark_gym.Prelude.Text.{Text, text_eqb, text_eqb_iff}
use hydropark_gym.Prelude.TreeMap.{get, insert, get-insert}
use hydropark_gym.Prelude.Json.{Json}
use hydropark_gym.SharedState.Types.{
  SlotValue, single, entries, Slot, StoreError, not_writer_of_record, SharedStateStore,
}
use hydropark_gym.SharedState.Store.{
  is_writer, set_value, set_slot, value_of, writer_in, set, read, writer_of_record,
}
use hydropark_gym.SharedState.Commute.{get-insert_self}

is_writer_iff : (w : Option Text) (skill : Text) → (is_writer w skill ≡ true) ↔ (w ≡ some skill)
is_writer_iff none skill = ground arith
is_writer_iff (some w) skill = ground (arith, text_eqb_iff w skill)

module _ {V : Type 0} where
  abbrev pub IsSingle : Option (SlotValue V) → Type 0
  IsSingle none = ⊥
  IsSingle (some (single _)) = Unit {0}
  IsSingle (some (entries _)) = ⊥

module _ {V : Type 0} ⦃json : Json V⦄ where
  -- what a call of `set` did
  abbrev pub IsAssigned :
      Text
      → Text
      → V
      → SharedStateStore V
      → SharedStateStore V
      → Option (SlotValue V)
      → Option Text
      → Type 0
  IsAssigned slot skill v before behind was writer =
      IsSingle was
      × (writer ≡ some skill)
      × (read slot behind ≡ some (single v))
      × ((other : Text) → text_eqb slot other ≡ false → read other behind ≡ read other before)

  abbrev SetLaw :
      Text
      → Text
      → V
      → SharedStateStore V
      → Option (Slot V)
      → Result (Unit {0}) StoreError × SharedStateStore V
      → Type 0
  SetLaw slot skill v store found r =
      (r.0 ≡ ok tt → IsAssigned slot skill v store r.1 (value_of found) (writer_in found))
      × (r.0 ≢ ok tt
          → (r.1 ≡ store) × ¬ (IsSingle (value_of found) × (writer_in found ≡ some skill)))

  at_value :
      (slot skill : Text) (v : V) (store : SharedStateStore V) (s : Slot V) (u : SlotValue V)
      → s.value ≡ u
      → SetLaw slot skill v store (some s) (set_value slot skill v store s u)
  unfolding set_value read
  at_value slot skill v store s (entries m) e =
      (λ h. absurd (ground arith), λ h. (refl, λ (x, w). subst (λ z. IsSingle (some z)) e x))
  at_value slot skill v store s (single old) e = elim (Bool-cases (is_writer s.writer skill)) [
    | inl t ↦
        let t' = record s { value = single v } in
        subst
          (λ b. SetLaw slot skill v store (some s) (
            if b
            then (ok tt, insert slot t' store)
            else (err (not_writer_of_record slot s.writer skill), store)))
          (sym t)
          (
            λ h. (
              subst (λ z. IsSingle (some z)) (sym e) tt,
              (is_writer_iff s.writer skill).0 t,
              ap value_of (get-insert_self slot t' store),
              λ other d. ap value_of (same_elsewhere t' other d),
            ),
            λ h. absurd (h refl),
          )
    | inr t ↦
        subst
          (λ b. SetLaw slot skill v store (some s) (
            if b
            then (ok tt, insert slot (record s { value = single v }) store)
            else (err (not_writer_of_record slot s.writer skill), store)))
          (sym t)
          (
            λ h. absurd (ground arith),
            λ h. (refl, λ (x, w). ground (arith, t, (is_writer_iff s.writer skill).1 w)),
          )
  ]
    where
      same_elsewhere :
          (t' : Slot V) (other : Text)
          → text_eqb slot other ≡ false
          → get other (insert slot t' store) ≡ get other store
      same_elsewhere t' other d = ground (arith, get-insert slot other t' store, d)

  at_found :
      (slot skill : Text) (v : V) (store : SharedStateStore V) (found : Option (Slot V))
      → SetLaw slot skill v store found (set_slot slot skill v store found)
  unfolding set_slot
  at_found slot skill v store none = (λ h. absurd (ground arith), λ h. (refl, λ (x, w). x))
  at_found slot skill v store (some s) = at_value slot skill v store s s.value refl

  -- A `set` either succeeds, and then the slot held a single value, the caller is its
  -- writer-of-record, the slot now holds the new value and every other slot holds what it held, or
  -- it fails and leaves the store as it was, and then the slot did not hold a single value or the
  -- caller is not its writer-of-record.
  pub set_lem :
      (slot skill : Text) (v : V) (store : SharedStateStore V)
      → ((set slot skill v store).0 ≡ ok tt
          → IsAssigned slot skill v store
              (set slot skill v store).1
              (read slot store)
              (writer_of_record slot store))
        × ((set slot skill v store).0 ≢ ok tt
            → ((set slot skill v store).1 ≡ store)
              × ¬ (IsSingle (read slot store) × (writer_of_record slot store ≡ some skill)))
  unfolding set read writer_of_record
  set_lem slot skill v store = at_found slot skill v store (get slot store)
