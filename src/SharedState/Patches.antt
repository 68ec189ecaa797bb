-- ===== src/SharedState/Patches.antt =====
-- What a patch leaves alone (client/src-tauri/src/shared_state.rs).
use hydropark_gym.Prelude.{
  ◌≡◌, refl, ap, ◌∙◌, arith, false, Option, none, some, [], ◌∷◌, Result, ok, if◌then◌else◌,
  Bool-cases, All, inl, inr,
}
use hydropark_gym.Prelude.Text.{Text, chars, text_eqb, text_eqb_iff}
use hydropark_gym.Prelude.TreeMap.{BTreeMap, get, insert, get-insert}
use hydropark_gym.Prelude.Json.{Json}
use hydropark_gym.SharedState.Types.{SlotValue, single, entries, Slot, StoreError, SharedStateStore}
use hydropark_gym.SharedState.Store.{
  value_of, read, write_fields, patch_entry, patch_found, patch_value, patch_slot, patch,
}
use hydropark_gym.SharedState.Commute.{get-insert_self}
use hydropark_gym.SharedState.Fresh.{entry, entry_of}

module _ {V : Type 0} ⦃json : Json V⦄ where
  write_fields-id :
      (p obj : BTreeMap V) → get (chars "id") (write_fields p obj) ≡ get (chars "id") obj
  unfolding write_fields
  write_fields-id [] obj = refl
  write_fields-id ((k, v) ∷ p) obj = elim (Bool-cases (text_eqb k (chars "id"))) [
    | inl e ↦
        ap (λ b. get (chars "id") (write_fields p (if b then obj else insert k v obj))) e
        ∙ write_fields-id p obj
    | inr e ↦
        ap (λ b. get (chars "id") (write_fields p (if b then obj else insert k v obj))) e
        ∙ write_fields-id p (insert k v obj)
        ∙ ground (arith, get-insert k (chars "id") v obj, e)
  ]

  -- a field that the patch does not name
  write_fields-other :
      (key : Text) (p obj : BTreeMap V)
      → All (λ f. text_eqb f.0 key ≡ false) p
      → get key (write_fields p obj) ≡ get key obj
  unfolding write_fields
  write_fields-other key [] obj a = refl
  write_fields-other key ((k, v) ∷ p) obj (d, a) = elim (Bool-cases (text_eqb k (chars "id"))) [
    | inl e ↦
        ap (λ b. get key (write_fields p (if b then obj else insert k v obj))) e
        ∙ write_fields-other key p obj a
    | inr e ↦
        ap (λ b. get key (write_fields p (if b then obj else insert k v obj))) e
        ∙ write_fields-other key p (insert k v obj) a
        ∙ ground (arith, get-insert k key v obj, d)
  ]

  -- a patch by the fields `p` took the entry `old` to the record `new`
  abbrev pub IsPatched :
      Text
      → Text
      → V
      → Option (SlotValue V)
      → SharedStateStore V
      → BTreeMap V
      → V
      → BTreeMap V
      → BTreeMap V
      → Type 0
  IsPatched slot id fields was behind p old obj new =
      (json.as_object fields ≡ some p)
      × (entry_of was id ≡ some old)
      × (json.as_object old ≡ some obj)
      × (entry slot id behind ≡ some (json.object new))
      × (get (chars "id") new ≡ get (chars "id") obj)
      × ((key : Text) → All (λ f. text_eqb f.0 key ≡ false) p → get key new ≡ get key obj)
      × ((other : Text) → text_eqb id other ≡ false → entry slot other behind ≡ entry_of was other)

  abbrev pub PatchLaw :
      Text
      → Text
      → V
      → Option (SlotValue V)
      → Result (Unit {0}) StoreError × SharedStateStore V
      → Type 0
  PatchLaw slot id fields was r =
      r.0 ≡ ok tt
      → (p : BTreeMap V) × (old : V) × (obj : BTreeMap V) × (new : BTreeMap V) × IsPatched slot id
          fields was r.1 p old obj new

  at_entry :
      (slot id : Text) (fields : V) (store : SharedStateStore V) (s : Slot V) (m : BTreeMap V)
      (old : V) (p obj : Option (BTreeMap V))
      → get id m ≡ some old
      → json.as_object fields ≡ p
      → json.as_object old ≡ obj
      → PatchLaw slot id fields (some (entries m)) (patch_entry slot id store s m p obj)
  unfolding patch_entry read
  at_entry slot id fields store s m old none obj g e f h = absurd (ground arith)
  at_entry slot id fields store s m old (some p) none g e f h = absurd (ground arith)
  at_entry slot id fields store s m old (some p) (some obj) g e f h =
      let new = write_fields p obj in
      let m' = insert id (json.object new) m in
      let s' = record s { value = entries m' } in
      (
        p,
        old,
        obj,
        new,
        (
          e,
          g,
          f,
          ap (λ o. entry_of (value_of o) id) (get-insert_self slot s' store)
              ∙ ground (arith, get-insert id id (json.object new) m, text_eqb_iff id id),
          write_fields-id p obj,
          λ key a. write_fields-other key p obj a,
          λ other d.
              ap (λ o. entry_of (value_of o) other) (get-insert_self slot s' store)
              ∙ ground (arith, get-insert id other (json.object new) m, d),
        ),
      )

  at_found :
      (slot id : Text) (fields : V) (store : SharedStateStore V) (s : Slot V) (m : BTreeMap V)
      (found : Option V)
      → get id m ≡ found
      → PatchLaw slot id fields (some (entries m)) (patch_found slot id fields store s m found)
  unfolding patch_found
  at_found slot id fields store s m none g h = absurd (ground arith)
  at_found slot id fields store s m (some old) g h =
      at_entry slot id fields store s m old (json.as_object fields) (json.as_object old) g refl refl
        h

  at_value :
      (slot id : Text) (fields : V) (store : SharedStateStore V) (s : Slot V) (u : SlotValue V)
      → PatchLaw slot id fields (some u) (patch_value slot id fields store s u)
  unfolding patch_value
  at_value slot id fields store s (single v) h = absurd (ground arith)
  at_value slot id fields store s (entries m) h =
      at_found slot id fields store s m (get id m) refl h

  at_slot :
      (slot id : Text) (fields : V) (store : SharedStateStore V) (found : Option (Slot V))
      → PatchLaw slot id fields (value_of found) (patch_slot slot id fields store found)
  unfolding patch_slot
  at_slot slot id fields store none h = absurd (ground arith)
  at_slot slot id fields store (some s) h = at_value slot id fields store s s.value h

  -- A patch that succeeds found a record under the id and JSON object fields. It leaves a record
  -- under the id whose `id` field, and whose every field that the patch does not name, is what it
  -- was, and it leaves every other entry of the slot as it was.
  pub patch_lem :
      (slot id : Text) (fields : V) (store : SharedStateStore V)
      → (patch slot id fields store).0 ≡ ok tt
      → (p : BTreeMap V) × (old : V) × (obj : BTreeMap V) × (new : BTreeMap V) × IsPatched slot id
          fields
          (read slot store)
          (patch slot id fields store).1
          p
          old
          obj
          new
  unfolding patch read
  patch_lem slot id fields store h = at_slot slot id fields store (get slot store) h
