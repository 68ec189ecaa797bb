-- ===== src/SharedState/Store.antt =====
-- `SharedStateStore` and its operations (client/src-tauri/src/shared_state.rs). A method that takes
-- `&mut self` returns its result and the store that it leaves.
use hydropark_gym.Prelude.{
  ℕ, ◌+◌, ◌%◌, ◌^◌, Bool, false, Option, none, some, [], ◌∷◌, ◌++◌, Result, ok, err, if◌then◌else◌,
}
use hydropark_gym.Prelude.Text.{Text, chars, text_eqb}
use hydropark_gym.Prelude.TreeMap.{BTreeMap, get, insert}
use hydropark_gym.Prelude.Decimal.{decimal}
use hydropark_gym.Prelude.Json.{Json}
use hydropark_gym.SharedState.Types.{
  SlotType, SlotSpec, SlotValue, single, entries, Slot, scalar_or_record, list_kind,
  fields_not_object, entry_not_record, StoreError, unknown_slot, wrong_kind, not_writer_of_record,
  unknown_entry, bad_patch, SharedStateStore,
}

-- `{appender_skill}#{n}`
unfoldable pub entry_id : Text → ℕ → Text
entry_id skill n = skill ++ (chars "#" ++ decimal n)

abbrev pub or_zero : Option ℕ → ℕ
or_zero none = 0
or_zero (some n) = n

-- `*n += 1` on a `u64`
unfoldable pub next_seq : Text → BTreeMap ℕ → ℕ
next_seq skill seq = (or_zero (get skill seq) + 1) % 2 ^ 64

-- `matches!(&s.writer, Some(w) if w == writer_skill)`
abbrev pub is_writer : Option Text → Text → Bool
is_writer none skill = false
is_writer (some w) skill = text_eqb w skill

module _ {V : Type 0} ⦃json : Json V⦄ where
  abbrev pub empty_value : SlotType → SlotValue V
  empty_value (SlotType.list _) = entries []
  empty_value (SlotType.scalar _) = single json.null
  empty_value (SlotType.struct _) = single json.null

  abbrev pub new_slot : SlotSpec → Slot V
  new_slot spec = record {
    ty = spec.ty;
    writer = spec.writer;
    value = empty_value spec.ty;
    seq = [];
  }

  unfoldable pub from_specs : BTreeMap SlotSpec → SharedStateStore V
  from_specs [] = []
  from_specs ((name, spec) ∷ specs) = (name, new_slot spec) ∷ from_specs specs

  unfoldable pub set_value :
      Text
      → Text
      → V
      → SharedStateStore V
      → Slot V
      → SlotValue V
      → Result (Unit {0}) StoreError × SharedStateStore V
  set_value slot skill v store s (entries _) =
      (err (wrong_kind slot scalar_or_record list_kind), store)
  set_value slot skill v store s (single _) =
      if is_writer s.writer skill
      then (ok tt, insert slot (record s { value = single v }) store)
      else (err (not_writer_of_record slot s.writer skill), store)

  unfoldable pub set_slot :
      Text
      → Text
      → V
      → SharedStateStore V
      → Option (Slot V)
      → Result (Unit {0}) StoreError × SharedStateStore V
  set_slot slot skill v store none = (err (unknown_slot slot), store)
  set_slot slot skill v store (some s) = set_value slot skill v store s s.value

  unfoldable pub set :
      Text → Text → V → SharedStateStore V → Result (Unit {0}) StoreError × SharedStateStore V
  unfolding set_value set_slot
  set slot skill v store = set_slot slot skill v store (get slot store)

  -- the entry carries its id, if it is a record
  unfoldable pub stamp : Text → V → V
  stamp id item = elim (json.as_object item) [
    | none ↦ item
    | some obj ↦ json.object (insert (chars "id") (json.string id) obj)
  ]

  -- the slot behind an append of `item` under the id that comes next
  unfoldable pub appended : Text → V → Slot V → BTreeMap V → Slot V
  unfolding next_seq
  appended skill item s m =
      let n = next_seq skill s.seq in
      let id = entry_id skill n in
      record s { value = entries (insert id (stamp id item) m); seq = insert skill n s.seq }

  unfoldable pub append_value :
      Text
      → Text
      → V
      → SharedStateStore V
      → Slot V
      → SlotValue V
      → Result Text StoreError × SharedStateStore V
  append_value slot skill item store s (single _) =
      (err (wrong_kind slot list_kind scalar_or_record), store)
  append_value slot skill item store s (entries m) =
      (ok (entry_id skill (next_seq skill s.seq)), insert slot (appended skill item s m) store)

  unfoldable pub append_slot :
      Text
      → Text
      → V
      → SharedStateStore V
      → Option (Slot V)
      → Result Text StoreError × SharedStateStore V
  append_slot slot skill item store none = (err (unknown_slot slot), store)
  append_slot slot skill item store (some s) = append_value slot skill item store s s.value

  unfoldable pub append :
      Text → Text → V → SharedStateStore V → Result Text StoreError × SharedStateStore V
  unfolding append_value append_slot
  append slot skill item store = append_slot slot skill item store (get slot store)

  -- the loop over the patch: every field but `id` is written
  unfoldable pub write_fields : BTreeMap V → BTreeMap V → BTreeMap V
  write_fields [] obj = obj
  write_fields ((k, v) ∷ patch) obj =
      write_fields patch (if text_eqb k (chars "id") then obj else insert k v obj)

  unfoldable pub patch_entry :
      Text
      → Text
      → SharedStateStore V
      → Slot V
      → BTreeMap V
      → Option (BTreeMap V)
      → Option (BTreeMap V)
      → Result (Unit {0}) StoreError × SharedStateStore V
  patch_entry slot id store s m none _ = (err (bad_patch slot fields_not_object), store)
  patch_entry slot id store s m (some patch) none = (err (bad_patch slot entry_not_record), store)
  patch_entry slot id store s m (some patch) (some obj) = (
    ok tt,
    insert slot (record s { value = entries (insert id (json.object (write_fields patch obj)) m) })
        store,
  )

  unfoldable pub patch_found :
      Text
      → Text
      → V
      → SharedStateStore V
      → Slot V
      → BTreeMap V
      → Option V
      → Result (Unit {0}) StoreError × SharedStateStore V
  patch_found slot id fields store s m none = (err (unknown_entry slot id), store)
  patch_found slot id fields store s m (some entry) =
      patch_entry slot id store s m (json.as_object fields) (json.as_object entry)

  unfoldable pub patch_value :
      Text
      → Text
      → V
      → SharedStateStore V
      → Slot V
      → SlotValue V
      → Result (Unit {0}) StoreError × SharedStateStore V
  patch_value slot id fields store s (single _) =
      (err (wrong_kind slot list_kind scalar_or_record), store)
  patch_value slot id fields store s (entries m) = patch_found slot id fields store s m (get id m)

  unfoldable pub patch_slot :
      Text
      → Text
      → V
      → SharedStateStore V
      → Option (Slot V)
      → Result (Unit {0}) StoreError × SharedStateStore V
  patch_slot slot id fields store none = (err (unknown_slot slot), store)
  patch_slot slot id fields store (some s) = patch_value slot id fields store s s.value

  unfoldable pub patch :
      Text → Text → V → SharedStateStore V → Result (Unit {0}) StoreError × SharedStateStore V
  unfolding patch_entry patch_found patch_value patch_slot
  patch slot id fields store = patch_slot slot id fields store (get slot store)

module _ {V : Type 0} where
  abbrev pub value_of : Option (Slot V) → Option (SlotValue V)
  value_of none = none
  value_of (some s) = some s.value

  unfoldable pub read : Text → SharedStateStore V → Option (SlotValue V)
  read slot store = value_of (get slot store)

  unfoldable pub slot_type : Text → SharedStateStore V → Option SlotType
  slot_type slot store = elim (get slot store) [ none ↦ none | some s ↦ some s.ty ]

  abbrev pub writer_in : Option (Slot V) → Option Text
  writer_in none = none
  writer_in (some s) = s.writer

  unfoldable pub writer_of_record : Text → SharedStateStore V → Option Text
  writer_of_record slot store = writer_in (get slot store)
