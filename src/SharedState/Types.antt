-- ===== src/SharedState/Types.antt =====
-- The closed type language of slots, the slots and the store (client/src-tauri/src/shared_state.rs).
-- A record's `BTreeMap` of fields is the list of its fields by ascending name.
use hydropark_gym.Prelude.{ℕ, Bool, Option, List}
use hydropark_gym.Prelude.Text.{Text}
use hydropark_gym.Prelude.TreeMap.{BTreeMap}

pub data ScalarKind : Type 0 where
  any string number bool : ScalarKind
  enum : List Text → ScalarKind

mutual
  pub data SlotType : Type 0 where
    scalar : ScalarKind → SlotType
    list : Fields → SlotType
    struct : Fields → SlotType

  -- a name, its type, whether it is required, and the fields behind it
  pub data Fields : Type 0 where
    end : Fields
    field : Text → SlotType → Bool → Fields → Fields

pub record SlotSpec : Type 0 where
  pub ty : SlotType
  pub writer : Option Text
  pub declarers : List Text

pub data SlotValue (V : Type 0) : Type 0 where
  single : V → SlotValue V
  entries : BTreeMap V → SlotValue V

pub record Slot (V : Type 0) : Type 0 where
  pub ty : SlotType
  pub writer : Option Text
  pub value : SlotValue V
  pub seq : BTreeMap ℕ  -- u64

-- what a slot holds, as errors name it
pub data SlotKind : Type 0 where
  scalar_or_record list_kind : SlotKind

pub data PatchFault : Type 0 where
  fields_not_object entry_not_record : PatchFault

pub data StoreError : Type 0 where
  unknown_slot : Text → StoreError
  wrong_kind : Text → SlotKind → SlotKind → StoreError
  not_writer_of_record : Text → Option Text → Text → StoreError
  unknown_entry : Text → Text → StoreError
  bad_patch : Text → PatchFault → StoreError

abbrev pub SharedStateStore : Type 0 → Type 0
SharedStateStore V = BTreeMap (Slot V)
