-- ===== src/Examples/SharedState.antt =====
-- A shopping list that two skills append to (client/src-tauri/src/shared_state.rs).
use hydropark_gym.Prelude.{◌≡◌, ◌≢◌, refl, arith, none, some, List, [], ◌∷◌, ok}
use hydropark_gym.Prelude.Text.{Text, chars, text_eqb, text_cmp}
use hydropark_gym.Prelude.TreeMap.{BTreeMap, get, insert}
use hydropark_gym.Samples.Doc.{Doc, num, doc_json, str, obj, field, end}
use hydropark_gym.SharedState.Types.{
  SlotType, ScalarKind, SlotSpec, Fields, single, entries, SharedStateStore,
}
use hydropark_gym.SharedState.Store.{
  entry_id, next_seq, from_specs, append, appended, stamp, set, patch, read, writer_of_record,
}
use hydropark_gym.SharedState.Writes.{IsAssigned, IsSingle, set_lem}
use hydropark_gym.SharedState.Patches.{IsPatched, patch_lem}
use hydropark_gym.SharedState.Commute.{append_comm}
use hydropark_gym.SharedState.Runs.{Op, append_op, run, apply}
use hydropark_gym.SharedState.Fresh.{entry, append_fresh}

abbrev slot : Text
slot = chars "groceries"

abbrev specs : BTreeMap SlotSpec
specs = (slot, record { ty = SlotType.list Fields.end; writer = none; declarers = [] }) ∷ []

abbrev calls : List (Op Doc)
calls = append_op slot (chars "chef") (num 1) ∷ append_op slot (chars "baker") (num 2) ∷ []

appends_chef_2 :
    (append slot (chars "chef") (num 3) (run calls (from_specs specs))).0
    ≡ ok (entry_id (chars "chef") 2)
unfolding append run apply from_specs get insert text_eqb text_cmp entry_id next_seq appended
appends_chef_2 = refl

append_fresh_example :
    let before = run calls (from_specs specs) in
    let behind = (append slot (chars "chef") (num 3) before).1 in
    let id = entry_id (chars "chef") 2 in
    (entry slot id before ≡ none)
    × ((other : Text) (v : Doc)
        → entry slot other before ≡ some v
        → entry slot other behind ≡ some v)
    × (entry slot id behind ≡ some (stamp id (num 3)))
append_fresh_example =
    append_fresh specs calls slot (chars "chef") (num 3) (entry_id (chars "chef") 2) (omega arith)
      appends_chef_2

chef_is_not_baker : chars "chef" ≢ chars "baker"
chef_is_not_baker e = ground arith

append_comm_example :
    let store = from_specs {V = Doc} specs in
    let chef_first = (append slot (chars "chef") (num 1) store).1 in
    let baker_first = (append slot (chars "baker") (num 2) store).1 in
    ((append slot (chars "baker") (num 2) chef_first).1
      ≡ (append slot (chars "chef") (num 1) baker_first).1)
    × ((append slot (chars "baker") (num 2) chef_first).0
        ≡ (append slot (chars "baker") (num 2) store).0)
append_comm_example =
    append_comm slot (chars "chef") (chars "baker") (num 1) (num 2) (from_specs specs)
      chef_is_not_baker

abbrev title_store : SharedStateStore Doc
title_store =
    (
      chars "title",
      record {
        ty = SlotType.scalar ScalarKind.string;
        writer = some (chars "chef");
        value = single (str (chars "Soup"));
        seq = [];
      },
    )
    ∷ []

set_lem_example :
    let r = set (chars "title") (chars "baker") (str (chars "Cake")) title_store in
    (r.0 ≡ ok tt
      → IsAssigned
          (chars "title")
          (chars "baker")
          (str (chars "Cake"))
          title_store
          r.1
          (read (chars "title") title_store)
          (writer_of_record (chars "title") title_store))
    × (r.0 ≢ ok tt
        → (r.1 ≡ title_store)
          × ¬ (
              IsSingle (read (chars "title") title_store)
              × (writer_of_record (chars "title") title_store ≡ some (chars "baker"))))
set_lem_example = set_lem (chars "title") (chars "baker") (str (chars "Cake")) title_store

abbrev egg : Doc
egg = obj (field (chars "id") (str (chars "chef#1")) (field (chars "name") (str (chars "egg")) end))

abbrev egg_store : SharedStateStore Doc
egg_store =
    (
      slot,
      record {
        ty = SlotType.list Fields.end;
        writer = none;
        value = entries ((chars "chef#1", egg) ∷ []);
        seq = [];
      },
    )
    ∷ []

abbrev plural : Doc
plural = obj (field (chars "id") (str (chars "x")) (field (chars "name") (str (chars "eggs")) end))

egg_patched : (patch slot (chars "chef#1") plural egg_store).0 ≡ ok tt
unfolding patch get text_eqb doc_json
egg_patched = refl

patch_lem_example :
    (p : BTreeMap Doc) × (old : Doc) × (o : BTreeMap Doc) × (new : BTreeMap Doc) × IsPatched slot
      (chars "chef#1")
      plural
      (read slot egg_store)
      (patch slot (chars "chef#1") plural egg_store).1
      p
      old
      o
      new
patch_lem_example = patch_lem slot (chars "chef#1") plural egg_store egg_patched
