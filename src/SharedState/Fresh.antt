-- ===== src/SharedState/Fresh.antt =====
-- An append never overwrites an entry (client/src-tauri/src/shared_state.rs).
use hydropark_gym.Prelude.{
  ℕ, suc, ◌+◌, ◌^◌, ◌≤◌, ◌<◌, ◌≡◌, ◌≢◌, refl, sym, ap, ◌∙◌, subst, Option, none, some, inl, inr,
  List, arith, ok, Option-cases, length,
}
use hydropark_gym.Prelude.Text.{Text, text_eqb_iff}
use hydropark_gym.Prelude.TreeMap.{BTreeMap, get, insert, get-insert}
use hydropark_gym.Prelude.Json.{Json}
use hydropark_gym.SharedState.Types.{SlotSpec, SlotValue, single, entries, Slot, SharedStateStore}
use hydropark_gym.SharedState.Store.{
  entry_id, or_zero, next_seq, from_specs, stamp, appended, append, read,
}
use hydropark_gym.SharedState.Ids.{entry_id-injective}
use hydropark_gym.SharedState.Commute.{append-entries, get-insert_self}
use hydropark_gym.SharedState.Runs.{Op, run, run-AllNumbered, from_specs-AllNumbered}
use hydropark_gym.SharedState.Numbered.{u64_span, IsNumbered}

next_seq-above :
    (c : Text) (seq : BTreeMap ℕ) (j : ℕ)
    → or_zero (get c seq) + 1 < u64_span
    → next_seq c seq ≡ j
    → ¬ (j ≤ or_zero (get c seq))
unfolding next_seq
next_seq-above c seq j h q le = ground arith

module _ {V : Type 0} where
  abbrev pub entry_in : SlotValue V → Text → Option V
  entry_in (single v) id = none
  entry_in (entries m) id = get id m

  abbrev pub entry_of : Option (SlotValue V) → Text → Option V
  entry_of none id = none
  entry_of (some u) id = entry_in u id

  -- the entry that a reader of a list slot finds under an id
  abbrev pub entry : Text → Text → SharedStateStore V → Option V
  entry slot id store = entry_of (read slot store) id

  -- the next id of a skill is not given out yet
  next_unused :
      (a : Text) (s : Slot V) (m : BTreeMap V) (k : ℕ)
      → suc k < u64_span
      → IsNumbered k s
      → s.value ≡ entries m
      → get (entry_id a (next_seq a s.seq)) m ≡ none
  next_unused a s m k small n e = elim (Option-cases (get (entry_id a (next_seq a s.seq)) m)) [
    | inl g ↦ g
    | inr (v, g) ↦
        let (b, j, q, le) = n.given m e (entry_id a (next_seq a s.seq)) v g in
        let (same, count) = entry_id-injective a b (next_seq a s.seq) j q in
        let le' : j ≤ or_zero (get a s.seq) =
          subst (λ z. j ≤ or_zero (get z s.seq)) (sym same) le in
        absurd (next_seq-above a s.seq j (omega (arith, n.counted a)) count le')
  ]

module _ {V : Type 0} ⦃json : Json V⦄ where
  -- what an append under `id` does to the entries of a slot
  abbrev pub IsFreshAppend : Text → Text → V → SharedStateStore V → SharedStateStore V → Type 0
  IsFreshAppend slot id item store behind =
      (entry slot id store ≡ none)
      × ((other : Text) (v : V)
          → entry slot other store ≡ some v
          → entry slot other behind ≡ some v)
      × (entry slot id behind ≡ some (stamp id item))

  entry_at :
      (slot id : Text) (store : SharedStateStore V) (s : Slot V) (m : BTreeMap V)
      → get slot store ≡ some s
      → s.value ≡ entries m
      → entry slot id store ≡ get id m
  unfolding read
  entry_at slot id store s m g e = ground (arith, g, e)

  entry-appended :
      (slot a id : Text) (x : V) (store : SharedStateStore V) (s : Slot V) (m : BTreeMap V)
      → get slot store ≡ some s
      → s.value ≡ entries m
      → let n = next_seq a s.seq in
        entry slot id (append slot a x store).1
        ≡ get id (insert (entry_id a n) (stamp (entry_id a n) x) m)
  unfolding appended
  entry-appended slot a id x store s m g e =
      let n = next_seq a s.seq in
      ap (λ r. entry slot id r.1) (append-entries slot a x store s m g e)
      ∙ entry_at slot id (insert slot (appended a x s m) store) (appended a x s m)
          (insert (entry_id a n) (stamp (entry_id a n) x) m)
          (get-insert_self slot (appended a x s m) store) refl

  append-IsFresh :
      (slot a : Text) (x : V) (store : SharedStateStore V) (k : ℕ) (s : Slot V) (m : BTreeMap V)
      → suc k < u64_span
      → IsNumbered k s
      → get slot store ≡ some s
      → s.value ≡ entries m
      → IsFreshAppend slot (entry_id a (next_seq a s.seq)) x store (append slot a x store).1
  append-IsFresh slot a x store k s m small n g e =
      let id = entry_id a (next_seq a s.seq) in
      let unused = next_unused a s m k small n e in
      (
        entry_at slot id store s m g e ∙ unused,
        λ other v old.
            let here : get other m ≡ some v = sym (entry_at slot other store s m g e) ∙ old in
            entry-appended slot a other x store s m g e
            ∙ ground
                (arith, unused, here, get-insert id other (stamp id x) m, text_eqb_iff id other),
        entry-appended slot a id x store s m g e
            ∙ ground (arith, get-insert id id (stamp id x) m, text_eqb_iff id id),
      )

  append_err_single :
      (slot a id : Text) (x : V) (store : SharedStateStore V) (s : Slot V) (v : V)
      → get slot store ≡ some s
      → s.value ≡ single v
      → (append slot a x store).0 ≢ ok id
  unfolding append
  append_err_single slot a id x store s v g e q = ground (arith, g, e)

  append_err_none :
      (slot a id : Text) (x : V) (store : SharedStateStore V)
      → get slot store ≡ none
      → (append slot a x store).0 ≢ ok id
  unfolding append
  append_err_none slot a id x store g q = ground (arith, g)

  -- From any store built from slot specs by any sequence of fewer than 2^64 - 1 calls of `set`,
  -- `append` and `patch`, an append that succeeds with an id found no entry under that id, leaves
  -- every entry of the slot as it was, and its entry is then read under the id as the item with the
  -- id written into it.
  pub append_fresh :
      (specs : BTreeMap SlotSpec) (ops : List (Op V)) (slot skill : Text) (item : V) (id : Text)
      → suc (length ops) < 2 ^ 64
      → (append slot skill item (run ops (from_specs specs))).0 ≡ ok id
      → IsFreshAppend slot id item
          (run ops (from_specs specs))
          (append slot skill item (run ops (from_specs specs))).1
  append_fresh specs ops slot skill item id small success =
      let store = run ops (from_specs specs) in
      let numbered =
        run-AllNumbered ops (from_specs specs) 0 (length ops) (omega arith) (omega arith)
          (from_specs-AllNumbered specs) in
      elim (Option-cases (get slot store)) [
        | inl g ↦ absurd (append_err_none slot skill id item store g success)
        | inr (s, g) ↦ at_value store s s.value (numbered slot s g) g refl success
      ]
    where
      at_value :
          (store : SharedStateStore V) (s : Slot V) (u : SlotValue V)
          → IsNumbered (length ops) s
          → get slot store ≡ some s
          → s.value ≡ u
          → (append slot skill item store).0 ≡ ok id
          → IsFreshAppend slot id item store (append slot skill item store).1
      at_value store s (single v) n g e q =
          absurd (append_err_single slot skill id item store s v g e q)
      at_value store s (entries m) n g e q =
          let same : entry_id skill (next_seq skill s.seq) ≡ id =
            ground (arith, q, append-entries slot skill item store s m g e) in
          subst (λ i. IsFreshAppend slot i item store (append slot skill item store).1) same
            (append-IsFresh slot skill item store (length ops) s m small n g e)
