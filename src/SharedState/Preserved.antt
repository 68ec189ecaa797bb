-- ===== src/SharedState/Preserved.antt =====
-- No operation gives an id out twice (client/src-tauri/src/shared_state.rs).
use hydropark_gym.Prelude.{
  ℕ, suc, ◌<◌, ◌≡◌, refl, sym, subst, Option, none, some, inl, inr, arith, Option-cases, Bool-cases,
}
use hydropark_gym.Prelude.Text.{Text, text_eqb, text_eqb_iff}
use hydropark_gym.Prelude.TreeMap.{BTreeMap, get, insert, get-insert}
use hydropark_gym.Prelude.Json.{Json}
use hydropark_gym.SharedState.Types.{SlotValue, single, entries, Slot, SharedStateStore}
use hydropark_gym.SharedState.Store.{
  entry_id, next_seq, stamp, appended, is_writer, set_value, set, append, patch_entry, patch_found,
  patch_value, patch, write_fields,
}
use hydropark_gym.SharedState.Commute.{append-entries, append-single, append-none}
use hydropark_gym.SharedState.Numbered.{
  u64_span, IsGiven, seq-step, IsNumbered, AllNumbered, weaken, AllNumbered-insert, entries_eq,
}

module _ {V : Type 0} ⦃json : Json V⦄ where
  IsGiven-insert :
      (a : Text) (x : V) (s : Slot V) (m : BTreeMap V) (k : ℕ) (id : Text) (v : V)
      → suc k < u64_span
      → IsNumbered k s
      → s.value ≡ entries m
      → let n = next_seq a s.seq in
        get id (insert (entry_id a n) x m) ≡ some v → IsGiven (insert a n s.seq) id
  IsGiven-insert a x s m k id v small h e g =
      let n = next_seq a s.seq in
      elim (Bool-cases (text_eqb (entry_id a n) id)) [
        | inl t ↦ (
          a,
          n,
          sym ((text_eqb_iff (entry_id a n) id).0 t),
          ground (arith, get-insert a a n s.seq, text_eqb_iff a a),
        )
        | inr t ↦
            let old : get id m ≡ some v = ground (arith, get-insert (entry_id a n) id x m) in
            let (b, j, q, le) = h.given m e id v old in
            (b, j, q, omega (arith, (seq-step a b s.seq k small h.counted).0))
      ]

  appended-IsNumbered :
      (a : Text) (x : V) (s : Slot V) (m : BTreeMap V) (k : ℕ)
      → suc k < u64_span
      → IsNumbered k s
      → s.value ≡ entries m
      → IsNumbered (suc k) (appended a x s m)
  unfolding appended
  appended-IsNumbered a x s m k small h e = record {
    counted = λ b. (seq-step a b s.seq k small h.counted).1;
    given = λ m' e' id v g.
        let n = next_seq a s.seq in
        let same : insert (entry_id a n) (stamp (entry_id a n) x) m ≡ m' = entries_eq e' in
        IsGiven-insert a (stamp (entry_id a n) x) s m k id v small h e
          (subst (λ z. get id z ≡ some v) (sym same) g);
  }

  pub append-AllNumbered :
      (slot a : Text) (x : V) (store : SharedStateStore V) (k : ℕ)
      → suc k < u64_span
      → AllNumbered k store
      → AllNumbered (suc k) (append slot a x store).1
  append-AllNumbered slot a x store k small h = elim (Option-cases (get slot store)) [
    | inl g ↦ subst (AllNumbered (suc k)) (sym (append-none slot a x store g)) (weaken k store h)
    | inr (s, g) ↦ at_value s s.value g refl
  ]
    where
      at_value :
          (s : Slot V) (u : SlotValue V)
          → get slot store ≡ some s
          → s.value ≡ u
          → AllNumbered (suc k) (append slot a x store).1
      at_value s (single v) g e =
          subst (AllNumbered (suc k)) (sym (append-single slot a x store s v g e))
            (weaken k store h)
      at_value s (entries m) g e =
          subst (λ z. AllNumbered (suc k) z.1) (sym (append-entries slot a x store s m g e))
            (AllNumbered-insert k slot (appended a x s m) store h
              (appended-IsNumbered a x s m k small (h slot s g) e))

  pub set-AllNumbered :
      (slot a : Text) (x : V) (store : SharedStateStore V) (k : ℕ)
      → AllNumbered k store
      → AllNumbered (suc k) (set slot a x store).1
  unfolding set
  set-AllNumbered slot a x store k h = elim (Option-cases (get slot store)) [
    | inl g ↦ rw g (weaken k store h)
    | inr (s, g) ↦ rw g (at_value s s.value (h slot s g) refl)
  ]
    where
      at_value :
          (s : Slot V) (u : SlotValue V)
          → IsNumbered k s
          → s.value ≡ u
          → AllNumbered (suc k) (set_value slot a x store s u).1
      at_value s (entries m) n e = weaken k store h
      at_value s (single v) n e = elim (Bool-cases (is_writer s.writer a)) [
        | inl t ↦ rw t (
            AllNumbered-insert k slot (record s { value = single x }) store h
              (record {
                counted = λ b. omega (arith, n.counted b);
                given = λ m e' id w g. absurd (ground arith);
              }))
        | inr t ↦ rw t (weaken k store h)
      ]

  patched-IsNumbered :
      (id : Text) (x w : V) (s : Slot V) (m : BTreeMap V) (k : ℕ)
      → IsNumbered k s
      → s.value ≡ entries m
      → get id m ≡ some w
      → IsNumbered (suc k) (record s { value = entries (insert id x m) })
  patched-IsNumbered id x w s m k n e old = record {
    counted = λ b. omega (arith, n.counted b);
    given = λ m' e' i v g.
        let here : get i (insert id x m) ≡ some v =
          subst (λ z. get i z ≡ some v) (sym (entries_eq e')) g in
        elim (Bool-cases (text_eqb id i)) [
          | inl t ↦ subst (IsGiven s.seq) ((text_eqb_iff id i).0 t) (n.given m e id w old)
          | inr t ↦ n.given m e i v (ground (arith, get-insert id i x m))
        ];
  }

  pub patch-AllNumbered :
      (slot id : Text) (fields : V) (store : SharedStateStore V) (k : ℕ)
      → AllNumbered k store
      → AllNumbered (suc k) (patch slot id fields store).1
  unfolding patch
  patch-AllNumbered slot id fields store k h = elim (Option-cases (get slot store)) [
    | inl g ↦ rw g (weaken k store h)
    | inr (s, g) ↦ rw g (at_value s s.value (h slot s g) refl)
  ]
    where
      at_entry :
          (s : Slot V) (m : BTreeMap V) (w : V) (p o : Option (BTreeMap V))
          → IsNumbered k s
          → s.value ≡ entries m
          → get id m ≡ some w
          → AllNumbered (suc k) (patch_entry slot id store s m p o).1
      at_entry s m w none o n e old = weaken k store h
      at_entry s m w (some p) none n e old = weaken k store h
      at_entry s m w (some p) (some obj) n e old =
          AllNumbered-insert k slot _ store h
            (patched-IsNumbered id (json.object (write_fields p obj)) w s m k n e old)

      at_found :
          (s : Slot V) (m : BTreeMap V) (found : Option V)
          → IsNumbered k s
          → s.value ≡ entries m
          → get id m ≡ found
          → AllNumbered (suc k) (patch_found slot id fields store s m found).1
      at_found s m none n e old = weaken k store h
      at_found s m (some w) n e old =
          at_entry s m w (json.as_object fields) (json.as_object w) n e old

      at_value :
          (s : Slot V) (u : SlotValue V)
          → IsNumbered k s
          → s.value ≡ u
          → AllNumbered (suc k) (patch_value slot id fields store s u).1
      at_value s (single v) n e = weaken k store h
      at_value s (entries m) n e = at_found s m (get id m) n e refl
