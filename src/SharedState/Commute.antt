-- ===== src/SharedState/Commute.antt =====
-- Appends of different skills commute, and so do patches of different entries
-- (client/src-tauri/src/shared_state.rs).
use hydropark_gym.Prelude.{
  ℕ, ◌≡◌, ◌≢◌, refl, sym, false, none, some, inl, inr, arith, ok, Option-cases,
}
use hydropark_gym.Prelude.Text.{Text, text_eqb, text_eqb_iff}
use hydropark_gym.Prelude.TreeMap.{BTreeMap, get, insert, get-insert, insert_comm, insert_twice}
use hydropark_gym.Prelude.Json.{Json}
use hydropark_gym.SharedState.Types.{SlotValue, single, entries, Slot, SharedStateStore}
use hydropark_gym.SharedState.Store.{entry_id, next_seq, stamp, appended, append}
use hydropark_gym.SharedState.Ids.{entry_id-injective}

next_seq-insert :
    (a b : Text) (n : ℕ) (seq : BTreeMap ℕ) → a ≢ b → next_seq b (insert a n seq) ≡ next_seq b seq
unfolding next_seq
next_seq-insert a b n seq h = ground (arith, get-insert a b n seq, text_eqb_iff a b)

ids_differ : (a b : Text) (n m : ℕ) → a ≢ b → text_eqb (entry_id a n) (entry_id b m) ≡ false
ids_differ a b n m h =
    ground (arith, entry_id-injective a b n m, text_eqb_iff (entry_id a n) (entry_id b m))

keys_differ : (a b : Text) → a ≢ b → text_eqb a b ≡ false
keys_differ a b h = ground (arith, text_eqb_iff a b)

module _ {V : Type 0} ⦃json : Json V⦄ where
  appended_comm :
      (a b : Text) (x y : V) (s : Slot V) (m : BTreeMap V)
      → a ≢ b
      → let na = next_seq a s.seq in
        let nb = next_seq b s.seq in
        appended b y (appended a x s m) (insert (entry_id a na) (stamp (entry_id a na) x) m)
        ≡ appended a x (appended b y s m) (insert (entry_id b nb) (stamp (entry_id b nb) y) m)
  unfolding appended
  appended_comm a b x y s m h =
      let na = next_seq a s.seq in
      let nb = next_seq b s.seq in
      cc (
        next_seq-insert a b na s.seq h,
        next_seq-insert b a nb s.seq (λ e. h (sym e)),
        insert_comm b a nb na s.seq (keys_differ b a (λ e. h (sym e))),
        insert_comm (entry_id b nb) (entry_id a na) (stamp (entry_id b nb) y)
            (stamp (entry_id a na) x) m (ids_differ b a nb na (λ e. h (sym e))),
      )

  pub append-entries :
      (slot a : Text) (x : V) (store : SharedStateStore V) (s : Slot V) (m : BTreeMap V)
      → get slot store ≡ some s
      → s.value ≡ entries m
      → append slot a x store
        ≡ (ok (entry_id a (next_seq a s.seq)), insert slot (appended a x s m) store)
  unfolding append
  append-entries slot a x store s m g e = ground (arith, g, e)

  pub append-single :
      (slot a : Text) (x : V) (store : SharedStateStore V) (s : Slot V) (v : V)
      → get slot store ≡ some s
      → s.value ≡ single v
      → (append slot a x store).1 ≡ store
  unfolding append
  append-single slot a x store s v g e = ground (arith, g, e)

  pub append-none :
      (slot a : Text) (x : V) (store : SharedStateStore V)
      → get slot store ≡ none
      → (append slot a x store).1 ≡ store
  unfolding append
  append-none slot a x store g = ground (arith, g)

  pub get-insert_self :
      (slot : Text) (s : Slot V) (store : SharedStateStore V)
      → get slot (insert slot s store) ≡ some s
  get-insert_self slot s store =
      ground (arith, get-insert slot slot s store, text_eqb_iff slot slot)

  -- the second of two appends of different skills to a list slot
  append-append :
      (slot a b : Text) (x y : V) (store : SharedStateStore V) (s : Slot V) (m : BTreeMap V)
      → a ≢ b
      → get slot store ≡ some s
      → s.value ≡ entries m
      → let n = next_seq a s.seq in
        append slot b y (append slot a x store).1 ≡ (
          ok (entry_id b (next_seq b s.seq)),
          insert slot
              (appended b y (appended a x s m) (insert (entry_id a n) (stamp (entry_id a n) x) m))
              store,
        )
  unfolding appended
  append-append slot a b x y store s m h g e =
      let n = next_seq a s.seq in
      let s' = appended a x s m in
      let m' = insert (entry_id a n) (stamp (entry_id a n) x) m in
      cc (
        append-entries slot a x store s m g e,
        append-entries slot b y (insert slot s' store) s' m' (get-insert_self slot s' store) refl,
        insert_twice slot (appended b y s' m') s' store,
        next_seq-insert a b n s.seq h,
      )

  append_comm_at :
      (slot a b : Text) (x y : V) (store : SharedStateStore V) (s : Slot V) (u : SlotValue V)
      → a ≢ b
      → get slot store ≡ some s
      → s.value ≡ u
      → ((append slot b y (append slot a x store).1).1
          ≡ (append slot a x (append slot b y store).1).1)
        × ((append slot b y (append slot a x store).1).0 ≡ (append slot b y store).0)
  append_comm_at slot a b x y store s (entries m) h g e = (
    cc (
      append-append slot a b x y store s m h g e,
      append-append slot b a y x store s m (λ k. h (sym k)) g e,
      appended_comm a b x y s m h,
    ),
    cc (append-append slot a b x y store s m h g e, append-entries slot b y store s m g e),
  )
  append_comm_at slot a b x y store s (single v) h g e =
      let p = append-single slot a x store s v g e in
      let q = append-single slot b y store s v g e in (cc (p, q), cc p)

  -- Appends of two different skills to one slot commute: in either order they leave the same store,
  -- and each skill gets the same result, its entry's id included, as if the other had not run.
  pub append_comm :
      (slot a b : Text) (x y : V) (store : SharedStateStore V)
      → a ≢ b
      → ((append slot b y (append slot a x store).1).1
          ≡ (append slot a x (append slot b y store).1).1)
        × ((append slot b y (append slot a x store).1).0 ≡ (append slot b y store).0)
  append_comm slot a b x y store h = elim (Option-cases (get slot store)) [
    | inl g ↦
        let p = append-none slot a x store g in
        let q = append-none slot b y store g in (cc (p, q), cc p)
    | inr (s, g) ↦ append_comm_at slot a b x y store s s.value h g refl
  ]
