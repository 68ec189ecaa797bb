-- ===== src/Prelude/TreeMap.antt =====
-- `BTreeMap<String, V>`: its entries in the order in which it iterates, by ascending key.
use mathlib.Core.Path.{◌≡◌, refl, sym, subst}
use mathlib.Core.Bool.{false}
use mathlib.Core.Option.{Option, none, some}
use mathlib.Core.List.{List, [], ◌∷◌}
use native.Mathlib.Omega.{arith}
use Prim.Native.Nat.{Ordering}
use hydropark_gym.Prelude.Tests.{if◌then◌else◌}
use hydropark_gym.Prelude.Text.{Text, text_eqb, text_eqb_iff, text_cmp, text_cmp-IsLinear}

abbrev pub BTreeMap {ℓ} : Type ℓ → Type ℓ
BTreeMap V = List (Text × V)

module _ {ℓ} {V : Type ℓ} where
  -- `BTreeMap::get`
  unfoldable pub get : Text → BTreeMap V → Option V
  get k [] = none
  get k ((j, v) ∷ m) = if text_eqb j k then some v else get k m

  -- `BTreeMap::insert`, which replaces the value of a key that is there
  unfoldable pub insert : Text → V → BTreeMap V → BTreeMap V
  insert k v [] = (k, v) ∷ []
  insert k v ((j, w) ∷ m) = elim (text_cmp k j) [
    | Ordering.lt ↦ (k, v) ∷ (j, w) ∷ m
    | Ordering.eq ↦ (k, v) ∷ m
    | Ordering.gt ↦ (j, w) ∷ insert k v m
  ]

  open text_cmp-IsLinear use {eq_of_cmp, cmp_self, lt_trans, lt_of_gt, gt_of_lt}

  pub get-insert :
      (k j : Text) (v : V) (m : BTreeMap V)
      → get j (insert k v m) ≡ (if text_eqb k j then some v else get j m)
  unfolding get insert
  get-insert k j v [] = refl
  get-insert k j v ((i, w) ∷ m) =
      ground
        (arith, text_eqb_iff k j, text_eqb_iff i j, eq_of_cmp k i, cmp_self k, get-insert k j v m)

  -- every key of `m` is above `k`
  abbrev pub Below : Text → BTreeMap V → Type ℓ
  Below k [] = Unit
  Below k ((j, v) ∷ m) = (text_cmp k j ≡ Ordering.lt) × Below k m

  -- the keys ascend, so no key stands twice
  abbrev pub IsSorted : BTreeMap V → Type ℓ
  IsSorted [] = Unit
  IsSorted ((k, v) ∷ m) = Below k m × IsSorted m

  Below-trans : (k j : Text) (m : BTreeMap V) → text_cmp k j ≡ Ordering.lt → Below j m → Below k m
  Below-trans k j [] h b = tt
  Below-trans k j ((i, v) ∷ m) h b = (lt_trans k j i h b.0, Below-trans k j m h b.1)

  Below-insert :
      (k j : Text) (v : V) (m : BTreeMap V)
      → text_cmp k j ≡ Ordering.lt
      → Below k m
      → Below k (insert j v m)
  unfolding insert
  Below-insert k j v [] h b = (h, tt)
  Below-insert k j v ((i, w) ∷ m) h b =
      elim (text_cmp j i)
        as (λ o. Below k (elim o [
          | Ordering.lt ↦ (j, v) ∷ (i, w) ∷ m
          | Ordering.eq ↦ (j, v) ∷ m
          | Ordering.gt ↦ (i, w) ∷ insert j v m
        ])) [
          | Ordering.lt ↦ (h, b)
          | Ordering.eq ↦ (h, b.1)
          | Ordering.gt ↦ (b.0, Below-insert k j v m h b.1)
        ]

  -- one step of `insert` on its comparison
  insert_step : Text → V → Text → V → BTreeMap V → BTreeMap V → Ordering → BTreeMap V
  insert_step k v j w m rest = elim [
    | Ordering.lt ↦ (k, v) ∷ (j, w) ∷ m
    | Ordering.eq ↦ (k, v) ∷ m
    | Ordering.gt ↦ (j, w) ∷ rest
  ]

  step-IsSorted :
      (k j : Text) (v w : V) (m rest : BTreeMap V) (o : Ordering)
      → text_cmp k j ≡ o
      → Below j m
      → IsSorted m
      → (text_cmp j k ≡ Ordering.lt → Below j rest)
      → IsSorted rest
      → IsSorted (insert_step k v j w m rest o)
  unfolding insert_step
  step-IsSorted k j v w m rest Ordering.lt e b s f r = ((e, Below-trans k j m e b), (b, s))
  step-IsSorted k j v w m rest Ordering.eq e b s f r =
      (subst (λ i. Below i m) (sym (eq_of_cmp k j e)) b, s)
  step-IsSorted k j v w m rest Ordering.gt e b s f r = (f (lt_of_gt k j e), r)

  insert-IsSorted : (k : Text) (v : V) (m : BTreeMap V) → IsSorted m → IsSorted (insert k v m)
  unfolding insert insert_step
  insert-IsSorted k v [] s = (tt, tt)
  insert-IsSorted k v ((j, w) ∷ m) (b, s) =
      step-IsSorted k j v w m (insert k v m) (text_cmp k j) refl b s
        (λ lt. Below-insert j k v m lt b) (insert-IsSorted k v m s)

  pub insert_comm :
      (k j : Text) (v w : V) (m : BTreeMap V)
      → text_eqb k j ≡ false
      → insert k v (insert j w m) ≡ insert j w (insert k v m)
  unfolding insert
  insert_comm k j v w [] h =
      ground (arith, text_eqb_iff k j, eq_of_cmp k j, lt_of_gt k j, gt_of_lt k j)
  insert_comm k j v w ((i, u) ∷ m) h = ground (
    arith,
    text_eqb_iff k j,
    eq_of_cmp k j,
    eq_of_cmp k i,
    eq_of_cmp j i,
    cmp_self k,
    lt_of_gt k j,
    gt_of_lt k j,
    lt_of_gt j i,
    gt_of_lt j i,
    lt_of_gt k i,
    gt_of_lt k i,
    lt_trans k j i,
    lt_trans j k i,
    lt_trans k i j,
    lt_trans j i k,
    insert_comm k j v w m h,
  )

  pub insert_twice :
      (k : Text) (v w : V) (m : BTreeMap V) → insert k v (insert k w m) ≡ insert k v m
  unfolding insert
  insert_twice k v w [] = ground (arith, cmp_self k)
  insert_twice k v w ((i, u) ∷ m) = ground (arith, cmp_self k, eq_of_cmp k i, insert_twice k v w m)
