-- ===== src/SharedState/Ids.antt =====
-- Entry ids tell their appender and its count (client/src-tauri/src/shared_state.rs).
use hydropark_gym.Prelude.{ℕ, ◌≡◌, refl, sym, subst, [], ◌∷◌, ◌++◌, In, All, arith, inl, inr}
use hydropark_gym.Prelude.Text.{Text}
use hydropark_gym.Prelude.Decimal.{decimal, decimal-injective, decimal-IsDigit, IsDigit}
use hydropark_gym.Prelude.Perms.{All-at}
use hydropark_gym.SharedState.Store.{entry_id}

In-behind : (c : ℕ) (s d : Text) → In c (s ++ c ∷ d)
In-behind c [] d = inl refl
In-behind c (x ∷ s) d = inr (In-behind c s d)

no_mark : (d : Text) → All IsDigit d → ¬ In 35 d
no_mark d h i = let p = All-at IsDigit 35 d h i in omega arith

-- a text with a mark and digits behind it is taken apart in one way
split_at_mark :
    (s t d e : Text) → All IsDigit d → All IsDigit e → s ++ 35 ∷ d ≡ t ++ 35 ∷ e → (s ≡ t) × (d ≡ e)
split_at_mark [] [] d e p q h = (refl, ground arith)
split_at_mark [] (x ∷ t) d e p q h =
    let r : d ≡ t ++ 35 ∷ e = ground arith in
    absurd (no_mark d p (subst (In 35) (sym r) (In-behind 35 t e)))
split_at_mark (x ∷ s) [] d e p q h =
    let r : s ++ 35 ∷ d ≡ e = ground arith in
    absurd (no_mark e q (subst (In 35) r (In-behind 35 s d)))
split_at_mark (x ∷ s) (y ∷ t) d e p q h =
    let (u, v) = split_at_mark s t d e p q (ground arith) in (ground arith, v)

-- Two entry ids are equal only if the appending skill and its count are.
pub entry_id-injective : (a b : Text) (n m : ℕ) → entry_id a n ≡ entry_id b m → (a ≡ b) × (n ≡ m)
unfolding entry_id
entry_id-injective a b n m h =
    let (s, d) =
      split_at_mark a b (decimal n) (decimal m) (decimal-IsDigit n) (decimal-IsDigit m) h in
    (s, decimal-injective n m d)
