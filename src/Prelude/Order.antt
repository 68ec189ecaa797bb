-- ===== src/Prelude/Order.antt =====
-- Linear orders given by a comparison, as Rust's `Ord` asks of `cmp`.
use Prim.Native.Nat.{Ordering}
use mathlib.Core.Path.{◌≡◌}
use mathlib.Core.Bool.{true, false}
use native.Mathlib.Omega.{arith}
use hydropark_gym.Prelude.Tests.{then_with, is_gt}

pub record IsLinear {ℓ} {K : Type ℓ} (cmp : K → K → Ordering) : Type ℓ where
  pub cmp_self : (a : K) → cmp a a ≡ Ordering.eq
  pub eq_of_cmp : (a b : K) → cmp a b ≡ Ordering.eq → a ≡ b
  pub gt_of_lt : (a b : K) → cmp a b ≡ Ordering.lt → cmp b a ≡ Ordering.gt
  pub lt_of_gt : (a b : K) → cmp a b ≡ Ordering.gt → cmp b a ≡ Ordering.lt
  pub lt_trans : (a b c : K) → cmp a b ≡ Ordering.lt → cmp b c ≡ Ordering.lt → cmp a c ≡ Ordering.lt

module _ {ℓ} {K : Type ℓ} {cmp : K → K → Ordering} (lin : IsLinear cmp) where
  -- the order read the other way
  pub flip-IsLinear : IsLinear (λ a b. cmp b a)
  flip-IsLinear = record {
    cmp_self = λ a. lin.cmp_self a;
    eq_of_cmp = λ a b h. ground (arith, lin.eq_of_cmp b a);
    gt_of_lt = λ a b h. lin.gt_of_lt b a h;
    lt_of_gt = λ a b h. lin.lt_of_gt b a h;
    lt_trans = λ a b c h k. lin.lt_trans c b a k h;
  }

  pub le_trans :
      (a b c : K) → is_gt (cmp a b) ≡ false → is_gt (cmp b c) ≡ false → is_gt (cmp a c) ≡ false
  le_trans a b c h k = grind (arith, lin.eq_of_cmp a b, lin.eq_of_cmp b c, lin.lt_trans a b c)

  pub le_of_gt : (a b : K) → is_gt (cmp a b) ≡ true → is_gt (cmp b a) ≡ false
  le_of_gt a b h = ground (arith, lin.lt_of_gt a b)

  pub eq_of_le_le : (a b : K) → is_gt (cmp a b) ≡ false → is_gt (cmp b a) ≡ false → a ≡ b
  eq_of_le_le a b h k = ground (arith, lin.eq_of_cmp a b, lin.gt_of_lt a b)

-- first by one key, then by another: `a.cmp(b).then_with(|| …)`
abbrev pub lex {ℓ κ} :
    {A : Type ℓ} {B : Type κ} → (A → A → Ordering) → (B → B → Ordering) → A × B → A × B → Ordering
lex c d x y = then_with (c x.0 y.0) (d x.1 y.1)

module _ {ℓ κ} {A : Type ℓ} {B : Type κ} {cmp : A → A → Ordering} {dmp : B → B → Ordering} where
  pub lex-IsLinear : IsLinear cmp → IsLinear dmp → IsLinear {K = A × B} (lex cmp dmp)
  lex-IsLinear p q = record {
    cmp_self = λ x. ground (arith, p.cmp_self x.0, q.cmp_self x.1);
    eq_of_cmp = λ x y h. ground (arith, p.eq_of_cmp x.0 y.0, q.eq_of_cmp x.1 y.1);
    gt_of_lt = λ x y h.
        ground (arith, p.eq_of_cmp x.0 y.0, p.cmp_self x.0, p.gt_of_lt x.0 y.0, q.gt_of_lt x.1 y.1);
    lt_of_gt = λ x y h.
        ground (arith, p.eq_of_cmp x.0 y.0, p.cmp_self x.0, p.lt_of_gt x.0 y.0, q.lt_of_gt x.1 y.1);
    lt_trans = λ x y z h k. grind (
      arith,
      p.eq_of_cmp x.0 y.0,
      p.eq_of_cmp y.0 z.0,
      p.lt_trans x.0 y.0 z.0,
      q.lt_trans x.1 y.1 z.1,
    );
  }
