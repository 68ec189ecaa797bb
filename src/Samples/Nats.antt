-- ===== src/Samples/Nats.antt =====
-- Natural numbers in the place of floating-point ones.
use hydropark_gym.Prelude.{ℕ, ◌+◌, ◌-◌, ◌*◌, ◌/◌, ◌^◌, true, ltb, leb, nat_eqb}
use hydropark_gym.Prelude.Decimal.{decimal}
use hydropark_gym.Prelude.Float.{Float}

instance unfoldable pub nat_float : Float ℕ
nat_float = record {
  from_u32 = λ n. n;
  add = λ a b. a + b;
  sub = λ a b. a - b;
  mul = λ a b. a * b;
  div = λ a b. a / b;
  round = λ a. a;
  lt = ltb;
  ge = λ a b. leb b a;
  eqb = nat_eqb;
  is_finite = λ a. true;
  decimal = λ m k. m / 10 ^ k;
  show = λ k a. decimal a;
  display = decimal;
}
