-- ===== src/Samples/Worlds.antt =====
-- A scripted engine, a kitchen timer for a tool, and a clock that counts minutes.
use hydropark_gym.Prelude.{ℕ, none, some, List, [], ◌∷◌, Result, ok, err, if◌then◌else◌, ◌+◌, ◌-◌}
use hydropark_gym.Prelude.Int.{pos, negsuc}
use hydropark_gym.Prelude.Text.{Text, chars, text_eqb}
use hydropark_gym.Prelude.Decimal.{decimal}
use hydropark_gym.Samples.Doc.{Doc, num, str}
use hydropark_gym.Catalog.Types.{
  mass, volume, temperature, UnitId, ListOp, CalcOp, DateOp, Serde, Chrono,
}
use hydropark_gym.Turn.Types.{GenOutput, Engine, ToolRunner}
use hydropark_gym.Turn.Machine.{World}

abbrev no_match : {A : Type 0} → Result A Text
no_match = err (chars "unknown variant")

-- the value that a table has for a string
abbrev by_name : {A : Type 0} → List (Text × A) → Doc → Result A Text
by_name [] v = no_match
by_name ((name, a) ∷ table) (str s) = if text_eqb name s then ok a else by_name table (str s)
by_name (_ ∷ table) _ = no_match

unfoldable pub doc_serde : Serde Doc ℕ
doc_serde = record {
  as_f64 = λ v. elim v [ num n ↦ some n | _ ↦ none ];
  unit_domain =
      by_name
        ((chars "mass", mass) ∷ (chars "volume", volume) ∷ (chars "temperature", temperature) ∷ []);
  unit_id = by_name ((chars "g", UnitId.g) ∷ (chars "kg", UnitId.kg) ∷ (chars "c", UnitId.c) ∷ []);
  list_op = by_name ((chars "add", ListOp.add) ∷ (chars "remove", ListOp.remove) ∷ []);
  calc_op = by_name ((chars "add", CalcOp.add) ∷ (chars "div", CalcOp.div) ∷ []);
  date_op = by_name ((chars "add", DateOp.add) ∷ (chars "sub", DateOp.sub) ∷ []);
  item_patch = λ v. no_match;
  item_patches = λ v. no_match;
}

unfoldable pub minutes_clock : Chrono ℕ ℕ
minutes_clock = record {
  parse_from_rfc3339 = λ t. elim t [ [] ↦ err (chars "premature end") | _ ↦ ok 0 ];
  try_minutes = λ z. elim z [ pos n ↦ some n | negsuc n ↦ none ];
  checked_add_signed = λ d s. some (d + s);
  checked_sub_signed = λ d s. some (d - s);
  to_rfc3339 = decimal;
}

-- an engine that reads its outputs off a list
unfoldable pub script : Engine Doc (List (GenOutput Doc))
script = record {
  generate =
      λ e p g. elim e [ [] ↦ (GenOutput.prose (chars "Done."), []) | out ∷ rest ↦ (out, rest) ];
}

-- a runner that counts its runs
unfoldable pub counter : ToolRunner Doc ℕ ℕ
counter = record { run_tool = λ n t a. (ok (num n), n + 1) }

unfoldable pub kitchen : World Doc ℕ ℕ ℕ (List (GenOutput Doc)) ℕ
unfolding doc_serde minutes_clock script counter
kitchen = record { serde = doc_serde; chrono = minutes_clock; engine = script; runner = counter }
