-- ===== src/Samples/Doc.antt =====
-- JSON documents with natural numbers.
use hydropark_gym.Prelude.{
  ℕ, Bool, true, false, not, ◌&&◌, Option, none, some, List, [], ◌∷◌, nat_eqb,
}
use hydropark_gym.Prelude.Int.{ℤ, pos}
use hydropark_gym.Prelude.Text.{Text, chars, text_eqb}
use hydropark_gym.Prelude.TreeMap.{BTreeMap}
use hydropark_gym.Prelude.Json.{Json}

mutual
  pub data Doc : Type 0 where
    null : Doc
    bool : Bool → Doc
    num : ℕ → Doc
    str : Text → Doc
    arr : Items → Doc
    obj : Fields → Doc

  pub data Items : Type 0 where
    nil : Items
    item : Doc → Items → Items

  pub data Fields : Type 0 where
    end : Fields
    field : Text → Doc → Fields → Fields

of_map : BTreeMap Doc → Fields
of_map [] = end
of_map ((k, v) ∷ m) = field k v (of_map m)

to_map : Fields → BTreeMap Doc
to_map end = []
to_map (field k v m) = (k, v) ∷ to_map m

to_list : Items → List Doc
to_list nil = []
to_list (item v r) = v ∷ to_list r

mutual
  doc_eqb : Doc → Doc → Bool
  doc_eqb null null = true
  doc_eqb (bool true) (bool b) = b
  doc_eqb (bool false) (bool b) = not b
  doc_eqb (num a) (num b) = nat_eqb a b
  doc_eqb (str a) (str b) = text_eqb a b
  doc_eqb (arr a) (arr b) = items_eqb a b
  doc_eqb (obj a) (obj b) = fields_eqb a b
  doc_eqb _ _ = false

  items_eqb : Items → Items → Bool
  items_eqb nil nil = true
  items_eqb (item v r) (item w s) = doc_eqb v w && items_eqb r s
  items_eqb _ _ = false

  fields_eqb : Fields → Fields → Bool
  fields_eqb end end = true
  fields_eqb (field k v r) (field j w s) = text_eqb k j && doc_eqb v w && fields_eqb r s
  fields_eqb _ _ = false

is_null : Doc → Bool
is_null null = true
is_null _ = false

as_str : Doc → Option Text
as_str (str s) = some s
as_str _ = none

as_bool : Doc → Option Bool
as_bool (bool b) = some b
as_bool _ = none

as_u64 : Doc → Option ℕ
as_u64 (num n) = some n
as_u64 _ = none

as_i64 : Doc → Option ℤ
as_i64 (num n) = some (pos n)
as_i64 _ = none

as_array : Doc → Option (List Doc)
as_array (arr r) = some (to_list r)
as_array _ = none

as_object : Doc → Option (BTreeMap Doc)
as_object (obj m) = some (to_map m)
as_object _ = none

show : Doc → Text
show (str s) = s
show _ = chars "…"

instance unfoldable pub doc_json : Json Doc
unfolding of_map to_map to_list doc_eqb is_null as_str as_bool as_u64 as_i64 as_array as_object show
doc_json = record {
  null = null;
  string = str;
  object = λ m. obj (of_map m);
  is_null = is_null;
  as_str = as_str;
  as_bool = as_bool;
  as_u64 = as_u64;
  as_i64 = as_i64;
  as_array = as_array;
  as_object = as_object;
  eqb = doc_eqb;
  to_text = show;
}
