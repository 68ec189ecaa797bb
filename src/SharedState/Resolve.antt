-- ===== src/SharedState/Resolve.antt =====
-- The slots of a set of skills (client/src-tauri/src/shared_state.rs).
use hydropark_gym.Prelude.{
  ◌++◌, Bool, ◌||◌, Option, none, some, List, [], ◌∷◌, map, find?, Result, ok, map_err, ◌>>=◌,
}
use hydropark_gym.Prelude.Text.{Text, chars, text_eqb}
use hydropark_gym.Prelude.TreeMap.{BTreeMap, get, insert}
use hydropark_gym.Orchestrator.Manifest.{SharedStateDecl, SkillManifest}
use hydropark_gym.SharedState.Types.{SlotType, SlotSpec}
use hydropark_gym.SharedState.Compat.{types_compatible, widen}
use hydropark_gym.SharedState.ParseTotal.{parse_slot_type}

pub data SlotError : Type 0 where
  -- the slot, the skill, the schema and the reason
  bad_schema : Text → Text → Text → Text → SlotError
  -- the slot, the two skills and the detail
  incompatible : Text → Text → Text → Text → SlotError

pub record Decl : Type 0 where
  pub skill : Text
  pub ty : SlotType
  pub write : Bool

abbrev pub grants_write : Text → Bool
grants_write access = text_eqb access (chars "write") || text_eqb access (chars "read_write")

-- a group has a first declaration, since it is made for one
abbrev pub Groups : Type 0
Groups = BTreeMap (Decl × List Decl)

-- `entry(slot).or_default().push(decl)`
abbrev pub pushed : Option (Decl × List Decl) → Decl → Decl × List Decl
pushed none d = (d, [])
pushed (some (first, rest)) d = (first, rest ++ (d ∷ []))

abbrev pub decl_of : Text → SharedStateDecl → SlotType → Decl
decl_of skill d ty = record { skill = skill; ty = ty; write = grants_write d.access }

abbrev pub bad_schema_of : Text → SharedStateDecl → Text → SlotError
bad_schema_of skill d reason = bad_schema d.slot skill d.schema reason

-- the inner loop of the grouping, over the declarations of a skill
unfoldable pub group_decls : Text → List SharedStateDecl → Groups → Result Groups SlotError
group_decls skill [] groups = ok groups
group_decls skill (d ∷ decls) groups =
    map_err (bad_schema_of skill d) (parse_slot_type d.schema) >>= λ ty.
    group_decls skill decls (insert d.slot (pushed (get d.slot groups) (decl_of skill d ty)) groups)

unfoldable pub group_skills : List (Text × List SharedStateDecl) → Groups → Result Groups SlotError
group_skills [] groups = ok groups
group_skills ((skill, decls) ∷ skills) groups =
    group_decls skill decls groups >>= λ groups'. group_skills skills groups'

abbrev pub incompatible_of : Text → Decl → Decl → Text → SlotError
incompatible_of slot a b detail = incompatible slot a.skill b.skill detail

-- the check of one declaration against those behind it
unfoldable pub check_against : Text → Decl → List Decl → Result (Unit {0}) SlotError
check_against slot a [] = ok tt
check_against slot a (b ∷ decls) =
    map_err (incompatible_of slot a b) (types_compatible a.ty b.ty) >>= λ _.
    check_against slot a decls

-- the check of every pair
unfoldable pub check_pairs : Text → List Decl → Result (Unit {0}) SlotError
check_pairs slot [] = ok tt
check_pairs slot (a ∷ decls) = check_against slot a decls >>= λ _. check_pairs slot decls

abbrev pub skill_of : Option Decl → Option Text
skill_of none = none
skill_of (some d) = some d.skill

-- the first declarer that may write
unfoldable pub first_writer : List Decl → Option Text
first_writer decls = skill_of (find? (λ d. d.write) decls)

unfoldable pub widen_all : SlotType → List Decl → SlotType
widen_all ty [] = ty
widen_all ty (d ∷ decls) = widen_all (widen ty d.ty) decls

abbrev pub spec_of : Decl → List Decl → SlotSpec
spec_of d rest = record {
  ty = widen_all d.ty rest;
  writer = first_writer (d ∷ rest);
  declarers = map (λ e. e.skill) (d ∷ rest);
}

-- the loop over the groups, which come by ascending slot
unfoldable pub specs_of : Groups → Result (BTreeMap SlotSpec) SlotError
specs_of [] = ok []
specs_of ((slot, (d, rest)) ∷ groups) = check_pairs slot (d ∷ rest) >>= λ _.
    specs_of groups >>= λ specs. ok ((slot, spec_of d rest) ∷ specs)

-- `resolve_decls`, and with it `resolve_slots_from_decls`
unfoldable pub resolve_decls :
    List (Text × List SharedStateDecl) → Result (BTreeMap SlotSpec) SlotError
resolve_decls skills = group_skills skills [] >>= λ groups. specs_of groups

module _ {V : Type 0} where
  unfoldable pub resolve_slots : List (SkillManifest V) → Result (BTreeMap SlotSpec) SlotError
  resolve_slots skills = resolve_decls (map (λ s. (s.id, s.shared_state)) skills)
