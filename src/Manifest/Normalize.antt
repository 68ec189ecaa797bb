-- ===== src/Manifest/Normalize.antt =====
-- The normalization of a manifest into its canonical form (client/src-tauri/src/manifest.rs). The
-- `f64` of a price is a type parameter `F`; `Value::as_f64` and the cast to `i64` are parameters.
use hydropark_gym.Prelude.{true, false, Option, none, some, List, [], map, if◌then◌else◌}
use hydropark_gym.Prelude.Int.{ℤ, pos}
use hydropark_gym.Prelude.Text.{Text, chars}
use hydropark_gym.Prelude.TreeMap.{BTreeMap, get}
use hydropark_gym.Prelude.Json.{Json}
use hydropark_gym.Prelude.Float.{Float}
use hydropark_gym.Manifest.Access.{
  str_at, str_or, then_get, then_str, elements, strings_of, or_else, then_object, then_i64,
  then_bool, field, objects_of,
}
use hydropark_gym.Manifest.Widgets.{normalize_panel}
use hydropark_gym.Manifest.Canonical.{
  Requirements, Pricing, FewShot, Persona, CanonicalTool, SharedStateSlot, Ui, Resources,
  Localization, Compatibility, CostEstimate, CanonicalManifest,
}

module _ {V : Type 0} ⦃json : Json V⦄ where
  abbrev pub str_array : Option V → List Text
  str_array v = strings_of json.as_str (elements v)

  -- a string field of an object that may be missing
  abbrev field_or : Option (BTreeMap V) → Text → Text → Text
  field_or o key default = or_else (then_str (field key o)) default

  abbrev pub normalize_requirements : Option V → Requirements
  normalize_requirements v =
      let o = then_object v in
      record {
        min_model_tier = field_or o (chars "min_model_tier") (chars "small");
        min_params_b = then_i64 (field (chars "min_params_b") o);
        min_ram_gb = then_i64 (field (chars "min_ram_gb") o);
      }

  abbrev normalize_few_shot : BTreeMap V → FewShot
  normalize_few_shot eo = record {
    role = str_or eo (chars "role") [];
    content = str_or eo (chars "content") [];
  }

  abbrev pub normalize_persona : Option V → Persona
  normalize_persona v =
      let o = then_object v in
      record {
        role = field_or o (chars "role") (chars "primary_eligible");
        system_prompt = field_or o (chars "system_prompt") [];
        compressed_prompt = field_or o (chars "compressed_prompt") [];
        few_shot = map normalize_few_shot (objects_of (elements (field (chars "few_shot") o)));
      }

  abbrev pub normalize_tool : BTreeMap V → CanonicalTool V
  normalize_tool t = record {
    tool_ref = str_or t (chars "ref") [];
    config = or_else (get (chars "config") t) (json.object []);
    reads_state = str_array (get (chars "reads_state") t);
    writes_state = str_array (get (chars "writes_state") t);
    updates_widget = str_at t (chars "updates_widget");
  }

  abbrev pub normalize_tools : Option V → List (CanonicalTool V)
  normalize_tools v = map normalize_tool (objects_of (elements v))

  abbrev pub normalize_slot : BTreeMap V → SharedStateSlot
  normalize_slot s = record {
    slot = str_or s (chars "slot") [];
    access = str_or s (chars "access") (chars "read");
    schema = str_or s (chars "schema") [];
  }

  abbrev pub normalize_slots : Option V → List SharedStateSlot
  normalize_slots v = map normalize_slot (objects_of (elements v))

  abbrev pub normalize_ui : Option V → Ui V
  normalize_ui v = record {
    panels = map normalize_panel (objects_of (elements (then_get (chars "panels") v)));
  }

  abbrev pub normalize_resources : Option V → Resources
  normalize_resources v =
      let o = then_object v in
      record {
        icon = then_str (field (chars "icon") o);
        assets = str_array (field (chars "assets") o);
        strings = str_array (field (chars "strings") o);
      }

  abbrev pub normalize_localization : Option V → Localization
  normalize_localization v =
      let o = then_object v in
      record {
        default_locale = then_str (field (chars "default_locale") o);
        unit_system_default = field_or o (chars "unit_system_default") (chars "auto");
      }

  abbrev pub normalize_compatibility : Option V → Compatibility
  normalize_compatibility v =
      let o = then_object v in
      record {
        conflicts_with = str_array (field (chars "conflicts_with") o);
        combine_priority = or_else (then_i64 (field (chars "combine_priority") o)) (pos 50);
      }

  -- an integer field, 0 when it is missing
  abbrev count_at : BTreeMap V → Text → ℤ
  count_at o key = or_else (then_i64 (get key o)) (pos 0)

  abbrev pub normalize_cost : Option V → Option CostEstimate
  normalize_cost v = elim (then_object v) [
    | none ↦ none
    | some o ↦ some (record {
      prompt_tokens = count_at o (chars "prompt_tokens");
      tools = count_at o (chars "tools");
      panels = count_at o (chars "panels");
    })
  ]

module _ {V F : Type 0} ⦃json : Json V⦄ ⦃float : Float F⦄ (as_f64 : V → Option F)
    (as_i64 : F → ℤ) where
  then_f64 : Option V → Option F
  then_f64 none = none
  then_f64 (some v) = as_f64 v

  unfoldable pub normalize_pricing : Option V → Pricing
  unfolding get then_f64
  normalize_pricing v =
      let o = then_object v in
      if or_else (then_bool (field (chars "free") o)) true
      then record { free = true; price = none }
      else elim (then_object (field (chars "price") o)) [
        | some pr ↦ record {
          free = false;
          price = some (record {
            amount_minor = or_else (then_i64 (get (chars "amount_minor") pr)) (pos 0);
            currency = str_or pr (chars "currency") (chars "USD");
          });
        }
        | none ↦ elim (then_f64 (field (chars "price_usd") o)) [
          | some usd ↦ record {
            free = false;
            price = some (record {
              amount_minor = as_i64 (float.round (float.mul usd (float.from_u32 100)));
              currency = chars "USD";
            });
          }
          | none ↦ record { free = false; price = none }
        ]
      ]

  unfoldable pub normalize : BTreeMap V → CanonicalManifest V
  unfolding get normalize_panel normalize_pricing
  normalize obj = record {
    manifest_version = str_or obj (chars "manifest_version") (chars "1.0");
    id = str_or obj (chars "id") [];
    name = str_or obj (chars "name") [];
    summary = str_at obj (chars "summary");
    version = str_or obj (chars "version") [];
    status = str_or obj (chars "status") (chars "published");
    category = str_or obj (chars "category") [];
    min_app_version = str_or obj (chars "min_app_version") [];
    requirements = normalize_requirements (get (chars "requirements") obj);
    pricing = normalize_pricing (get (chars "pricing") obj);
    persona = normalize_persona (get (chars "persona") obj);
    capabilities = str_array (get (chars "capabilities") obj);
    tools = normalize_tools (get (chars "tools") obj);
    shared_state = normalize_slots (get (chars "shared_state") obj);
    ui = normalize_ui (get (chars "ui") obj);
    resources = normalize_resources (get (chars "resources") obj);
    localization = normalize_localization (get (chars "localization") obj);
    compatibility = normalize_compatibility (get (chars "compatibility") obj);
    cost_estimate = normalize_cost (get (chars "cost_estimate") obj);
    signature = str_at obj (chars "signature");
    signing_key_id = str_at obj (chars "signing_key_id");
  }
