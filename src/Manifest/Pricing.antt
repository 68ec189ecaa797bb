-- ===== src/Manifest/Pricing.antt =====
-- The price of a skill (client/src-tauri/src/manifest.rs). The `f64` of a price is a type parameter
-- `F`, and `Value::as_f64` a parameter.
use hydropark_gym.Prelude.{
  Bool, true, false, not, ◌&&◌, ◌||◌, Option, none, some, [], ◌++◌, ltb, if◌then◌else◌,
}
use hydropark_gym.Prelude.Int.{ℤ, pos, negsuc}
use hydropark_gym.Prelude.Text.{Text, chars}
use hydropark_gym.Prelude.TreeMap.{BTreeMap, get}
use hydropark_gym.Prelude.Json.{Json}
use hydropark_gym.Prelude.Float.{Float}
use hydropark_gym.Manifest.Formats.{is_currency}
use hydropark_gym.Manifest.Issues.{
  invalid_type, out_of_range, invalid_format, invalid_pricing, Issues, push, ptr, when_some, expect,
  found, is_missing, must_be, required,
}

abbrev is_positive : ℤ → Bool
is_positive (pos n) = ltb 0 n
is_positive (negsuc n) = false

abbrev xor : Bool → Bool → Bool
xor a b = if a then not b else b

-- `Map::contains_key`
abbrev contains_key {ℓ} : {A : Type ℓ} → Text → BTreeMap A → Bool
contains_key k m = elim (get k m) [ none ↦ false | some v ↦ true ]

module _ {V F : Type 0} ⦃json : Json V⦄ ⦃float : Float F⦄ (as_f64 : V → Option F) where
  -- `price_usd`
  validate_price_usd : BTreeMap V → Issues
  unfolding get
  validate_price_usd p = when_some (get (chars "price_usd") p) (λ v.
      found (as_f64 v)
        (must_be invalid_type (chars "price_usd") (chars "a number") (chars "/pricing/price_usd"))
        (λ n.
          if float.ge (float.from_u32 0) n || float.lt (float.from_u32 1000) n
          then must_be out_of_range (chars "price_usd") (chars "in (0, 1000]")
              (chars "/pricing/price_usd")
          else []))

  -- `price`
  validate_price : BTreeMap V → Issues
  unfolding get is_currency
  validate_price p = when_some (get (chars "price") p) (λ v.
      found (json.as_object v)
        (must_be invalid_type (chars "price") (chars "an object") (chars "/pricing/price"))
        (λ pr.
          found (get (chars "amount_minor") pr)
            (is_missing (chars "amount_minor") (chars "/pricing/price/amount_minor"))
            (λ a.
              expect (json.as_i64 a) is_positive
                (λ n.
                  must_be out_of_range (chars "amount_minor") (chars "> 0")
                    (chars "/pricing/price/amount_minor"))
                (must_be invalid_type (chars "amount_minor") (chars "an integer")
                  (chars "/pricing/price/amount_minor")))
          ++ required pr json.as_str (chars "currency") (chars "a string")
              (chars "/pricing/price/currency")
              (λ s.
                if is_currency s
                then []
                else must_be invalid_format (chars "currency")
                    (chars "an ISO-4217 code (3 uppercase letters)")
                    (chars "/pricing/price/currency"))))

  unfoldable pub validate_pricing : BTreeMap V → Issues
  unfolding get validate_price_usd validate_price
  validate_pricing obj =
      required obj json.as_object (chars "pricing") (chars "an object") (ptr (chars "pricing"))
        (λ p.
          required p json.as_bool (chars "free") (chars "a boolean") (chars "/pricing/free")
            (λ free.
              let has_usd = contains_key (chars "price_usd") p in
              let has_price = contains_key (chars "price") p in
              (if free && (has_usd || has_price)
                then push invalid_pricing (chars "a free skill must not declare a price")
                    (ptr (chars "pricing"))
                else [])
              ++ ((if not free && not (xor has_usd has_price)
                    then push invalid_pricing
                        (chars "a paid skill must declare exactly one of 'price_usd' or 'price'")
                        (ptr (chars "pricing"))
                    else [])
                  ++ (validate_price_usd p ++ validate_price p))))
