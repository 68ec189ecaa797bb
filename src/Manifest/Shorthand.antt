-- ===== src/Manifest/Shorthand.antt =====
-- How the inline keys of a panel fold into its properties (client/src-tauri/src/manifest.rs).
use hydropark_gym.Prelude.{
  ◌≡◌, refl, ap, sym, ◌∙◌, arith, Bool, true, false, ◌||◌, Option, none, some, List, [], ◌∷◌,
  Bool-cases, inl, inr, if◌then◌else◌,
}
use hydropark_gym.Prelude.Text.{Text, text_eqb, text_eqb_iff}
use hydropark_gym.Prelude.TreeMap.{BTreeMap, get, get-insert}
use hydropark_gym.Prelude.Json.{Json}
use hydropark_gym.Manifest.Issues.{contains}
use hydropark_gym.Manifest.Widgets.{fold_key, fold_inline}

-- the canonical value of a property, or else its inline value where the key is one of `keys`
abbrev pub folded : {A : Type 0} → Option A → Bool → Option A → Option A
folded (some v) allowed inline = some v
folded none allowed inline = if allowed then inline else none

folded-false : {A : Type 0} (o i : Option A) → o ≡ folded o false i
folded-false none i = refl
folded-false (some v) i = refl

folded_twice :
    {A : Type 0} (o : Option A) (a b : Bool) (i : Option A)
    → folded (folded o a i) b i ≡ folded o (a || b) i
folded_twice (some v) a b i = refl
folded_twice none true true none = refl
folded_twice none true false none = refl
folded_twice none true b (some v) = refl
folded_twice none false b i = refl

module _ {V : Type 0} ⦃json : Json V⦄ where
  get-fold_key_self :
      (p : BTreeMap V) (k : Text) (props : BTreeMap V) (i o : Option V)
      → get k p ≡ i
      → get k props ≡ o
      → get k (fold_key p k props) ≡ folded (get k props) true (get k p)
  get-fold_key_self p k props none none h g = ground (arith, h, g)
  get-fold_key_self p k props none (some w) h g = ground (arith, h, g)
  get-fold_key_self p k props (some v) none h g =
      ground (arith, h, g, get-insert k k v props, text_eqb_iff k k)
  get-fold_key_self p k props (some v) (some w) h g = ground (arith, h, g)

  get-fold_key_other :
      (p : BTreeMap V) (j k : Text) (props : BTreeMap V)
      → text_eqb j k ≡ false
      → (i o : Option V) → get j p ≡ i
      → get j props ≡ o
      → get k (fold_key p j props) ≡ get k props
  get-fold_key_other p j k props f none o h g = ground (arith, h)
  get-fold_key_other p j k props f (some v) none h g =
      ground (arith, h, g, f, get-insert j k v props)
  get-fold_key_other p j k props f (some v) (some w) h g = ground (arith, h, g)

  get-fold_key :
      (p : BTreeMap V) (j k : Text) (props : BTreeMap V)
      → get k (fold_key p j props) ≡ folded (get k props) (text_eqb j k) (get k p)
  get-fold_key p j k props = elim (Bool-cases (text_eqb j k)) [
    | inl t ↦
        let same : j ≡ k = (text_eqb_iff j k).0 t in
        ap (λ z. get k (fold_key p z props)) same
        ∙ get-fold_key_self p k props (get k p) (get k props) refl refl
        ∙ ap (λ b. folded (get k props) b (get k p)) (sym t)
    | inr f ↦
        get-fold_key_other p j k props f (get j p) (get j props) refl refl
        ∙ rw f (folded-false (get k props) (get k p))
  ]

  -- Folding the inline keys of a panel gives each property the value it has in `props`; without one
  -- there, the inline value of the panel if the key is one of those given; and else none.
  pub get-fold_inline :
      (p : BTreeMap V) (keys : List Text) (k : Text) (props : BTreeMap V)
      → get k (fold_inline p keys props) ≡ folded (get k props) (contains keys k) (get k p)
  unfolding fold_inline
  get-fold_inline p [] k props = folded-false (get k props) (get k p)
  get-fold_inline p (j ∷ keys) k props =
      get-fold_inline p keys k (fold_key p j props)
      ∙ ap (λ z. folded z (contains keys k) (get k p)) (get-fold_key p j k props)
      ∙ folded_twice (get k props) (text_eqb j k) (contains keys k) (get k p)
