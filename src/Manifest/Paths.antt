-- ===== src/Manifest/Paths.antt =====
-- An asset path stays below the directory of its package (client/src-tauri/src/manifest.rs).
use hydropark_gym.Prelude.{
  ◌≡◌, ◌≢◌, refl, sym, subst, arith, ℕ, ◌<◌, Bool, true, false, ◌||◌, Option, none, some, List, [],
  ◌∷◌, ◌++◌, nat_eqb, all, All, All-append, All-map,
}
use hydropark_gym.Prelude.Text.{Text, chars, is_empty, strip_suffix}
use hydropark_gym.Prelude.Parsing.{split_on, Avoids}
use hydropark_gym.Manifest.Pieces.{
  on_last, split_on-on_last, ascii_of_all, strip_suffix-append, All-of_pieces,
}
use hydropark_gym.Manifest.Formats.{
  all_bytes, is_path_byte, is_slug_byte, is_path_stem, is_svg_asset_path, is_skill_id,
}

-- what a component of a path must not hold: the separators of paths and of drives
abbrev pub is_separator : ℕ → Bool
is_separator c = nat_eqb c b'/' || nat_eqb c b'\\' || nat_eqb c b':'

-- a name of a file or a directory, neither this directory nor the one above
abbrev pub IsComponent : Text → Type 0
IsComponent s = (s ≢ []) × (s ≢ chars ".") × (s ≢ chars "..") × Avoids is_separator s

class-IsAscii :
    (q : ℕ → Bool) (s : Text)
    → ((b : ℕ) → q b ≡ true → b < 0x80)
    → ((b : ℕ) → q b ≡ true → (is_separator b ≡ false) × (nat_eqb b b'.' ≡ false))
    → all_bytes q s ≡ true
    → (s ≢ []) × All (λ c. (is_separator c ≡ false) × (nat_eqb c b'.' ≡ false)) s
unfolding is_empty
class-IsAscii q [] h k e = absurd (ground arith)
class-IsAscii q (c ∷ s) h k e = (
  (λ x. absurd (ground arith)),
  All-map _ _ (c ∷ s) k (ascii_of_all q h (c ∷ s) (ground (arith, e))),
)

-- a nonempty text of plain characters is a component, also with an extension behind it
abbrev pub IsPlain : Text → Type 0
IsPlain s = (s ≢ []) × All (λ c. (is_separator c ≡ false) × (nat_eqb c b'.' ≡ false)) s

no_dot : (s : Text) (t : Text) → IsPlain s → s ≢ b'.' ∷ t
no_dot [] t (n, a) e = n refl
no_dot (c ∷ s) t (n, ((p, q), a)) e = absurd (ground (arith, e, q))

plain-IsComponent : (s : Text) → IsPlain s → IsComponent s
plain-IsComponent s p = (p.0, no_dot s [] p, no_dot s (b'.' ∷ []) p, All-map _ _ s (λ c q. q.0) p.1)

with_extension :
    (s t : Text) → IsPlain s → All (λ c. is_separator c ≡ false) t → IsComponent (s ++ t)
with_extension [] t p a = absurd (p.0 refl)
with_extension (c ∷ s) t (n, ((p, q), b)) a = (
  (λ e. absurd (ground arith)),
  (λ e. absurd (ground (arith, e, q))),
  (λ e. absurd (ground (arith, e, q))),
  All-append _ (c ∷ s) t (p, All-map _ _ s (λ d r. r.0) b) a,
)

on_last-All :
    (t : Text) (xs : List Text)
    → All (λ c. is_separator c ≡ false) t
    → All IsPlain xs
    → All IsComponent (on_last t xs)
on_last-All t [] a p = tt
on_last-All t (x ∷ []) a (p, ps) = (with_extension x t p a, tt)
on_last-All t (x ∷ y ∷ ys) a (p, ps) = (plain-IsComponent x p, on_last-All t (y ∷ ys) a ps)

all-IsPlain :
    (q : ℕ → Bool)
    → ((b : ℕ) → q b ≡ true → b < 0x80)
    → ((b : ℕ) → q b ≡ true → (is_separator b ≡ false) × (nat_eqb b b'.' ≡ false))
    → (xs : List Text) → all (all_bytes q) xs ≡ true
    → All IsPlain xs
all-IsPlain q h k [] e = tt
all-IsPlain q h k (x ∷ xs) e =
    (class-IsAscii q x h k (ground (arith, e)), all-IsPlain q h k xs (ground (arith, e)))

path_byte-IsAscii :
    (b : ℕ)
    → is_path_byte b ≡ true
    → (b < 0x80) × (is_separator b ≡ false) × (nat_eqb b b'.' ≡ false)
path_byte-IsAscii b e = (ground arith, ground arith, ground arith)

slug_byte-IsAscii :
    (b : ℕ)
    → is_slug_byte b ≡ true
    → (b < 0x80) × (is_separator b ≡ false) × (nat_eqb b b'.' ≡ false)
slug_byte-IsAscii b e = (ground arith, ground arith, ground arith)

stem-IsConfined :
    (o : Option Text) (s : Text)
    → strip_suffix (chars ".svg") s ≡ o
    → is_path_stem o ≡ true
    → All IsComponent (split_on b'/' s)
unfolding split_on
stem-IsConfined none s h e = absurd (ground arith)
stem-IsConfined (some stem) s h e =
    subst (λ z. All IsComponent (split_on b'/' z))
      (sym (strip_suffix-append (chars ".svg") s stem h))
      (subst (All IsComponent) (sym (split_on-on_last b'/' stem (chars ".svg") refl)) (
        on_last-All (chars ".svg") (split_on b'/' stem) (refl, (refl, (refl, (refl, tt))))
          (all-IsPlain is_path_byte (λ b p. (path_byte-IsAscii b p).0)
            (λ b p. ((path_byte-IsAscii b p).1, (path_byte-IsAscii b p).2)) (split_on b'/' stem)
            (ground (arith, e)))))

-- Every component of an accepted path is a name below its directory.
pub is_svg_asset_path-IsConfined :
    (s : Text) → is_svg_asset_path s ≡ true → All IsComponent (split_on b'/' s)
unfolding is_svg_asset_path
is_svg_asset_path-IsConfined s e =
    stem-IsConfined (strip_suffix (chars ".svg") s) s refl (ground (arith, e))

slug_chars :
    (s : Text)
    → all (all_bytes is_slug_byte) (split_on b'-' s) ≡ true
    → All (λ c. (is_separator c ≡ false) × (nat_eqb c b'.' ≡ false)) s
slug_chars s e =
    All-of_pieces _ b'-' (refl, refl) s
      (All-map IsPlain _ (split_on b'-' s) (λ x p. p.1)
        (all-IsPlain is_slug_byte (λ b p. (slug_byte-IsAscii b p).0)
          (λ b p. ((slug_byte-IsAscii b p).1, (slug_byte-IsAscii b p).2)) (split_on b'-' s) e))

-- An accepted skill id is one component of a path.
pub is_skill_id-IsComponent : (s : Text) → is_skill_id s ≡ true → IsComponent s
unfolding is_skill_id
is_skill_id-IsComponent [] e = absurd (ground arith)
is_skill_id-IsComponent (c ∷ s) e =
    plain-IsComponent (c ∷ s) ((λ x. absurd (ground arith)), slug_chars (c ∷ s) (ground (arith, e)))
