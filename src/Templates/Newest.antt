-- ===== src/Templates/Newest.antt =====
-- The newest version on offer for a skill (client/src-tauri/src/templates.rs).
use hydropark_gym.Prelude.{
  ◌≡◌, ◌⊎◌, inl, inr, refl, sym, ◌∙◌, Bool, none, some, [], ◌∷◌, In, All, keep, is_gt, Bool-cases,
  arith, some_eq, subst, if◌then◌else◌, ◌≢◌,
}
use hydropark_gym.Prelude.Text.{Text, text_eqb, text_eqb_iff}
use hydropark_gym.Prelude.Perms.{In-keep, keep-In, All-at}
use hydropark_gym.Version.Semver.{SemVer, semver_cmp}
use hydropark_gym.Templates.Ranges.{AtLeast}
use hydropark_gym.Templates.Documents.{Versions, max_from, max_version, latest}

AtLeast-trans : (a b c : SemVer) → AtLeast a b → AtLeast b c → AtLeast a c
AtLeast-trans a b c h k = ground arith

AtLeast-antisymm : (a b : SemVer) → AtLeast a b → AtLeast b a → a ≡ b
AtLeast-antisymm a b h k = ground arith

-- one comparison of `Iterator::max`
abbrev later_of : SemVer → SemVer → SemVer
later_of best v = if is_gt (semver_cmp best v) then best else v

later_of_upper : (a b : SemVer) → AtLeast (later_of a b) a × AtLeast (later_of a b) b
later_of_upper a b = ground arith

max_from_upper :
    (best : SemVer) (l : Versions)
    → AtLeast (max_from best l) best × All (λ e. AtLeast (max_from best l) e.1) l
max_from_upper best [] = (ground arith, tt)
max_from_upper best (e ∷ rest) =
    let (up, all) = max_from_upper (later_of best e.1) rest in
    let (a, b) = later_of_upper best e.1 in
    let top = max_from (later_of best e.1) rest in
    (
      AtLeast-trans top (later_of best e.1) best up a,
      (AtLeast-trans top (later_of best e.1) e.1 up b, all),
    )

-- the version is that of one of the entries
abbrev pub HasVersion : SemVer → Versions → Type 0
HasVersion v l = (e : Text × SemVer) × In e l × (e.1 ≡ v)

max_from_picks :
    (best : SemVer) (l : Versions) → (max_from best l ≡ best) ⊎ HasVersion (max_from best l) l
max_from_picks best [] = inl refl
max_from_picks best (e ∷ rest) = elim (max_from_picks (later_of best e.1) rest) [
  | inr (x, i, q) ↦ inr (x, inr i, q)
  | inl q ↦ elim (Bool-cases (is_gt (semver_cmp best e.1))) [
    | inl t ↦ inl (q ∙ rw t refl)
    | inr t ↦ inr (e, inl refl, sym (q ∙ rw t refl))
  ]
]

-- the version of a skill that no version on offer for it exceeds
abbrev pub IsNewest : Versions → Text → SemVer → Type 0
IsNewest available id v =
    ((e : Text × SemVer) × In e available × (e.0 ≡ id) × (e.1 ≡ v))
    × ((e : Text × SemVer) → In e available → e.0 ≡ id → AtLeast v e.1)

newest_of_max :
    (e : Text × SemVer) (l : Versions)
    → let top = max_from e.1 l in HasVersion top (e ∷ l) × All (λ x. AtLeast top x.1) (e ∷ l)
newest_of_max e l =
    let (up, all) = max_from_upper e.1 l in
    elim (max_from_picks e.1 l) [
      | inl p ↦ ((e, inl refl, sym p), (up, all))
      | inr (x, i, p) ↦ ((x, inr i, p), (up, all))
    ]

newest_of_list :
    (l : Versions) (v : SemVer)
    → max_version l ≡ some v
    → HasVersion v l × All (λ x. AtLeast v x.1) l
newest_of_list [] v q = absurd (ground arith)
newest_of_list (e ∷ l) v q =
    subst (λ top. HasVersion top (e ∷ l) × All (λ x. AtLeast top x.1) (e ∷ l)) (some_eq q)
      (newest_of_max e l)

abbrev offers : Text → Text × SemVer → Bool
offers id e = text_eqb e.0 id

pub latest-IsNewest :
    (available : Versions) (id : Text) (v : SemVer)
    → latest available id ≡ some v
    → IsNewest available id v
unfolding latest
latest-IsNewest available id v h =
    let ((e, i, p), all) = newest_of_list (keep (offers id) available) v h in
    let (j, t) = In-keep (offers id) available e i in
    (
      (e, j, (text_eqb_iff e.0 id).0 t, p),
      λ x k q.
          All-at (λ y. AtLeast v y.1) x (keep (offers id) available) all
            (keep-In (offers id) available x k ((text_eqb_iff x.0 id).1 q)),
    )

max_version-none : (l : Versions) → max_version l ≡ none → (e : Text × SemVer) → In e l → ⊥
max_version-none [] h e i = elim i [ ]
max_version-none (x ∷ l) h e i = absurd (ground arith)

pub latest-none :
    (available : Versions) (id : Text)
    → latest available id ≡ none
    → (e : Text × SemVer) → In e available
    → e.0 ≢ id
unfolding latest
latest-none available id h e i q =
    max_version-none (keep (offers id) available) h e
      (keep-In (offers id) available e i ((text_eqb_iff e.0 id).1 q))

pub newest_unique :
    (available : Versions) (id : Text) (v w : SemVer)
    → IsNewest available id v
    → IsNewest available id w
    → v ≡ w
newest_unique available id v w ((e, i, p, q), up) ((f, j, r, s), vp) =
    AtLeast-antisymm v w (subst (AtLeast v) s (up f j r)) (subst (AtLeast w) q (vp e i p))
