-- ===== src/Templates/Updates.antt =====
-- What the check for updates reports (client/src-tauri/src/templates.rs).
use hydropark_gym.Prelude.{
  ◌<◌, ◌≡◌, ◌↔◌, inl, inr, refl, ap, sym, ◌∙◌, true, Option, none, some, List, [], ◌∷◌, In,
  Bool-cases, Option-cases, arith, subst,
}
use hydropark_gym.Version.Order.{Older}
use hydropark_gym.Templates.Documents.{
  SkillRef, Template, UpdateInfo, Versions, latest, update_to, update_of, push_update, updates_from,
  check_updates,
}
use hydropark_gym.Templates.Newest.{IsNewest, latest-IsNewest, latest-none, newest_unique}

-- the update `u` of the pinned skill `r`: to the newest version on offer, which is newer than the
-- pin's base, and breaking if its major version is greater
abbrev pub IsUpdate : Versions → SkillRef → UpdateInfo → Type 0
IsUpdate available r u =
    (u.skill_id ≡ r.skill_id)
    × (u.from ≡ r.version_constraint.base)
    × IsNewest available r.skill_id u.to
    × Older u.from u.to
    × ((u.breaking ≡ true) ↔ (u.from.major < u.to.major))

update_of_sound :
    (available : Versions) (r : SkillRef) (u : UpdateInfo)
    → update_of available r ≡ some u
    → IsUpdate available r u
unfolding update_of
update_of_sound available r u h = elim (Option-cases (latest available r.skill_id)) [
  | inl n ↦ absurd (ground arith)
  | inr (to, f) ↦
      let same : u.to ≡ to = ground arith in
      (
        ground arith,
        ground arith,
        subst (IsNewest available r.skill_id) (sym same)
            (latest-IsNewest available r.skill_id to f),
        ground arith,
        ((λ b. ground arith), (λ b. ground arith)),
      )
]

update_to_complete :
    (r : SkillRef) (u : UpdateInfo)
    → u.skill_id ≡ r.skill_id
    → u.from ≡ r.version_constraint.base
    → Older u.from u.to
    → ((u.breaking ≡ true) ↔ (u.from.major < u.to.major))
    → update_to r u.to ≡ some u
update_to_complete r u p q o b = elim (Bool-cases (u.breaking)) [
  | inl t ↦ ground (arith, b.0 t)
  | inr t ↦ ground (arith, b.1)
]

update_of_complete :
    (available : Versions) (r : SkillRef) (u : UpdateInfo)
    → IsUpdate available r u
    → update_of available r ≡ some u
unfolding update_of
update_of_complete available r u (p, q, n, o, b) =
    elim (Option-cases (latest available r.skill_id)) [
      | inl none_left ↦
          let (e, i, same, v) = n.0 in absurd (latest-none available r.skill_id none_left e i same)
      | inr (to, f) ↦
          let same =
            newest_unique available r.skill_id to u.to (latest-IsNewest available r.skill_id to f)
              n in
          rw f (rw same (update_to_complete r u p q o b))
    ]

-- a reported update is the update of one of the pinned skills
abbrev pub IsReported : Versions → List SkillRef → UpdateInfo → Type 0
IsReported available refs u = (r : SkillRef) × In r refs × IsUpdate available r u

push_sound :
    (available : Versions) (r : SkillRef) (refs : List SkillRef) (u : UpdateInfo)
    (o : Option UpdateInfo) (us : List UpdateInfo)
    → update_of available r ≡ o
    → (In u us → IsReported available refs u)
    → In u (push_update o us)
    → IsReported available (r ∷ refs) u
push_sound available r refs u none us e ih i = let (s, j, h) = ih i in (s, inr j, h)
push_sound available r refs u (some v) us e ih (inl q) =
    (r, inl refl, update_of_sound available r u (e ∙ ap some q))
push_sound available r refs u (some v) us e ih (inr i) = let (s, j, h) = ih i in (s, inr j, h)

updates_sound :
    (available : Versions) (refs : List SkillRef) (u : UpdateInfo)
    → In u (updates_from available refs)
    → IsReported available refs u
unfolding updates_from
updates_sound available [] u i = elim i [ ]
updates_sound available (r ∷ refs) u i =
    push_sound available r refs u (update_of available r) (updates_from available refs) refl
      (updates_sound available refs u) i

push_keeps :
    (u : UpdateInfo) (o : Option UpdateInfo) (us : List UpdateInfo)
    → In u us
    → In u (push_update o us)
push_keeps u none us i = i
push_keeps u (some v) us i = inr i

updates_complete :
    (available : Versions) (refs : List SkillRef) (u : UpdateInfo) (r : SkillRef)
    → In r refs
    → IsUpdate available r u
    → In u (updates_from available refs)
unfolding updates_from
updates_complete available [] u r i h = elim i [ ]
updates_complete available (s ∷ refs) u r (inl q) h =
    rw (update_of_complete available s u (subst (λ x. IsUpdate available x u) (sym q) h)) (inl refl)
updates_complete available (s ∷ refs) u r (inr i) h =
    push_keeps u (update_of available s) (updates_from available refs)
      (updates_complete available refs u r i h)

module _ {V : Type 0} where
  -- The check for updates reports exactly these: for a pinned skill, the newest version on offer for
  -- it, if that is newer than the pin's base, flagged as breaking exactly if its major version is
  -- greater.
  pub check_updates_iff :
      (t : Template V) (available : Versions) (u : UpdateInfo)
      → In u (check_updates t available) ↔ IsReported available t.skill_refs u
  unfolding check_updates
  check_updates_iff t available u = (
    updates_sound available t.skill_refs u,
    λ h. let (r, i, k) = h in updates_complete available t.skill_refs u r i k,
  )
