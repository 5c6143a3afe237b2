-- ===== src/Meta/Control.antt =====
-- Adding owners and controllers.
use crossplane_runtime.Base.{
  ◌≡◌, refl, sym, ◌∙◌, ap, subst, true, false, inl, inr, Option, none, some, List, [], ◌∷◌, Bytes,
  equal, equal_iff, equal_refl, arith, All, if◌then◌else◌, Bool-cases, Option-cases,
}
use crossplane_runtime.Meta.{OwnerReference, Object}
use crossplane_runtime.Meta.Owners.{
  Among, controls, ControllerOf, add_owner_loop, add_owner_reference, AddResult, added,
  already_controlled, add_controller_reference,
}

-- The first owner with this UID.
abbrev pub owner : List OwnerReference → Bytes → Option OwnerReference
owner [] uid = none
owner (x ∷ refs) uid = if equal x.uid uid then some x else owner refs uid

owner-add_owner_loop :
    (refs : List OwnerReference) (r : OwnerReference) (uid : Bytes)
    → owner (add_owner_loop refs r) uid ≡ (if equal r.uid uid then some r else owner refs uid)
unfolding add_owner_loop
owner-add_owner_loop [] r uid = refl
owner-add_owner_loop (x ∷ refs) r uid = ground (
  arith,
  equal_iff x.uid r.uid,
  equal_iff x.uid uid,
  equal_iff r.uid uid,
  owner-add_owner_loop refs r uid,
)

-- After `AddOwnerReference` the owner with the UID of the reference is the reference, and the owner
-- with any other UID is as before.
pub owner-add_owner_reference :
    (o : Object) (r : OwnerReference) (uid : Bytes)
    → owner (add_owner_reference o r).owner_references uid
      ≡ (if equal r.uid uid then some r else owner o.owner_references uid)
unfolding add_owner_reference
owner-add_owner_reference o r uid = owner-add_owner_loop o.owner_references r uid

-- Whatever controls has this UID.
abbrev pub ControlledBy : Bytes → List OwnerReference → Type 0
ControlledBy uid refs = All (λ x. controls x ≡ true → x.uid ≡ uid) refs

ControlledBy-add_owner_loop :
    (refs : List OwnerReference) (r : OwnerReference)
    → ControlledBy r.uid refs
    → ControlledBy r.uid (add_owner_loop refs r)
unfolding add_owner_loop
ControlledBy-add_owner_loop [] r h = (λ c. refl, tt)
ControlledBy-add_owner_loop (x ∷ refs) r h = elim (Bool-cases (equal x.uid r.uid)) [
  | inl same ↦ rw same (λ c. refl, h.1)
  | inr other ↦ rw other (h.0, ControlledBy-add_owner_loop refs r h.1)
]

uncontrolled :
    (refs : List OwnerReference) (uid : Bytes)
    → All (λ x. controls x ≡ false) refs
    → ControlledBy uid refs
uncontrolled [] uid h = tt
uncontrolled (x ∷ refs) uid h =
    (λ c. absurd (let bad = sym c ∙ h.0 in cc), uncontrolled refs uid h.1)

Among-ControlledBy :
    (refs : List OwnerReference) (c : OwnerReference) (uid : Bytes)
    → Among c refs
    → controls c ≡ true
    → ControlledBy uid refs
    → c.uid ≡ uid
Among-ControlledBy [] c uid a held h = absurd a
Among-ControlledBy (x ∷ refs) c uid (inl e) held h =
    ap (λ y. y.uid) e ∙ h.0 (ap controls (sym e) ∙ held)
Among-ControlledBy (x ∷ refs) c uid (inr a) held h = Among-ControlledBy refs c uid a held h.1

-- What `AddControllerReference` may end in: the object has no other controller than the
-- reference, or it has one, which the error names.
pub data Controlled (o : Object) (r : OwnerReference) : AddResult → Type 0 where
  is_added :
      ControlledBy r.uid (add_owner_reference o r).owner_references
      → owner (add_owner_reference o r).owner_references r.uid ≡ some r
      → Controlled o r (added (add_owner_reference o r))
  has_other :
      (c : OwnerReference)
      → Among c o.owner_references
      → controls c ≡ true
      → equal c.uid r.uid ≡ false
      → Controlled o r (already_controlled c)

adds :
    (o : Object) (r : OwnerReference)
    → ControlledBy r.uid o.owner_references
    → Controlled o r (added (add_owner_reference o r))
unfolding add_owner_reference
adds o r h =
    is_added (ControlledBy-add_owner_loop o.owner_references r h)
      (owner-add_owner_loop o.owner_references r r.uid ∙ rw (equal_refl r.uid))

-- `AddControllerReference`, on an object whose controlling references have one UID: it adds the
-- reference, and then nothing with another UID controls the object; or it fails, and names a
-- controller that the object has, with another UID.
pub add_controller_reference-Controlled :
    (get : ControllerOf) (o : Object) (r : OwnerReference) (uid : Bytes)
    → ControlledBy uid o.owner_references
    → Controlled o r (add_controller_reference get o r)
unfolding add_controller_reference
add_controller_reference-Controlled get o r uid h =
    elim (Option-cases (get.find o.owner_references)) [
      | inl e ↦
          rw (e, add_controller_reference)
            (adds o r (uncontrolled o.owner_references r.uid (get.find-none o.owner_references e)))
      | inr (c, e) ↦
          let (among, held) = get.find-some o.owner_references c e in
          let its = Among-ControlledBy o.owner_references c uid among held h in
          elim (Bool-cases (equal c.uid r.uid)) [
            | inr other ↦ rw (e, add_controller_reference) (rw other (has_other c among held other))
            | inl same ↦
                let u : uid ≡ r.uid = sym its ∙ (equal_iff c.uid r.uid).0 same in
                rw (e, add_controller_reference)
                  (rw same (adds o r (subst (λ x. ControlledBy x o.owner_references) u h)))
          ]
    ]
