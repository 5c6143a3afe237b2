-- ===== src/Policies/Laws.antt =====
-- What a resolver that only observes allows, and the legacy resolver beside the other.
use crossplane_runtime.Base.{
  ◌≡◌, refl, sym, ◌∙◌, true, false, not, ◌||◌, inl, inr, List, [], ◌∷◌, arith, Bool-cases,
}
use crossplane_runtime.Policies.{
  ManagementAction, DeletionPolicy, observe, create, update, delete, late_initialize, all,
  deletion_orphan, deletion_delete, deletion_other, is_orphan, is_delete, member, Sets, Resolver,
  new_resolver, should_create, should_update, should_late_initialize, should_only_observe,
  should_delete, legacy_should_delete,
}

module _ (S : Sets) where
  open S use {Set, new, has, len, equal, has-new, len-zero, equal_iff}

  only_observe_has :
      (s : Set) (a : ManagementAction)
      → equal s (new (observe ∷ [])) ≡ true
      → has s a ≡ member a (observe ∷ [])
  only_observe_has s a e = (equal_iff s (new (observe ∷ []))).0 e a ∙ has-new (observe ∷ []) a

  -- A resolver that only observes allows none of the four actions that change something.
  pub should_only_observe-exclusive :
      (m : Resolver S)
      → should_only_observe S m ≡ true
      → (should_create S m ≡ false)
        × (should_update S m ≡ false)
        × (should_delete S m ≡ false)
        × (should_late_initialize S m ≡ false)
  unfolding should_only_observe should_create should_update should_delete should_late_initialize
  should_only_observe-exclusive m h = elim (Bool-cases m.enabled) [
    | inr off ↦ let k = rw off at h in cc
    | inl on ↦
        let same =
          λ (a : ManagementAction). only_observe_has m.management_policies a (rw on at h) in
        (
          rw on (rw (same create) (rw (same all))),
          rw on (rw (same update) (rw (same all))),
          rw on (rw (same delete) (rw (same all))),
          rw on (rw (same late_initialize) (rw (same all))),
        )
  ]

  -- With the deletion policy `Delete` the legacy resolver decides on deletion as the other does.
  pub legacy_should_delete-delete :
      (m : Resolver S) → legacy_should_delete S m deletion_delete ≡ should_delete S m
  unfolding legacy_should_delete should_delete
  legacy_should_delete-delete m = ground arith

  not_delete-observe :
      (m : Resolver S) (d : DeletionPolicy)
      → (is_orphan S d || not (is_delete S d)) ≡ true
      → should_only_observe S m ≡ true
      → legacy_should_delete S m d ≡ false
  unfolding legacy_should_delete should_only_observe
  not_delete-observe m d other h = elim (Bool-cases m.enabled) [
    | inr off ↦ let k = rw off at h in cc
    | inl on ↦
        rw on (rw (only_observe_has m.management_policies delete (rw on at h)) (ground arith))
  ]

  -- A resolver that only observes does not delete, whatever the deletion policy.
  pub legacy_should_delete-observe :
      (m : Resolver S) (d : DeletionPolicy)
      → should_only_observe S m ≡ true
      → legacy_should_delete S m d ≡ false
  unfolding legacy_should_delete should_only_observe
  legacy_should_delete-observe m deletion_delete h =
      legacy_should_delete-delete m ∙ (should_only_observe-exclusive m h).2
  legacy_should_delete-observe m deletion_other h = not_delete-observe m deletion_other refl h
  legacy_should_delete-observe m deletion_orphan h = not_delete-observe m deletion_orphan refl h

  delete_not_all : (s : Set) → has s delete ≡ true → equal s (new (all ∷ [])) ≡ false
  delete_not_all s there = elim (Bool-cases (equal s (new (all ∷ [])))) [
    | inr e ↦ e
    | inl e ↦
        let everything = (equal_iff s (new (all ∷ []))).0 e delete ∙ has-new (all ∷ []) delete in
        let bad = sym there ∙ everything in cc
  ]

  -- With the deletion policy `Orphan`, and policies enabled, a policy deletes exactly if it names
  -- `Delete` itself; `*` is not enough.
  pub legacy_should_delete-orphan :
      (policy : List ManagementAction)
      → legacy_should_delete S (new_resolver S true policy) deletion_orphan ≡ member delete policy
  unfolding legacy_should_delete new_resolver
  legacy_should_delete-orphan policy = elim (Bool-cases (has (new policy) delete)) [
    | inl there ↦
        rw there (rw (delete_not_all (new policy) there) (sym there ∙ has-new policy delete))
    | inr missing ↦ rw missing (ground (arith, sym missing ∙ has-new policy delete))
  ]
