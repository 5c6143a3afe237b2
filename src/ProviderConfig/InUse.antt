-- ===== src/ProviderConfig/InUse.antt =====
-- What the reconciler of provider configs may call, stated on its trace alone.
use crossplane_runtime.Base.{
  ℕ, suc, ◌+◌, ◌-◌, ◌≡◌, refl, ◌∙◌, ap, ◌⊎◌, inl, inr, Bool, true, false, Option, none, some, List,
  [], ◌∷◌, Bytes, length, ltb, ltb_false→le, All, Bool-cases, Option-cases, arith, equal_refl,
}
use crossplane_runtime.Errors.{Kerrors, ignore_not_found}
use crossplane_runtime.Meta.{Object, was_deleted}
use crossplane_runtime.Meta.Owners.{ControllerOf}
use crossplane_runtime.Meta.Finalizers.{
  finalizer_exists, add_finalizer, remove_finalizer, remove_loop,
}
use crossplane_runtime.Meta.Removal.{finalizer_exists-add_finalizer}
use crossplane_runtime.ProviderConfig.{
  finalizer, Config, Call, get, list, delete_usage, update, update_status, Trace, Client, Exit,
  trace_of, return_status, release, deleted_stage, kept_stage, counted_stage, account, list_stage,
  reconcile, matching_labels,
}

-- The usages that were listed.
abbrev pub listed : Trace → List Object
listed [] = []
listed (list usages ∷ t) = usages
listed (_ ∷ t) = listed t

abbrev pub Among : Object → List Object → Type 0
Among u [] = ⊥
Among u (x ∷ usages) = (u ≡ x) ⊎ Among u usages

abbrev pub one_if : Bool → ℕ
one_if true = 1
one_if false = 0

All-map :
    {P Q : Object → Type 0} (xs : List Object) → ((x : Object) → P x → Q x) → All P xs → All Q xs
All-map [] f h = tt
All-map (x ∷ xs) f h = (f x h.0, All-map xs f h.1)

All-Among : (usages : List Object) → All (λ u. Among u usages) usages
All-Among [] = tt
All-Among (x ∷ usages) = (inl refl, All-map usages (λ u h. inr h) (All-Among usages))

module _ (c : ControllerOf) where
  abbrev pub is_controlled : Object → Bool
  is_controlled u = elim (c.find u.owner_references) [ none ↦ false | some owner ↦ true ]

  -- How many usages have a controller.
  abbrev pub users_of : List Object → ℕ
  users_of [] = 0
  users_of (u ∷ usages) = one_if (is_controlled u) + users_of usages

  -- Only a listed usage without a controller is deleted. An update of the config keeps its finalizer,
  -- unless the config was deleted and no listed usage has a controller; and an update of the status
  -- stores how many listed usages have one.
  abbrev pub Permitted : Call → Trace → Type 0
  Permitted get t = t ≡ []
  Permitted (list usages) t = t ≡ get ∷ []
  Permitted (delete_usage u) t = (is_controlled u ≡ false) × Among u (listed t)
  Permitted (update pc) t =
      (finalizer_exists pc.object finalizer ≡ true)
      ⊎ ((was_deleted pc.object ≡ true) × (users_of (listed t) ≡ 0))
  Permitted (update_status pc) t = pc.users ≡ users_of (listed t)

  abbrev pub Legal : Trace → Type 0
  Legal [] = Unit
  Legal (call ∷ t) = Permitted call t × Legal t

abbrev StillDeleted : Option Object → Type 0
StillDeleted none = Unit
StillDeleted (some o) = was_deleted o ≡ true

remove_finalizer-StillDeleted :
    (o : Object) (f : Bytes) → was_deleted o ≡ true → StillDeleted (remove_finalizer o f)
unfolding remove_finalizer was_deleted
remove_finalizer-StillDeleted o f gone =
    elim (Option-cases
      (remove_loop (length o.finalizers) f 0 (o.finalizers, length o.finalizers))) [
        | inl e ↦ rw (e, remove_finalizer) tt
        | inr (s, e) ↦ rw (e, remove_finalizer) gone
      ]

module _ {W : Type 0} (client : Client W) (c : ControllerOf) (k : Kerrors) (now : ℕ) where
  abbrev Ends : Exit → Type 0
  Ends x = Legal c (trace_of x)

  kept_stage-Legal :
      (users : ℕ) (pc : Config) (t : Trace) (w : W)
      → users ≡ users_of c (listed t)
      → Legal c t
      → Ends (kept_stage client c k now users pc t w)
  unfolding kept_stage return_status
  kept_stage-Legal users pc t w counted h =
      let held : finalizer_exists (add_finalizer pc.object finalizer) finalizer ≡ true =
        finalizer_exists-add_finalizer pc.object finalizer finalizer
        ∙ rw (equal_refl finalizer) (ground arith) in
      elim (Option-cases
        (client.update_config (record pc { object = add_finalizer pc.object finalizer }) w).0) [
          | inl e ↦ rw (e, kept_stage) (counted, (inl held, h))
          | inr (err, e) ↦ rw (e, kept_stage) (inl held, h)
        ]

  release-Legal :
      (o : Option Object) (pc : Config) (t : Trace) (w : W)
      → StillDeleted o
      → users_of c (listed t) ≡ 0
      → Legal c t
      → Ends (release client c k now o pc t w)
  unfolding release
  release-Legal none pc t w still unused h = h
  release-Legal (some o) pc t w still unused h =
      elim (Option-cases (client.update_config (record pc { object = o }) w).0) [
        | inl e ↦ rw (e, release) (inr (still, unused), h)
        | inr (err, e) ↦ rw (e, release) (inr (still, unused), h)
      ]

  counted_stage-Legal :
      (users : ℕ) (pc : Config) (t : Trace) (w : W)
      → users ≡ users_of c (listed t)
      → Legal c t
      → Ends (counted_stage client c k now users pc t w)
  unfolding counted_stage deleted_stage return_status
  counted_stage-Legal users pc t w counted h = elim (Bool-cases (was_deleted pc.object)) [
    | inr kept ↦ rw kept (kept_stage-Legal users pc t w counted h)
    | inl gone ↦ rw gone (elim (Bool-cases (ltb 0 users)) [
      | inl some_users ↦ rw some_users (counted, h)
      | inr no_users ↦
          let unused : users_of c (listed t) ≡ 0 = omega (arith, ltb_false→le 0 users no_users) in
          rw no_users (
            release-Legal (remove_finalizer pc.object finalizer) pc t w
              (remove_finalizer-StillDeleted pc.object finalizer gone) unused h)
    ])
  ]

  -- Of the listed usages `done` with a controller are counted, and `usages` are left.
  account-Legal :
      (usages : List Object) (users done : ℕ) (pc : Config) (t : Trace) (w : W)
      → users ≡ done + length usages
      → users_of c (listed t) ≡ done + users_of c usages
      → All (λ u. Among u (listed t)) usages
      → Legal c t
      → Ends (account client c k now usages users pc t w)
  unfolding account
  account-Legal [] users done pc t w left counted among h =
      counted_stage-Legal users pc t w (omega arith) h
  account-Legal (u ∷ usages) users done pc t w left counted among h =
      elim (Option-cases (c.find u.owner_references)) [
        | inr (owner, e) ↦
            let one : one_if (is_controlled c u) ≡ 1 = rw (e, is_controlled) refl in
            rw (e, account)
              (account-Legal usages users (suc done) pc t w (omega arith)
                (omega (arith, one, counted)) among.1 h)
        | inl e ↦
            let free : is_controlled c u ≡ false = rw (e, is_controlled) refl in
            let zero : one_if (is_controlled c u) ≡ 0 = ap one_if free in
            let t' : Trace = delete_usage u ∷ t in
            let h' : Legal c t' = ((free, among.0), h) in
            elim (Option-cases (ignore_not_found k (client.delete u w).0)) [
              | inr (err, f) ↦ rw (e, f, account) h'
              | inl f ↦
                  rw (e, f, account)
                    (account-Legal usages (users - 1) done pc t' (client.delete u w).1 (omega arith)
                      (omega (arith, zero, counted)) among.1 h')
            ]
      ]

  list_stage-Legal :
      (legacy : Bool) (pc : Config) (w : W) → Ends (list_stage client c k now legacy pc w)
  unfolding list_stage
  list_stage-Legal legacy pc w =
      let out = client.list_usages (matching_labels legacy pc) w in
      elim (Option-cases out.0) [
        | inr (err, e) ↦ rw (e, list_stage) (refl, (refl, tt))
        | inl e ↦
            rw (e, list_stage)
              (account-Legal out.1 (length out.1) 0 pc (list out.1 ∷ get ∷ []) out.2 (omega arith)
                (omega arith) (All-Among out.1) (refl, (refl, tt)))
      ]

  -- Whatever the client does, each call of `Reconcile` is permitted after those before it: only a
  -- listed usage without a controller is deleted; an update of the provider config keeps the
  -- finalizer, unless the config was deleted and no listed usage has a controller; and an update of
  -- its status stores how many of the listed usages have one.
  pub reconcile-Permitted :
      (legacy : Bool) (w : W) → Legal c (trace_of (reconcile client c k now legacy w))
  unfolding reconcile
  reconcile-Permitted legacy w = elim (Option-cases (client.get_config w).0) [
    | inr (err, e) ↦ rw (e, reconcile) (refl, tt)
    | inl e ↦
        rw (e, reconcile) (list_stage-Legal legacy (client.get_config w).1 (client.get_config w).2)
  ]
