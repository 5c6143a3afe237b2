-- ===== src/Managed/Guarantees.antt =====
-- What the protocol and the policies promise together.
use crossplane_runtime.Base.{
  ◌≡◌, refl, sym, ◌∙◌, Bool, true, false, Option, none, some, List, [], ◌∷◌, All,
}
use crossplane_runtime.Policies.{Sets, Resolver, DeletionPolicy, should_only_observe}
use crossplane_runtime.Policies.Laws.{should_only_observe-exclusive, legacy_should_delete-observe}
use crossplane_runtime.Meta.Maps.{Rfc3339}
use crossplane_runtime.Managed.{
  Resource, Operation, get, update, update_status, unpublish, remove_finalizer, initialize,
  resolve_references, publish, add_finalizer, update_critical_annotations, connect, disconnect,
  disconnect_client, observe, create_external, update_external, delete_external, log_change, Trace,
  Checker, Reconciler, state_of,
}
use crossplane_runtime.Managed.Reconcile.{resolver_of, deletion_of, checker_of, reconcile}
use crossplane_runtime.Managed.Protocol.{Permitted, Legal}
use crossplane_runtime.Managed.Run.{policy_in, reconcile-Legal}

-- A call that changes the external resource.
abbrev pub writes : Operation → Bool
writes create_external = true
writes update_external = true
writes delete_external = true
writes _ = false

-- A policy that allows no change.
record ReadOnly (p : Checker) : Type 0 where
  no_create : p.should_create ≡ false
  no_update : p.should_update ≡ false
  no_delete : p.should_delete ≡ false

writes-Permitted :
    (time : Rfc3339) (det : Bool) (p : Checker) (op : Operation) (m : Resource) (t : Trace)
    → ReadOnly p
    → Permitted time det p op m t
    → writes op ≡ false
writes-Permitted time det p create_external m t ro h = sym h.0 ∙ ro.no_create
writes-Permitted time det p update_external m t ro h = sym h.0 ∙ ro.no_update
writes-Permitted time det p delete_external m t ro h = sym h.0 ∙ ro.no_delete
writes-Permitted time det p get m t ro h = refl
writes-Permitted time det p update m t ro h = refl
writes-Permitted time det p update_status m t ro h = refl
writes-Permitted time det p unpublish m t ro h = refl
writes-Permitted time det p remove_finalizer m t ro h = refl
writes-Permitted time det p initialize m t ro h = refl
writes-Permitted time det p resolve_references m t ro h = refl
writes-Permitted time det p publish m t ro h = refl
writes-Permitted time det p add_finalizer m t ro h = refl
writes-Permitted time det p update_critical_annotations m t ro h = refl
writes-Permitted time det p connect m t ro h = refl
writes-Permitted time det p disconnect m t ro h = refl
writes-Permitted time det p disconnect_client m t ro h = refl
writes-Permitted time det p (observe o) m t ro h = refl
writes-Permitted time det p (log_change o) m t ro h = refl

abbrev pub Reads : Trace → Type 0
Reads t = All (λ e. writes e.operation ≡ false) t

Legal-Reads :
    (time : Rfc3339) (det : Bool) (p : Checker) (t : Trace)
    → ReadOnly p
    → Legal time det p t
    → Reads t
Legal-Reads time det p [] ro h = tt
Legal-Reads time det p (e ∷ t) ro h =
    (writes-Permitted time det p e.operation e.resource t ro h.0, Legal-Reads time det p t ro h.1)

module _ {W : Type 0} (r : Reconciler W) (S : Sets) (supported : List S.Set) where
  -- The resource that the client gets, and its resolver.
  abbrev pub got : W → Resource
  got w = (r.client_get w).resource

  abbrev pub resolver_in : W → Resolver S
  resolver_in w = resolver_of r S supported (got w)

  deletion_of-observe :
      (mg : Resource) (d : Option DeletionPolicy)
      → should_only_observe S (resolver_of r S supported mg) ≡ true
      → deletion_of r S supported mg d ≡ false
  deletion_of-observe mg none h =
      (should_only_observe-exclusive S (resolver_of r S supported mg) h).2
  deletion_of-observe mg (some d) h =
      legacy_should_delete-observe S (resolver_of r S supported mg) d h

  checker_of-ReadOnly :
      (mg : Resource)
      → should_only_observe S (resolver_of r S supported mg) ≡ true
      → ReadOnly (checker_of r S supported mg)
  unfolding checker_of
  checker_of-ReadOnly mg h =
      let none_of = should_only_observe-exclusive S (resolver_of r S supported mg) h in
      record {
        no_create = none_of.0;
        no_update = none_of.1;
        no_delete = deletion_of-observe mg mg.deletion_policy h;
      }

  -- When the resource that `Reconcile` gets has a policy that only observes, with or without a
  -- deletion policy, the run neither creates nor updates nor deletes the external resource.
  pub reconcile-Reads :
      (new : Resource) (w : W)
      → should_only_observe S (resolver_in w) ≡ true
      → Reads (state_of (reconcile r S supported new w)).trace
  reconcile-Reads new w h =
      Legal-Reads r.time r.deterministic_external_name (policy_in r S supported w)
        (state_of (reconcile r S supported new w)).trace (checker_of-ReadOnly (got w) h)
        (reconcile-Legal r S supported new w)
