-- ===== src/ProviderConfig/Release.antt =====
-- A deleted provider config that nothing uses is released.
use crossplane_runtime.Base.{
  ℕ, ◌-◌, ◌≡◌, refl, inl, inr, Bool, true, Option, none, some, List, [], ◌∷◌, length, All,
  Option-cases, arith,
}
use crossplane_runtime.Errors.{Error, Kerrors, Requeue, ignore_not_found}
use crossplane_runtime.Meta.{Object, was_deleted}
use crossplane_runtime.Meta.Owners.{ControllerOf}
use crossplane_runtime.Meta.Removal.{UniqueFinalizers}
use crossplane_runtime.Meta.Unique.{without, remove_finalizer-without}
use crossplane_runtime.ProviderConfig.{
  finalizer, Config, delete_usage, update, Trace, Client, Exit, exited, release, deleted_stage,
  counted_stage, account, matching_labels, list_stage, reconcile,
}

-- It returns without an error, and the last call is the update of the config without its finalizer,
-- and with its other ones.
abbrev pub Released : Config → Exit → Type 0
Released pc x =
    (result : Requeue) × (t : Trace) × (x
      ≡ exited result none (
          update (record pc {
            object = record pc.object { finalizers = without finalizer pc.object.finalizers };
          })
          ∷ t))

module _ {W : Type 0} (client : Client W) (c : ControllerOf) (k : Kerrors) (now : ℕ) where
  release-Released :
      (pc : Config) (t : Trace) (w : W)
      → Released pc (
          release client c k now
            (some (record pc.object { finalizers = without finalizer pc.object.finalizers }))
            pc
            t
            w)
  unfolding release
  release-Released pc t w =
      elim (Option-cases
        (client.update_config
          (record pc {
            object = record pc.object { finalizers = without finalizer pc.object.finalizers };
          })
          w).0) [
            | inl e ↦ rw (e, release) (_, t, refl)
            | inr (err, e) ↦ rw (e, release) (_, t, refl)
          ]

  account-Released :
      (usages : List Object) (users : ℕ) (pc : Config) (t : Trace) (w : W)
      → was_deleted pc.object ≡ true
      → UniqueFinalizers pc.object.finalizers
      → ((u : Object) (v : W) → ignore_not_found k (client.delete u v).0 ≡ none)
      → users ≡ length usages
      → All (λ u. c.find u.owner_references ≡ none) usages
      → Released pc (account client c k now usages users pc t w)
  unfolding account counted_stage deleted_stage
  account-Released [] users pc t w gone unique deletes counted free =
      rw (gone, counted, remove_finalizer-without pc.object finalizer unique)
        (release-Released pc t w)
  account-Released (u ∷ usages) users pc t w gone unique deletes counted free =
      rw (free.0, deletes u w, account)
        (account-Released usages (users - 1) pc (delete_usage u ∷ t) (client.delete u w).1 gone
          unique deletes (omega arith) free.1)

  -- The config that the client gets, and the answer to the list of its usages.
  abbrev pub config_in : W → Config
  config_in w = (client.get_config w).1

  abbrev pub usages_in : Bool → W → Option Error × List Object × W
  usages_in legacy w =
      client.list_usages (matching_labels legacy (config_in w)) (client.get_config w).2

  -- When the client gets a deleted config, which has each finalizer once, and lists its usages, none
  -- of which has a controller, and every deletion of a usage succeeds or finds nothing, then
  -- `Reconcile` does not panic, returns no error, and its last call is the update of the config
  -- without the finalizer.
  pub reconcile-Released :
      (legacy : Bool) (w : W)
      → (client.get_config w).0 ≡ none
      → (usages_in legacy w).0 ≡ none
      → was_deleted (config_in w).object ≡ true
      → UniqueFinalizers (config_in w).object.finalizers
      → All (λ u. c.find u.owner_references ≡ none) (usages_in legacy w).1
      → ((u : Object) (y : W) → ignore_not_found k (client.delete u y).0 ≡ none)
      → Released (config_in w) (reconcile client c k now legacy w)
  unfolding reconcile list_stage
  reconcile-Released legacy w got found gone unique free deletes =
      rw (got, found, reconcile, list_stage)
        (account-Released (usages_in legacy w).1 (length (usages_in legacy w).1) (config_in w) _
          (usages_in legacy w).2 gone unique deletes refl free)
