-- ===== src/ProviderConfig.antt =====
-- pkg/reconciler/providerconfig/reconciler.go: a provider config keeps its finalizer while managed
-- resources use it. The client's calls are functions that may change a world of any type; the writes
-- give back the config too, as the API server may change it. What is called goes into a trace, newest
-- first. Contexts, logs and events are output that nothing here reads.
pub mod InUse
pub mod Release
use crossplane_runtime.Base.{
  ℕ, ◌-◌, suc, Bool, true, false, Option, none, some, List, [], ◌∷◌, Bytes, codes, length, ltb,
  if◌then◌else◌,
}
use crossplane_runtime.Errors.{Error, Kerrors, Requeue, no_requeue, wrap, ignore_not_found}
use crossplane_runtime.Condition.{Condition, Conditions, condition_true, set_conditions}
use crossplane_runtime.Condition
use crossplane_runtime.Meta.{Object, StringMap, was_deleted}
use crossplane_runtime.Meta.Owners.{ControllerOf}
use crossplane_runtime.Meta.Finalizers.{add_finalizer, remove_finalizer}

abbrev pub finalizer : Bytes
finalizer = codes "in-use.crossplane.io"

abbrev pub label_key_provider_name : Bytes
label_key_provider_name = codes "crossplane.io/provider-config"

abbrev pub label_key_provider_kind : Bytes
label_key_provider_kind = codes "crossplane.io/provider-config-kind"

-- `reconcile.Result` after `shortWait`, in nanoseconds.
abbrev pub after_short_wait : Requeue
after_short_wait = record { requeue = false; requeue_after = 30000000000 }

abbrev pub blocking : Bytes
blocking = codes "Blocking deletion while usages still exist"

unfoldable pub terminating : ℕ → Condition
terminating now = record {
  typ = codes "Terminating";
  status = condition_true;
  last_transition_time = now;
  reason = codes "InUse";
  message = [];
  observed_generation = 0;
}

-- `resource.ProviderConfig`
pub record Config : Type 0 where
  pub object : Object
  pub kind : Bytes
  pub users : ℕ
  pub conditions : Conditions

-- A call of the client that was made, with what it was given; a list with what it gave.
pub data Call : Type 0 where
  get : Call
  list : List Object → Call
  delete_usage : Object → Call
  update : Config → Call
  update_status : Config → Call

abbrev pub Trace : Type 0
Trace = List Call

-- `client.Client`, as the reconciler uses it.
pub record Client (W : Type 0) : Type 0 where
  pub get_config : W → Option Error × Config × W
  pub list_usages : StringMap → W → Option Error × List Object × W
  pub delete : Object → W → Option Error × W
  pub update_config : Config → W → Option Error × Config × W
  pub update_config_status : Config → W → Option Error × Config × W

-- A run returns, or panics in `RemoveFinalizer`.
pub data Exit : Type 0 where
  exited : Requeue → Option Error → Trace → Exit
  panicked : Trace → Exit

abbrev pub trace_of : Exit → Trace
trace_of (exited result err t) = t
trace_of (panicked t) = t

-- `matchingLabels`
abbrev pub matching_labels : Bool → Config → StringMap
matching_labels legacy pc =
    (label_key_provider_name, pc.object.name)
    ∷ (if legacy then [] else (label_key_provider_kind, pc.kind) ∷ [])

module _ {W : Type 0} (client : Client W) (c : ControllerOf) (k : Kerrors) (now : ℕ) where
  -- `r.client.Status().Update`, and the return of its error.
  unfoldable pub return_status : Config → Trace → W → Exit
  unfolding wrap
  return_status pc t w =
      exited no_requeue
        (wrap (client.update_config_status pc w).0 (codes "cannot update ProviderConfig status"))
        (update_status pc ∷ t)

  -- The config is deleted, and nothing uses it: the update without the finalizer.
  unfoldable pub release : Option Object → Config → Trace → W → Exit
  release none pc t w = panicked t
  release (some o) pc t w =
      let without = record pc { object = o } in
      elim (client.update_config without w).0 [
        | some err ↦ exited after_short_wait none (update without ∷ t)
        | none ↦ exited no_requeue none (update without ∷ t)
      ]

  unfoldable pub deleted_stage : ℕ → Config → Trace → W → Exit
  unfolding return_status release terminating Condition.with_message set_conditions remove_finalizer
  deleted_stage users pc t w =
      if ltb 0 users
      then return_status
          (record pc {
            users = users;
            conditions =
                set_conditions pc.conditions
                  (Condition.with_message (terminating now) blocking ∷ []);
          })
          t w
      else release (remove_finalizer pc.object finalizer) pc t w

  unfoldable pub kept_stage : ℕ → Config → Trace → W → Exit
  unfolding return_status add_finalizer
  kept_stage users pc t w =
      let held = record pc { object = add_finalizer pc.object finalizer } in
      let out = client.update_config held w in
      elim out.0 [
        | some err ↦ exited after_short_wait none (update held ∷ t)
        | none ↦ return_status (record out.1 { users = users }) (update held ∷ t) out.2
      ]

  unfoldable pub counted_stage : ℕ → Config → Trace → W → Exit
  unfolding deleted_stage kept_stage was_deleted
  counted_stage users pc t w =
      if was_deleted pc.object then deleted_stage users pc t w else kept_stage users pc t w

  -- The loop over the usages that are left, and what follows it.
  unfoldable pub account : List Object → ℕ → Config → Trace → W → Exit
  unfolding counted_stage ignore_not_found
  account [] users pc t w = counted_stage users pc t w
  account (pcu ∷ usages) users pc t w = elim (c.find pcu.owner_references) [
    | some owner ↦ account usages users pc t w
    | none ↦
        let out = client.delete pcu w in
        elim (ignore_not_found k out.0) [
          | some err ↦ exited after_short_wait none (delete_usage pcu ∷ t)
          | none ↦ account usages (users - 1) pc (delete_usage pcu ∷ t) out.1
        ]
  ]

  unfoldable pub list_stage : Bool → Config → W → Exit
  unfolding account
  list_stage legacy pc w =
      let out = client.list_usages (matching_labels legacy pc) w in
      elim out.0 [
        | some err ↦ exited after_short_wait none (list [] ∷ get ∷ [])
        | none ↦ account out.1 (length out.1) pc (list out.1 ∷ get ∷ []) out.2
      ]

  -- `Reconciler.Reconcile`, with `legacyPCU`.
  unfoldable pub reconcile : Bool → W → Exit
  unfolding list_stage ignore_not_found wrap
  reconcile legacy w =
      let out = client.get_config w in
      elim out.0 [
        | some err ↦
            exited no_requeue
              (wrap (ignore_not_found k (some err)) (codes "cannot get ProviderConfig")) (get ∷ [])
        | none ↦ list_stage legacy out.1 out.2
      ]
