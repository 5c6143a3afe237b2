-- ===== src/Tests/ProviderConfig.antt =====
-- A provider config with no usages, or with a usage that has a controller.
use crossplane_runtime.Base.{refl, false, none, some, List, [], ◌∷◌, codes, equal}
use crossplane_runtime.Meta.{Object, was_deleted}
use crossplane_runtime.Errors.{ignore_not_found}
use crossplane_runtime.Meta.Finalizers.{finalizer_loop}
use crossplane_runtime.ProviderConfig.{finalizer, Config, Client, trace_of, Exit, reconcile}
use crossplane_runtime.ProviderConfig.InUse.{Legal, reconcile-Permitted}
use crossplane_runtime.ProviderConfig.Release.{Released, reconcile-Released}
use crossplane_runtime.Tests.Meta.{thing, controller_of}
use crossplane_runtime.Tests.Managed.{test_kerrors}

abbrev unused : Config
unused = record {
  object = record thing {
    finalizers = codes "other" ∷ finalizer ∷ [];
    deletion_timestamp = some 5;
  };
  kind = codes "Config";
  users = 0;
  conditions = [];
}

-- A usage that has lost its controller; `thing` has one.
abbrev stale : Object
stale = record thing { owner_references = [] }

-- The world is the list of the usages.
abbrev cluster : Client (List Object)
cluster = record {
  get_config = λ w. (none, unused, w);
  list_usages = λ labels w. (none, w, w);
  delete = λ u w. (none, w);
  update_config = λ pc w. (none, pc, w);
  update_config_status = λ pc w. (none, pc, w);
}

abbrev run : List Object → Exit
run w = reconcile cluster controller_of test_kerrors 7 false w

reconcile-Permitted_example : Legal controller_of (trace_of (run (stale ∷ thing ∷ [])))
reconcile-Permitted_example =
    reconcile-Permitted cluster controller_of test_kerrors 7 false (stale ∷ thing ∷ [])

reconcile-Released_example : Released unused (run (stale ∷ []))
unfolding was_deleted ignore_not_found finalizer_loop equal
reconcile-Released_example =
    reconcile-Released cluster controller_of test_kerrors 7 false (stale ∷ []) refl refl refl
      (refl, (refl, tt)) (refl, tt) (λ u y. refl)
