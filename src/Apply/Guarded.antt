-- ===== src/Apply/Guarded.antt =====
-- Which calls an applicator makes, stated on what was called.
use crossplane_runtime.Base.{
  ◌≡◌, ◌≢◌, refl, ◌⊎◌, inl, inr, Bool, true, false, none, List, [], ◌∷◌, Bool-cases, Option-cases,
}
use crossplane_runtime.Errors.{Error, Kerrors}
use crossplane_runtime.Apply.{
  Accessor, Answer, Client, Call, got, got_error, created, updated, patched, Applied, ApplyOption,
  run_options, generates_name, create_object, found, after_get, patch_object, apply_patching,
  update_object, apply_updating,
}

-- The last call wrote.
abbrev pub Wrote : {T : Type 0} → List (Call T) → Type 0
Wrote [] = ⊥
Wrote (got x ∷ t) = ⊥
Wrote (got_error e ∷ t) = ⊥
Wrote (_ ∷ t) = Unit

module _ {T W : Type 0} (a : Accessor T) (client : Client T W) (k : Kerrors) where
  -- The options accept the current and the desired object, as these two.
  abbrev pub Accepted : List (ApplyOption T) → T → T → T → T → Type 0
  Accepted ao current desired c d =
      ((run_options ao current desired).0 ≡ none)
      × ((run_options ao current desired).1 ≡ c)
      × ((run_options ao current desired).2 ≡ d)

  -- An object is created only if it is to get a generated name, or was not found; it is changed only
  -- after it was got, and the options accepted it; and an update takes over the resource version.
  abbrev pub Legal : Bool → T → List (ApplyOption T) → List (Call T) → Type 0
  Legal patches o ao [] = ⊥
  Legal patches o ao (got x ∷ t) = t ≡ []
  Legal patches o ao (got_error e ∷ t) = t ≡ []
  Legal patches o ao (created m ∷ t) =
      ((t ≡ []) × (m ≡ o) × (generates_name a client k o ≡ true))
      ⊎ ((e : Error) × (t ≡ got_error e ∷ []) × (k.is_not_found e ≡ true))
  Legal patches o ao (patched c d ∷ t) =
      (patches ≡ true) × (x : T) × (t ≡ got x ∷ []) × Accepted ao x o c d
  Legal patches o ao (updated d ∷ t) =
      (patches ≡ false)
      × (x : T) × (c : T) × (m : T) × (t ≡ got x ∷ [])
      × Accepted ao x o c m
      × (d ≡ a.set_resource_version m (a.resource_version c))

  pub record Sound (patches : Bool) (o : T) (ao : List (ApplyOption T)) (x : Applied T W)
      : Type 0 where
    pub legal : Legal patches o ao x.1
    pub wrote : (x.0 ≢ none) ⊎ Wrote x.1

  patch_object-Sound :
      (ao : List (ApplyOption T)) (o x : T) (w : W)
      → Sound true o ao (patch_object a client k ao o x w)
  unfolding patch_object
  patch_object-Sound ao o x w = elim (Option-cases (run_options ao x o).0) [
    | inr (err, e) ↦ rw (e, patch_object) (record { legal = refl; wrote = inl (λ e. cc) })
    | inl e ↦
        rw (e, patch_object) (record { legal = (refl, x, refl, (e, refl, refl)); wrote = inr tt })
  ]

  update_object-Sound :
      (ao : List (ApplyOption T)) (o x : T) (w : W)
      → Sound false o ao (update_object a client k ao o x w)
  unfolding update_object
  update_object-Sound ao o x w = elim (Option-cases (run_options ao x o).0) [
    | inr (err, e) ↦ rw (e, update_object) (record { legal = refl; wrote = inl (λ e. cc) })
    | inl e ↦
        rw (e, update_object)
          (record { legal = (refl, x, _, _, refl, (e, refl, refl), refl); wrote = inr tt })
  ]

  after_get-Sound :
      (patches : Bool) (ao : List (ApplyOption T)) (o p : T) (x : Answer T W)
      (next : T → W → Applied T W)
      → ((y : T) (w : W) → Sound patches o ao (next y w))
      → Sound patches o ao (after_get a client k p x next)
  unfolding after_get create_object
  after_get-Sound patches ao o p x next h = elim (Option-cases x.error) [
    | inl e ↦ rw (e, after_get) (h x.result x.world)
    | inr (err, e) ↦
        rw (e, after_get)
          (elim (Bool-cases (k.is_not_found err)) [
            | inl t ↦ rw t (record { legal = inr (err, refl, t); wrote = inr tt })
            | inr f ↦ rw f (record { legal = refl; wrote = inl (λ e. cc) })
          ])
  ]

  -- `Apply` of an `APIPatchingApplicator`, whatever the client does: it creates the object only where
  -- its name is to be generated, or the get found nothing; it patches only the object that was got, as
  -- the options left and accepted it; and without an error its last call wrote.
  pub apply_patching-Sound :
      (o : T) (ao : List (ApplyOption T)) (w : W)
      → Sound true o ao (apply_patching a client k ao o w)
  unfolding apply_patching create_object
  apply_patching-Sound o ao w = elim (Bool-cases (generates_name a client k o)) [
    | inl t ↦ rw t (record { legal = inl (refl, refl, t); wrote = inr tt })
    | inr f ↦ rw f (
        after_get-Sound true ao o _ (found a client k o w) (patch_object a client k ao o)
          (patch_object-Sound ao o))
  ]

  -- The same of an `APIUpdatingApplicator`, which updates the desired object, as the options left it,
  -- with the resource version of the current one.
  pub apply_updating-Sound :
      (o : T) (ao : List (ApplyOption T)) (w : W)
      → Sound false o ao (apply_updating a client k ao o w)
  unfolding apply_updating create_object
  apply_updating-Sound o ao w = elim (Bool-cases (generates_name a client k o)) [
    | inl t ↦ rw t (record { legal = inl (refl, refl, t); wrote = inr tt })
    | inr f ↦ rw f (
        after_get-Sound false ao o o (found a client k o w) (update_object a client k ao o)
          (update_object-Sound ao o))
  ]
