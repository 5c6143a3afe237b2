-- ===== src/Apply/Publish.antt =====
-- What publishing connection details may write.
use crossplane_runtime.Base.{
  ◌≡◌, ◌≢◌, ap, All, refl, sym, subst, ◌∙◌, ◌⊎◌, inl, inr, Bool, true, false, not, ◌&&◌, Option,
  none, some, List, [], ◌∷◌, Bytes, equal, Bool-cases, Option-cases, arith,
}
use crossplane_runtime.Errors.{Error, Kerrors}
use crossplane_runtime.Meta.{OwnerReference, StringMap}
use crossplane_runtime.Meta.Owners.{ControllerOf}
use crossplane_runtime.Apply.{
  apply_patching, ApplyError, Client, Call, got, got_error, created, updated, patched, ApplyOption,
  run_options, is_not_allowed, generates_name, allow_update_if,
}
use crossplane_runtime.Apply.Retry.{
  Tried, Runs, done, again, OnError, attempt_apply, apply_with_retry, is_api_error_wrapped,
}
use crossplane_runtime.Apply.Guarded.{Legal, Wrote, apply_patching-Sound}
use crossplane_runtime.Apply.Secret.{
  Secret, secrets, secret_type_connection, ConnectionSecretOwner, ObjectTyper, get_kind, Published,
  published, panicked, options, desired_secret, conclude, secret_apply, publish_connection,
  connection_secret_must_be_controllable_by,
}

and_false : (b : Bool) → (b && false) ≡ false
and_false b = ground arith

-- An option that only tests the two objects.
abbrev tester : {T : Type 0} → (T → T → Option ApplyError) → ApplyOption T
tester p current desired = (p current desired, current, desired)

two_testers :
    {T : Type 0} (p q : T → T → Option ApplyError) (x d : T)
    → (run_options (tester p ∷ tester q ∷ []) x d).0 ≡ none
    → (p x d ≡ none)
      × (q x d ≡ none)
      × ((run_options (tester p ∷ tester q ∷ []) x d).1 ≡ x)
      × ((run_options (tester p ∷ tester q ∷ []) x d).2 ≡ d)
unfolding run_options
two_testers p q x d ok = elim (Option-cases (p x d)) [
  | inr (err, e) ↦ absurd (let bad = rw e at ok in cc)
  | inl e ↦ elim (Option-cases (q x d)) [
    | inr (err, f) ↦ absurd (let bad = rw (e, f) at ok in cc)
    | inl f ↦ (e, f, rw (e, f) refl, rw (e, f) refl)
  ]
]

module _ {W : Type 0} (client : Client Secret W) (k : Kerrors) (c : ControllerOf)
    (same : Option StringMap → Option StringMap → Bool) where
  -- The owner with this UID may change the secret: it controls it; or nothing does, and it is a
  -- connection secret.
  abbrev pub Controllable : Bytes → Secret → Type 0
  Controllable uid s =
      ((owner : OwnerReference) × (c.find s.object.owner_references ≡ some owner)
        × (equal owner.uid uid ≡ true))
      ⊎ ((c.find s.object.owner_references ≡ none) × (equal s.typ secret_type_connection ≡ true))

  -- In one attempt a secret is patched only to other data than its own, where the owner may change it,
  -- right after it was got; and one is created only where the get found none, or its name is to be
  -- generated. Otherwise nothing is written.
  abbrev pub Careful : Bytes → List (Call Secret) → Type 0
  Careful uid [] = Unit
  Careful uid (got s ∷ t) = Unit
  Careful uid (got_error e ∷ t) = Unit
  Careful uid (created s ∷ t) =
      ((e : Error) × (t ≡ got_error e ∷ []) × (k.is_not_found e ≡ true))
      ⊎ ((t ≡ []) × (generates_name secrets client k s ≡ true))
  Careful uid (updated s ∷ t) = ⊥
  Careful uid (patched current desired ∷ t) =
      (t ≡ got current ∷ [])
      × Controllable uid current
      × (same current.data_of desired.data_of ≡ false)

  -- What the first and the second option say.
  abbrev first_verdict : Bytes → Secret → Secret → Option ApplyError
  first_verdict uid x d = (connection_secret_must_be_controllable_by c uid x d).0

  first-Controllable :
      (uid : Bytes) (x d : Secret) → first_verdict uid x d ≡ none → Controllable uid x
  unfolding connection_secret_must_be_controllable_by
  first-Controllable uid x d ok = elim (Option-cases (c.find x.object.owner_references)) [
    | inl e ↦ elim (Bool-cases (equal x.typ secret_type_connection)) [
      | inl t ↦ inr (e, t)
      | inr f ↦ absurd (let bad = rw (e, f) at ok in cc)
    ]
    | inr (owner, e) ↦ elim (Bool-cases (equal owner.uid uid)) [
      | inl t ↦ inl (owner, e, t)
      | inr f ↦ absurd (let bad = rw (e, f) at ok in cc)
    ]
  ]

  second-differs :
      (x d : Secret)
      → (allow_update_if (λ current desired. not (same current.data_of desired.data_of)) x d).0
        ≡ none
      → same x.data_of d.data_of ≡ false
  unfolding allow_update_if
  second-differs x d ok = elim (Bool-cases (same x.data_of d.data_of)) [
    | inl t ↦ absurd (let bad = rw t at ok in cc)
    | inr f ↦ f
  ]

  Legal-Careful :
      (uid : Bytes) (d : Secret) (t : List (Call Secret))
      → Legal secrets client k true d (options c same uid) t
      → Careful uid t
  unfolding connection_secret_must_be_controllable_by allow_update_if
  Legal-Careful uid d [] h = tt
  Legal-Careful uid d (got x ∷ t) h = tt
  Legal-Careful uid d (got_error e ∷ t) h = tt
  Legal-Careful uid d (created m ∷ t) (inl (e, same_object, named)) =
      inr (e, ap (generates_name secrets client k) same_object ∙ named)
  Legal-Careful uid d (created m ∷ t) (inr h) = inl h
  Legal-Careful uid d (updated m ∷ t) h = absurd (let bad = h.0 in cc)
  Legal-Careful uid d (patched current desired ∷ t)
        (patches, x, e, (ok, same_current, same_desired)) =
      let (p, q, x1, d1) = two_testers _ _ x d ok in
      let left : x ≡ current = sym x1 ∙ same_current in
      let right : d ≡ desired = sym d1 ∙ same_desired in
      (
        subst (λ y. t ≡ got y ∷ []) left e,
        subst (Controllable uid) left (first-Controllable uid x d p),
        subst (λ y. same current.data_of y.data_of ≡ false) right
            (subst (λ y. same y.data_of d.data_of ≡ false) left (second-differs x d q)),
      )

  abbrev pub LastWrote : List (List (Call Secret)) → Type 0
  LastWrote [] = ⊥
  LastWrote (t ∷ attempts) = Wrote t

  -- Every attempt was careful; and there is an error, or the last attempt wrote.
  record Tries (uid : Bytes) (x : Option ApplyError × Tried Secret W) : Type 0 where
    careful : All (Careful uid) x.1.attempts
    wrote_last : (x.0 ≢ none) ⊎ LastWrote x.1.attempts

  Runs-Tries :
      (uid : Bytes) (retriable : ApplyError → Bool) (s : Tried Secret W)
      (out : Option ApplyError × Tried Secret W)
      → Runs retriable (attempt_apply (apply_patching secrets client k (options c same uid))) s out
      → All (Careful uid) s.attempts
      → Tries uid out
  unfolding attempt_apply
  Runs-Tries uid retriable _ _ (done s) h =
      let sound = apply_patching-Sound secrets client k s.object (options c same uid) s.world in
      record { careful = (Legal-Careful uid s.object _ sound.legal, h); wrote_last = sound.wrote }
  Runs-Tries uid retriable _ _ (again s e out failed retried runs) h =
      let sound = apply_patching-Sound secrets client k s.object (options c same uid) s.world in
      Runs-Tries uid retriable _ out runs (Legal-Careful uid s.object _ sound.legal, h)

  -- What `PublishConnection` ended in.
  abbrev pub Prudent : Bytes → Published → Type 0
  Prudent uid (published wrote err attempts) =
      All (Careful uid) attempts
      × (((wrote ≡ true) × (err ≡ none) × LastWrote attempts) ⊎ (wrote ≡ false))
  Prudent uid panicked = ⊥

  conclude-Prudent :
      (uid : Bytes) (x : Option ApplyError × Tried Secret W)
      → Tries uid x
      → Prudent uid (conclude x)
  unfolding conclude
  conclude-Prudent uid (none, s) h = elim h.wrote_last [
    | inl bad ↦ absurd (bad refl)
    | inr wrote ↦ (h.careful, inl (refl, refl, wrote))
  ]
  conclude-Prudent uid (some err, s) h = elim (Bool-cases (is_not_allowed (some err))) [
    | inl e ↦ rw e (h.careful, inr refl)
    | inr e ↦ rw e (h.careful, inr refl)
  ]

  module _ (typer : ObjectTyper) (retry : OnError (Tried Secret W))
      (is_api_error : Error → Bool) where
    -- `PublishConnection`, for an owner that has exactly one kind, does not panic, whatever the client
    -- does and however often `Apply` is tried. In each attempt a secret is created only where the get
    -- found none, or where its name is to be generated; and one is patched only right after it was
    -- got, to other data than its own, and only where the owner controls it, or where it is a
    -- connection secret that nothing controls. It reports that it published only without an error,
    -- when the last call of the last attempt was such a write.
    pub publish_connection-Prudent :
        (o : ConnectionSecretOwner) (details : Option StringMap) (w : W) (kind : Bytes × Bytes)
        → get_kind o.object typer ≡ inr kind
        → Prudent o.object.uid
            (publish_connection client k c typer same retry is_api_error o details w)
    unfolding publish_connection secret_apply apply_with_retry
    publish_connection-Prudent o details w kind typed =
        elim (Option-cases o.write_connection_secret_to) [
          | inl e ↦ rw (e, publish_connection) (tt, inr refl)
          | inr (place, e) ↦
              rw (e, typed, publish_connection)
                (conclude-Prudent o.object.uid _ (
                  Runs-Tries o.object.uid (is_api_error_wrapped is_api_error) _ _
                    (retry.on_error-Runs (is_api_error_wrapped is_api_error)
                      (attempt_apply
                        (apply_patching secrets client k (options c same o.object.uid)))
                      (record {
                        object = desired_secret o place kind details;
                        attempts = [];
                        world = w;
                      }))
                    tt))
        ]
