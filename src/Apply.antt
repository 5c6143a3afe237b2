-- ===== src/Apply.antt =====
-- pkg/resource/api.go and pkg/resource/resource.go: applicators, which create an object or change it
-- to a desired one, and the options that refuse that. The client's calls are functions that may change
-- the object that they are given, and a world of any type; the calls that were made go into a trace,
-- newest first. Any type of objects that has metadata will do: the conversions at the head of both
-- `Apply` methods and of the options succeed on every `client.Object`.
pub mod Guarded
pub mod Retry
pub mod Secret
pub mod Publish
use crossplane_runtime.Base.{
  Bool, true, false, not, ◌&&◌, Option, none, some, List, [], ◌∷◌, Bytes, codes, equal,
  if◌then◌else◌,
}
use crossplane_runtime.Errors.{Error, Kerrors, wrapped, text}
use crossplane_runtime.Meta.{Object}
use crossplane_runtime.Meta.Owners.{ControllerOf}

-- An error as `IsNotControllable` and `IsNotAllowed` tell them apart: these look through no wrapper.
pub data ApplyError : Type 0 where
  not_controllable : Error → ApplyError
  not_allowed : Error → ApplyError
  other_error : Error → ApplyError

unfoldable pub is_not_controllable : Option ApplyError → Bool
is_not_controllable (some (not_controllable e)) = true
is_not_controllable _ = false

unfoldable pub is_not_allowed : Option ApplyError → Bool
is_not_allowed (some (not_allowed e)) = true
is_not_allowed _ = false

-- `errors.Wrap` of an error of the client.
abbrev pub wrapped_error : Option Error → Bytes → Option ApplyError
wrapped_error none message = none
wrapped_error (some e) message = some (other_error (wrapped message e))

-- `client.Object`: what the applicators read and write of one.
pub record Accessor (T : Type 0) : Type 0 where
  pub object : T → Object
  pub generate_name : T → Bytes
  pub resource_version : T → Bytes
  pub set_resource_version : T → Bytes → T

-- What a call gives back: an error, the object as the call left it, and the world.
pub record Answer (T W : Type 0) : Type 0 where
  pub error : Option Error
  pub result : T
  pub world : W

pub record Client (T W : Type 0) : Type 0 where
  pub get : Bytes → Bytes → T → W → Answer T W
  pub create : T → W → Answer T W
  pub update : T → W → Answer T W
  -- The object, and the one that its merge patch is the JSON form of.
  pub patch : T → T → W → Answer T W

-- A call that was made; a get with its answer.
pub data Call (T : Type 0) : Type 0 where
  got : T → Call T
  got_error : Error → Call T
  created : T → Call T
  updated : T → Call T
  patched : T → T → Call T

-- The error of `Apply`, its calls, the object as it leaves it, and the world.
abbrev pub Applied : Type 0 → Type 0 → Type 0
Applied T W = Option ApplyError × List (Call T) × T × W

-- `ApplyOption`: it may change both objects, the current and the desired one.
abbrev pub ApplyOption : Type 0 → Type 0
ApplyOption T = T → T → Option ApplyError × T × T

-- The loop over the options.
unfoldable pub run_options : {T : Type 0} → List (ApplyOption T) → ApplyOption T
run_options [] current desired = (none, current, desired)
run_options (fn ∷ ao) current desired = elim (fn current desired).0 [
  | some err ↦ (some err, (fn current desired).1, (fn current desired).2)
  | none ↦ run_options ao (fn current desired).1 (fn current desired).2
]

module _ {T : Type 0} where
  unfoldable pub update_fn : (T → T → T × T) → ApplyOption T
  update_fn fn c d = (none, (fn c d).0, (fn c d).1)

  unfoldable pub allow_update_if : (T → T → Bool) → ApplyOption T
  allow_update_if fn current desired = (
    if fn current desired then none else some (not_allowed (text (codes "update not allowed"))),
    current,
    desired,
  )

  unfoldable pub must_be_controllable_by : Accessor T → ControllerOf → Bytes → ApplyOption T
  must_be_controllable_by a c u current desired = (
    elim (c.find (a.object current).owner_references) [
      | none ↦ none
      | some owner ↦
          if not (equal owner.uid u)
          then some (not_controllable (text (codes "existing object is not controlled by UID")))
          else none
    ],
    current,
    desired,
  )

module _ {T W : Type 0} (a : Accessor T) (client : Client T W) (k : Kerrors) where
  abbrev pub generates_name : T → Bool
  generates_name o = equal (a.object o).name [] && not (equal (a.generate_name o) [])

  -- `errors.Wrap(a.client.Create(ctx, o), "cannot create object")`, after the calls.
  unfoldable pub create_object : T → List (Call T) → W → Applied T W
  create_object o t w =
      let x = client.create o w in
      (wrapped_error x.error (codes "cannot create object"), created o ∷ t, x.result, x.world)

  abbrev pub found : T → W → Answer T W
  found o w = client.get (a.object o).name (a.object o).namespace o w

  -- After the get, for both applicators: what to create, where nothing is found, and what to do with
  -- the object that is.
  unfoldable pub after_get : T → Answer T W → (T → W → Applied T W) → Applied T W
  unfolding create_object
  after_get o x next = elim x.error [
    | none ↦ next x.result x.world
    | some err ↦
        let failed : Applied T W = (
          some (other_error (wrapped (codes "cannot get object") err)),
          got_error err ∷ [],
          o,
          x.world,
        ) in
        if k.is_not_found err then create_object o (got_error err ∷ []) x.world else failed
  ]

  unfoldable pub patch_object : List (ApplyOption T) → T → T → W → Applied T W
  unfolding run_options
  patch_object ao desired current w =
      let out = run_options ao current desired in
      elim out.0 [
        | some err ↦ (some err, got current ∷ [], out.1, w)
        | none ↦
            let x = client.patch out.1 out.2 w in
            (
              wrapped_error x.error (codes "cannot patch object"),
              patched out.1 out.2 ∷ got current ∷ [],
              x.result,
              x.world,
            )
      ]

  -- `APIPatchingApplicator.Apply`; a get reads into the object itself.
  unfoldable pub apply_patching : List (ApplyOption T) → T → W → Applied T W
  unfolding after_get patch_object create_object
  apply_patching ao o w =
      if generates_name o
      then create_object o [] w
      else after_get (found o w).result (found o w) (patch_object ao o)

  unfoldable pub update_object : List (ApplyOption T) → T → T → W → Applied T W
  unfolding run_options
  update_object ao m current w =
      let out = run_options ao current m in
      let desired = a.set_resource_version out.2 (a.resource_version out.1) in
      elim out.0 [
        | some err ↦ (some err, got current ∷ [], out.2, w)
        | none ↦
            let x = client.update desired w in
            (
              wrapped_error x.error (codes "cannot update object"),
              updated desired ∷ got current ∷ [],
              x.result,
              x.world,
            )
      ]

  -- `APIUpdatingApplicator.Apply`; a get reads into a copy.
  unfoldable pub apply_updating : List (ApplyOption T) → T → W → Applied T W
  unfolding after_get update_object create_object
  apply_updating ao m w =
      if generates_name m
      then create_object m [] w
      else after_get m (found m w) (update_object ao m)
