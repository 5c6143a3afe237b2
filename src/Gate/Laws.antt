-- ===== src/Gate/Laws.antt =====
-- Gates under interleavings of the lock sections, and operations that no other thread interrupts.
use crossplane_runtime.Base.{
  ℕ, ◌+◌, ◌≡◌, refl, sym, ◌∙◌, ap, subst, Bool, true, false, List, [], ◌∷◌, ◌++◌, All, All-append,
  arith, ◌==◌, if◌then◌else◌, Bool-cases, inl, inr,
}
use crossplane_runtime.Gate.{
  Gated, Gate, Event, append_fn, set_condition, process_fns, find, put, changes, release_loop,
  process_fn, process_loop, collect_garbage, process, append_gated, set_locked, register, set, step,
  run, new_gate,
}

-- How often a callback was started.
abbrev pub count : ℕ → List ℕ → ℕ
count f [] = 0
count f (x ∷ xs) = (if x == f then 1 else 0) + count f xs

count-append : (f : ℕ) (xs ys : List ℕ) → count f (xs ++ ys) ≡ count f xs + count f ys
count-append f [] ys = omega arith
count-append f (x ∷ xs) ys = ground (arith, count-append f xs ys)

module _ {T : Type 0} where
  -- How often a callback waits.
  abbrev pub waiting : ℕ → List (Gated T) → ℕ
  waiting f [] = 0
  waiting f (g ∷ fns) = (if g.fn == f then 1 else 0) + waiting f fns

  -- How often a callback was registered.
  abbrev pub registered : ℕ → List (Event T) → ℕ
  registered f [] = 0
  registered f (append_fn fn depends ∷ events) = (if fn == f then 1 else 0) + registered f events
  registered f (set_condition c v ∷ events) = registered f events
  registered f (process_fns ∷ events) = registered f events

  registered-cons :
      (f : ℕ) (e : Event T) (events : List (Event T))
      → registered f (e ∷ events) ≡ registered f (e ∷ []) + registered f events
  registered-cons f (append_fn fn depends) events = omega arith
  registered-cons f (set_condition c v) events = omega arith
  registered-cons f process_fns events = omega arith

  -- Nothing that was released is still there.
  abbrev pub Unreleased : List (Gated T) → Type 0
  Unreleased fns = All (λ g. g.released ≡ false) fns

  waiting-append : (f : ℕ) (a b : List (Gated T)) → waiting f (a ++ b) ≡ waiting f a + waiting f b
  waiting-append f [] b = omega arith
  waiting-append f (g ∷ a) b = ground (arith, waiting-append f a b)

module _ {T : Type 0} (same : T → T → Bool) where
  -- What one round of the loop and the garbage collection leave of a function.
  process_fn-count :
      (f : ℕ) (m : List (T × Bool)) (g : Gated T)
      → g.released ≡ false
      → waiting f (collect_garbage same ((process_fn same m g).0 ∷ []))
          + count f (process_fn same m g).1
        ≡ waiting f (g ∷ [])
  unfolding collect_garbage
  process_fn-count f m g h = elim (Bool-cases (release_loop same m g.depends true)) [
    | inl yes_now ↦ rw yes_now (omega arith)
    | inr later ↦ rw later (rw h (omega arith))
  ]

  collect_garbage-cons :
      (f : ℕ) (g : Gated T) (fns : List (Gated T))
      → waiting f (collect_garbage same (g ∷ fns))
        ≡ waiting f (collect_garbage same (g ∷ [])) + waiting f (collect_garbage same fns)
  unfolding collect_garbage
  collect_garbage-cons f g fns = elim (Bool-cases g.released) [
    | inl gone ↦ rw gone (omega arith)
    | inr there ↦ rw there (omega arith)
  ]

  process_loop-count :
      (f : ℕ) (m : List (T × Bool)) (fns : List (Gated T))
      → Unreleased fns
      → waiting f (collect_garbage same (process_loop same m fns).0)
          + count f (process_loop same m fns).1
        ≡ waiting f fns
  unfolding process_loop
  process_loop-count f m [] h = unfold collect_garbage in omega arith
  process_loop-count f m (g ∷ fns) h = omega (
    arith,
    process_loop-count f m fns h.1,
    process_fn-count f m g h.0,
    collect_garbage-cons f (process_fn same m g).0 (process_loop same m fns).0,
    count-append f (process_fn same m g).1 (process_loop same m fns).1,
  )

  collect_garbage-Unreleased : (fns : List (Gated T)) → Unreleased (collect_garbage same fns)
  unfolding collect_garbage
  collect_garbage-Unreleased [] = tt
  collect_garbage-Unreleased (g ∷ fns) = elim (Bool-cases g.released) [
    | inl gone ↦ rw gone (collect_garbage-Unreleased fns)
    | inr there ↦ rw there (refl, collect_garbage-Unreleased fns)
  ]

  -- The callbacks that were started or wait.
  abbrev pub known : ℕ → Gate T → ℕ
  known f g = count f g.started + waiting f g.fns

  process-known : (f : ℕ) (g : Gate T) → Unreleased g.fns → known f (process same g) ≡ known f g
  unfolding process
  process-known f g h = omega (
    arith,
    process_loop-count f g.satisfied g.fns h,
    count-append f g.started (process_loop same g.satisfied g.fns).1,
  )

  set_locked-fns :
      (g : Gate T) (c : T) (v : Bool)
      → ((set_locked same g c v).0.fns ≡ g.fns) × ((set_locked same g c v).0.started ≡ g.started)
  unfolding set_locked
  set_locked-fns g c v = elim (Bool-cases (changes same (find same g.satisfied c) v)) [
    | inl e ↦ rw e (refl, refl)
    | inr e ↦ rw e (refl, refl)
  ]

  step-known :
      (f : ℕ) (g : Gate T) (e : Event T)
      → Unreleased g.fns
      → (known f (step same g e) ≡ known f g + registered f (e ∷ []))
        × Unreleased (step same g e).fns
  unfolding step
  step-known f g (append_fn fn depends) h =
      unfold append_gated in
      (
        omega (
          arith,
          waiting-append f g.fns (record { fn = fn; depends = depends; released = false } ∷ []),
        ),
        All-append (λ x. x.released ≡ false) g.fns _ h (refl, tt),
      )
  step-known f g (set_condition c v) h =
      let (fns, started) = set_locked-fns g c v in
      (
        ap (λ n. n + waiting f (set_locked same g c v).0.fns) (ap (count f) started)
            ∙ ap (λ n. count f g.started + n) (ap (waiting f) fns)
            ∙ omega arith,
        subst Unreleased (sym fns) h,
      )
  step-known f g process_fns h = (
    process-known f g h ∙ omega arith,
    unfold process in collect_garbage-Unreleased (process_loop same g.satisfied g.fns).0,
  )

  run-known :
      (f : ℕ) (g : Gate T) (events : List (Event T))
      → Unreleased g.fns
      → known f (run same g events) ≡ known f g + registered f events
  unfolding run
  run-known f g [] h = omega arith
  run-known f g (e ∷ events) h =
      let (one, rest) = step-known f g e h in
      run-known f (step same g e) events rest ∙ omega (arith, one, registered-cons f e events)

  -- However the lock sections of `Register` and `Set` of all threads interleave, from a new gate: each
  -- callback was started, or still waits, as often as it was registered. None is lost, and none is
  -- started again.
  pub run-registered :
      (f : ℕ) (events : List (Event T))
      → count f (run same new_gate events).started + waiting f (run same new_gate events).fns
        ≡ registered f events
  run-registered f events = run-known f new_gate events tt ∙ omega arith

  -- No function waits of which all conditions hold.
  abbrev pub Settled : Gate T → Type 0
  Settled g = All (λ x. release_loop same g.satisfied x.depends true ≡ false) g.fns

  process_loop-Settled :
      (m : List (T × Bool)) (fns : List (Gated T))
      → Unreleased fns
      → All
          (λ x. release_loop same m x.depends true ≡ false)
          (collect_garbage same (process_loop same m fns).0)
  unfolding process_loop collect_garbage
  process_loop-Settled m [] h = tt
  process_loop-Settled m (g ∷ fns) h = elim (Bool-cases (release_loop same m g.depends true)) [
    | inl ready ↦ rw ready (process_loop-Settled m fns h.1)
    | inr later ↦ rw later (rw h.0 (later, process_loop-Settled m fns h.1))
  ]

  process-Settled : (g : Gate T) → Unreleased g.fns → Settled (process same g)
  unfolding process
  process-Settled g h = process_loop-Settled g.satisfied g.fns h

  -- After `Register`, with no other thread in between and on a gate that holds no released function,
  -- no function waits of which all conditions hold.
  pub register-Settled :
      (g : Gate T) (fn : ℕ) (depends : List T)
      → Unreleased g.fns
      → Settled (register same g fn depends)
  unfolding register append_gated
  register-Settled g fn depends h =
      process-Settled (append_gated same g fn depends)
        (All-append (λ x. x.released ≡ false) g.fns _ h (refl, tt))

  -- `Set`, with no other thread in between and on a gate that holds no released function, keeps it so
  -- that no function waits of which all conditions hold.
  pub set-Settled :
      (g : Gate T) (c : T) (v : Bool) → Unreleased g.fns → Settled g → Settled (set same g c v).0
  unfolding set set_locked
  set-Settled g c v h settled = elim (Bool-cases (changes same (find same g.satisfied c) v)) [
    | inl e ↦ rw e (process-Settled (record g { satisfied = put same g.satisfied c v }) h)
    | inr e ↦ rw e settled
  ]
