-- ===== src/Gate.antt =====
-- pkg/gate/gate.go and pkg/feature/feature.go. Each section that a mutex guards is one step, so that
-- the steps of all threads form a sequence. A callback is a number, and `go fn()` is an entry of the
-- log `started`. A nil map reads as an empty one.
pub mod Laws
use crossplane_runtime.Base.{
  ℕ, Bool, true, false, not, ◌||◌, Option, none, some, List, [], ◌∷◌, ◌++◌, if◌then◌else◌,
}

-- `gated`
pub record Gated (T : Type 0) : Type 0 where
  pub fn : ℕ
  pub depends : List T
  pub released : Bool

pub record Gate (T : Type 0) : Type 0 where
  pub satisfied : List (T × Bool)
  pub fns : List (Gated T)
  pub started : List ℕ

-- What one lock section does.
pub data Event (T : Type 0) : Type 0 where
  append_fn : ℕ → List T → Event T
  set_condition : T → Bool → Event T
  process_fns : Event T

-- `feature.Flags`, as the flags that were enabled.
unfoldable pub enable : {F : Type 0} → List F → F → List F
enable fs f = f ∷ fs

unfoldable pub enabled : {F : Type 0} → (F → F → Bool) → List F → F → Bool
enabled same [] f = false
enabled same (e ∷ fs) f = same e f || enabled same fs f

module _ {T : Type 0} (same : T → T → Bool) where
  abbrev pub find : List (T × Bool) → T → Option Bool
  find [] c = none
  find ((d, v) ∷ m) c = if same d c then some v else find m c

  abbrev pub put : List (T × Bool) → T → Bool → List (T × Bool)
  put [] c v = (c, v) ∷ []
  put ((d, w) ∷ m) c v = if same d c then (d, v) ∷ m else (d, w) ∷ put m c v

  -- `g.satisfied[dep]`
  abbrev pub holds : List (T × Bool) → T → Bool
  holds m c = elim (find m c) [ none ↦ false | some v ↦ v ]

  -- The loop over `depends`, with `release` so far.
  unfoldable pub release_loop : List (T × Bool) → List T → Bool → Bool
  release_loop m [] release = release
  release_loop m (dep ∷ depends) release =
      release_loop m depends (if not (holds m dep) then false else release)

  -- One function, and what is started of it.
  abbrev pub process_fn : List (T × Bool) → Gated T → Gated T × List ℕ
  process_fn m g =
      if release_loop m g.depends true then (record g { released = true }, g.fn ∷ []) else (g, [])

  unfoldable pub process_loop : List (T × Bool) → List (Gated T) → List (Gated T) × List ℕ
  unfolding release_loop
  process_loop m [] = ([], [])
  process_loop m (g ∷ fns) =
      let (g', now) = process_fn m g in
      let (fns', later) = process_loop m fns in (g' ∷ fns', now ++ later)

  -- `slices.DeleteFunc` of what was released.
  unfoldable pub collect_garbage : List (Gated T) → List (Gated T)
  collect_garbage [] = []
  collect_garbage (g ∷ fns) = if g.released then collect_garbage fns else g ∷ collect_garbage fns

  unfoldable pub process : Gate T → Gate T
  unfolding process_loop collect_garbage
  process g =
      let (fns, now) = process_loop g.satisfied g.fns in
      record g { fns = collect_garbage fns; started = g.started ++ now }

  unfoldable pub append_gated : Gate T → ℕ → List T → Gate T
  append_gated g fn depends = record g {
    fns = g.fns ++ record { fn = fn; depends = depends; released = false } ∷ [];
  }

  abbrev pub changes : Option Bool → Bool → Bool
  changes none value = true
  changes (some old) value = if old then not value else value

  unfoldable pub set_locked : Gate T → T → Bool → Gate T × Bool
  set_locked g condition value =
      if changes (find g.satisfied condition) value
      then (record g { satisfied = put g.satisfied condition value }, true)
      else (g, false)

  -- `Register` and `Set`, when no other thread runs in between.
  unfoldable pub register : Gate T → ℕ → List T → Gate T
  unfolding append_gated process
  register g fn depends = process (append_gated g fn depends)

  unfoldable pub set : Gate T → T → Bool → Gate T × Bool
  unfolding set_locked process
  set g condition value =
      let (h, updated) = set_locked g condition value in (if updated then process h else h, updated)

  unfoldable pub step : Gate T → Event T → Gate T
  unfolding append_gated set_locked process
  step g (append_fn fn depends) = append_gated g fn depends
  step g (set_condition c v) = (set_locked g c v).0
  step g process_fns = process g

  unfoldable pub run : Gate T → List (Event T) → Gate T
  unfolding step
  run g [] = g
  run g (e ∷ events) = run (step g e) events

abbrev pub new_gate : {T : Type 0} → Gate T
new_gate = record { satisfied = []; fns = []; started = [] }
