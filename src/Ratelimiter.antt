-- ===== src/Ratelimiter.antt =====
-- pkg/ratelimiter/reconciler.go: a reconciler that is subject to a rate limit. The limiter and the
-- inner reconciler are functions on a world of any type; a request is its text. The mutex guards each
-- access to the set of limited items; the model runs whole calls of `Reconcile`, one after the other.
pub mod Laws
use crossplane_runtime.Base.{
  ℕ, ◌<◌, Bool, true, false, not, ◌==◌, ltb, Option, none, List, [], ◌∷◌, Bytes, ◌++◌, equal,
  if◌then◌else◌,
}
use crossplane_runtime.Errors.{Error, Requeue}

-- `time.Duration`: a number of nanoseconds, or one more than it below zero.
pub data ℤ : Type 0 where
  pos : ℕ → ℤ
  negsuc : ℕ → ℤ

abbrev pub is_zero : ℤ → Bool
is_zero (pos n) = n == 0
is_zero (negsuc n) = false

abbrev pub is_positive : ℤ → Bool
is_positive (pos n) = ltb 0 n
is_positive (negsuc n) = false

-- `reconcile.Result`, whose duration is that of the limiter or of the inner reconciler.
pub data Result : Type 0 where
  requeue_after : ℤ → Result
  of_inner : Requeue → Option Error → Result

-- The limiter's `When` and `Forget`, the inner reconciler, and the name.
pub record Reconciler (W : Type 0) : Type 0 where
  pub name : Bytes
  pub inner : Bytes → W → (Requeue × Option Error) × W
  pub wait : Bytes → W → ℤ × W
  pub forget : Bytes → W → W

-- `limited` and the world.
pub record State (W : Type 0) : Type 0 where
  pub limited : List Bytes
  pub world : W

unfoldable pub member : List Bytes → Bytes → Bool
member [] x = false
member (y ∷ ys) x = if equal y x then true else member ys x

-- `delete(r.limited, item)`
unfoldable pub remove : List Bytes → Bytes → List Bytes
remove [] x = []
remove (y ∷ ys) x = let rest = remove ys x in if equal y x then rest else y ∷ rest

module _ {W : Type 0} (r : Reconciler W) where
  -- `r.name + req.String()`
  abbrev pub item_of : Bytes → Bytes
  item_of req = r.name ++ req

  -- What `when` leaves of the set, after the limiter was asked.
  abbrev pub recorded : ℤ → Bytes → List Bytes → List Bytes
  recorded d item limited = if not (is_zero d) then item ∷ limited else limited

  unfoldable pub when : Bytes → State W → ℤ × State W
  unfolding member remove
  when req s =
      if member s.limited (item_of req)
      then (pos 0, record s { limited = remove s.limited (item_of req) })
      else let asked = r.wait (item_of req) s.world in
        (asked.0, record { limited = recorded asked.0 (item_of req) s.limited; world = asked.1 })

  unfoldable pub reconcile : Bytes → State W → Result × State W
  unfolding when
  reconcile req s =
      let d = when req s in
      if is_positive d.0
      then (requeue_after d.0, d.1)
      else let out = r.inner req (r.forget (item_of req) d.1.world) in
        (of_inner out.0.0 out.0.1, record d.1 { world = out.1 })

  -- Requests that are reconciled one after the other.
  abbrev pub reconcile_all : List Bytes → State W → State W
  reconcile_all [] s = s
  reconcile_all (req ∷ reqs) s = reconcile_all reqs (reconcile req s).1
