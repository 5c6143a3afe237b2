-- ===== src/Managed/Attempt.antt =====
-- How a postcondition of `Reconcile` passes through a call, and through the ways of returning.
use crossplane_runtime.Base.{
  ◌≡◌, refl, Bool, true, false, Option, none, some, inl, inr, List, ◌∷◌, Bool-cases, Option-cases,
  if◌then◌else◌,
}
use crossplane_runtime.Errors.{Error, Requeue, requeue_now}
use crossplane_runtime.Condition.{Condition}
use crossplane_runtime.Managed.{
  Resource, Reply, ExternalCreation, Operation, get, update, update_status, unpublish,
  remove_finalizer, initialize, resolve_references, publish, add_finalizer,
  update_critical_annotations, connect, disconnect, disconnect_client, observe, create_external,
  update_external, delete_external, log_change, OperationType, Checker, Reconciler, State, Exit,
  state_of, Trace,
}
use crossplane_runtime.Meta.{Object, StringMap}
use crossplane_runtime.Managed.Reconcile.{
  attempt, after, report, report_unless_conflict, return_status, mark, exit_with, log, ignoring,
  with_object,
}
use crossplane_runtime.Managed.Protocol.{Legal, Permitted, Active, Accounted, Owed, Outcome, quiet}

-- A case split on a test.
pub by_test {ℓ} :
    {A : Type 0} (P : A → Type ℓ) (b : Bool) (x y : A)
    → (b ≡ true → P x)
    → (b ≡ false → P y)
    → P (if b then x else y)
by_test P b x y hx hy = elim (Bool-cases b) [ inl e ↦ rw e (hx e) | inr e ↦ rw e (hy e) ]

module _ {W : Type 0} (r : Reconciler W) where
  pub attempt-all :
      {A : Type 0} (Q : Exit W → Type 0) (op : A → Operation) (call : Resource → W → Reply A W)
      (failed : Error → A → State W → Exit W) (next : A → State W → Exit W) (s : State W)
      → ((e : Error) (a : Reply A W) → Q (failed e a.value (after r (op a.value) false a s)))
      → ((a : Reply A W) → Q (next a.value (after r (op a.value) true a s)))
      → Q (attempt r op call failed next s)
  unfolding attempt
  attempt-all Q op call failed next s hf hn = elim (Option-cases (call s.resource s.world).error) [
    | inl e ↦ rw (e, attempt) (hn (call s.resource s.world))
    | inr (x, e) ↦ rw (e, attempt) (hf x (call s.resource s.world))
  ]

  -- The run ended with a legal trace, which accounts for its creations.
  pub record Ends (p : Checker) (x : Exit W) : Type 0 where
    pub legal_end : Legal r.time r.deterministic_external_name p (state_of x).trace
    pub accounted_end : Accounted r.time (state_of x).trace

  -- So it is part of the way.
  pub record At (p : Checker) (s : State W) : Type 0 where
    pub legal : Legal r.time r.deterministic_external_name p s.trace
    pub accounted : Accounted r.time s.trace

  -- The trace so far is legal, but the outcome of the last creation is still to be stored.
  pub record Open (p : Checker) (ok : Bool) (s : State W) : Type 0 where
    pub legal_so_far : Legal r.time r.deterministic_external_name p s.trace
    pub owed : (m : Resource) → Outcome r.time ok m → Owed r.time (some m) s.trace

  Accounted-quiet :
      (op : Operation) (m : Resource) (ok : Bool) (t : Trace)
      → quiet op ≡ true
      → Accounted r.time t
      → Accounted r.time (record { operation = op; resource = m; succeeded = ok } ∷ t)
  Accounted-quiet create_external m ok t q h = cc
  Accounted-quiet update_critical_annotations m ok t q h = cc
  Accounted-quiet get m ok t q h = h
  Accounted-quiet update m ok t q h = h
  Accounted-quiet update_status m ok t q h = h
  Accounted-quiet unpublish m ok t q h = h
  Accounted-quiet remove_finalizer m ok t q h = h
  Accounted-quiet initialize m ok t q h = h
  Accounted-quiet resolve_references m ok t q h = h
  Accounted-quiet publish m ok t q h = h
  Accounted-quiet add_finalizer m ok t q h = h
  Accounted-quiet connect m ok t q h = h
  Accounted-quiet disconnect m ok t q h = h
  Accounted-quiet disconnect_client m ok t q h = h
  Accounted-quiet (observe o) m ok t q h = h
  Accounted-quiet update_external m ok t q h = h
  Accounted-quiet delete_external m ok t q h = h
  Accounted-quiet (log_change o) m ok t q h = h

  -- A permitted call that is no creation, with what follows it.
  pub attempt-Ends :
      {A : Type 0} (p : Checker) (op : A → Operation) (s : State W)
      (call : Resource → W → Reply A W) (failed : Error → A → State W → Exit W)
      (next : A → State W → Exit W)
      → At p s
      → ((v : A) → Permitted r.time r.deterministic_external_name p (op v) s.resource s.trace)
      → ((v : A) → quiet (op v) ≡ true)
      → ((e : Error) (a : Reply A W)
          → At p (after r (op a.value) false a s)
          → Ends p (failed e a.value (after r (op a.value) false a s)))
      → ((a : Reply A W)
          → At p (after r (op a.value) true a s)
          → Ends p (next a.value (after r (op a.value) true a s)))
      → Ends p (attempt r op call failed next s)
  attempt-Ends p op s call failed next h may q hf hn =
      let there =
        λ (v : _) (ok : Bool). Accounted-quiet (op v) s.resource ok s.trace (q v) h.accounted in
      attempt-all (Ends p) op call failed next s
        (λ e a. hf e a (record { legal = (may a.value, h.legal); accounted = there a.value false }))
        (λ a. hn a (record { legal = (may a.value, h.legal); accounted = there a.value true }))

  -- A creation leaves itself open.
  pub create-Ends :
      (p : Checker) (s : State W) (call : Resource → W → Reply ExternalCreation W)
      (failed : Error → ExternalCreation → State W → Exit W)
      (next : ExternalCreation → State W → Exit W)
      → At p s
      → Permitted r.time r.deterministic_external_name p create_external s.resource s.trace
      → ((e : Error) (a : Reply ExternalCreation W)
          → Open p false (after r create_external false a s)
          → Ends p (failed e a.value (after r create_external false a s)))
      → ((a : Reply ExternalCreation W)
          → Open p true (after r create_external true a s)
          → Ends p (next a.value (after r create_external true a s)))
      → Ends p (attempt r (λ c. create_external) call failed next s)
  create-Ends p s call failed next h may hf hn =
      attempt-all (Ends p) (λ c. create_external) call failed next s
        (λ e a. hf e a (record { legal_so_far = (may, h.legal); owed = λ m o. (o, h.accounted) }))
        (λ a. hn a (record { legal_so_far = (may, h.legal); owed = λ m o. (o, h.accounted) }))

  -- An update of the critical annotations accounts for it.
  pub account-Ends :
      (p : Checker) (ok : Bool) (s : State W) (call : Resource → W → Reply (Unit {0}) W)
      (failed : Error → Unit {0} → State W → Exit W) (next : Unit {0} → State W → Exit W)
      → Open p ok s
      → p.should_create ≡ true
      → Outcome r.time ok s.resource
      → ((e : Error) (a : Reply (Unit {0}) W)
          → At p (after r update_critical_annotations false a s)
          → Ends p (failed e a.value (after r update_critical_annotations false a s)))
      → ((a : Reply (Unit {0}) W)
          → At p (after r update_critical_annotations true a s)
          → Ends p (next a.value (after r update_critical_annotations true a s)))
      → Ends p (attempt r (λ u. update_critical_annotations) call failed next s)
  account-Ends p ok s call failed next h may o hf hn =
      attempt-all (Ends p) (λ u. update_critical_annotations) call failed next s
        (λ e a. hf e a (record { legal = (may, h.legal_so_far); accounted = h.owed s.resource o }))
        (λ a. hn a (record { legal = (may, h.legal_so_far); accounted = h.owed s.resource o }))

  pub ignoring-At :
      (p : Checker) (ok : Bool) (s : State W) (call : Resource → W → Reply (Unit {0}) W)
      → Open p ok s
      → p.should_create ≡ true
      → Outcome r.time ok s.resource
      → At p (ignoring r update_critical_annotations call s)
  unfolding ignoring
  ignoring-At p ok s call h may o = record {
    legal = (may, h.legal_so_far);
    accounted = h.owed s.resource o;
  }

  pub log-Open :
      (p : Checker) (ok : Bool) (t : OperationType) (pre : Resource) (err : Option Error)
      (details : StringMap) (s : State W)
      → Active p
      → Open p ok s
      → Open p ok (log r t pre err details s)
  unfolding log
  log-Open p ok t pre err details s active h = record {
    legal_so_far = (active, h.legal_so_far);
    owed = h.owed;
  }

  pub with_object-At :
      (p : Checker) (f : Object → Object) (s : State W) → At p s → At p (with_object r f s)
  with_object-At p f s h = record { legal = h.legal; accounted = h.accounted }

  pub with_object-Open :
      (p : Checker) (ok : Bool) (f : Object → Object) (s : State W)
      → Open p ok s
      → Open p ok (with_object r f s)
  with_object-Open p ok f s h = record { legal_so_far = h.legal_so_far; owed = h.owed }

  pub report-Ends :
      (p : Checker) (result : Requeue) (cs : List Condition) (s : State W)
      → At p s
      → Ends p (report r result cs s)
  unfolding report return_status mark exit_with
  report-Ends p result cs s h = record { legal_end = (tt, h.legal); accounted_end = h.accounted }

  pub exit_with-Ends :
      (p : Checker) (result : Requeue) (err : Option Error) (s : State W)
      → At p s
      → Ends p (exit_with r result err s)
  unfolding exit_with
  exit_with-Ends p result err s h = record { legal_end = h.legal; accounted_end = h.accounted }

  pub report_unless_conflict-Ends :
      (p : Checker) (e : Error) (cs : List Condition) (s : State W)
      → At p s
      → Ends p (report_unless_conflict r e cs s)
  unfolding report_unless_conflict
  report_unless_conflict-Ends p e cs s h =
      by_test (Ends p) (r.kerrors.is_conflict e) (exit_with r requeue_now none s)
        (report r requeue_now cs s) (λ c. exit_with-Ends p requeue_now none s h)
        (λ c. report-Ends p requeue_now cs s h)

  pub log-At :
      (p : Checker) (t : OperationType) (pre : Resource) (err : Option Error) (details : StringMap)
      (s : State W)
      → Active p
      → At p s
      → At p (log r t pre err details s)
  unfolding log
  log-At p t pre err details s active h = record {
    legal = (active, h.legal);
    accounted = h.accounted;
  }

  pub test-Ends :
      (p : Checker) (b : Bool) (x y : Exit W)
      → (b ≡ true → Ends p x)
      → (b ≡ false → Ends p y)
      → Ends p (if b then x else y)
  test-Ends p true x y hx hy = hx refl
  test-Ends p false x y hx hy = hy refl

pub ruleset protocol_rules =
    (attempt-Ends, report-Ends, exit_with-Ends, report_unless_conflict-Ends, log-At, test-Ends)

pub ruleset creation_rules = (create-Ends, with_object-At)
