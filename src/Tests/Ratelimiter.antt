-- ===== src/Tests/Ratelimiter.antt =====
-- A limiter that has every item wait for five nanoseconds; the world counts the inner reconciliations.
use crossplane_runtime.Base.{ℕ, ◌+◌, ◌≡◌, refl, none, [], ◌∷◌, codes, equal}
use crossplane_runtime.Errors.{no_requeue}
use crossplane_runtime.Ratelimiter.{
  pos, requeue_after, of_inner, Reconciler, State, member, remove, when, item_of, reconcile,
  reconcile_all,
}
use crossplane_runtime.Ratelimiter.Laws.{reconcile_all-Passes}

abbrev slow : Reconciler ℕ
slow = record {
  name = codes "slow/";
  inner = λ req w. ((no_requeue, none), w + 1);
  wait = λ item w. (pos 5, w);
  forget = λ item w. w;
}

abbrev start : State ℕ
start = record { limited = []; world = 0 }

test-rounds :
    (reconcile slow (codes "a") (reconcile_all slow (codes "a" ∷ codes "b" ∷ []) start)).0
    ≡ of_inner no_requeue none
unfolding reconcile when member remove equal
test-rounds = refl

reconcile_all-Passes_example :
    ((reconcile slow (codes "a") start).0 ≡ requeue_after (pos 5))
    × (let later = reconcile_all slow (codes "a" ∷ codes "b" ∷ []) start in
        let out = slow.inner (codes "a") (slow.forget (item_of slow (codes "a")) later.world) in
        reconcile slow (codes "a") later ≡ (
          of_inner out.0.0 out.0.1,
          record { limited = remove later.limited (item_of slow (codes "a")); world = out.1 },
        ))
unfolding member equal
reconcile_all-Passes_example =
    reconcile_all-Passes slow (codes "a") (codes "b" ∷ []) start (refl, refl) (refl, tt)
