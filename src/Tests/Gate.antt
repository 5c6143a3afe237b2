-- ===== src/Tests/Gate.antt =====
-- Gates at concrete inputs.
use crossplane_runtime.Base.{ℕ, ◌+◌, ◌≡◌, refl, Bool, true, false, List, [], ◌∷◌, ◌==◌}
use crossplane_runtime.Gate.{
  Gate, Event, append_fn, set_condition, process_fns, release_loop, set, run, new_gate,
}
use crossplane_runtime.Gate.Laws.{count, waiting, registered, run-registered, Settled, set-Settled}

abbrev test_same : ℕ → ℕ → Bool
test_same a b = a == b

-- Two threads register before either gets to process.
abbrev interleaved : List (Event ℕ)
interleaved =
    append_fn 1 (7 ∷ [])
    ∷ append_fn 2 (7 ∷ 8 ∷ [])
    ∷ set_condition 7 true
    ∷ process_fns
    ∷ process_fns
    ∷ process_fns
    ∷ []

one_started : (run test_same new_gate interleaved).started ≡ 1 ∷ []
unfolding run
one_started = refl

run-registered_example :
    count 1 (run test_same new_gate interleaved).started
      + waiting 1 (run test_same new_gate interleaved).fns
    ≡ registered 1 interleaved
run-registered_example = run-registered test_same 1 interleaved

abbrev one_waits : Gate ℕ
one_waits = record {
  satisfied = [];
  fns = record { fn = 1; depends = 7 ∷ []; released = false } ∷ [];
  started = [];
}

set-Settled_example : Settled test_same (set test_same one_waits 7 true).0
set-Settled_example =
    set-Settled test_same one_waits 7 true (refl, tt) (unfold release_loop in (refl, tt))
