-- ===== src/Tests/Policies.antt =====
-- Management policies at concrete inputs, with sets that are functions into Bool.
use crossplane_runtime.Base.{
  ℕ, ◌≡◌, refl, Bool, true, false, not, ◌&&◌, List, [], ◌∷◌, arith, if◌then◌else◌, ◌+◌,
}
use crossplane_runtime.Policies.{
  ManagementAction, observe, create, update, delete, late_initialize, all, deletion_orphan, member,
  Sets, valid, Resolver, new_resolver, validate, is_paused, should_only_observe,
  legacy_should_delete,
}
use crossplane_runtime.Policies.Laws.{legacy_should_delete-orphan}

abbrev pub count : Bool → ℕ
count b = if b then 1 else 0

abbrev pub same_bool : Bool → Bool → Bool
same_bool a b = if a then b else not b

abbrev pub count_actions : (ManagementAction → Bool) → ℕ
count_actions s =
    count (s observe)
    + (count (s create)
        + (count (s update) + (count (s delete) + (count (s late_initialize) + count (s all)))))

abbrev pub same_actions : (ManagementAction → Bool) → (ManagementAction → Bool) → Bool
same_actions s t =
    same_bool (s observe) (t observe)
    && (same_bool (s create) (t create)
        && (same_bool (s update) (t update)
            && (same_bool (s delete) (t delete)
                && (same_bool (s late_initialize) (t late_initialize)
                    && same_bool (s all) (t all)))))

pub none_counted :
    (s : ManagementAction → Bool) (a : ManagementAction) → count_actions s ≡ 0 → s a ≡ false
none_counted s observe h = ground arith
none_counted s create h = ground arith
none_counted s update h = ground arith
none_counted s delete h = ground arith
none_counted s late_initialize h = ground arith
none_counted s all h = ground arith

pub none_there :
    (s : ManagementAction → Bool) → ((a : ManagementAction) → s a ≡ false) → count_actions s ≡ 0
none_there s h =
    rw (h observe)
      (rw (h create) (rw (h update) (rw (h delete) (rw (h late_initialize) (rw (h all))))))

pub same_actions_sound :
    (s t : ManagementAction → Bool) (a : ManagementAction) → same_actions s t ≡ true → s a ≡ t a
same_actions_sound s t observe h = ground arith
same_actions_sound s t create h = ground arith
same_actions_sound s t update h = ground arith
same_actions_sound s t delete h = ground arith
same_actions_sound s t late_initialize h = ground arith
same_actions_sound s t all h = ground arith

same_bool_refl : (b : Bool) → same_bool b b ≡ true
same_bool_refl b = ground arith

pub same_actions_complete :
    (s t : ManagementAction → Bool) → ((a : ManagementAction) → s a ≡ t a) → same_actions s t ≡ true
same_actions_complete s t h = rw (h observe) (
    rw (h create) (
      rw (h update) (
        rw (h delete) (
          rw (h late_initialize) (
            rw (h all) (
              rw (same_bool_refl (t observe)) (
                rw (same_bool_refl (t create)) (
                  rw (same_bool_refl (t update)) (
                    rw (same_bool_refl (t delete))
                      (rw (same_bool_refl (t late_initialize)) (same_bool_refl (t all))))))))))))

abbrev pub tests : Sets
tests = record {
  Set = ManagementAction → Bool;
  new = λ s a. member a s;
  has = λ s a. s a;
  len = count_actions;
  equal = same_actions;
  has-new = λ s a. refl;
  len-zero = λ s. (λ h a. none_counted s a h, none_there s);
  equal_iff = λ s t. (λ h a. same_actions_sound s t a h, same_actions_complete s t);
}

abbrev some_policy : List ManagementAction
some_policy = create ∷ observe ∷ delete ∷ []

some_policy-valid : validate tests (new_resolver tests true some_policy) ≡ valid
unfolding validate new_resolver
some_policy-valid = refl

some_policy-runs : is_paused tests (new_resolver tests true some_policy) ≡ false
unfolding is_paused new_resolver
some_policy-runs = refl

abbrev observer : Resolver tests
observer = new_resolver tests true (observe ∷ [])

observer-observes : should_only_observe tests observer ≡ true
unfolding should_only_observe new_resolver
observer-observes = refl

legacy_should_delete-orphan_example :
    legacy_should_delete tests (new_resolver tests true some_policy) deletion_orphan
    ≡ member delete some_policy
legacy_should_delete-orphan_example = legacy_should_delete-orphan tests some_policy
