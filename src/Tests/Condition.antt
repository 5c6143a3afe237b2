-- ===== src/Tests/Condition.antt =====
-- Status conditions at concrete inputs.
use crossplane_runtime.Base.{◌≡◌, refl, true, [], ◌∷◌, equal, codes, All}
use crossplane_runtime.Condition.{
  Conditions, available, creating, reconcile_success, reconcile_error, condition_equal,
  get_condition, has_type, set_conditions, mark_conditions, type_ready,
}
use crossplane_runtime.Condition.Many.{
  latest, get_condition-set_conditions, UniqueTypes, set_conditions-UniqueTypes, AlreadySet,
  set_conditions-AlreadySet, mark_conditions-generation,
}

abbrev being_created : Conditions
being_created = creating 5 ∷ reconcile_error (codes "boom") 5 ∷ []

one_replaced :
    set_conditions being_created (available 9 ∷ reconcile_error (codes "boom") 9 ∷ [])
    ≡ available 9 ∷ reconcile_error (codes "boom") 5 ∷ []
unfolding set_conditions available creating reconcile_error equal
one_replaced = refl

get_condition-set_conditions_example :
    condition_equal
      (get_condition (set_conditions being_created (available 9 ∷ [])) type_ready)
      (latest (get_condition being_created type_ready) (available 9 ∷ []) type_ready)
    ≡ true
get_condition-set_conditions_example =
    get_condition-set_conditions being_created (available 9 ∷ []) type_ready

being_created-UniqueTypes : UniqueTypes being_created
unfolding has_type creating reconcile_error equal
being_created-UniqueTypes = (refl, (refl, tt))

set_conditions-UniqueTypes_example :
    UniqueTypes (set_conditions being_created (available 9 ∷ reconcile_success 9 ∷ []))
set_conditions-UniqueTypes_example =
    set_conditions-UniqueTypes being_created (available 9 ∷ reconcile_success 9 ∷ [])
      being_created-UniqueTypes

creating-AlreadySet : All (AlreadySet being_created) (creating 9 ∷ [])
unfolding has_type get_condition condition_equal creating reconcile_error equal
creating-AlreadySet = ((refl, refl), tt)

set_conditions-AlreadySet_example : set_conditions being_created (creating 9 ∷ []) ≡ being_created
set_conditions-AlreadySet_example =
    set_conditions-AlreadySet being_created (creating 9 ∷ []) being_created-UniqueTypes
      creating-AlreadySet

supplied : has_type type_ready (available 9 ∷ []) ≡ true
unfolding has_type available equal
supplied = refl

mark_conditions-generation_example :
    (get_condition
      (mark_conditions 4 being_created (available 9 ∷ []))
      type_ready).observed_generation
    ≡ 4
mark_conditions-generation_example =
    mark_conditions-generation 4 being_created (available 9 ∷ []) type_ready supplied
