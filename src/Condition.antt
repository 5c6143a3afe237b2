-- ===== src/Condition.antt =====
-- apis/common/condition.go and pkg/conditions/manager.go: the status conditions of a resource. The
-- strings for types, statuses and reasons are texts; a time is a number, and `metav1.Now()` is an
-- argument; an int64 is a number.
pub mod Set
pub mod Many
use crossplane_runtime.Base.{
  ℕ, Bool, true, false, ◌&&◌, ◌||◌, Option, none, some, List, [], ◌∷◌, ◌++◌, map, Bytes, codes,
  equal, ◌==◌, if◌then◌else◌,
}

pub record Condition : Type 0 where
  pub typ : Bytes
  pub status : Bytes
  pub last_transition_time : ℕ
  pub reason : Bytes
  pub message : Bytes
  pub observed_generation : ℕ

abbrev pub type_ready : Bytes
type_ready = codes "Ready"

abbrev pub type_synced : Bytes
type_synced = codes "Synced"

abbrev pub type_healthy : Bytes
type_healthy = codes "Healthy"

abbrev pub condition_true : Bytes
condition_true = codes "True"

abbrev pub condition_false : Bytes
condition_false = codes "False"

abbrev pub condition_unknown : Bytes
condition_unknown = codes "Unknown"

-- `Condition.Equal`: all but the time.
unfoldable pub condition_equal : Condition → Condition → Bool
condition_equal c other =
    equal c.typ other.typ
    && (equal c.status other.status
        && (equal c.reason other.reason
            && (equal c.message other.message
                && c.observed_generation == other.observed_generation)))

unfoldable pub with_message : Condition → Bytes → Condition
with_message c message = record c { message = message }

unfoldable pub with_observed_generation : Condition → ℕ → Condition
with_observed_generation c gen = record c { observed_generation = gen }

unfoldable pub is_system_condition_type : Bytes → Bool
is_system_condition_type t = equal t type_ready || (equal t type_synced || equal t type_healthy)

-- `ConditionedStatus.Conditions`
abbrev pub Conditions : Type 0
Conditions = List Condition

unfoldable pub unknown : Bytes → Condition
unknown ct = record {
  typ = ct;
  status = condition_unknown;
  last_transition_time = 0;
  reason = [];
  message = [];
  observed_generation = 0;
}

-- `GetCondition`
unfoldable pub get_condition : Conditions → Bytes → Condition
unfolding unknown
get_condition [] ct = unknown ct
get_condition (c ∷ s) ct = if equal c.typ ct then c else get_condition s ct

-- The inner loop of `SetConditions`: the conditions, and whether the type was there.
abbrev pub replaced_by : Condition → Condition → Condition
replaced_by cond existing =
    if equal existing.typ cond.typ
    then if condition_equal existing cond then existing else cond
    else existing

unfoldable pub replace_loop : Condition → Conditions → Conditions
replace_loop cond [] = []
replace_loop cond (existing ∷ s) = replaced_by cond existing ∷ replace_loop cond s

unfoldable pub has_type : Bytes → Conditions → Bool
has_type t [] = false
has_type t (c ∷ s) = equal c.typ t || has_type t s

-- One round of the outer loop.
unfoldable pub set_condition : Conditions → Condition → Conditions
unfolding replace_loop has_type condition_equal
set_condition s cond =
    if has_type cond.typ s then replace_loop cond s else replace_loop cond s ++ cond ∷ []

-- `SetConditions`
unfoldable pub set_conditions : Conditions → List Condition → Conditions
unfolding set_condition
set_conditions s [] = s
set_conditions s (cond ∷ c) = set_conditions (set_condition s cond) c

-- `NewConditionedStatus`
unfoldable pub new_conditioned_status : List Condition → Conditions
unfolding set_conditions
new_conditioned_status c = set_conditions [] c

abbrev pub system_condition : Bytes → Bytes → Bytes → ℕ → Condition
system_condition typ status reason now = record {
  typ = typ;
  status = status;
  last_transition_time = now;
  reason = reason;
  message = [];
  observed_generation = 0;
}

unfoldable pub creating : ℕ → Condition
creating now = system_condition type_ready condition_false (codes "Creating") now

unfoldable pub deleting : ℕ → Condition
deleting now = system_condition type_ready condition_false (codes "Deleting") now

unfoldable pub available : ℕ → Condition
available now = system_condition type_ready condition_true (codes "Available") now

unfoldable pub unavailable : ℕ → Condition
unavailable now = system_condition type_ready condition_false (codes "Unavailable") now

unfoldable pub reconcile_success : ℕ → Condition
reconcile_success now = system_condition type_synced condition_true (codes "ReconcileSuccess") now

-- The argument is `err.Error()`.
unfoldable pub reconcile_error : Bytes → ℕ → Condition
reconcile_error message now =
    record (system_condition type_synced condition_false (codes "ReconcileError") now) {
      message = message;
    }

unfoldable pub reconcile_paused : ℕ → Condition
reconcile_paused now = system_condition type_synced condition_false (codes "ReconcilePaused") now

-- `MarkConditions` on an object of generation `gen`.
unfoldable pub mark_conditions : ℕ → Conditions → List Condition → Conditions
unfolding with_observed_generation set_conditions
mark_conditions gen s condition =
    set_conditions s (map (λ c. with_observed_generation c gen) condition)
