-- ===== src/Policies.antt =====
-- pkg/reconciler/managed/policies.go, with the actions of apis/common/policies.go: which actions a
-- controller may take on the external resource. The sets of k8s.io/apimachinery are the
-- parameter `Sets`; an action is one of the values that the API server's validation admits.
pub mod Laws
use crossplane_runtime.Base.{
  ℕ, ◌≡◌, Bool, true, false, not, ◌&&◌, ◌||◌, ◌↔◌, List, [], ◌∷◌, map, ◌==◌, if◌then◌else◌,
}

pub data ManagementAction : Type 0 where
  observe create update delete late_initialize all : ManagementAction

-- `deletion_other` is any other text than the two, such as the empty one of a policy that is not set.
pub data DeletionPolicy : Type 0 where
  deletion_orphan deletion_delete deletion_other : DeletionPolicy

abbrev pub same_action : ManagementAction → ManagementAction → Bool
same_action observe observe = true
same_action create create = true
same_action update update = true
same_action delete delete = true
same_action late_initialize late_initialize = true
same_action all all = true
same_action _ _ = false

abbrev pub member : ManagementAction → List ManagementAction → Bool
member a [] = false
member a (b ∷ s) = same_action b a || member a s

-- `sets.Set[ManagementAction]`, as its package documents it.
pub record Sets : Type 1 where
  pub Set : Type 0
  pub new : List ManagementAction → Set
  pub has : Set → ManagementAction → Bool
  pub len : Set → ℕ
  pub equal : Set → Set → Bool
  pub has-new : (s : List ManagementAction) (a : ManagementAction) → has (new s) a ≡ member a s
  pub len-zero : (s : Set) → (len s ≡ 0) ↔ ((a : ManagementAction) → has s a ≡ false)
  pub equal_iff : (s t : Set) → (equal s t ≡ true) ↔ ((a : ManagementAction) → has s a ≡ has t a)

-- `defaultSupportedManagementPolicies`, as the actions of each set.
abbrev pub default_supported : List (List ManagementAction)
default_supported =
    (all ∷ [])
    ∷ (observe ∷ create ∷ update ∷ late_initialize ∷ delete ∷ [])
    ∷ (observe ∷ [])
    ∷ []
    ∷ (observe ∷ create ∷ update ∷ delete ∷ [])
    ∷ (observe ∷ create ∷ update ∷ late_initialize ∷ [])
    ∷ (observe ∷ create ∷ update ∷ [])
    ∷ (observe ∷ create ∷ delete ∷ late_initialize ∷ [])
    ∷ (observe ∷ create ∷ late_initialize ∷ [])
    ∷ (observe ∷ create ∷ delete ∷ [])
    ∷ (observe ∷ create ∷ [])
    ∷ (observe ∷ delete ∷ [])
    ∷ (observe ∷ update ∷ [])
    ∷ (observe ∷ late_initialize ∷ [])
    ∷ (observe ∷ update ∷ late_initialize ∷ [])
    ∷ []

-- The two errors of `Validate`.
pub data ValidateError : Type 0 where
  non_default not_supported : ValidateError

pub data Validation : Type 0 where
  valid : Validation
  invalid : ValidateError → Validation

module _ (S : Sets) where
  open S use {Set, new, has, len, equal}

  -- `ManagementPoliciesResolver`
  pub record Resolver : Type 0 where
    pub enabled : Bool
    pub supported_policies : List Set
    pub management_policies : Set

  -- `NewManagementPoliciesResolver` with no option.
  unfoldable pub new_resolver : Bool → List ManagementAction → Resolver
  new_resolver enabled policy = record {
    enabled = enabled;
    supported_policies = map new default_supported;
    management_policies = new policy;
  }

  -- `WithSupportedManagementPolicies`, as the option that it returns.
  unfoldable pub with_supported_management_policies : List Set → Resolver → Resolver
  with_supported_management_policies supported r = record r { supported_policies = supported }

  pub record LegacyResolver : Type 0 where
    pub resolver : Resolver
    pub deletion_policy : DeletionPolicy

  -- `NewLegacyManagementPoliciesResolver` with no option.
  unfoldable pub new_legacy_resolver :
      Bool → List ManagementAction → DeletionPolicy → LegacyResolver
  unfolding new_resolver
  new_legacy_resolver enabled policy d = record {
    resolver = new_resolver enabled policy;
    deletion_policy = d;
  }

  -- `HasAny` of an action and of `*`.
  abbrev pub has_or_all : Set → ManagementAction → Bool
  has_or_all s a = has s a || has s all

  unfoldable pub supported_loop : List Set → Set → Validation
  supported_loop [] s = invalid not_supported
  supported_loop (p ∷ ps) s = if equal p s then valid else supported_loop ps s

  unfoldable pub validate : Resolver → Validation
  unfolding supported_loop
  validate m =
      if not m.enabled
      then (if not (equal m.management_policies (new (all ∷ [])))
            && not (len m.management_policies == 0)
          then invalid non_default
          else valid)
      else supported_loop m.supported_policies m.management_policies

  unfoldable pub is_paused : Resolver → Bool
  is_paused m = if not m.enabled then false else len m.management_policies == 0

  unfoldable pub should_create : Resolver → Bool
  should_create m = if not m.enabled then true else has_or_all m.management_policies create

  unfoldable pub should_update : Resolver → Bool
  should_update m = if not m.enabled then true else has_or_all m.management_policies update

  unfoldable pub should_late_initialize : Resolver → Bool
  should_late_initialize m =
      if not m.enabled then true else has_or_all m.management_policies late_initialize

  unfoldable pub should_only_observe : Resolver → Bool
  should_only_observe m =
      if not m.enabled then false else equal m.management_policies (new (observe ∷ []))

  unfoldable pub should_delete : Resolver → Bool
  should_delete m = if not m.enabled then true else has_or_all m.management_policies delete

  abbrev pub is_orphan : DeletionPolicy → Bool
  is_orphan deletion_orphan = true
  is_orphan deletion_delete = false
  is_orphan deletion_other = false

  abbrev pub is_delete : DeletionPolicy → Bool
  is_delete deletion_orphan = false
  is_delete deletion_delete = true
  is_delete deletion_other = false

  -- `LegacyManagementPoliciesResolver.ShouldDelete`
  unfoldable pub legacy_should_delete : Resolver → DeletionPolicy → Bool
  legacy_should_delete m d =
      if not m.enabled
      then not (is_orphan d)
      else if is_delete d && has_or_all m.management_policies delete
      then true
      else not (equal m.management_policies (new (all ∷ []))) && has m.management_policies delete
