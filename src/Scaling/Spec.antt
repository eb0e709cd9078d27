-- ===== src/Scaling/Spec.antt =====
-- What a scaling step reads of a ModelServing:
-- pkg/model-serving-controller/controller/model_serving_controller.go
use kthena.Common.{Bool, true, false, Option, none, some, Text}
use kthena.Common.Int.{ℤ, pos}
use kthena.GroupStore.{NamespacedName, get_or}

pub data RolloutStrategyType : Type 0 where
  serving_group_rolling_update role_rolling_update : RolloutStrategyType
  other : Text → RolloutStrategyType

-- `P` stands for `intstr.IntOrString`, a number or a percentage.
pub record RolloutStrategy (P : Type 0) : Type 0 where
  pub strategy_type : RolloutStrategyType
  pub rolling_update_configuration : Option (Option P)

pub record RoleSpec (P : Type 0) : Type 0 where
  pub name : Text
  pub replicas : Option ℤ
  pub partition : Option P

pub record ModelServing (P : Type 0) : Type 0 where
  pub namespaced_name : NamespacedName
  pub replicas : Option ℤ
  pub rollout_strategy : Option (RolloutStrategy P)
  pub current_revision : Text

-- A partition, whether one is configured, and whether it could not be computed.
pub record Partition : Type 0 where
  pub value : ℤ
  pub configured : Bool
  pub failed : Bool

module _ {P : Type 0} where
  -- `scaled` stands for `intstr.GetScaledValueFromIntOrPercent` with rounding up, `none` for its error.
  unfoldable pub get_partition : (P → ℤ → Option ℤ) → Option P → ℤ → Partition
  get_partition scaled none replicas = record { value = pos 0; configured = false; failed = false }
  get_partition scaled (some config) replicas = elim (scaled config replicas) [
    | none ↦ record { value = pos 0; configured = true; failed = true }
    | some n ↦ record { value = n; configured = true; failed = false }
  ]

  unfoldable pub model_serving_partition : ModelServing P → Option P
  model_serving_partition ms = elim ms.rollout_strategy [
    | none ↦ none
    | some strategy ↦ elim strategy.rolling_update_configuration [
      | none ↦ none
      | some partition ↦ partition
    ]
  ]

  if_role_rolling : RolloutStrategyType → Option P → Option P
  if_role_rolling RolloutStrategyType.role_rolling_update partition = partition
  if_role_rolling RolloutStrategyType.serving_group_rolling_update partition = none
  if_role_rolling (RolloutStrategyType.other t) partition = none

  unfoldable pub role_partition : ModelServing P → RoleSpec P → Option P
  unfolding if_role_rolling
  role_partition ms role = elim ms.rollout_strategy [
    | none ↦ none
    | some strategy ↦ if_role_rolling strategy.strategy_type role.partition
  ]

  unfoldable pub model_serving_replicas : ModelServing P → ℤ
  model_serving_replicas ms = get_or ms.replicas (pos 0)

  unfoldable pub role_replicas : RoleSpec P → ℤ
  role_replicas role = get_or role.replicas (pos 1)
