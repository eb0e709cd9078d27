-- ===== src/Scaling/Deleting.antt =====
-- The deletion of one ServingGroup or Role: deleteServingGroup and DeleteRole of
-- pkg/model-serving-controller/controller/model_serving_controller.go, with the store they write
use kthena.Common.{Bool, true, false, Option, none, some, Text}
use kthena.GroupStore.{NamespacedName, ServingGroupStatus, RoleStatus, Store, ok, err, Error}
use kthena.GroupStore.Ops.{
  get_serving_group_status, get_roles_by_group, update_serving_group_status, update_role_status,
  delete_serving_group as forget_serving_group, delete_role as forget_role,
}

-- What the calls that clear a group or a role out of the cluster come to: the pods, the pod group and
-- the plugins' resources. They fail, or some pods remain or were replaced, or nothing is left.
pub data Cleared (E : Type 0) : Type 0 where
  failed : E → Cleared E
  remaining gone : Cleared E

pub data Failure (E : Type 0) : Type 0 where
  store_failed : Error → Failure E
  clearing_failed : E → Failure E

unfoldable pub is_not_found : ServingGroupStatus → Bool
is_not_found ServingGroupStatus.not_found = true
is_not_found other = false

unfoldable pub delete_serving_group :
    {E : Type 0} → (Text → Cleared E) → NamespacedName → Store → Text → Store × Option (Failure E)
delete_serving_group clear m s name = elim (is_not_found (get_serving_group_status s m name)) [
  | true ↦ (s, none)
  | false ↦ elim (get_roles_by_group s m name) [
    | err e ↦ (s, some (store_failed e))
    | ok _ ↦ elim (update_serving_group_status s m name ServingGroupStatus.deleting) [
      | err e ↦ (s, some (store_failed e))
      | ok s' ↦ elim (clear name) [
        | failed e ↦ (s', some (clearing_failed e))
        | remaining ↦ (s', none)
        | gone ↦ (forget_serving_group s' m name, none)
      ]
    ]
  ]
]

unfoldable pub delete_role :
    {E : Type 0}
    → (Text → Cleared E)
    → NamespacedName
    → Text
    → Text
    → Store
    → Text
    → Store × Option (Failure E)
delete_role clear m group_name role_name s role_id =
    elim (update_role_status s m group_name role_name role_id RoleStatus.deleting) [
      | err e ↦ (s, some (store_failed e))
      | ok s' ↦ elim (clear role_id) [
        | failed e ↦ (s', some (clearing_failed e))
        | remaining ↦ (s', none)
        | gone ↦ (forget_role s' m group_name role_name role_id, none)
      ]
    ]
