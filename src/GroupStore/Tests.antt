-- ===== src/GroupStore/Tests.antt =====
-- Concrete runs of the ServingGroup store: pkg/model-serving-controller/datastore/store.go
use mathlib.Core.List.{Mem, Pairwise}
use kthena.Common.Dict.{lookup}
use kthena.GroupStore.Sorting.{insertion_sort}
use kthena.GroupStore.Listing.{listing_lem}
use mathlib.Core.Path.{refl}
use kthena.Common.{
  none, some, true, List, [], ◌∷◌, Text, text_eq, codes, ◌≡◌, ◌⊎◌, ◌↔◌, foldl, if◌then◌else◌, arith,
}
use kthena.Common.Int.{pos, ◌≤ℤ◌}
use kthena.GroupStore.{
  NamespacedName, name_eq, RoleStatus, Role, ServingGroup, Store, ok, err, serving_group_not_found,
  is_err, get_or, new, find_group,
}
use kthena.GroupStore.Ops.{
  add_role, update_role_status, update_role_revision, delete_role, add_running_pod_to_serving_group,
  add_serving_group_and_role, fresh_role, get_serving_group_by_model_serving, ordinal,
}
use kthena.GroupStore.Ordinal.{
  get_parent_name_and_ordinal, generate_serving_group_name, ordinal-generate,
}
use kthena.GroupStore.Reads.{find_role}
use kthena.GroupStore.Roles.{
  Writes, same_role, update_role_status_lem, update_role_revision_lem, add_role_lem,
  find_role-add_running_pod, delete_role_lem,
}
use kthena.GroupStore.Valid.{IsValid, Op, apply}
use kthena.GroupStore.Steps.{run-IsValid}

abbrev model : NamespacedName
model = record { namespace = codes "default"; name = codes "llm" }

abbrev group : Text
group = codes "llm-0"

abbrev decode : Text
decode = codes "decode"

abbrev decode_0 : Text
decode_0 = codes "decode-0"

abbrev v1 : Text
v1 = codes "v1"

abbrev hash : Text
hash = codes "h"

abbrev ops : List Op
ops =
    Op.add_serving_group model 0 v1
    ∷ Op.add_role model group decode decode_0 v1 hash
    ∷ Op.add_running_pod model group (codes "pod") v1 hash decode decode_0
    ∷ Op.update_role_status model group decode decode_0 RoleStatus.running
    ∷ Op.delete_role model group decode decode_0
    ∷ []

abbrev with_role : Store
with_role = foldl apply new (Op.add_role model group decode decode_0 v1 hash ∷ [])

run-IsValid_example : IsValid (foldl apply new ops)
run-IsValid_example = run-IsValid ops

update_role_status_lem_example :
    ((find_role with_role model group decode decode_0 ≡ none)
      × (is_err (update_role_status with_role model group decode decode_0 RoleStatus.running)
          ≡ true))
    ⊎ ((role : Role) × (find_role with_role model group decode decode_0 ≡ some role)
        × (s' : Store) × (update_role_status with_role model group decode decode_0
              RoleStatus.running
            ≡ ok s')
        × Writes with_role model group decode decode_0 s'
            (record role { status = RoleStatus.running }))
update_role_status_lem_example =
    update_role_status_lem with_role model group decode decode_0 RoleStatus.running

update_role_revision_lem_example :
    ((find_role with_role model group decode decode_0 ≡ none)
      × (is_err (update_role_revision with_role model group decode decode_0 (codes "v2") hash)
          ≡ true))
    ⊎ ((role : Role) × (find_role with_role model group decode decode_0 ≡ some role)
        × (s' : Store) × (update_role_revision with_role model group decode decode_0
              (codes "v2")
              hash
            ≡ ok s')
        × Writes with_role model group decode decode_0 s'
            (record role { revision = codes "v2"; role_template_hash = hash }))
update_role_revision_lem_example =
    update_role_revision_lem with_role model group decode decode_0 (codes "v2") hash

add_role_lem_example :
    Writes with_role model group decode decode_0
      (add_role with_role model group decode decode_0 (codes "v2") hash)
      (get_or
        (find_role with_role model group decode decode_0)
        (fresh_role decode_0 (codes "v2") hash))
add_role_lem_example = add_role_lem with_role model group decode decode_0 (codes "v2") hash

find_role-add_running_pod_example :
    (find_role
        (add_running_pod_to_serving_group with_role model group
          (codes "pod")
          v1
          hash
          decode
          decode_0)
        model
        group
        decode
        decode_0
      ≡ find_role
          (add_role with_role model group decode decode_0 v1 hash)
          model
          group
          decode
          decode_0)
    × (find_role
          (add_serving_group_and_role with_role model group v1 hash decode decode_0)
          model
          group
          decode
          decode_0
        ≡ find_role
            (add_role with_role model group decode decode_0 v1 hash)
            model
            group
            decode
            decode_0)
find_role-add_running_pod_example =
    find_role-add_running_pod with_role model group decode decode_0 (codes "pod") v1 hash model
      group decode decode_0

delete_role_lem_example :
    find_role (delete_role with_role model group decode decode_0) model group decode decode_0 ≡ (
      if same_role model model group group decode decode decode_0 decode_0
      then none
      else find_role with_role model group decode decode_0)
delete_role_lem_example =
    delete_role_lem with_role model group decode decode_0 model group decode decode_0

ordinal-generate_example :
    get_parent_name_and_ordinal (generate_serving_group_name (codes "llm") 12)
    ≡ (codes "llm", pos 12)
ordinal-generate_example =
    ordinal-generate (codes "llm") 12 (refl, (refl, (refl, tt))) (omega arith)

abbrev stored : Store
stored = foldl apply new ops

listing_lem_example :
    ((lookup model stored.serving_group ≡ none)
      × (get_serving_group_by_model_serving insertion_sort stored model
          ≡ err serving_group_not_found))
    ⊎ ((l : List ServingGroup) × (get_serving_group_by_model_serving insertion_sort stored model
          ≡ ok l)
        × Pairwise (λ a b. ordinal a.name ≤ℤ ordinal b.name) l
        × ((g : ServingGroup) → Mem g l ↔ (find_group stored model g.name ≡ some g)))
listing_lem_example = listing_lem insertion_sort stored model (run-IsValid ops)
