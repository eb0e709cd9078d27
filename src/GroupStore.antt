-- ===== src/GroupStore.antt =====
-- pkg/model-serving-controller/datastore/store.go: the state of the ServingGroup store, and the
-- reads and writes that its methods are made of. The mutex is left out: each method holds it from
-- its first access to its last, so a run is a sequence of whole methods.
pub mod Tests
pub mod Ordinal
pub mod Ops
pub mod Reads
pub mod Roles
pub mod Valid
pub mod GroupSteps
pub mod Steps
pub mod Listing
pub mod Sorting
use kthena.Common.{
  ℕ, Option, none, some, Bool, true, false, List, Text, text_eq, Eq, ◌==◌, ==-iff, ◌≡◌, ◌↔◌, ◌&&◌,
  arith, if◌then◌else◌,
}
use kthena.Common.Dict.{Dict, lookup, insert, delete}

-- types.NamespacedName
pub record NamespacedName : Type 0 where
  pub namespace : Text
  pub name : Text

abbrev pub name_beq : NamespacedName → NamespacedName → Bool
name_beq a b = a.namespace == b.namespace && a.name == b.name

pub name_beq_iff : (a b : NamespacedName) → (name_beq a b ≡ true) ↔ (a ≡ b)
name_beq_iff a b = ground (arith, ==-iff a.namespace b.namespace, ==-iff a.name b.name)

instance abbrev pub name_eq : Eq NamespacedName
name_eq = record { same = name_beq; same_iff = name_beq_iff }

pub data ServingGroupStatus : Type 0 where
  running creating deleting scaling not_found : ServingGroupStatus

pub data RoleStatus : Type 0 where
  creating running deleting not_found : RoleStatus

pub record Role : Type 0 where
  pub name : Text
  pub revision : Text
  pub role_template_hash : Text
  pub status : RoleStatus

pub record ServingGroup : Type 0 where
  pub name : Text
  pub running_pods : Dict Text (Unit {0})
  pub revision : Text
  pub status : ServingGroupStatus
  pub roles : Dict Text (Dict Text Role)

-- modelServing -> group name -> ServingGroup
pub record Store : Type 0 where
  pub serving_group : Dict NamespacedName (Dict Text ServingGroup)

-- The errors, each without the names that its message quotes.
pub data Error : Type 0 where
  model_serving_not_found serving_group_not_found role_name_not_found role_not_found : Error

pub data Result {ℓ} (A : Type ℓ) : Type ℓ where
  ok : A → Result A
  err : Error → Result A

infixl 5 ◌>>=◌
abbrev pub ◌>>=◌ {ℓ κ} : {A : Type ℓ} {B : Type κ} → Result A → (A → Result B) → Result B
ok a >>= f = f a
err e >>= f = err e

abbrev pub is_err {ℓ} : {A : Type ℓ} → Result A → Bool
is_err (ok a) = false
is_err (err e) = true

abbrev pub or_err {ℓ} : {A : Type ℓ} → Option A → Error → Result A
or_err (some a) e = ok a
or_err none e = err e

-- The value that is read, or a default.
abbrev pub get_or {ℓ} : {A : Type ℓ} → Option A → A → A
get_or (some a) d = a
get_or none d = d

unfoldable pub new : Store
new = record { serving_group = List.[] }

-- `s.servingGroup[m][g]`
unfoldable pub find_group : Store → NamespacedName → Text → Option ServingGroup
find_group s m g = elim (lookup m s.serving_group) [ some groups ↦ lookup g groups | none ↦ none ]

-- `group.roles[name][id]`
unfoldable pub find_in_roles : Dict Text (Dict Text Role) → Text → Text → Option Role
find_in_roles roles name id = elim (lookup name roles) [ some ids ↦ lookup id ids | none ↦ none ]

-- A change of a ServingGroup through its pointer.
unfoldable pub put_group :
    Store → NamespacedName → Dict Text ServingGroup → Text → ServingGroup → Store
put_group s m groups g group = record s {
  serving_group = insert m (insert g group groups) s.serving_group;
}

-- A change of the entry of a role.
unfoldable pub put_role : ServingGroup → Text → Dict Text Role → Text → Role → ServingGroup
put_role group name ids id role = record group {
  roles = insert name (insert id role ids) group.roles;
}
