-- ===== src/GroupStore/Reads.antt =====
-- What is read from the store after a write: pkg/model-serving-controller/datastore/store.go.
use kthena.Common.{
  Option, none, some, [], Text, text_eq, ◌==◌, ◌≡◌, ◌&&◌, inl, inr, arith, ==-iff, Option-cases,
  if◌then◌else◌,
}
use kthena.Common.Dict.{Dict, lookup, insert, delete, lookup-insert, lookup-delete}
use kthena.GroupStore.{
  NamespacedName, name_eq, Role, ServingGroup, Store, get_or, find_group, find_in_roles, put_group,
  put_role,
}

-- The groups of a ModelServing, none being the same as no entry.
abbrev pub groups_of : Store → NamespacedName → Dict Text ServingGroup
groups_of s m = get_or (lookup m s.serving_group) []

abbrev pub ids_of : Dict Text (Dict Text Role) → Text → Dict Text Role
ids_of roles name = get_or (lookup name roles) []

pub find-groups_of :
    (s : Store) (m : NamespacedName) (g : Text) → find_group s m g ≡ lookup g (groups_of s m)
unfolding find_group lookup
find-groups_of s m g = elim (Option-cases (lookup m s.serving_group)) [
  | inl e ↦ rw (e, find_group)
  | inr (groups, e) ↦ rw (e, find_group)
]

pub find-ids_of :
    (roles : Dict Text (Dict Text Role)) (r i : Text)
    → find_in_roles roles r i ≡ lookup i (ids_of roles r)
unfolding find_in_roles lookup
find-ids_of roles r i = elim (Option-cases (lookup r roles)) [
  | inl e ↦ rw (e, find_in_roles)
  | inr (ids, e) ↦ rw (e, find_in_roles)
]

-- A group that is written is the only group that a later read sees changed.
pub find-put_group :
    (s : Store) (m m' : NamespacedName) (g g' : Text) (group : ServingGroup)
    → find_group (put_group s m (groups_of s m) g group) m' g'
      ≡ (if m == m' && g == g' then some group else find_group s m' g')
unfolding put_group
find-put_group s m m' g g' group = ground (
  arith,
  find-groups_of s m' g',
  find-groups_of (put_group s m (groups_of s m) g group) m' g',
  lookup-insert m m' (insert g group (groups_of s m)) s.serving_group,
  lookup-insert g g' group (groups_of s m),
  ==-iff m m',
)

pub find-insert :
    (roles : Dict Text (Dict Text Role)) (r r' i i' : Text) (role : Role)
    → find_in_roles (insert r (insert i role (ids_of roles r)) roles) r' i'
      ≡ (if r == r' && i == i' then some role else find_in_roles roles r' i')
find-insert roles r r' i i' role = ground (
  arith,
  find-ids_of roles r' i',
  find-ids_of (insert r (insert i role (ids_of roles r)) roles) r' i',
  lookup-insert r r' (insert i role (ids_of roles r)) roles,
  lookup-insert i i' role (ids_of roles r),
  ==-iff r r',
)

pub find-delete :
    (roles : Dict Text (Dict Text Role)) (r r' i i' : Text)
    → find_in_roles (insert r (delete i (ids_of roles r)) roles) r' i'
      ≡ (if r == r' && i == i' then none else find_in_roles roles r' i')
find-delete roles r r' i i' = ground (
  arith,
  find-ids_of roles r' i',
  find-ids_of (insert r (delete i (ids_of roles r)) roles) r' i',
  lookup-insert r r' (delete i (ids_of roles r)) roles,
  lookup-delete i i' (ids_of roles r),
  ==-iff r r',
)

-- The roles of a group, none being the same as no group.
abbrev pub roles_of : Option ServingGroup → Dict Text (Dict Text Role)
roles_of (some group) = group.roles
roles_of none = []

-- `s.servingGroup[m][g].roles[r][i]`
unfoldable pub find_role : Store → NamespacedName → Text → Text → Text → Option Role
find_role s m g r i = find_in_roles (roles_of (find_group s m g)) r i

pub find_role-put :
    (s : Store) (m m' : NamespacedName) (g g' r r' i i' : Text) (group : ServingGroup) (role : Role)
    → group.roles ≡ roles_of (find_group s m g)
    → find_role
        (put_group s m (groups_of s m) g (put_role group r (ids_of group.roles r) i role))
        m'
        g'
        r'
        i'
      ≡ (if (m == m' && g == g') && (r == r' && i == i')
          then some role
          else find_role s m' g' r' i')
unfolding find_role put_role
find_role-put s m m' g g' r r' i i' group role h = ground (
  arith,
  find-put_group s m m' g g' (put_role group r (ids_of group.roles r) i role),
  find-insert group.roles r r' i i' role,
  ==-iff m m',
  ==-iff g g',
)

pub find_role-delete :
    (s : Store) (m m' : NamespacedName) (g g' r r' i i' : Text) (group : ServingGroup)
    → group.roles ≡ roles_of (find_group s m g)
    → find_role
        (put_group s m
          (groups_of s m)
          g
          (record group { roles = insert r (delete i (ids_of group.roles r)) group.roles }))
        m'
        g'
        r'
        i'
      ≡ (if (m == m' && g == g') && (r == r' && i == i') then none else find_role s m' g' r' i')
unfolding find_role
find_role-delete s m m' g g' r r' i i' group h = ground (
  arith,
  find-put_group s m m' g g'
      (record group { roles = insert r (delete i (ids_of group.roles r)) group.roles }),
  find-delete group.roles r r' i i',
  ==-iff m m',
  ==-iff g g',
)

-- An entry that is not there is not there to be removed.
pub find_role_absent :
    (s : Store) (m m' : NamespacedName) (g g' r r' i i' : Text)
    → find_role s m g r i ≡ none
    → find_role s m' g' r' i'
      ≡ (if (m == m' && g == g') && (r == r' && i == i') then none else find_role s m' g' r' i')
find_role_absent s m m' g g' r r' i i' h =
    ground (arith, ==-iff m m', ==-iff g g', ==-iff r r', ==-iff i i')
