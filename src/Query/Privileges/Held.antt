-- ===== src/Query/Privileges/Held.antt =====
-- QueryPrivilegeManager: the flattened rights that a query is answered with.
use ea.Common.{
  inl, inr, sym, Bool, true, ◌&&◌, List, [], ◌∷◌, ◌++◌, map, ◌==◌, if◌then◌else◌, Bool-cases,
  Option-cases, none, some,
}
use mathlib.Core.List.{Perm, perm_middle, append_assoc, append-nil}
use mathlib.Core.List.Perm
use ea.Common.Bytes.{Bytes, bytes_eq}
use ea.Common.Maps.{Map, find}
use ea.Common.Sets.{is_empty}
use ea.Api.{UserPrivilege, PrivilegeZone, PrivilegeServlet}
use ea.Api.Absent.{text_of}
use ea.Query.{QueryRequest, QueryUserPrivilege}
use ea.Query.Privileges.{
  UserMap, NamespaceMap, bytes_less, multimap_insert, add_flatten, zone_privilege,
  servlet_privilege, flatten_zones, flatten_servlets,
  construct_query_response_for_servlet_privilege, flatten_users, flatten_users_of, users_in,
  namespaces_in, flatten_all, flatten_user, flatten_namespace, get_flatten_servlet_privilege,
}

multimap_insert-Perm :
    (k : Bytes) (v : QueryUserPrivilege) (l : UserMap)
    → Perm (users_in (multimap_insert k v l)) (v ∷ users_in l)
unfolding multimap_insert users_in
multimap_insert-Perm k v [] = Perm.refl (v ∷ [])
multimap_insert-Perm k v ((j, w) ∷ l) = elim (Bool-cases (bytes_less k j)) [
  | inl e ↦ rw e (Perm.refl (v ∷ w ∷ users_in l))
  | inr e ↦
      rw e (Perm.trans (Perm.cons w (multimap_insert-Perm k v l)) (Perm.swap v w (users_in l)))
]

move_front :
    (v : QueryUserPrivilege) (l r m : List QueryUserPrivilege)
    → Perm m (v ∷ r)
    → Perm (l ++ m) (v ∷ (l ++ r))
move_front v l r m h = Perm.trans (Perm.append_left l h) (perm_middle l r)

add_flatten-Perm :
    (ns user : Bytes) (v : QueryUserPrivilege) (m : NamespaceMap)
    → Perm (namespaces_in (add_flatten ns user v m)) (v ∷ namespaces_in m)
unfolding add_flatten namespaces_in multimap_insert users_in
add_flatten-Perm ns user v [] = Perm.refl (v ∷ [])
add_flatten-Perm ns user v ((n, users) ∷ l) = elim (Bool-cases (n == ns)) [
  | inl e ↦ rw e (Perm.append_right (namespaces_in l) (multimap_insert-Perm user v users))
  | inr e ↦ elim (Bool-cases (bytes_less ns n)) [
    | inl f ↦ rw (e, f) (Perm.refl (v ∷ (users_in users ++ namespaces_in l)))
    | inr f ↦
        rw (e, f)
          (move_front v (users_in users) (namespaces_in l) (namespaces_in (add_flatten ns user v l))
            (add_flatten-Perm ns user v l))
  ]
]

-- A step that adds one entry in front of what others add.
add_step :
    (v : QueryUserPrivilege) (l r m m' : List QueryUserPrivilege)
    → Perm m (l ++ m')
    → Perm m' (v ∷ r)
    → Perm m (v ∷ (l ++ r))
add_step v l r m m' h k = Perm.trans h (move_front v l r m' k)

flatten_zones-Perm :
    (u : UserPrivilege) (l : List PrivilegeZone) (m : NamespaceMap)
    → Perm (namespaces_in (flatten_zones u l m)) (map (zone_privilege u) l ++ namespaces_in m)
unfolding flatten_zones
flatten_zones-Perm u [] m = Perm.refl (namespaces_in m)
flatten_zones-Perm u (z ∷ l) m =
    let added = add_flatten u.namespace_name u.username (zone_privilege u z) m in
    add_step (zone_privilege u z) (map (zone_privilege u) l) (namespaces_in m)
      (namespaces_in (flatten_zones u l added)) (namespaces_in added) (flatten_zones-Perm u l added)
      (add_flatten-Perm u.namespace_name u.username (zone_privilege u z) m)

flatten_servlets-Perm :
    (u : UserPrivilege) (l : List PrivilegeServlet) (m : NamespaceMap)
    → Perm (namespaces_in (flatten_servlets u l m)) (map (servlet_privilege u) l ++ namespaces_in m)
unfolding flatten_servlets
flatten_servlets-Perm u [] m = Perm.refl (namespaces_in m)
flatten_servlets-Perm u (s ∷ l) m =
    let added = add_flatten u.namespace_name u.username (servlet_privilege u s) m in
    add_step (servlet_privilege u s) (map (servlet_privilege u) l) (namespaces_in m)
      (namespaces_in (flatten_servlets u l added)) (namespaces_in added)
      (flatten_servlets-Perm u l added)
      (add_flatten-Perm u.namespace_name u.username (servlet_privilege u s) m)

-- The rights of a user.
abbrev pub rights_of : UserPrivilege → List QueryUserPrivilege
rights_of u =
    map (servlet_privilege u) u.privilege_servlet ++ map (zone_privilege u) u.privilege_zone

-- The rights of the users that are asked for.
abbrev pub rights_where :
    (UserPrivilege → Bool) → List (Bytes × UserPrivilege) → List QueryUserPrivilege
rights_where asked [] = []
rights_where asked ((k, u) ∷ l) =
    if asked u then rights_where asked l ++ rights_of u else rights_where asked l

user-Perm :
    (u : UserPrivilege) (m : NamespaceMap)
    → Perm
        (namespaces_in (construct_query_response_for_servlet_privilege u m))
        (rights_of u ++ namespaces_in m)
unfolding construct_query_response_for_servlet_privilege
user-Perm u m =
    let servlets = map (servlet_privilege u) u.privilege_servlet in
    let zones = map (zone_privilege u) u.privilege_zone in
    let with_zones = flatten_zones u u.privilege_zone m in
    rw (append_assoc servlets zones (namespaces_in m)) (
      Perm.trans (flatten_servlets-Perm u u.privilege_servlet with_zones)
        (Perm.append_left servlets (flatten_zones-Perm u u.privilege_zone m)))

-- Two steps that add, one after the other.
add_both :
    (l r n m m' : List QueryUserPrivilege)
    → Perm m (l ++ m')
    → Perm m' (r ++ n)
    → Perm m ((l ++ r) ++ n)
add_both l r n m m' h k = rw (append_assoc l r n) (Perm.trans h (Perm.append_left l k))

flatten_users-Perm :
    (l : List (Bytes × UserPrivilege)) (m : NamespaceMap)
    → Perm (namespaces_in (flatten_users l m)) (rights_where (λ u. true) l ++ namespaces_in m)
unfolding flatten_users
flatten_users-Perm [] m = Perm.refl (namespaces_in m)
flatten_users-Perm ((k, u) ∷ l) m =
    let next = construct_query_response_for_servlet_privilege u m in
    add_both (rights_where (λ u. true) l) (rights_of u) (namespaces_in m)
      (namespaces_in (flatten_users l next)) (namespaces_in next) (flatten_users-Perm l next)
      (user-Perm u m)

flatten_users_of-Perm :
    (ns : Bytes) (l : List (Bytes × UserPrivilege)) (m : NamespaceMap)
    → Perm
        (namespaces_in (flatten_users_of ns l m))
        (rights_where (λ u. u.namespace_name == ns) l ++ namespaces_in m)
unfolding flatten_users_of
flatten_users_of-Perm ns [] m = Perm.refl (namespaces_in m)
flatten_users_of-Perm ns ((k, u) ∷ l) m = elim (Bool-cases (u.namespace_name == ns)) [
  | inl e ↦
      let next = construct_query_response_for_servlet_privilege u m in
      rw e (
        add_both (rights_where (λ u. u.namespace_name == ns) l) (rights_of u) (namespaces_in m)
          (namespaces_in (flatten_users_of ns l next)) (namespaces_in next)
          (flatten_users_of-Perm ns l next) (user-Perm u m))
  | inr e ↦ rw e (flatten_users_of-Perm ns l m)
]

module _ (users : Map Bytes UserPrivilege) where
  abbrev pub all_rights : Bytes → Bytes → List QueryUserPrivilege
  all_rights user_name namespace_name =
      if is_empty user_name && is_empty namespace_name
      then rights_where (λ u. true) users.entries
      else []

  abbrev pub user_rights : Bytes → List QueryUserPrivilege
  user_rights user_name =
      if is_empty user_name
      then []
      else elim (find users user_name) [ none ↦ [] | some u ↦ rights_of u ]

  abbrev pub namespace_rights : Bytes → List QueryUserPrivilege
  namespace_rights namespace_name =
      if is_empty namespace_name
      then []
      else rights_where (λ u. u.namespace_name == namespace_name) users.entries

  flatten_all-Perm :
      (user ns : Bytes) (m : NamespaceMap)
      → Perm (namespaces_in (flatten_all users user ns m)) (all_rights user ns ++ namespaces_in m)
  unfolding flatten_all
  flatten_all-Perm user ns m = elim (Bool-cases (is_empty user && is_empty ns)) [
    | inl e ↦ rw e (flatten_users-Perm users.entries m)
    | inr e ↦ rw e (Perm.refl (namespaces_in m))
  ]

  flatten_user-Perm :
      (user : Bytes) (m : NamespaceMap)
      → Perm (namespaces_in (flatten_user users user m)) (user_rights user ++ namespaces_in m)
  unfolding flatten_user
  flatten_user-Perm user m = elim (Bool-cases (is_empty user)) [
    | inl e ↦ rw (flatten_user, e) (Perm.refl (namespaces_in m))
    | inr e ↦ elim (Option-cases (find users user)) [
      | inl f ↦ rw (flatten_user, e, f) (Perm.refl (namespaces_in m))
      | inr (u, f) ↦ rw (flatten_user, e, f) (user-Perm u m)
    ]
  ]

  flatten_namespace-Perm :
      (ns : Bytes) (m : NamespaceMap)
      → Perm (namespaces_in (flatten_namespace users ns m)) (namespace_rights ns ++ namespaces_in m)
  unfolding flatten_namespace
  flatten_namespace-Perm ns m = elim (Bool-cases (is_empty ns)) [
    | inl e ↦ rw e (Perm.refl (namespaces_in m))
    | inr e ↦ rw e (flatten_users_of-Perm ns users.entries m)
  ]

  -- A flattened query is answered with these rights and no others, each as often as it is held: those of the
  -- users of the namespace, where one is named, then those of the user, where one is named, or those of all
  -- users, where neither is named.
  pub flatten_privileges_lem :
      (trim : Bytes → Bytes) (q : QueryRequest)
      → Perm (get_flatten_servlet_privilege users trim q) (
          namespace_rights (trim (text_of q.namespace_name))
          ++ user_rights (trim (text_of q.user_name))
          ++ all_rights (trim (text_of q.user_name)) (trim (text_of q.namespace_name)))
  unfolding get_flatten_servlet_privilege namespaces_in
  flatten_privileges_lem trim q =
      let user = trim (text_of q.user_name) in
      let ns = trim (text_of q.namespace_name) in
      let all = flatten_all users user ns [] in
      let with_user = flatten_user users user all in
      add_both (namespace_rights ns) (user_rights user) (all_rights user ns)
        (namespaces_in (flatten_namespace users ns with_user)) (namespaces_in with_user)
        (flatten_namespace-Perm ns with_user)
        (Perm.trans (flatten_user-Perm user all) (
          Perm.append_left (user_rights user)
            (rw (sym (append-nil (all_rights user ns))) (flatten_all-Perm user ns []))))
