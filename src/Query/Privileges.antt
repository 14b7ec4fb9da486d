-- ===== src/Query/Privileges.antt =====
-- ea/discovery/query_privilege_manager.cc: get_flatten_servlet_privilege. `trim` is turbo::Trim; a std::map is a list
-- in the order of its keys.
pub mod Held
mod Tests
use ea.Common.{
  ℕ, Bool, true, false, not, ◌&&◌, ◌||◌, List, [], ◌∷◌, ◌++◌, ◌==◌, ltb, nat_eq, bytes,
  if◌then◌else◌, Option, none, some,
}
use ea.Common.Bytes.{Bytes, bytes_eq}
use ea.Common.Maps.{Map, find}
use ea.Common.Sets.{is_empty}
use ea.Api.{UserPrivilege, PrivilegeZone, PrivilegeServlet}
use ea.Api.Absent.{text_of}
use ea.Query.{QueryRequest, QueryUserPrivilege}

-- < on std::string, by unsigned bytes
unfoldable pub bytes_less : Bytes → Bytes → Bool
bytes_less [] [] = false
bytes_less [] (c ∷ t) = true
bytes_less (b ∷ s) [] = false
bytes_less (b ∷ s) (c ∷ t) = ltb b c || ((b == c) && bytes_less s t)

abbrev pub UserMap : Type 0
UserMap = List (Bytes × QueryUserPrivilege)

abbrev pub NamespaceMap : Type 0
NamespaceMap = List (Bytes × UserMap)

-- insert of a std::multimap: behind the entries of the same key
unfoldable pub multimap_insert : Bytes → QueryUserPrivilege → UserMap → UserMap
unfolding bytes_less
multimap_insert k v [] = (k, v) ∷ []
multimap_insert k v ((j, w) ∷ l) =
    let rest = multimap_insert k v l in
    if bytes_less k j then (k, v) ∷ (j, w) ∷ l else (j, w) ∷ rest

-- The end of the two loop bodies: the namespace's multimap, or a new one, with the entry put in.
unfoldable pub add_flatten : Bytes → Bytes → QueryUserPrivilege → NamespaceMap → NamespaceMap
unfolding multimap_insert bytes_less
add_flatten ns user v [] = (ns, multimap_insert user v []) ∷ []
add_flatten ns user v ((n, users) ∷ l) =
    let rest = add_flatten ns user v l in
    if n == ns
    then (n, multimap_insert user v users) ∷ l
    else if bytes_less ns n
    then (ns, multimap_insert user v []) ∷ (n, users) ∷ l
    else (n, users) ∷ rest

unfoldable pub zone_privilege : UserPrivilege → PrivilegeZone → QueryUserPrivilege
zone_privilege u z = record {
  username = u.username;
  namespace_name = u.namespace_name;
  servlet_rw = z.zone_rw;
  privilege = z.zone ++ bytes ".*";
}

unfoldable pub servlet_privilege : UserPrivilege → PrivilegeServlet → QueryUserPrivilege
servlet_privilege u s = record {
  username = u.username;
  namespace_name = u.namespace_name;
  servlet_rw = s.servlet_rw;
  privilege = s.zone ++ bytes "." ++ s.servlet_name;
}

unfoldable pub flatten_zones : UserPrivilege → List PrivilegeZone → NamespaceMap → NamespaceMap
unfolding add_flatten zone_privilege
flatten_zones u [] m = m
flatten_zones u (z ∷ l) m =
    flatten_zones u l (add_flatten u.namespace_name u.username (zone_privilege u z) m)

unfoldable pub flatten_servlets :
    UserPrivilege → List PrivilegeServlet → NamespaceMap → NamespaceMap
unfolding add_flatten servlet_privilege
flatten_servlets u [] m = m
flatten_servlets u (s ∷ l) m =
    flatten_servlets u l (add_flatten u.namespace_name u.username (servlet_privilege u s) m)

unfoldable pub construct_query_response_for_servlet_privilege :
    UserPrivilege → NamespaceMap → NamespaceMap
unfolding flatten_zones flatten_servlets
construct_query_response_for_servlet_privilege u m =
    flatten_servlets u u.privilege_servlet (flatten_zones u u.privilege_zone m)

-- for (auto &privilege_info : manager->_user_privilege)
unfoldable pub flatten_users : List (Bytes × UserPrivilege) → NamespaceMap → NamespaceMap
unfolding construct_query_response_for_servlet_privilege
flatten_users [] m = m
flatten_users ((k, u) ∷ l) m = flatten_users l (construct_query_response_for_servlet_privilege u m)

-- the same loop, with `if (... != namespace_name) continue`
unfoldable pub flatten_users_of : Bytes → List (Bytes × UserPrivilege) → NamespaceMap → NamespaceMap
unfolding construct_query_response_for_servlet_privilege
flatten_users_of ns [] m = m
flatten_users_of ns ((k, u) ∷ l) m =
    flatten_users_of ns l (
      if not (u.namespace_name == ns)
      then m
      else construct_query_response_for_servlet_privilege u m)

unfoldable pub users_in : UserMap → List QueryUserPrivilege
users_in [] = []
users_in ((k, v) ∷ l) = v ∷ users_in l

unfoldable pub namespaces_in : NamespaceMap → List QueryUserPrivilege
unfolding users_in
namespaces_in [] = []
namespaces_in ((n, users) ∷ l) = users_in users ++ namespaces_in l

module _ (users : Map Bytes UserPrivilege) where
  -- The three ifs of get_flatten_servlet_privilege.
  unfoldable pub flatten_all : Bytes → Bytes → NamespaceMap → NamespaceMap
  unfolding flatten_users
  flatten_all user_name namespace_name m =
      if is_empty user_name && is_empty namespace_name then flatten_users users.entries m else m

  unfoldable pub flatten_user : Bytes → NamespaceMap → NamespaceMap
  unfolding construct_query_response_for_servlet_privilege
  flatten_user user_name m =
      if not (is_empty user_name)
      then elim (find users user_name) [
        | none ↦ m
        | some u ↦ construct_query_response_for_servlet_privilege u m
      ]
      else m

  unfoldable pub flatten_namespace : Bytes → NamespaceMap → NamespaceMap
  unfolding flatten_users_of
  flatten_namespace namespace_name m =
      if not (is_empty namespace_name) then flatten_users_of namespace_name users.entries m else m

  -- What is added to flatten_privileges.
  unfoldable pub get_flatten_servlet_privilege :
      (Bytes → Bytes) → QueryRequest → List QueryUserPrivilege
  unfolding flatten_all flatten_user flatten_namespace namespaces_in
  get_flatten_servlet_privilege trim q =
      let user_name = trim (text_of q.user_name) in
      let namespace_name = trim (text_of q.namespace_name) in
      namespaces_in (
        flatten_namespace namespace_name
          (flatten_user user_name (flatten_all user_name namespace_name [])))
