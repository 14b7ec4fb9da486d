-- ===== src/Query/Privileges/Tests.antt =====
-- Flattened rights at concrete inputs.
use ea.Common.{true, false, ◌≡◌, refl, some, [], ◌∷◌, ◌++◌, bytes}
use mathlib.Core.List.{Perm}
use ea.Common.Bytes.{Bytes}
use ea.Common.Maps.{Map, find}
use ea.Api.{UserPrivilege}
use ea.Api.Absent.{no_user_privilege}
use ea.Query.{QueryRequest, QueryUserPrivilege, no_query}
use ea.Query.Privileges.{get_flatten_servlet_privilege}
use ea.Query.Privileges.Held.{namespace_rights, user_rights, all_rights, flatten_privileges_lem}

abbrev user_of : Bytes → UserPrivilege
user_of name = record no_user_privilege {
  username = name;
  namespace_name = bytes "n";
  privilege_zone =
      record { zone = bytes "z"; zone_id = 5; has_zone_rw = true; zone_rw = 2; force = false } ∷ [];
}

abbrev users : Map Bytes UserPrivilege
users = record {
  entries = (bytes "v", user_of (bytes "v")) ∷ (bytes "u", user_of (bytes "u")) ∷ [];
}

abbrev asks_both : QueryRequest
asks_both = record no_query { namespace_name = some (bytes "n"); user_name = some (bytes "u") }

abbrev held : Bytes → QueryUserPrivilege
held name = record {
  username = name;
  namespace_name = bytes "n";
  servlet_rw = 2;
  privilege = bytes "z.*";
}

-- A user of the namespace who is named too has the right twice in the answer.
twice :
    get_flatten_servlet_privilege users (λ s. s) asks_both
    ≡ held (bytes "u") ∷ held (bytes "u") ∷ held (bytes "v") ∷ []
unfolding get_flatten_servlet_privilege find
twice = refl

flatten_privileges_lem_example : Perm (get_flatten_servlet_privilege users (λ s. s) asks_both) (
    namespace_rights users (bytes "n")
    ++ user_rights users (bytes "u")
    ++ all_rights users (bytes "u") (bytes "n"))
flatten_privileges_lem_example = flatten_privileges_lem users (λ s. s) asks_both
