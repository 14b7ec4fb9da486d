-- ===== src/Privilege.antt =====
-- ea/discovery/privilege_manager: the users and their rights, in memory and in RocksDB. A user is a
-- value of the map: the mutex is held where the map is written.
use ea.Common.{
  ℕ, String, Bool, true, false, not, ◌+◌, ◌&&◌, ◌++◌, nat_eq, Option, none, some, List, [], ◌∷◌,
  ◌==◌, bytes, if◌then◌else◌, is_some, get_or,
}
use ea.Common.Bytes.{Bytes, bytes_eq}
use ea.Common.Eq.{pair_eq}
use ea.Common.Maps.{Map, find, has, assign, erase, empty}
use ea.Api.{
  ErrCode, OpType, ManagerRequest, ManagerResponse, UserPrivilege, PrivilegeZone, PrivilegeServlet,
  op_create_user, op_drop_user, op_add_privilege, op_drop_privilege,
}
use ea.Api.Absent.{no_user_privilege}
use ea.Base.{BaseStateMachine, Done, Routed, if_done_set_response, error_set_response, process}
use ea.Rocks.{Rocks, Codec, put_discovery_info, remove_discovery_info}
use ea.Rights.{for_each, insert_right, delete_right, zone_right, servlet_right}
use ea.Schema.{SchemaIds, check_and_get_for_privilege}
pub mod Manager
pub mod Durable
mod Ips
mod Outcomes
pub mod Recovery
mod Requests
mod Tests
mod Users

-- insert_zone_privilege and the like work on the user's lists in place: here they return the list.
unfoldable pub insert_zone_privilege : PrivilegeZone → List PrivilegeZone → List PrivilegeZone
insert_zone_privilege privilege_zone mem = insert_right zone_right privilege_zone mem

unfoldable pub insert_servlet_privilege :
    PrivilegeServlet → List PrivilegeServlet → List PrivilegeServlet
insert_servlet_privilege privilege_servlet mem = insert_right servlet_right privilege_servlet mem

unfoldable pub delete_zone_privilege : PrivilegeZone → List PrivilegeZone → List PrivilegeZone
delete_zone_privilege privilege_zone mem = delete_right zone_right privilege_zone mem

unfoldable pub delete_servlet_privilege :
    PrivilegeServlet → List PrivilegeServlet → List PrivilegeServlet
delete_servlet_privilege privilege_servlet mem = delete_right servlet_right privilege_servlet mem

-- the loop that sets `whether_exist`
unfoldable pub has_ip : Bytes → List Bytes → Bool
has_ip ip [] = false
has_ip ip (mem_ip ∷ l) = let rest = has_ip ip l in if mem_ip == ip then true else rest

unfoldable pub insert_ip : Bytes → List Bytes → List Bytes
unfolding has_ip
insert_ip ip mem = if has_ip ip mem then mem else mem ++ (ip ∷ [])

unfoldable pub delete_ip : Bytes → List Bytes → List Bytes
delete_ip ip [] = []
delete_ip ip (copy_ip ∷ l) =
    let rest = delete_ip ip l in if not (copy_ip == ip) then copy_ip ∷ rest else rest

-- set_need_auth_addr and the like, where the request has the field
unfoldable pub set_if_has {ℓ} : {A : Type ℓ} → Option A → Option A → Option A
set_if_has none mem = mem
set_if_has (some a) mem = some a

-- clear_resource_tag, where both have the field with the same value
unfoldable pub clear_if_same : Option Bytes → Option Bytes → Option Bytes
clear_if_same (some tag) (some mem) = if tag == mem then none else some mem
clear_if_same (some tag) none = none
clear_if_same none mem = mem

-- What add_privilege makes of the user in memory.
unfoldable pub add_rights : UserPrivilege → UserPrivilege → UserPrivilege
unfolding for_each set_if_has insert_zone_privilege insert_servlet_privilege insert_ip
add_rights user_privilege mem = record mem {
  privilege_zone = for_each insert_zone_privilege user_privilege.privilege_zone mem.privilege_zone;
  privilege_servlet =
      for_each insert_servlet_privilege user_privilege.privilege_servlet mem.privilege_servlet;
  ip = for_each insert_ip user_privilege.ip mem.ip;
  need_auth_addr = set_if_has user_privilege.need_auth_addr mem.need_auth_addr;
  resource_tag = set_if_has user_privilege.resource_tag mem.resource_tag;
  version = mem.version + 1;
}

-- What drop_privilege makes of the user in memory.
unfoldable pub drop_rights : UserPrivilege → UserPrivilege → UserPrivilege
unfolding for_each set_if_has clear_if_same delete_zone_privilege delete_servlet_privilege delete_ip
drop_rights user_privilege mem = record mem {
  privilege_zone = for_each delete_zone_privilege user_privilege.privilege_zone mem.privilege_zone;
  privilege_servlet =
      for_each delete_servlet_privilege user_privilege.privilege_servlet mem.privilege_servlet;
  ip = for_each delete_ip user_privilege.ip mem.ip;
  need_auth_addr = set_if_has user_privilege.need_auth_addr mem.need_auth_addr;
  resource_tag = clear_if_same user_privilege.resource_tag mem.resource_tag;
  version = mem.version + 1;
}

-- PRIVILEGE_IDENTIFY + username
unfoldable pub construct_privilege_key : Bytes → Bytes
construct_privilege_key username = 2 ∷ username

-- request.user_privilege()
unfoldable pub user_of : ManagerRequest → UserPrivilege
user_of request = get_or request.user_privilege no_user_privilege

-- process_user_privilege up to its calls of DiscoveryStateMachine::process
unfoldable pub process_error : ManagerRequest → Option String
unfolding user_of
process_error request =
    if not (is_some request.user_privilege)
    then some "no user_privilege"
    else elim request.op_type [
      | op_create_user ↦
          if not (is_some (user_of request).password) then some "no password" else none
      | op_drop_user ↦ none
      | op_add_privilege ↦ none
      | op_drop_privilege ↦ none
      | _ ↦ some "invalid op_type"
    ]

unfoldable pub process_user_privilege :
    BaseStateMachine → Bytes → (ManagerRequest → Bool) → Bool → ManagerRequest → Done → Routed
unfolding process_error process error_set_response
process_user_privilege m leader serializes cntl request response = elim (process_error request) [
  | some msg ↦
      Routed.answered (error_set_response response ErrCode.input_param_error msg request.op_type)
  | none ↦ process m leader serializes cntl request response
]
