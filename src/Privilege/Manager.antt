-- ===== src/Privilege/Manager.antt =====
-- PrivilegeManager: the operations that the discovery state machine applies, and the snapshot load.
use ea.Common.{not, Option, none, some, List, [], ◌∷◌, if◌then◌else◌}
use ea.Common.Bytes.{Bytes, bytes_eq}
use ea.Common.Maps.{Map, find, has, assign, erase, empty}
use ea.Api.{
  ErrCode, OpType, ManagerRequest, UserPrivilege, op_create_user, op_drop_user, op_add_privilege,
  op_drop_privilege,
}
use ea.Base.{Done, if_done_set_response}
use ea.Rocks.{Rocks, Codec, put_discovery_info, remove_discovery_info}
use ea.Schema.{SchemaIds, check_and_get_for_privilege}
use ea.Privilege.{add_rights, drop_rights, construct_privilege_key, user_of}

module _ (rocks : Rocks) (codec : Codec UserPrivilege) (ids : SchemaIds) where
  pub record PrivilegeManager : Type 0 where
    pub user_privilege : Map Bytes UserPrivilege
    pub db : rocks.Db

  -- The end of the operations that write a user: the database first, then the map.
  unfoldable pub write_user :
      PrivilegeManager → Bytes → UserPrivilege → Done → PrivilegeManager × Done
  unfolding construct_privilege_key put_discovery_info if_done_set_response
  write_user s username u d = elim (codec.serialize u) [
    | none ↦ (s, if_done_set_response d ErrCode.parse_to_pb_fail "serializeToArray fail")
    | some value ↦ elim (put_discovery_info rocks s.db (construct_privilege_key username) value) [
      | none ↦ (s, if_done_set_response d ErrCode.internal_error "write db fail")
      | some db ↦ (
        record { user_privilege = assign s.user_privilege username u; db = db },
        if_done_set_response d ErrCode.success "success",
      )
    ]
  ]

  unfoldable pub create_user : PrivilegeManager → ManagerRequest → Done → PrivilegeManager × Done
  unfolding user_of write_user if_done_set_response check_and_get_for_privilege
  create_user s request d =
      let username = (user_of request).username in
      if has s.user_privilege username
      then (s, if_done_set_response d ErrCode.input_param_error "username has been repeated")
      else elim (check_and_get_for_privilege ids (user_of request)) [
        | none ↦ (s, if_done_set_response d ErrCode.input_param_error "request invalid")
        | some u ↦ write_user s username (record u { version = 1 }) d
      ]

  unfoldable pub drop_user : PrivilegeManager → ManagerRequest → Done → PrivilegeManager × Done
  unfolding user_of construct_privilege_key remove_discovery_info if_done_set_response
  drop_user s request d =
      let username = (user_of request).username in
      if not (has s.user_privilege username)
      then (s, if_done_set_response d ErrCode.input_param_error "username not exist")
      else elim (remove_discovery_info rocks s.db (construct_privilege_key username ∷ [])) [
        | none ↦ (s, if_done_set_response d ErrCode.internal_error "delete from db fail")
        | some db ↦ (
          record { user_privilege = erase s.user_privilege username; db = db },
          if_done_set_response d ErrCode.success "success",
        )
      ]

  -- add_privilege and drop_privilege, which differ in what they make of the user in memory
  unfoldable pub change_user :
      (UserPrivilege → UserPrivilege → UserPrivilege)
      → PrivilegeManager
      → ManagerRequest
      → Done
      → PrivilegeManager × Done
  unfolding user_of write_user if_done_set_response check_and_get_for_privilege
  change_user change s request d =
      let username = (user_of request).username in
      elim (find s.user_privilege username) [
        | none ↦ (s, if_done_set_response d ErrCode.input_param_error "username not exist")
        | some mem ↦ elim (check_and_get_for_privilege ids (user_of request)) [
          | none ↦ (s, if_done_set_response d ErrCode.input_param_error "request invalid")
          | some u ↦ write_user s username (change u mem) d
        ]
      ]

  unfoldable pub add_privilege : PrivilegeManager → ManagerRequest → Done → PrivilegeManager × Done
  unfolding change_user add_rights
  add_privilege s request d = change_user add_rights s request d

  unfoldable pub drop_privilege : PrivilegeManager → ManagerRequest → Done → PrivilegeManager × Done
  unfolding change_user drop_rights
  drop_privilege s request d = change_user drop_rights s request d

  -- DiscoveryStateMachine::on_apply, for the operations on users
  unfoldable pub apply_user_privilege :
      OpType → PrivilegeManager → ManagerRequest → Done → PrivilegeManager × Done
  apply_user_privilege op_create_user s request d = create_user s request d
  apply_user_privilege op_drop_user s request d = drop_user s request d
  apply_user_privilege op_add_privilege s request d = add_privilege s request d
  apply_user_privilege op_drop_privilege s request d = drop_privilege s request d
  apply_user_privilege _ s request d = (s, d)

  -- the loop of load_snapshot: none where a value does not parse, and -1 is returned
  unfoldable pub load_users :
      Map Bytes UserPrivilege → List (Bytes × Bytes) → Option (Map Bytes UserPrivilege)
  load_users users [] = some users
  load_users users (([], value) ∷ l) = none
  load_users users ((p ∷ username, value) ∷ l) = elim (codec.parse value) [
    | none ↦ none
    | some u ↦ load_users (assign users username u) l
  ]

  unfoldable pub load_snapshot : rocks.Db → Option (Map Bytes UserPrivilege)
  unfolding load_users
  load_snapshot db = load_users empty (rocks.scan db 2)
